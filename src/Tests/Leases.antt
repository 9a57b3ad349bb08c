-- ===== src/Tests/Leases.antt =====
-- The theorems on leases at concrete inputs: one node takes a match over from another, a dead letter is
-- requeued, and the stored state is written and removed.
use the_arena_of.Prelude.{ℕ, ◌≤◌, ◌<◌, ◌≡◌, refl, true, false, none, some, arith, inl, inr}
use the_arena_of.Text.{Str, lit, decimal, decimal_from}
use the_arena_of.Text.Decimals.{digits_value}
use the_arena_of.Lease.Keys.{
  fence_key, owner_key, tombstone_key, state_key, revision_key, active_set, dead_letter_set,
  requeue_keys,
}
use the_arena_of.Lease.Scripts.{
  acquire_match_lease, acquired, fenced_state_set, fenced_state_delete, finalize_match_tombstone,
  still_owns, applied, retry, stale, finalized, requeue_dead_letter,
}
use the_arena_of.Lease.Tombstone.{dead_letter, finished, lua_gate, parse_tombstone}
use the_arena_of.Lease.Tombstone.Agree.{
  lua_gate-parse_tombstone, parse_tombstone-marker, marker, gate_of,
}
use the_arena_of.Lease.Cluster.{Reach, here, call, drift, Call, acquires_match, step}
use the_arena_of.Lease.Cluster.Fences.{Fenced}
use the_arena_of.Lease.Cluster.Growth.{reach-Fenced}
use the_arena_of.Lease.Fencing.Owners.{shut_out}
use the_arena_of.Lease.Register.{
  Register, Agrees, commit, erase, fenced_state_set-Agrees, fenced_state_delete-Agrees,
}
use the_arena_of.Lease.Requeue.{requeue_reply, Answered, requeue_dead_letter-Answered}
use the_arena_of.Lease.Requeue.Burial.{Buried, finalize_match_tombstone-Buried}
use the_arena_of.Lease.Takeover.{taken_over}
use the_arena_of.Tests.Memory.{Memory, put, memory, memory-IsRedis, numerals, numerals-IsNumerals}

abbrev id : Str
id = lit "m1"

abbrev empty : Memory
empty = record { strings = λ k. none; sets = λ k a. false }

empty-Fenced : Fenced memory memory-IsRedis numerals id 0 empty
empty-Fenced = record { persists = refl; counts = refl; owned = inl refl }

-- A node takes the match, its lease expires, and another node takes it.
abbrev first : Memory
unfolding acquire_match_lease
first =
    (acquire_match_lease memory numerals (owner_key id) (fence_key id) (tombstone_key id) (lit "a")
      30 empty).1

abbrev expired : Memory
expired = put first (owner_key id) none

abbrev second : Memory
second =
    (acquire_match_lease memory numerals (owner_key id) (fence_key id) (tombstone_key id) (lit "b")
      30 expired).1

expires : Reach memory numerals id first expired
expires = drift here (record { owner = inr refl; fence = λ h. (refl, refl) })

shut_out_example :
    (1 < 2)
    × (fenced_state_set memory
          (owner_key id)
          (fence_key id)
          (state_key id)
          (revision_key id)
          (lit "a:1")
          1
          (lit "{}")
          60
          0
          1
          second
        ≡ (retry, second))
    × (fenced_state_delete memory
          (owner_key id)
          (fence_key id)
          (state_key id)
          (revision_key id)
          (lit "a:1")
          1
          second
        ≡ (false, second))
    × (finalize_match_tombstone memory
          (owner_key id)
          (fence_key id)
          (tombstone_key id)
          active_set
          dead_letter_set
          id
          (lit "a:1")
          1
          finished
          60
          second
        ≡ (stale, second))
unfolding acquire_match_lease decimal decimal_from digits_value
shut_out_example =
    shut_out memory memory-IsRedis numerals numerals-IsNumerals id {next_lease = lit "b:2"}
      (lit "a") (lit "b") 30 30 (omega arith) (omega arith) empty-Fenced (inr refl) expires
      (inr refl) here (lit "{}") 60 0 1 finished

abbrev takes : Call
takes = acquires_match (lit "a") 30 (omega arith)

reach-Fenced_example :
    (g : ℕ) × (0 ≤ g)
    × Fenced memory memory-IsRedis numerals id g (step memory numerals id takes empty)
reach-Fenced_example = reach-Fenced memory memory-IsRedis numerals id empty-Fenced (call here takes)

taken_over_example :
    let reply =
      acquire_match_lease memory numerals
        (owner_key id)
        (fence_key id)
        (tombstone_key id)
        (lit "a")
        30
        empty in
    let write =
      fenced_state_set memory
        (owner_key id)
        (fence_key id)
        (state_key id)
        (revision_key id)
        (lit "a:1")
        1
        (lit "{}")
        60
        0
        1
        reply.1 in
    (reply.0 ≡ acquired 1 (lit "a:1"))
    × (write.0 ≡ applied)
    × Agrees memory memory-IsRedis id (record { revision = 1; blob = some (lit "{}") }) write.1
unfolding decimal decimal_from
taken_over_example =
    taken_over memory memory-IsRedis numerals numerals-IsNumerals id (lit "a") 30 60 (lit "{}")
      empty (omega arith) (omega arith) (omega arith) empty-Fenced
      (record { revision = inl (refl, refl); blob = refl }) refl refl

lua_gate-parse_tombstone_example :
    lua_gate (lit "dead-letter:007") ≡ gate_of (parse_tombstone (lit "dead-letter:007"))
lua_gate-parse_tombstone_example = lua_gate-parse_tombstone (lit "dead-letter:007")

parse_tombstone-marker_example :
    parse_tombstone (marker dead_letter 42) ≡ some (record { reason = dead_letter; fence = 42 })
parse_tombstone-marker_example = parse_tombstone-marker dead_letter 42 (omega arith) (omega arith)

-- The owner has written its state.
abbrev stored : Memory
unfolding fenced_state_set
stored =
    (fenced_state_set memory (owner_key id) (fence_key id) (state_key id) (revision_key id)
      (lit "a:1") 1 (lit "{}") 60 0 1 first).1

abbrev register : Register
register = record { revision = 1; blob = some (lit "{}") }

fenced_state_set-Agrees_example :
    let owns = still_owns memory (owner_key id) (fence_key id) (lit "a:1") 1 stored in
    let done =
      fenced_state_set memory
        (owner_key id)
        (fence_key id)
        (state_key id)
        (revision_key id)
        (lit "a:1")
        1
        (lit "[]")
        60
        0
        1
        stored in
    (done.0 ≡ (commit owns 0 1 (lit "[]") register).0)
    × Agrees memory memory-IsRedis id (commit owns 0 1 (lit "[]") register).1 done.1
unfolding acquire_match_lease fenced_state_set decimal decimal_from
fenced_state_set-Agrees_example =
    fenced_state_set-Agrees memory memory-IsRedis id {r = register} {s = stored} (lit "a:1") 1
      (lit "[]") 60 0 1 (omega arith) (record { revision = inr refl; blob = refl })

fenced_state_delete-Agrees_example :
    let owns = still_owns memory (owner_key id) (fence_key id) (lit "a:1") 1 stored in
    let done =
      fenced_state_delete memory
        (owner_key id)
        (fence_key id)
        (state_key id)
        (revision_key id)
        (lit "a:1")
        1
        stored in
    (done.0 ≡ (erase owns register).0)
    × Agrees memory memory-IsRedis id (erase owns register).1 done.1
unfolding acquire_match_lease fenced_state_set decimal decimal_from
fenced_state_delete-Agrees_example =
    fenced_state_delete-Agrees memory memory-IsRedis id {r = register} {s = stored} (lit "a:1") 1
      (record { revision = inr refl; blob = refl })

finalize_match_tombstone-Buried_example :
    let done =
      finalize_match_tombstone memory
        (owner_key id)
        (fence_key id)
        (tombstone_key id)
        active_set
        dead_letter_set
        id
        (lit "a:1")
        1
        dead_letter
        60
        stored in
    (done.0 ≡ finalized) × Buried memory memory-IsRedis numerals id (lit "a") 1 done.1
unfolding acquire_match_lease fenced_state_set decimal decimal_from
finalize_match_tombstone-Buried_example =
    finalize_match_tombstone-Buried memory memory-IsRedis numerals id (lit "a") (lit "{}") 1 60
      stored (omega arith) (omega arith) (omega arith) refl refl

requeue_dead_letter-Answered_example :
    Answered memory memory-IsRedis id
      (requeue_reply
        (memory.get stored (tombstone_key id))
        (memory.exists stored (state_key id))
        true
        true)
      stored
      (requeue_dead_letter memory (requeue_keys id) id true stored)
unfolding acquire_match_lease fenced_state_set decimal
requeue_dead_letter-Answered_example =
    requeue_dead_letter-Answered memory memory-IsRedis id true stored
