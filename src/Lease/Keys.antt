-- ===== src/Lease/Keys.antt =====
-- The keys of a match in Redis: the builders of apps/api/src/modules/match/match-ownership.store.ts
-- and of apps/api/src/modules/match/match.service.ts.
use the_arena_of.Prelude.{◌++◌}
use the_arena_of.Text.{Str, lit}
use the_arena_of.Lease.Scripts.{RequeueDeadLetterKeys}

abbrev pub active_set : Str
active_set = lit "match:active"

abbrev pub dead_letter_set : Str
dead_letter_set = lit "match:recovery:dead-letter"

abbrev pub fence_key : Str → Str
fence_key id = lit "match:fence:" ++ id

abbrev pub owner_key : Str → Str
owner_key id = lit "match:owner:" ++ id

abbrev pub tombstone_key : Str → Str
tombstone_key id = lit "match:tombstone:" ++ id

abbrev pub state_key : Str → Str
state_key id = lit "match:state:" ++ id

abbrev pub revision_key : Str → Str
revision_key id = lit "match:state-revision:" ++ id

abbrev pub requeue_keys : Str → RequeueDeadLetterKeys
requeue_keys id = record {
  tombstone_key = tombstone_key id;
  state_key = state_key id;
  owner_key = owner_key id;
  fence_key = fence_key id;
  index_key = active_set;
  dead_letter_set = dead_letter_set;
}
