-- ===== src/Errors.antt =====
-- packages/shared/src/error-codes.ts and errors.ts: the error codes, and the errors that the engine
-- throws. An `Error` with a message is a constructor of its own.
use mathlib.Core.Path.{◌≡◌, refl}

pub data ErrorCode : Type 0 where
  room_not_found room_full room_already_started player_not_in_room match_not_found : ErrorCode
  match_already_started round_not_active already_answered answer_submission_closed : ErrorCode
  not_room_host not_enough_players unauthorized invalid_token rate_limited internal_error :
      ErrorCode
  invalid_room_type spectator_cannot_answer invalid_payload player_disconnected : ErrorCode
  command_id_conflict aoe_cap_exhausted card_not_in_hand card_not_found invalid_command_id :
      ErrorCode
  topic_voting_closed invalid_topic username_taken : ErrorCode

-- What packages/game-core/src/match-state.codec.ts refuses a stored match for.
pub data Unreadable : Type 0 where
  not_json unsupported_version invalid_match_data invalid_timing_field : Unreadable
  missing_phase_end no_round_times end_precedes_start phase_end_mismatch : Unreadable

pub data Failure : Type 0 where
  unreadable : Unreadable → Failure
  room_error : ErrorCode → Failure
  invalid_transition not_in_active_round no_active_round : Failure
  wrong_offer_size seq_no_drift : Failure
  -- The `TypeError` of a write to a frozen array.
  frozen_array : Failure
  unknown_card template_mismatch missing_context answer_not_in_options pool_drained : Failure
  -- The model's own: the fuel of a loop ran out.
  out_of_fuel : Failure
  -- The model's own: a time before the epoch, which the source has as a negative number.
  before_epoch : Failure

pub data Result {ℓ} (A : Type ℓ) : Type ℓ where
  ok : A → Result A
  err : Failure → Result A

infixl 5 ◌>>=◌
abbrev pub ◌>>=◌ {ℓ κ} : {A : Type ℓ} {B : Type κ} → Result A → (A → Result B) → Result B
ok a >>= f = f a
err e >>= f = err e

-- A chain of steps that succeeded.
pub ok->>= {ℓ κ} :
    {A : Type ℓ} {B : Type κ} (x : Result A) (f : A → Result B) {b : B}
    → (x >>= f) ≡ ok b
    → (a : A) × (x ≡ ok a) × (f a ≡ ok b)
ok->>= (ok a) f h = (a, refl, h)
ok->>= (err e) f h = cc
