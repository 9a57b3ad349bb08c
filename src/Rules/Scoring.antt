-- ===== src/Rules/Scoring.antt =====
-- packages/game-core/src/scoring.ts. The speed bonus is a fraction over the divisor; `speed_bonus` and
-- `total` are its numerators, and `Math.floor` of a total is a division by the divisor.
use the_arena_of.Prelude.{ℕ, ◌+◌, ◌-◌, ◌*◌, ◌/◌, ◌≤◌, arith}

abbrev pub score_base_correct : ℕ
score_base_correct = 100

abbrev pub score_speed_bonus_window_ms : ℕ
score_speed_bonus_window_ms = 10000

abbrev pub score_speed_bonus_divisor : ℕ
score_speed_bonus_divisor = 200

pub record RoundScore : Type 0 where
  pub base : ℕ
  pub speed_bonus : ℕ
  pub total : ℕ

-- A response time is not negative here; `Math.max(0, window - time)` is the subtraction of ℕ.
unfoldable pub compute_round_score : ℕ → RoundScore
compute_round_score response_time_ms = record {
  base = score_base_correct;
  speed_bonus = score_speed_bonus_window_ms - response_time_ms;
  total =
      score_base_correct * score_speed_bonus_divisor
      + (score_speed_bonus_window_ms - response_time_ms);
}

-- `Math.floor(computeRoundScore(t).total)`.
abbrev pub floor_total : RoundScore → ℕ
floor_total s = s.total / score_speed_bonus_divisor

-- A correct answer is worth 100 to 150 points; a faster one is never worth less.
pub floor_total_bounds :
    (t u : ℕ)
    → t ≤ u
    → (100 ≤ floor_total (compute_round_score u))
      × (floor_total (compute_round_score u) ≤ floor_total (compute_round_score t))
      × (floor_total (compute_round_score t) ≤ 150)
unfolding compute_round_score
floor_total_bounds t u h = (omega arith, omega arith, omega arith)
