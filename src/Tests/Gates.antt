-- ===== src/Tests/Gates.antt =====
-- The gates' counters at concrete candidates.
use kotsin_nse.Prelude.{ℕ, ◌+◌, ◌≤◌, ◌≡◌, refl, true, none, some, List, [], ◌∷◌, length, leb}
use kotsin_nse.Strategy.Gates.{
  Gate, GateResult, OnMissing, fail_open, fail_closed, evaluate, count_of, bump, is_failure,
  new_stats, record_all,
}
use kotsin_nse.Strategy.Gates.Counters.{tally, every_row, was_missing, total}
use kotsin_nse.Strategy.Gates.Balance.{all_rows, first_rejections, passing, gate_stats_balance}

abbrev gate : OnMissing → Gate
gate on_missing = record { name = "oi"; on_missing = on_missing; required = true }

-- One candidate passes with its input missing, one fails on the value, one on a missing input.
abbrev candidates : List (List (GateResult ℕ))
candidates =
    (evaluate (gate fail_open) none (leb 5) none ∷ [])
    ∷ (evaluate (gate fail_closed) (some 3) (leb 5) none ∷ [])
    ∷ (evaluate (gate fail_closed) none (leb 5) none ∷ [])
    ∷ []

rejections : count_of "oi" (record_all candidates new_stats).rejected ≡ 2
unfolding count_of record_all evaluate bump
rejections = refl

gate_stats_balance_example :
    let s = record_all candidates new_stats in
    (count_of "oi" s.evaluated ≡ tally every_row "oi" (all_rows candidates))
    × (count_of "oi" s.missing ≡ tally was_missing "oi" (all_rows candidates))
    × (count_of "oi" s.rejected ≡ tally is_failure "oi" (all_rows candidates))
    × (count_of "oi" s.binding ≡ first_rejections "oi" candidates)
    × (s.passed ≡ passing candidates)
    × (s.candidates ≡ length candidates)
    × (s.passed + total s.binding ≡ s.candidates)
    × (count_of "oi" s.binding ≤ count_of "oi" s.rejected)
    × (count_of "oi" s.rejected ≤ count_of "oi" s.evaluated)
gate_stats_balance_example = gate_stats_balance candidates "oi"
