-- ===== src/Ops/Health.antt =====
-- backend/kotsin_nse/ops/health.py: the streaks of failed checks. Times, details and values, which the
-- record only shows, are left out.
pub mod Streaks
use kotsin_nse.Prelude.{
  ℕ, ◌+◌, String, Bool, true, false, Option, none, some, List, [], ◌∷◌, ◌++◌, leb, if◌then◌else◌,
}
use kotsin_nse.Prelude.Dict.{Dict, lookup, insert}

pub record Check : Type 0 where
  pub name : String
  pub ok : Bool

pub record HealthMonitor : Type 0 where
  pub consecutive_required : ℕ
  pub streak : Dict ℕ

-- `self._streak[name]`, with 0 for a missing key
unfoldable pub streak_of : String → HealthMonitor → ℕ
streak_of name m = elim (lookup name m.streak) [ none ↦ 0 | some n ↦ n ]

abbrev pub set_streak : String → ℕ → HealthMonitor → HealthMonitor
set_streak name n m = record m { streak = insert name n m.streak }

-- The body of the loop: the names that are degraded so far, and the monitor.
unfoldable pub observe : Check → List String × HealthMonitor → List String × HealthMonitor
unfolding streak_of
observe c (degraded, m) =
    let n = streak_of c.name m + 1 in
    if c.ok then (degraded, set_streak c.name 0 m) else (
      if leb m.consecutive_required n then degraded ++ c.name ∷ [] else degraded,
      set_streak c.name n m,
    )

unfoldable pub observe_all : List Check → List String × HealthMonitor → List String × HealthMonitor
unfolding observe
observe_all [] out = out
observe_all (c ∷ checks) out = observe_all checks (observe c out)

-- `evaluate`: the degraded checks.
unfoldable pub evaluate_checks : List Check → HealthMonitor → List String × HealthMonitor
unfolding observe_all
evaluate_checks checks m = observe_all checks ([], m)
