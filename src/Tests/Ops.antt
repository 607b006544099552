-- ===== src/Tests/Ops.antt =====
-- Health, alerts and conviction at concrete inputs.
use kotsin_nse.Prelude.{◌≡◌, Bool, refl, true, false, none, some, List, [], ◌∷◌}
use kotsin_nse.Prelude.Int.{pos, ◌+ℤ◌, ◌-ℤ◌, ◌*ℤ◌}
use kotsin_nse.Prelude.Ascii.{codes}
use kotsin_nse.Num.Cents.{Cents, cents_num}
use kotsin_nse.Ops.Health.{Check, HealthMonitor, evaluate_checks}
use kotsin_nse.Ops.Health.Streaks.{evaluate_all}
use kotsin_nse.Strategy.Conviction.{ConvictionInput, score}

abbrev feed : Bool → Check
feed ok = record { name = "feed"; ok = ok }

abbrev disk : Check
disk = record { name = "disk"; ok = false }

abbrev monitor : HealthMonitor
monitor = record { consecutive_required = 3; streak = [] }

-- The feed has failed twice in a row, the disk once.
abbrev history : List (List Check)
history = (feed true ∷ []) ∷ (feed false ∷ []) ∷ (feed false ∷ disk ∷ []) ∷ []

third_failure :
    (evaluate_checks (feed false ∷ disk ∷ []) (evaluate_all history monitor)).0 ≡ "feed" ∷ []
unfolding evaluate_checks evaluate_all
third_failure = refl

abbrev input : ConvictionInput Cents
input = record {
  exchange = codes "n";
  volume_surge = some (pos 400);
  oi_change_pct = none;
  oi_buildup_pct = none;
  price_change_over_atr = some (pos 100);
  rr = pos 300;
  is_option_volume = false;
}

composite-input : (score input).composite ≡ 70
unfolding score ◌+ℤ◌ ◌-ℤ◌ ◌*ℤ◌
composite-input = refl
