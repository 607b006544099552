-- ===== src/Strategy/Counter/Fade.antt =====
-- `flipped_signal` of backend/kotsin_nse/strategy/counter.py: the signal that fades a trigger. Its
-- grade, reason, evidence and context are left out, as in `Signal`.
use kotsin_nse.Prelude.{
  String, Bool, true, false, ◌||◌, Option, none, some, List, [], ◌∷◌, if◌then◌else◌,
}
use kotsin_nse.Domain.{Direction, bullish, bearish}
use kotsin_nse.Instrument.Strikes.{is_bullish}
use kotsin_nse.Num.{Num, le, nought}
use kotsin_nse.Bars.Pivots.{Zone}
use kotsin_nse.Bars.Confluence.{
  Confluence, GradePolicy, is_blocked, default_grades, compute_confluence,
}
use kotsin_nse.Strategy.Signals.{Signal, signal_id}

abbrev pub opposite : Direction → Direction
opposite bullish = bearish
opposite bearish = bullish

abbrev pub has_none : {A : Type 0} → List A → Bool
has_none [] = true
has_none (x ∷ xs) = false

module _ {W : Type 0} ⦃f : Num W⦄ where
  -- `policy or GradePolicy()`
  abbrev pub or_default : Option (GradePolicy W) → GradePolicy W
  or_default none = default_grades
  or_default (some policy) = policy

  -- `conf`
  abbrev pub fade_plan : Signal W → List (Zone W) → W → W → Option (GradePolicy W) → Confluence W
  fade_plan sig zones atr tick_size policy =
      compute_confluence (is_bullish (opposite sig.direction)) (or_default policy) sig.entry_price
        atr tick_size zones

  -- The trigger with the plan of the other side.
  unfoldable pub faded : Signal W → String → Confluence W → Signal W
  faded sig key conf = record sig {
    strategy = key;
    direction = opposite sig.direction;
    stop = conf.stop;
    targets = conf.targets;
    rr = f.round 3 conf.rr;
    source_signal_id = signal_id sig;
  }

  -- No target, no stop, or graded F.
  abbrev pub has_no_plan : Confluence W → Bool
  has_no_plan conf = has_none conf.targets || le conf.stop nought || is_blocked conf

  unfoldable pub flipped_signal :
      Signal W → String → List (Zone W) → W → W → Option (GradePolicy W) → Option (Signal W)
  unfolding faded
  flipped_signal sig key zones atr tick_size policy =
      let conf = fade_plan sig zones atr tick_size policy in
      if has_no_plan conf then none else some (faded sig key conf)
