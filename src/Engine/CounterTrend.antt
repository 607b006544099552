-- ===== src/Engine/CounterTrend.antt =====
-- `_handle_counter` of backend/kotsin_nse/engine.py: from a trigger to the signal that fades it. The
-- legs are those that `_counter_legs` has read from the store and the broker; whether the reason of
-- the trigger names a flip is an argument. The card and the ledger rows are left out.
pub mod Entered
use kotsin_nse.Prelude.{Bool, not, ◌||◌, Option, none, some, List, [], ◌∷◌, if◌then◌else◌}
use kotsin_nse.Prelude.Strings.{str_eq}
use kotsin_nse.Domain.{Instrument}
use kotsin_nse.Engine.Twin.{is_mcx}
use kotsin_nse.Instrument.Strikes.{is_bullish}
use kotsin_nse.Num.{Num, nought, truthy}
use kotsin_nse.Bars.Pivots.{Zone}
use kotsin_nse.Bars.Confluence.{GradePolicy}
use kotsin_nse.Strategy.Counter.{Leg, RouteName, counter, in_trend, counter_wall_min}
use kotsin_nse.Strategy.Counter.Fade.{flipped_signal}
use kotsin_nse.Strategy.Counter.Route.{counter_route}
use kotsin_nse.Strategy.Signals.{Signal}

module _ {W : Type 0} ⦃f : Num W⦄ where
  -- `legs[0].atr if legs else 0.0`
  abbrev pub first_atr : List (Leg W) → W
  first_atr [] = nought
  first_atr (leg ∷ legs) = leg.atr

  -- `underlying.tick_size or 0.05`
  abbrev pub tick_of : Instrument W → W
  tick_of underlying = if truthy underlying.tick_size then underlying.tick_size else f.lit 5 2

  unfoldable pub fade_by :
      RouteName
      → Signal W
      → Instrument W
      → List (Leg W)
      → List (Zone W)
      → GradePolicy W
      → Option (Signal W)
  fade_by counter sig underlying legs zones policy =
      flipped_signal sig "FUDKII_CT_X" zones (first_atr legs) (tick_of underlying) (some policy)
  fade_by in_trend sig underlying legs zones policy = none

  -- The signal that goes to `_handle_signal`, if there is one.
  unfoldable pub handle_counter :
      Signal W
      → Option (Instrument W)
      → List (Leg W)
      → Bool
      → List (Zone W)
      → GradePolicy W
      → Option (Signal W)
  handle_counter sig none legs st_flipped zones policy = none
  handle_counter sig (some underlying) legs st_flipped zones policy =
      let decision = counter_route (is_bullish sig.direction) st_flipped counter_wall_min legs in
      if not (str_eq sig.strategy "FUDKII") || is_mcx underlying.segment
      then none
      else fade_by decision.route sig underlying legs zones policy
