-- ===== src/Risk/Exits/Stops/Rungs.antt =====
-- The stop and the ratchet through the rules of the position's own ladder.
use kotsin_nse.Prelude.{◌/◌, refl, Bool, true, false, Option, arith}
use kotsin_nse.Num.{Num}
use kotsin_nse.Num.Laws.{IsOrdered}
use kotsin_nse.Domain.{Position, Trigger, by_equity, by_option}
use kotsin_nse.Market.Session.{minute}
use kotsin_nse.Risk.Limits.{RiskLimits}
use kotsin_nse.Risk.Exits.Rules.{MarketView}
use kotsin_nse.Risk.Exits.Ladder.{
  own_ladder_rule, ladder_touch, touch_rung, sustain_step, sustain_rung, step_ratchet,
  complete_sustain, arm_now, note_print, rebase, rung_below, run_clock, closed_minute,
}
use kotsin_nse.Risk.Exits.Stops.Climbs.{
  KeepsStops, Climbs, Lifts, IsRounded, Climbs-of_KeepsStops, Climbs-trans, Climbs-refl,
  raised-Climbs,
}

module _ {W : Type 0} ⦃f : Num W⦄ where
  module _ (laws : IsOrdered W) where
    open laws use {le_refl}

    step_ratchet-Climbs :
        (lag : Bool) (level : W) (p : Position W)
        → IsRounded p
        → Climbs p (step_ratchet lag level p)
    unfolding step_ratchet
    step_ratchet-Climbs true level p h = Climbs-refl laws p h
    step_ratchet-Climbs false level p h = raised-Climbs laws level p _ h refl refl

    module _ (lim : RiskLimits W) (view : MarketView W) (mid : W) where
      arm_now-KeepsStops :
          (by : Trigger) (p : Position W) → KeepsStops p (arm_now lim view mid by p)
      unfolding arm_now
      arm_now-KeepsStops by p = ground arith

      touch_rung-Climbs :
          (by : Trigger) (p : Position W) → IsRounded p → Climbs p (touch_rung lim view mid by p).1
      unfolding touch_rung
      touch_rung-Climbs by p h =
          let stepped = step_ratchet-Climbs false (rung_below p) p h in
          let armed = arm_now-KeepsStops by (step_ratchet false (rung_below p) p) in
          Climbs-trans laws p _ _ stepped (
            Climbs-of_KeepsStops laws _ _ (record { stop = armed.stop; ratchet = armed.ratchet })
              stepped.rounded)

      complete_sustain-Climbs :
          (rung : W) (p : Position W)
          → IsRounded p
          → Climbs p (complete_sustain lim view mid rung p)
      unfolding complete_sustain
      complete_sustain-Climbs rung p h =
          let stepped = step_ratchet-Climbs lim.sl_lag rung p h in ground (arith, stepped)

      sustain_rung-Climbs :
          (c : Option W) (rung : W) (p : Position W)
          → IsRounded p
          → Climbs p (sustain_rung lim view mid c rung p)
      unfolding sustain_rung
      sustain_rung-Climbs c rung p h =
          let q : Position W = run_clock view c rung p in
          let same = Climbs-of_KeepsStops laws p q (record { stop = refl; ratchet = refl }) h in
          ground (
            arith,
            same,
            Climbs-of_KeepsStops laws p _ (record { stop = refl; ratchet = refl }) h,
            Climbs-trans laws p q _ same (complete_sustain-Climbs rung q same.rounded),
            le_refl p.option_sl,
            le_refl p.ratchet_sl,
          )

      sustain_step-Climbs :
          (c : Option W) (p : Position W) → IsRounded p → Climbs p (sustain_step lim view mid c p)
      unfolding sustain_step
      sustain_step-Climbs c p h =
          ground (arith, Climbs-refl laws p h, sustain_rung-Climbs c (rung_below p) p h)

      ladder_touch-Climbs :
          (ltp : W) (c : Option W) (p : Position W)
          → IsRounded p
          → Climbs p (ladder_touch lim view ltp mid c p).1
      unfolding ladder_touch
      ladder_touch-Climbs ltp c p h =
          let rebased =
            Climbs-of_KeepsStops laws p (rebase ltp p) (record { stop = refl; ratchet = refl }) h in
          ground (
            arith,
            Climbs-refl laws p h,
            touch_rung-Climbs by_option p h,
            Climbs-trans laws p _ _ rebased
                (touch_rung-Climbs by_equity (rebase ltp p) rebased.rounded),
          )

      pub own_ladder_rule-Lifts : Lifts (own_ladder_rule lim view mid)
      unfolding own_ladder_rule
      own_ladder_rule-Lifts = record {
        lifts = λ p h.
            let c = closed_minute p.last_minute (view.now / minute) in
            let noted : Climbs p (note_print view p) =
              Climbs-of_KeepsStops laws p (note_print view p) (ground arith) h in
            let after = sustain_step-Climbs c (note_print view p) noted.rounded in
            Climbs-trans laws p _ _ noted (
              Climbs-trans laws _ _ _ after
                (ladder_touch-Climbs view.option_ltp c _ after.rounded));
      }
