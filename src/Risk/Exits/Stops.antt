-- ===== src/Risk/Exits/Stops.antt =====
-- The stop and the ratchet of a position through `evaluate`: what may move them, and which way.
pub mod Climbs
pub mod Rungs
use kotsin_nse.Prelude.{◌≡◌, refl, Option, none, some, arith, ◌∙◌}
use kotsin_nse.Num.{Num, max_of}
use kotsin_nse.Num.Laws.{◌≼◌, IsOrdered, le-max_right}
use kotsin_nse.Domain.{Position}
use kotsin_nse.Risk.Limits.{RiskLimits}
use kotsin_nse.Risk.Exits.Rules.{
  MarketView, next, ◌▹◌, mid_of, hard_floor_below_stop, equity_confirmed_stop, sustain_block,
  sustained_option_stop, touch_stop, equity_stop, legacy_hard_floor, targets_rule, peak_ratchet,
  backstops, track,
}
use kotsin_nse.Risk.Exits.Ladder.{mark, projected_stop, reproject_stop, own_hard_stop, line_breach}
use kotsin_nse.Risk.Exits.Evaluate.{
  evaluate, track_print, prepare, stops, target_rules, rules, when,
}
use kotsin_nse.Risk.Exits.Stops.Climbs.{
  KeepsStops, Lifts, IsRounded, Climbs-of_KeepsStops, ▹-Lifts, choice-Lifts, Lifts-of_KeepsStops,
  trail_rule-Lifts,
}
use kotsin_nse.Risk.Exits.Stops.Rungs.{own_ladder_rule-Lifts}

module _ {W : Type 0} ⦃f : Num W⦄ where
  module _ (laws : IsOrdered W) where
    open laws use {le_refl, round_mono, round-round}

    module _ (lim : RiskLimits W) (view : MarketView W) (mid : W) where
      own_hard_stop-Lifts : Lifts (own_hard_stop lim view mid)
      unfolding own_hard_stop line_breach
      own_hard_stop-Lifts = Lifts-of_KeepsStops laws _ (λ p. ground arith)

      hard_floor_below_stop-Lifts : Lifts (hard_floor_below_stop lim view mid)
      unfolding hard_floor_below_stop
      hard_floor_below_stop-Lifts = Lifts-of_KeepsStops laws _ (λ p. ground arith)

      sustain_block-Lifts : Lifts (sustain_block lim view mid)
      unfolding sustain_block sustained_option_stop
      sustain_block-Lifts = Lifts-of_KeepsStops laws _ (λ p. ground arith)

      peak_ratchet-Lifts : Lifts (peak_ratchet lim view mid)
      unfolding peak_ratchet
      peak_ratchet-Lifts = Lifts-of_KeepsStops laws _ (λ p. ground arith)

    module _ (lim : RiskLimits W) (view : MarketView W) where
      equity_confirmed_stop-Lifts : Lifts (equity_confirmed_stop lim view)
      unfolding equity_confirmed_stop
      equity_confirmed_stop-Lifts = Lifts-of_KeepsStops laws _ (λ p. ground arith)

      touch_stop-Lifts : Lifts (touch_stop lim view)
      unfolding touch_stop
      touch_stop-Lifts = Lifts-of_KeepsStops laws _ (λ p. ground arith)

      equity_stop-Lifts : Lifts (equity_stop view)
      unfolding equity_stop
      equity_stop-Lifts = Lifts-of_KeepsStops laws _ (λ p. ground arith)

      legacy_hard_floor-Lifts : Lifts (legacy_hard_floor lim view)
      unfolding legacy_hard_floor
      legacy_hard_floor-Lifts = Lifts-of_KeepsStops laws _ (λ p. ground arith)

      targets_rule-Lifts : Lifts (targets_rule lim view)
      unfolding targets_rule
      targets_rule-Lifts = Lifts-of_KeepsStops laws _ (λ p. ground arith)

      backstops-Lifts : Lifts (backstops lim view)
      unfolding backstops
      backstops-Lifts = Lifts-of_KeepsStops laws _ (λ p. record { stop = refl; ratchet = refl })

      own_part-Lifts : Lifts (when lim.own_ladder (own_hard_stop lim view (mid_of view)))
      own_part-Lifts =
          choice-Lifts laws lim.own_ladder _ (λ p. (next, p))
            (own_hard_stop-Lifts lim view (mid_of view))
            (Lifts-of_KeepsStops laws _ (λ p. record { stop = refl; ratchet = refl }))

      rules-Lifts : Lifts (rules lim view)
      unfolding rules stops target_rules
      rules-Lifts =
          let mid = mid_of view in
          ▹-Lifts laws _ _
            (▹-Lifts laws _ _ (hard_floor_below_stop-Lifts lim view mid) (
              ▹-Lifts laws _ _ own_part-Lifts (
                ▹-Lifts laws _ _ equity_confirmed_stop-Lifts (
                  ▹-Lifts laws _ _ (sustain_block-Lifts lim view mid) (
                    ▹-Lifts laws _ _ touch_stop-Lifts
                      (▹-Lifts laws _ _ equity_stop-Lifts legacy_hard_floor-Lifts))))))
            (▹-Lifts laws _ _
              (choice-Lifts laws lim.own_ladder _ _ (own_ladder_rule-Lifts laws lim view mid)
                targets_rule-Lifts)
              (▹-Lifts laws _ _ (peak_ratchet-Lifts lim view mid)
                (▹-Lifts laws _ _ (trail_rule-Lifts laws lim view) backstops-Lifts)))

      track_print-KeepsStops : (p : Position W) → KeepsStops p (track_print view p)
      unfolding track_print track
      track_print-KeepsStops p = ground arith

      mark-KeepsStops : (p : Position W) → KeepsStops p (mark lim view (mid_of view) p)
      unfolding mark
      mark-KeepsStops p = ground arith

      abbrev projection : Option W → Position W → W
      projection none p = p.option_sl
      projection (some u) p = projected_stop lim p u

      -- Re-projecting may lower a stop, though not under the ratchet.
      reproject_stop_lem :
          (p : Position W)
          → IsRounded p
          → IsRounded (reproject_stop lim view p)
            × ((reproject_stop lim view p).ratchet_sl ≡ p.ratchet_sl)
            × (p.ratchet_sl ≼ p.option_sl → p.ratchet_sl ≼ (reproject_stop lim view p).option_sl)
      unfolding reproject_stop
      reproject_stop_lem p h =
          let level = projection view.underlying_ltp p in
          ground (
            arith,
            h,
            round-round 2 (max_of level p.ratchet_sl),
            round_mono 2 p.ratchet_sl (max_of level p.ratchet_sl)
                (le-max_right laws level p.ratchet_sl),
          )

      prepare_lem :
          (p : Position W)
          → IsRounded p
          → IsRounded (prepare lim view p)
            × ((prepare lim view p).ratchet_sl ≡ p.ratchet_sl)
            × (p.ratchet_sl ≼ p.option_sl → p.ratchet_sl ≼ (prepare lim view p).option_sl)
      unfolding prepare
      prepare_lem p h =
          let tracked : Position W = track_print view p in
          let k = track_print-KeepsStops p in
          let projected =
            reproject_stop_lem tracked (Climbs-of_KeepsStops laws p tracked k h).rounded in
          let marked = mark-KeepsStops (reproject_stop lim view tracked) in
          (
            (Climbs-of_KeepsStops laws _ _ marked projected.0).rounded,
            marked.ratchet ∙ projected.1 ∙ k.ratchet,
            λ a. ground (arith, marked, projected.2, k),
          )

      prepare_keeps :
          (p : Position W) → lim.reproject_stop_s ≡ none → KeepsStops p (prepare lim view p)
      unfolding prepare reproject_stop
      prepare_keeps p e =
          ground (arith, track_print-KeepsStops p, mark-KeepsStops (track_print view p))

      -- A position whose levels are rounded, with the stop at or above the ratchet, keeps both through
      -- an evaluation, whatever the quotes are: the ratchet never falls, and the stop is not put under
      -- it, neither by the re-projection nor by a rung.
      pub ratchet_holds :
          (p : Position W)
          → IsRounded p
          → p.ratchet_sl ≼ p.option_sl
          → IsRounded (evaluate lim view p).1
            × (p.ratchet_sl ≼ (evaluate lim view p).1.ratchet_sl)
            × ((evaluate lim view p).1.ratchet_sl ≼ (evaluate lim view p).1.option_sl)
      unfolding evaluate
      ratchet_holds p h a =
          let before = prepare_lem p h in
          let after = rules-Lifts.lifts (prepare lim view p) before.0 in
          ground (arith, h, le_refl p.ratchet_sl, before, after)

      -- A policy that does not re-project the stop never lowers it: from one evaluation to the next the
      -- stop of a position with rounded levels rises or stays.
      pub stop_never_falls :
          (p : Position W)
          → IsRounded p
          → lim.reproject_stop_s ≡ none
          → p.option_sl ≼ (evaluate lim view p).1.option_sl
      unfolding evaluate
      stop_never_falls p h e =
          let after = rules-Lifts.lifts (prepare lim view p) (prepare_lem p h).0 in
          ground (arith, le_refl p.option_sl, prepare_keeps p e, after)
