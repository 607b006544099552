-- ===== src/Strategy/Counter/Route.antt =====
-- `counter_route` of backend/kotsin_nse/strategy/counter.py; the texts of a decision are left out.
pub mod Exact
use kotsin_nse.Prelude.{
  String, Bool, false, not, ◌&&◌, Option, none, some, List, [], ◌∷◌, select, if◌then◌else◌,
}
use kotsin_nse.Prelude.Dict.{Dict, insert}
use kotsin_nse.Prelude.Sort.{min_by}
use kotsin_nse.Prelude.Strings.{str_eq}
use kotsin_nse.Num.{Num, gt, ge, nought}
use kotsin_nse.Strategy.Counter.{
  Leg, LegVolume, unknown, leg_volume, PivotRead, WallEval, counter, in_trend, CounterDecision,
  counter_score_min, at_pivot_read,
}
use kotsin_nse.Strategy.Counter.Wall.{no_wall, evaluate_wall}

-- `next((v for n, v in vols.items() if n != leg.name), "unknown")`
abbrev other_volume : String → Dict LegVolume → LegVolume
other_volume name [] = unknown
other_volume name ((n, v) ∷ vols) =
    let rest = other_volume name vols in if not (str_eq n name) then v else rest

module _ {W : Type 0} ⦃f : Num W⦄ where
  -- `leg.atr > 0 and leg.close > 0`
  abbrev pub is_live : Leg W → Bool
  is_live leg = gt leg.atr nought && gt leg.close_price nought

  -- The wall of a leg.
  abbrev pub leg_wall : Bool → Leg W → WallEval W
  leg_wall bullish leg = evaluate_wall bullish leg.close_price leg.high leg.low leg.atr leg.points

  -- `{leg.name: value(leg) for leg in legs}`, added to a dict
  abbrev pub by_leg : {A : Type 0} → (Leg W → A) → Dict A → List (Leg W) → Dict A
  by_leg value d [] = d
  by_leg value d (leg ∷ legs) = by_leg value (insert leg.name (value leg) d) legs

  -- The reads there are, with `vols` of all legs.
  abbrev reads_from : Bool → Dict LegVolume → List (Leg W) → List (PivotRead W)
  reads_from bullish vols [] = []
  reads_from bullish vols (leg ∷ legs) =
      let rest = reads_from bullish vols legs in
      elim (at_pivot_read leg bullish (other_volume leg.name vols)) [
        | none ↦ rest
        | some r ↦ r ∷ rest
      ]

  unfoldable pub reads_of : Bool → List (Leg W) → List (PivotRead W)
  reads_of bullish legs = reads_from bullish (by_leg leg_volume [] legs) legs

  -- `best.score >= COUNTER_SCORE_MIN`, if there is a best read
  abbrev pub is_faded_at : Option (PivotRead W) → Bool
  is_faded_at none = false
  is_faded_at (some best) = ge best.score counter_score_min

  -- The decision, from the strongest wall with its leg and the reads.
  unfoldable pub decide :
      Bool → W → Option (String × WallEval W) → List (PivotRead W) → CounterDecision W
  decide st_flipped wall_min none reads = record {
    route = in_trend;
    wall = no_wall;
    wall_leg = "";
    reads = [];
  }
  decide st_flipped wall_min (some (leg, wall)) reads =
      let best = min_by (λ x y. gt x.score y.score) reads in
      let route =
        if st_flipped && ge wall.strength wall_min
        then counter
        else if is_faded_at best
        then counter
        else in_trend in
      record { route = route; wall = wall; wall_leg = leg; reads = reads }

  unfoldable pub counter_route : Bool → Bool → W → List (Leg W) → CounterDecision W
  counter_route bullish st_flipped wall_min all_legs =
      let legs = select is_live all_legs in
      decide st_flipped wall_min
        (min_by (λ x y. gt x.1.strength y.1.strength) (by_leg (leg_wall bullish) [] legs))
        (reads_of bullish legs)
