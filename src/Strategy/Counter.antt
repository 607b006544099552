-- ===== src/Strategy/Counter.antt =====
-- backend/kotsin_nse/strategy/counter.py: whether a trigger is faded, on the equity and on its front
-- future. Texts are left out; a `summary` only formats a read.
pub mod Fade
pub mod Route
pub mod Wall
use kotsin_nse.Prelude.{
  String, Bool, true, false, ◌&&◌, ◌||◌, Option, none, some, List, [], ◌∷◌, map, select,
  if◌then◌else◌,
}
use kotsin_nse.Prelude.Sort.{sort_by, min_by}
use kotsin_nse.Num.{Num, ◌⊖◌, ◌⊗◌, ◌⊘◌, lt, le, gt, ge, nought, of_nat, minus_one, max_of, min_of}
use kotsin_nse.Num.Sum.{sum_of, least_from}
use kotsin_nse.Bars.Pivots.{Label, Level, pivot, r1, r2, s1, s2, tc, bc, PivotPoint}

-- `Leg.volume`
pub data LegVolume : Type 0 where
  unknown surge dried average : LegVolume

pub record Leg (W : Type 0) : Type 0 where
  pub name : String
  pub open_price : W
  pub high : W
  pub low : W
  pub close_price : W
  pub atr : W
  pub points : List (PivotPoint W)
  pub surge_t : Option W
  pub surge_t1 : Option W

pub record PivotRead (W : Type 0) : Type 0 where
  pub leg : String
  pub level : W
  pub members : List Label
  pub strength : W
  pub dist_atr : W
  pub crossed_atr : W
  pub pierced_atr : W
  pub rejected : Bool
  pub volume : LegVolume
  pub surge_t : Option W
  pub surge_t1 : Option W
  pub score : W

-- `timeframes`, a text made of the members, is left out.
pub record WallEval (W : Type 0) : Type 0 where
  pub strength : W
  pub members : List Label
  pub dist_atr : Option W

pub data RouteName : Type 0 where
  counter in_trend : RouteName

pub record CounterDecision (W : Type 0) : Type 0 where
  pub route : RouteName
  pub wall : WallEval W
  pub wall_leg : String
  pub reads : List (PivotRead W)

-- `grp` with `near` and the strength, the pair that is compared.
pub record PivotGroup (W : Type 0) : Type 0 where
  pub near : W
  pub strength : W
  pub members : List (PivotPoint W)

-- `KEY_LEVELS`
abbrev pub is_key : Level → Bool
is_key Level.pivot = true
is_key Level.tc = true
is_key Level.bc = true
is_key r1 = true
is_key s1 = true
is_key r2 = true
is_key s2 = true
is_key _ = false

abbrev is_surge : LegVolume → Bool
is_surge surge = true
is_surge _ = false

abbrev is_dried : LegVolume → Bool
is_dried dried = true
is_dried _ = false

module _ {W : Type 0} ⦃f : Num W⦄ where
  -- The constants of the module.
  abbrev pub counter_wall_min : W
  counter_wall_min = f.lit 52 1

  abbrev pub cluster_atr : W
  cluster_atr = f.lit 25 2

  abbrev pub reach_atr : W
  reach_atr = f.lit 5 1

  abbrev pub at_pivot_atr : W
  at_pivot_atr = f.lit 5 1

  abbrev pub counter_score_min : W
  counter_score_min = f.lit 5 1

  -- `Leg.volume`
  unfoldable pub volume_of : Option W → Option W → LegVolume
  volume_of (some t) (some t1) =
      if ge t (f.lit 25 1)
      then surge
      else if (gt t nought && lt t (f.lit 85 2)) && (gt t1 nought && lt t1 (f.lit 85 2))
      then dried
      else average
  volume_of _ _ = unknown

  abbrev pub leg_volume : Leg W → LegVolume
  leg_volume leg = volume_of leg.surge_t leg.surge_t1

  -- `abs(p.price - x)`
  abbrev pub off : W → PivotPoint W → W
  off x p = f.abs (p.price ⊖ x)

  -- `[p for p in points if abs(p.price - anchor.price) <= width]`
  abbrev pub around : W → PivotPoint W → List (PivotPoint W) → List (PivotPoint W)
  around width anchor points = select (λ p. le (off anchor.price p) width) points

  abbrev pub nearest_off : W → List (PivotPoint W) → W
  nearest_off x [] = nought
  nearest_off x (p ∷ ps) = least_from (off x) (off x p) ps

  unfoldable pub group_at : W → W → List (PivotPoint W) → PivotPoint W → PivotGroup W
  group_at width close_price key anchor =
      let grp : List (PivotPoint W) = around width anchor key in
      record {
        near = nearest_off close_price grp;
        strength = sum_of (λ p. p.weight) grp;
        members = grp;
      }

  -- `cand[:2] < best[:2]`, where the second part is the strength negated
  abbrev goes_before : PivotGroup W → PivotGroup W → Bool
  goes_before cand best =
      if f.eq cand.near best.near then gt cand.strength best.strength else lt cand.near best.near

  -- `sign * x`
  abbrev with_sign : Bool → W → W
  with_sign bullish x = if bullish then x else minus_one ⊗ x

  unfoldable pub volume_factor : LegVolume → LegVolume → Bool → W
  unfolding max_of
  volume_factor volume other_volume rejected =
      let plain : W =
        if is_surge volume || is_surge other_volume
        then nought
        else if is_dried volume
        then of_nat 1
        else if is_dried other_volume
        then f.lit 75 2
        else f.lit 5 1 in
      if rejected && gt plain nought then max_of plain (f.lit 75 2) else plain

  abbrev pub by_price : List (PivotPoint W) → List Label
  by_price ps = map (λ p. p.label) (sort_by (λ p q. lt p.price q.price) ps)

  -- `max(0.0, 1 - x / AT_PIVOT_ATR)`
  abbrev fading : W → W
  fading x = max_of nought (of_nat 1 ⊖ x ⊘ at_pivot_atr)

  -- The read of a leg against the chosen group, whose member nearest the close is at `line`.
  unfoldable pub read_of : Leg W → Bool → LegVolume → PivotGroup W → W → PivotRead W
  unfolding max_of min_of volume_factor
  read_of leg bullish other_volume grp line =
      let crossed : W = with_sign bullish (leg.close_price ⊖ line) ⊘ leg.atr in
      let extreme : W = if bullish then leg.high else leg.low in
      let pierced : W = with_sign bullish (extreme ⊖ line) ⊘ leg.atr in
      let rng : W = leg.high ⊖ leg.low in
      let close_pos : W = if gt rng nought then (leg.close_price ⊖ leg.low) ⊘ rng else f.lit 5 1 in
      let opposed : W = if bullish then of_nat 1 ⊖ close_pos else close_pos in
      let rejected = ge pierced (f.lit 1 1) && lt crossed nought && ge opposed (f.lit 40 2) in
      let dist : W = f.abs crossed in
      let share : W = min_of (f.lit 20 1) (grp.strength ⊘ counter_wall_min) in
      let cross_factor : W = if le crossed nought then f.lit 10 1 else fading crossed in
      record {
        leg = leg.name;
        level = line;
        members = by_price grp.members;
        strength = grp.strength;
        dist_atr = dist;
        crossed_atr = crossed;
        pierced_atr = pierced;
        rejected = rejected;
        volume = leg_volume leg;
        surge_t = leg.surge_t;
        surge_t1 = leg.surge_t1;
        score =
            fading dist
            ⊗ share
            ⊗ cross_factor
            ⊗ volume_factor (leg_volume leg) other_volume rejected;
      }

  -- A group is never empty: its anchor is in it.
  unfoldable pub read_group :
      Leg W → Bool → LegVolume → Option (PivotGroup W) → Option (PivotRead W)
  unfolding read_of
  read_group leg bullish other_volume none = none
  read_group leg bullish other_volume (some grp) =
      elim (min_by (λ p q. lt (off leg.close_price p) (off leg.close_price q)) grp.members) [
        | none ↦ none
        | some p ↦ some (read_of leg bullish other_volume grp p.price)
      ]

  unfoldable pub at_pivot_read : Leg W → Bool → LegVolume → Option (PivotRead W)
  unfolding read_group group_at
  at_pivot_read leg bullish other_volume =
      let key : List (PivotPoint W) =
        select (λ p. gt p.price nought && is_key p.label.level) leg.points in
      if le leg.atr nought || le leg.close_price nought
      then none
      else read_group leg bullish other_volume
          (min_by goes_before (map (group_at (cluster_atr ⊗ leg.atr) leg.close_price key) key))
