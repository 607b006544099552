-- ===== src/Bars/Pivots.antt =====
-- backend/kotsin_nse/bars/pivots.py: the pivots of a period and the zones that their levels form. A
-- label such as "1d.R2" is kept as its two parts.
pub mod Clusters
use kotsin_nse.Prelude.{
  Bool, false, Option, none, some, List, [], ◌∷◌, ◌++◌, ◌||◌, map, last?, select, if◌then◌else◌,
}
use kotsin_nse.Prelude.Sort.{sort_by}
use kotsin_nse.Num.{Num, ◌⊕◌, ◌⊖◌, ◌⊗◌, ◌⊘◌, le, gt, ge, nought, of_nat, truthy, max_of, min_of}
use kotsin_nse.Num.Sum.{sum_of}

-- `Timeframe`
pub data PivotFrame : Type 0 where
  day week month : PivotFrame

pub data Level : Type 0 where
  pivot r1 r2 r3 r4 s1 s2 s3 s4 tc bc : Level

pub record Label : Type 0 where
  pub frame : PivotFrame
  pub level : Level

pub record PivotLevels (W : Type 0) : Type 0 where
  pub pivot : W
  pub r1 : W
  pub r2 : W
  pub r3 : W
  pub r4 : W
  pub s1 : W
  pub s2 : W
  pub s3 : W
  pub s4 : W
  pub fib_r1 : W
  pub fib_r2 : W
  pub fib_r3 : W
  pub fib_s1 : W
  pub fib_s2 : W
  pub fib_s3 : W
  pub cam_r1 : W
  pub cam_r2 : W
  pub cam_r3 : W
  pub cam_r4 : W
  pub cam_s1 : W
  pub cam_s2 : W
  pub cam_s3 : W
  pub cam_s4 : W
  pub tc : W
  pub bc : W

pub record PivotPoint (W : Type 0) : Type 0 where
  pub price : W
  pub label : Label
  pub weight : W

-- `price` is the mean of the cluster.
pub record Zone (W : Type 0) : Type 0 where
  pub price : W
  pub strength : W
  pub members : List Label

-- `STANDARD_LEVELS`
abbrev pub standard_levels : List Level
standard_levels = Level.pivot ∷ r1 ∷ r2 ∷ r3 ∷ r4 ∷ s1 ∷ s2 ∷ s3 ∷ s4 ∷ Level.tc ∷ Level.bc ∷ []

module _ {W : Type 0} ⦃f : Num W⦄ where
  -- `TF_WEIGHT`
  abbrev pub tf_weight : PivotFrame → W
  tf_weight day = f.lit 40 1
  tf_weight week = f.lit 32 1
  tf_weight month = f.lit 20 1

  -- `WALL_MIN_STRENGTH`
  abbrev pub wall_min_strength : W
  wall_min_strength = f.lit 52 1

  -- `ZONE_TOLERANCE_PCT`
  abbrev pub zone_tolerance_pct : W
  zone_tolerance_pct = f.lit 25 2

  unfoldable pub classic_pivots : W → W → W → Option (PivotLevels W)
  unfolding max_of min_of
  classic_pivots high low close_price =
      let p : W = (high ⊕ low ⊕ close_price) ⊘ of_nat 3 in
      let rng : W = high ⊖ low in
      let bc_raw : W = (high ⊕ low) ⊘ of_nat 2 in
      let tc_raw : W = of_nat 2 ⊗ p ⊖ bc_raw in
      let cam : W = rng ⊗ f.lit 11 1 in
      if le high nought || le low nought || le close_price nought
      then none
      else some record {
        pivot = p;
        r1 = of_nat 2 ⊗ p ⊖ low;
        s1 = of_nat 2 ⊗ p ⊖ high;
        r2 = p ⊕ rng;
        s2 = p ⊖ rng;
        r3 = p ⊕ of_nat 2 ⊗ rng;
        s3 = p ⊖ of_nat 2 ⊗ rng;
        r4 = p ⊕ of_nat 3 ⊗ rng;
        s4 = p ⊖ of_nat 3 ⊗ rng;
        fib_r1 = p ⊕ f.lit 382 3 ⊗ rng;
        fib_r2 = p ⊕ f.lit 618 3 ⊗ rng;
        fib_r3 = p ⊕ f.lit 10 1 ⊗ rng;
        fib_s1 = p ⊖ f.lit 382 3 ⊗ rng;
        fib_s2 = p ⊖ f.lit 618 3 ⊗ rng;
        fib_s3 = p ⊖ f.lit 10 1 ⊗ rng;
        cam_r1 = close_price ⊕ cam ⊘ of_nat 12;
        cam_r2 = close_price ⊕ cam ⊘ of_nat 6;
        cam_r3 = close_price ⊕ cam ⊘ of_nat 4;
        cam_r4 = close_price ⊕ cam ⊘ of_nat 2;
        cam_s1 = close_price ⊖ cam ⊘ of_nat 12;
        cam_s2 = close_price ⊖ cam ⊘ of_nat 6;
        cam_s3 = close_price ⊖ cam ⊘ of_nat 4;
        cam_s4 = close_price ⊖ cam ⊘ of_nat 2;
        tc = max_of tc_raw bc_raw;
        bc = min_of tc_raw bc_raw;
      }

  -- `getattr(levels, name)`
  abbrev level_of : PivotLevels W → Level → W
  level_of l Level.pivot = l.pivot
  level_of l r1 = l.r1
  level_of l r2 = l.r2
  level_of l r3 = l.r3
  level_of l r4 = l.r4
  level_of l s1 = l.s1
  level_of l s2 = l.s2
  level_of l s3 = l.s3
  level_of l s4 = l.s4
  level_of l Level.tc = l.tc
  level_of l Level.bc = l.bc

  unfoldable pub pivot_points : PivotLevels W → PivotFrame → List (PivotPoint W)
  pivot_points levels tf =
      map
        (λ name. record {
          price = level_of levels name;
          label = record { frame = tf; level = name };
          weight = tf_weight tf;
        })
        (select (λ name. gt (level_of levels name) nought) standard_levels)

  -- `is_wall`
  abbrev pub is_wall : Zone W → Bool
  is_wall z = ge z.strength wall_min_strength

  -- `flush` in `cluster_zones`, the zone of a bucket
  unfoldable pub zone_of : PivotPoint W → List (PivotPoint W) → Zone W
  zone_of p ps =
      let bucket : List (PivotPoint W) = p ∷ ps in
      let total : W = sum_of (λ q. q.weight) bucket in
      record {
        price = if truthy total then sum_of (λ q. q.price ⊗ q.weight) bucket ⊘ total else p.price;
        strength = total;
        members = map (λ q. q.label) bucket;
      }

  abbrev flush : List (PivotPoint W) → List (Zone W)
  flush [] = []
  flush (p ∷ ps) = zone_of p ps ∷ []

  -- `abs(p.price - bucket[-1].price) / max(p.price, 1e-9) * 100 > tolerance_pct`
  unfoldable pub is_gap : W → PivotPoint W → PivotPoint W → Bool
  unfolding max_of
  is_gap tolerance_pct last p =
      gt (f.abs (p.price ⊖ last.price) ⊘ max_of p.price (f.lit 1 9) ⊗ of_nat 100) tolerance_pct

  unfoldable pub starts_anew : W → List (PivotPoint W) → PivotPoint W → Bool
  starts_anew tolerance_pct bucket p = elim (last? bucket) [
    | none ↦ false
    | some last ↦ is_gap tolerance_pct last p
  ]

  -- The loop of `cluster_zones`, with the bucket that is open; it gives the zones still to come.
  unfoldable pub zones_from : W → List (PivotPoint W) → List (PivotPoint W) → List (Zone W)
  unfolding zone_of is_gap
  zones_from tolerance_pct bucket [] = flush bucket
  zones_from tolerance_pct bucket (p ∷ ps) =
      let fresh = starts_anew tolerance_pct bucket p in
      let rest = zones_from tolerance_pct (if fresh then p ∷ [] else bucket ++ p ∷ []) ps in
      if fresh then flush bucket ++ rest else rest

  -- `live` in `cluster_zones`
  unfoldable pub live_points : List (PivotPoint W) → List (PivotPoint W)
  live_points points =
      sort_by (λ p q. f.lt p.price q.price) (select (λ p. gt p.price nought) points)

  unfoldable pub cluster_zones : W → List (PivotPoint W) → List (Zone W)
  unfolding zones_from live_points
  cluster_zones tolerance_pct points = zones_from tolerance_pct [] (live_points points)
