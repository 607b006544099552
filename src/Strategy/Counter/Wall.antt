-- ===== src/Strategy/Counter/Wall.antt =====
-- `evaluate_wall` of backend/kotsin_nse/strategy/counter.py, with the widths that its one call leaves
-- at their defaults. The dict of scores by the identity of a level is a list by its place.
pub mod Strongest
use kotsin_nse.Prelude.{
  ℕ, suc, Bool, ◌&&◌, ◌||◌, none, some, List, [], ◌∷◌, ◌==◌, map, select, if◌then◌else◌,
}
use kotsin_nse.Prelude.Sort.{sort_by}
use kotsin_nse.Num.{Num, ◌⊕◌, ◌⊖◌, ◌⊗◌, ◌⊘◌, lt, le, gt, ge, nought}
use kotsin_nse.Num.Sum.{sum_of}
use kotsin_nse.Bars.Pivots.{PivotPoint}
use kotsin_nse.Strategy.Counter.{WallEval, cluster_atr, reach_atr, off, nearest_off, by_price}

-- A level with its score.
pub record Scored (W : Type 0) : Type 0 where
  pub point : PivotPoint W
  pub score : W

-- The list with the place of each element.
abbrev pub numbered : {A : Type 0} → ℕ → List A → List (ℕ × A)
numbered i [] = []
numbered i (x ∷ xs) = (i, x) ∷ numbered (suc i) xs

module _ {W : Type 0} ⦃f : Num W⦄ where
  abbrev pub no_wall : WallEval W
  no_wall = record { strength = nought; members = []; dist_atr = none }

  -- `NEARNESS_RANK`, its last entry for every later place
  abbrev nearness_rank : ℕ → W
  nearness_rank i =
      if i == 0
      then f.lit 10 1
      else if i == 1
      then f.lit 8 1
      else if i == 2
      then f.lit 6 1
      else f.lit 4 1

  -- `in_candle or just_past`, for a price above 0
  unfoldable pub is_in_way : Bool → W → W → W → W → PivotPoint W → Bool
  is_in_way bullish close_price high low atr p =
      let extreme : W = if bullish then high else low in
      let beyond = if bullish then ge p.price close_price else le p.price close_price in
      let past =
        if bullish
        then lt extreme p.price && le p.price (extreme ⊕ reach_atr ⊗ atr)
        else le (extreme ⊖ reach_atr ⊗ atr) p.price && lt p.price extreme in
      gt p.price nought && ((le low p.price && le p.price high && beyond) || past)

  abbrev ranks_from : ℕ → List (ℕ × PivotPoint W) → List (ℕ × W)
  ranks_from place [] = []
  ranks_from place ((i, p) ∷ ps) = (i, p.weight ⊗ nearness_rank place) ∷ ranks_from (suc place) ps

  abbrev pub score_at : ℕ → List (ℕ × W) → W
  score_at i [] = nought
  score_at i ((j, s) ∷ scores) = if i == j then s else score_at i scores

  -- `score`, by the places of the levels
  abbrev pub scores_of : W → List (ℕ × PivotPoint W) → List (ℕ × W)
  scores_of close_price places =
      ranks_from 0 (sort_by (λ a b. lt (off close_price a.1) (off close_price b.1)) places)

  -- `ahead`, each level with its score
  unfoldable pub scored : W → List (PivotPoint W) → List (Scored W)
  scored close_price ahead =
      let places = numbered 0 ahead in
      let scores = scores_of close_price places in
      map (λ a. record { point = a.1; score = score_at a.0 scores }) places

  -- `grp` of an anchor
  abbrev pub cluster_at : W → List (Scored W) → Scored W → List (Scored W)
  cluster_at width ahead anchor = select (λ s. le (off anchor.point.price s.point) width) ahead

  abbrev pub strength_at : W → List (Scored W) → Scored W → W
  strength_at width ahead anchor = sum_of (λ s. s.score) (cluster_at width ahead anchor)

  -- The loop over the anchors, with `best` and `group`.
  unfoldable pub strongest :
      W → List (Scored W) → W → List (Scored W) → List (Scored W) → W × List (Scored W)
  strongest width ahead best group [] = (best, group)
  strongest width ahead best group (a ∷ anchors) =
      let grp = cluster_at width ahead a in
      let total : W = sum_of (λ s. s.score) grp in
      strongest width ahead (if gt total best then total else best)
        (if gt total best then grp else group) anchors

  unfoldable pub wall_of : W → W → W × List (Scored W) → WallEval W
  wall_of close_price atr (best, []) = no_wall
  wall_of close_price atr (best, s ∷ group) =
      let points = map (λ t. t.point) (s ∷ group) in
      record {
        strength = best;
        members = by_price points;
        dist_atr = some (nearest_off close_price points ⊘ atr);
      }

  abbrev pub levels_in_way : Bool → W → W → W → W → List (PivotPoint W) → List (Scored W)
  levels_in_way bullish close_price high low atr points =
      scored close_price (select (is_in_way bullish close_price high low atr) points)

  unfoldable pub evaluate_wall : Bool → W → W → W → W → List (PivotPoint W) → WallEval W
  evaluate_wall bullish close_price high low atr points =
      let ahead = levels_in_way bullish close_price high low atr points in
      if le atr nought || le close_price nought
      then no_wall
      else wall_of close_price atr (strongest (cluster_atr ⊗ atr) ahead nought [] ahead)
