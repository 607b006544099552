-- ===== src/Bars/Confluence.antt =====
-- backend/kotsin_nse/bars/pivots.py: the stop, the targets and the grade of a signal
-- (`compute_confluence`). Notes are left out; the labels of a zone are a list, where the code joins
-- them to a text.
pub mod Plan
pub mod Fortress
use kotsin_nse.Prelude.{
  ℕ, Bool, true, false, not, ◌&&◌, ◌||◌, Option, none, some, List, [], ◌∷◌, length, map, select,
  take, if◌then◌else◌,
}
use kotsin_nse.Prelude.Int.{ℤ, pos, ◌+ℤ◌}
use kotsin_nse.Prelude.Sort.{sort_by}
use kotsin_nse.Num.{Num, ◌⊕◌, ◌⊖◌, ◌⊗◌, ◌⊘◌, lt, le, gt, ge, nought, of_nat}
use kotsin_nse.Bars.Pivots.{Label, Zone, is_wall}

pub data Grade : Type 0 where
  grade_a grade_b grade_c grade_f : Grade

pub record GradePolicy (W : Type 0) : Type 0 where
  pub rr_hard_floor : W
  pub rr_a : W
  pub rr_b : W
  pub rr_c : W
  pub room_min_atr : W
  pub fortress_block : W
  pub max_targets : ℕ
  pub min_stop_atr : W
  pub stop_requires_wall : Bool
  pub min_stop_atr_filter : W

pub record Confluence (W : Type 0) : Type 0 where
  pub stop : W
  pub targets : List W
  pub grade : Grade
  pub rr : W
  pub fortress : W
  pub room_ratio : W
  pub zones_considered : ℕ
  pub stop_zone : List Label
  pub target_zones : List (List Label)

abbrev pub is_f : Grade → Bool
is_f grade_f = true
is_f _ = false

abbrev is_a_or_b : Grade → Bool
is_a_or_b grade_a = true
is_a_or_b grade_b = true
is_a_or_b _ = false

-- `p == q` for truth values
abbrev pub agrees : Bool → Bool → Bool
agrees p true = p
agrees p false = not p

module _ {W : Type 0} ⦃f : Num W⦄ where
  -- `blocked`
  abbrev pub is_blocked : Confluence W → Bool
  is_blocked c = is_f c.grade

  -- The defaults of `GradePolicy`.
  abbrev pub default_grades : GradePolicy W
  default_grades = record {
    rr_hard_floor = f.lit 10 1;
    rr_a = f.lit 25 1;
    rr_b = f.lit 18 1;
    rr_c = f.lit 12 1;
    room_min_atr = f.lit 5 1;
    fortress_block = f.lit 120 1;
    max_targets = 4;
    min_stop_atr = nought;
    stop_requires_wall = false;
    min_stop_atr_filter = nought;
  }

  -- `step`, where none is given
  abbrev step_for : W → W
  step_for price =
      if ge price (of_nat 2000)
      then of_nat 100
      else if ge price (of_nat 500)
      then of_nat 50
      else if ge price (of_nat 100)
      then of_nat 10
      else of_nat 1

  -- `snapped`, before the cap
  abbrev snapped_to : Bool → W → W → W
  snapped_to up step price =
      let q : W = price ⊘ step in
      let whole : W = f.of_int (f.trunc q) in
      let first : W =
        if up && not (f.eq q whole)
        then f.of_int (f.trunc q +ℤ pos 1) ⊗ step
        else f.of_int (f.trunc q) ⊗ step in
      let second : W = if up && lt first price then first ⊕ step else first in
      if not up && gt second price then second ⊖ step else second

  -- `MAX_SNAP_FRACTION` is 0.2.
  abbrev snaps_too_far : W → W → W → Bool
  snaps_too_far anchor price snapped =
      let distance : W = f.abs (price ⊖ anchor) in
      gt distance nought && gt (f.abs (snapped ⊖ price)) (f.lit 2 1 ⊗ distance)

  abbrev capped_by : Option W → W → W → W
  capped_by none price snapped = f.round 2 snapped
  capped_by (some anchor) price snapped =
      if snaps_too_far anchor price snapped then f.round 2 price else f.round 2 snapped

  abbrev or_step : Option W → W → W
  or_step none price = step_for price
  or_step (some step) price = step

  unfoldable pub round_figure_snap : W → Bool → Option W → Option W → W
  round_figure_snap price up step anchor =
      if le price nought
      then price
      else capped_by anchor price (snapped_to up (or_step step price) price)

  -- `tick`; `round(x)` is `round(x, 0)` as a number.
  unfoldable pub to_tick : W → W → W
  to_tick tick_size px =
      if gt tick_size nought
      then f.round 4 (f.round 0 (px ⊘ tick_size) ⊗ tick_size)
      else f.round 4 px

  -- `z.price < close` for a bullish signal, and its negation for a bearish one
  abbrev pub is_behind : Bool → W → Zone W → Bool
  is_behind bullish close_price z = agrees (lt z.price close_price) bullish

  abbrev pub is_ahead : Bool → W → Zone W → Bool
  is_ahead bullish close_price z = agrees (gt z.price close_price) bullish

  -- `close - sign * distance`
  abbrev behind_by : Bool → W → W → W
  behind_by bullish close_price distance =
      if bullish then close_price ⊖ distance else close_price ⊕ distance

  abbrev pub is_nearer : W → Zone W → Zone W → Bool
  is_nearer close_price y z = lt (f.abs (y.price ⊖ close_price)) (f.abs (z.price ⊖ close_price))

  abbrev unless_none : List (Zone W) → List (Zone W) → List (Zone W)
  unless_none [] zs = zs
  unless_none (w ∷ ws) zs = w ∷ ws

  -- `behind`, the nearest first
  abbrev zones_behind : Bool → GradePolicy W → W → List (Zone W) → List (Zone W)
  zones_behind bullish pol close_price zones =
      let behind : List (Zone W) = select (is_behind bullish close_price) zones in
      sort_by (λ y z. lt (f.abs (close_price ⊖ y.price)) (f.abs (close_price ⊖ z.price)))
        (if pol.stop_requires_wall then unless_none (select is_wall behind) behind else behind)

  -- `walls`, with their cut
  unfoldable pub walls_ahead : Bool → GradePolicy W → W → List (Zone W) → List (Zone W)
  walls_ahead bullish pol close_price zones = take pol.max_targets (
      select is_wall
        (sort_by (is_nearer close_price) (select (is_ahead bullish close_price) zones)))

  unfoldable pub first_grade : GradePolicy W → W → W → W → Grade
  first_grade pol rr fortress room_ratio =
      if lt rr pol.rr_hard_floor || (lt rr (f.lit 10 1) && ge fortress pol.fortress_block)
      then grade_f
      else if ge rr pol.rr_a && ge room_ratio pol.room_min_atr
      then grade_a
      else if ge rr pol.rr_b
      then grade_b
      else if ge rr pol.rr_c
      then grade_c
      else grade_f

  -- With little room ahead a grade is capped at C.
  unfoldable pub grade_of : GradePolicy W → W → W → W → Grade
  unfolding first_grade
  grade_of pol rr fortress room_ratio =
      let first = first_grade pol rr fortress room_ratio in
      if is_a_or_b first && lt room_ratio pol.room_min_atr then grade_c else first

  -- The stop and the labels of its zone, before the floor on its distance.
  unfoldable pub first_stop : Bool → W → W → W → List (Zone W) → W × List Label
  unfolding to_tick
  first_stop bullish close_price atr tick_size [] =
      (to_tick tick_size (behind_by bullish close_price atr), [])
  first_stop bullish close_price atr tick_size (z ∷ zs) = (to_tick tick_size z.price, z.members)

  -- `min_stop_atr`
  unfoldable pub widened_stop : Bool → GradePolicy W → W → W → W → W → W
  unfolding to_tick
  widened_stop bullish pol close_price atr tick_size stop =
      if gt pol.min_stop_atr nought && lt (f.abs (close_price ⊖ stop)) (pol.min_stop_atr ⊗ atr)
      then to_tick tick_size (behind_by bullish close_price (pol.min_stop_atr ⊗ atr))
      else stop

  abbrev pub no_plan : W → List Label → List (Zone W) → Confluence W
  no_plan stop label zones = record {
    stop = stop;
    targets = [];
    grade = grade_f;
    rr = nought;
    fortress = nought;
    room_ratio = nought;
    zones_considered = length zones;
    stop_zone = label;
    target_zones = [];
  }

  unfoldable pub target_of : Bool → W → W → Zone W → W
  unfolding to_tick round_figure_snap
  target_of bullish close_price tick_size z =
      to_tick tick_size (round_figure_snap z.price bullish none (some close_price))

  abbrev next_price : W → List (Zone W) → W
  next_price target [] = target
  next_price target (z ∷ zs) = z.price

  -- What follows the tests of the risk, from the walls ahead.
  unfoldable pub plan_from :
      Bool
      → GradePolicy W
      → W
      → W
      → W
      → List (Zone W)
      → W
      → List Label
      → List (Zone W)
      → Confluence W
  unfolding target_of grade_of
  plan_from bullish pol close_price atr tick_size zones stop label [] = no_plan stop label zones
  plan_from bullish pol close_price atr tick_size zones stop label (w ∷ ws) =
      let target : W = target_of bullish close_price tick_size w in
      let rr : W = f.abs (target ⊖ close_price) ⊘ f.abs (close_price ⊖ stop) in
      let room : W =
        if gt atr nought then f.abs (next_price target ws ⊖ close_price) ⊘ atr else nought in
      record {
        stop = stop;
        targets = target ∷ map (target_of bullish close_price tick_size) ws;
        grade = grade_of pol rr w.strength room;
        rr = f.round 3 rr;
        fortress = f.round 2 w.strength;
        room_ratio = f.round 3 room;
        zones_considered = length zones;
        stop_zone = label;
        target_zones = map (λ z. z.members) (w ∷ ws);
      }

  -- `risk <= 0`, or inside the noise that `min_stop_atr_filter` is about
  unfoldable pub is_refused : GradePolicy W → W → W → Bool
  is_refused pol atr risk =
      le risk nought
      || (gt pol.min_stop_atr_filter nought
          && gt atr nought
          && lt risk (pol.min_stop_atr_filter ⊗ atr))

  -- What follows the choice of the stop.
  unfoldable pub plan_with :
      Bool → GradePolicy W → W → W → W → List (Zone W) → W → List Label → Confluence W
  plan_with bullish pol close_price atr tick_size zones stop label =
      if is_refused pol atr (f.abs (close_price ⊖ stop))
      then no_plan stop label zones
      else plan_from bullish pol close_price atr tick_size zones stop label
          (walls_ahead bullish pol close_price zones)

  unfoldable pub compute_confluence :
      Bool → GradePolicy W → W → W → W → List (Zone W) → Confluence W
  compute_confluence bullish pol close_price atr tick_size zones =
      let first : W × List Label =
        first_stop bullish close_price atr tick_size (zones_behind bullish pol close_price zones) in
      plan_with bullish pol close_price atr tick_size zones
        (widened_stop bullish pol close_price atr tick_size first.0) first.1
