-- ===== src/Bars/Confluence/Plan.antt =====
-- What a plan that is not blocked promises.
use kotsin_nse.Prelude.{
  ℕ, zero, suc, ◌≤◌, ◌≡◌, refl, subst, Bool, true, false, List, [], ◌∷◌, All, length, map, select,
  take, length-take, All-take, if◌then◌else◌, arith,
}
use kotsin_nse.Prelude.Sort.{IsIn, All-IsIn, sort_by}
use kotsin_nse.Prelude.Sort.Order.{Sorts, IsSorted, select-IsSorted, sort_by-IsSorted, All-unsorted}
use kotsin_nse.Num.{Num, ◌⊖◌, gt, nought}
use kotsin_nse.Num.Laws.{◌≼◌, IsOrdered}
use kotsin_nse.Bars.Pivots.{Label, Zone, is_wall}
use kotsin_nse.Bars.Confluence.{
  GradePolicy, Confluence, is_f, is_ahead, is_nearer, grade_of, walls_ahead, target_of, is_refused,
  plan_from, plan_with, no_plan, compute_confluence,
}

module _ {W : Type 0} ⦃f : Num W⦄ (laws : IsOrdered W) where
  open laws use {le_refl, le_trans, lt-eq-not-le, le_of_lt, round_mono}

  module _ (bullish : Bool) (pol : GradePolicy W) (close_price : W) (zones : List (Zone W)) where
    abbrev NoFarther : Zone W → Zone W → Type 0
    NoFarther y z = f.abs (y.price ⊖ close_price) ≼ f.abs (z.price ⊖ close_price)

    -- The walls of the zones that lie ahead.
    abbrev pub ahead_walls : List (Zone W)
    ahead_walls = select is_wall (select (is_ahead bullish close_price) zones)

    -- A stop off the close, and targets at the nearest wall ahead and at further ones.
    pub record IsPlan (tick_size : W) (plan : Confluence W) : Type 0 where
      pub first : Zone W
      pub others : List (Zone W)
      pub targets : plan.targets ≡ map (target_of bullish close_price tick_size) (first ∷ others)
      pub labels : plan.target_zones ≡ map (λ z. z.members) (first ∷ others)
      pub few : length (first ∷ others) ≤ pol.max_targets
      pub ahead : All (λ z. IsIn z ahead_walls) (first ∷ others)
      pub nearest : All (NoFarther first) ahead_walls
      pub risk : gt (f.abs (close_price ⊖ plan.stop)) nought ≡ true
      pub floor : f.round 3 pol.rr_hard_floor ≼ plan.rr

    is_nearer-Sorts : Sorts (is_nearer close_price) NoFarther
    is_nearer-Sorts = record {
      le_of_less = λ a b e. le_of_lt _ _ e;
      le_of_not = λ a b e.
          ground (
            arith,
            e,
            lt-eq-not-le (f.abs (a.price ⊖ close_price)) (f.abs (b.price ⊖ close_price)),
          );
      trans = λ a b c h k. le_trans _ _ _ h k;
    }

    first-least :
        (n : ℕ) (xs : List (Zone W)) (w : Zone W) (ws : List (Zone W))
        → IsSorted NoFarther xs
        → take n xs ≡ w ∷ ws
        → All (NoFarther w) xs
    first-least zero xs w ws s e = ground (arith, e)
    first-least (suc n) [] w ws s e = ground (arith, e)
    first-least (suc n) (x ∷ xs) w ws s e =
        let same : x ≡ w = ground (arith, e) in
        subst (λ v. All (NoFarther v) (x ∷ xs)) same (le_refl _, s.0)

    -- The walls that a plan aims at are walls ahead, and the first is the nearest.
    walls_ahead_lem :
        (w : Zone W) (ws : List (Zone W))
        → walls_ahead bullish pol close_price zones ≡ w ∷ ws
        → (length (w ∷ ws) ≤ pol.max_targets)
          × All (λ z. IsIn z ahead_walls) (w ∷ ws)
          × All (NoFarther w) ahead_walls
    unfolding walls_ahead
    walls_ahead_lem w ws e =
        let found = select (is_ahead bullish close_price) zones in
        let ranked = select is_wall (sort_by (is_nearer close_price) found) in
        let inside =
          (All-unsorted (λ z. IsIn z ahead_walls) is_wall (is_nearer close_price) found).0 in
        let sorted = sort_by-IsSorted NoFarther (is_nearer close_price) is_nearer-Sorts found in
        (
          subst (λ l. length l ≤ pol.max_targets) e (length-take pol.max_targets ranked),
          subst (All (λ z. IsIn z ahead_walls)) e
              (All-take _ pol.max_targets ranked (inside (All-IsIn ahead_walls))),
          (All-unsorted (NoFarther w) is_wall (is_nearer close_price) found).1 (
              first-least pol.max_targets ranked w ws (select-IsSorted NoFarther is_wall _ sorted)
                e),
        )

    -- The hard floor holds for every grade but F.
    grade_of-le :
        (rr fortress room : W)
        → is_f (grade_of pol rr fortress room) ≡ false
        → pol.rr_hard_floor ≼ rr
    unfolding grade_of
    grade_of-le rr fortress room h = ground (arith, h, lt-eq-not-le rr pol.rr_hard_floor)

    plan_from-IsPlan :
        (atr tick_size stop : W) (label : List Label) (ws : List (Zone W))
        → walls_ahead bullish pol close_price zones ≡ ws
        → is_refused pol atr (f.abs (close_price ⊖ stop)) ≡ false
        → is_f (plan_from bullish pol close_price atr tick_size zones stop label ws).grade ≡ false
        → IsPlan tick_size (plan_from bullish pol close_price atr tick_size zones stop label ws)
    unfolding plan_from is_refused
    plan_from-IsPlan atr tick_size stop label [] e r h = ground (arith, h)
    plan_from-IsPlan atr tick_size stop label (w ∷ ws) e r h =
        let known = walls_ahead_lem w ws e in
        record {
          first = w;
          others = ws;
          targets = refl;
          labels = refl;
          few = known.0;
          ahead = known.1;
          nearest = known.2;
          risk = ground (arith, r, lt-eq-not-le nought (f.abs (close_price ⊖ stop)));
          floor = round_mono 3 _ _ (grade_of-le _ _ _ h);
        }

    unless_refused :
        (tick_size : W) (refused : Bool) (x y : Confluence W)
        → is_f x.grade ≡ true
        → (refused ≡ false → is_f y.grade ≡ false → IsPlan tick_size y)
        → is_f (if refused then x else y).grade ≡ false
        → IsPlan tick_size (if refused then x else y)
    unless_refused tick_size true x y e k h = ground (arith, e, h)
    unless_refused tick_size false x y e k h = k refl h

    plan_with-IsPlan :
        (atr tick_size stop : W) (label : List Label)
        → is_f (plan_with bullish pol close_price atr tick_size zones stop label).grade ≡ false
        → IsPlan tick_size (plan_with bullish pol close_price atr tick_size zones stop label)
    unfolding plan_with
    plan_with-IsPlan atr tick_size stop label h =
        let walls = walls_ahead bullish pol close_price zones in
        unless_refused tick_size (is_refused pol atr (f.abs (close_price ⊖ stop)))
          (no_plan stop label zones)
          (plan_from bullish pol close_price atr tick_size zones stop label walls) refl
          (λ r k. plan_from-IsPlan atr tick_size stop label walls refl r k) h

    -- A plan that is not blocked has its stop off the close and at most the policy's number of
    -- targets, at least one; they stand at walls of the zones that lie ahead of the close, the first
    -- at the nearest of these, and its ratio of reward to risk is not below the policy's hard floor.
    pub compute_confluence-IsPlan :
        (atr tick_size : W)
        → is_f (compute_confluence bullish pol close_price atr tick_size zones).grade ≡ false
        → IsPlan tick_size (compute_confluence bullish pol close_price atr tick_size zones)
    unfolding compute_confluence
    compute_confluence-IsPlan atr tick_size h = plan_with-IsPlan atr tick_size _ _ h
