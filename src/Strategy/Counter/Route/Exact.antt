-- ===== src/Strategy/Counter/Route/Exact.antt =====
-- When a trigger is faded.
use kotsin_nse.Prelude.{
  ◌≡◌, ◌≢◌, refl, sym, ap, ◌∙◌, String, Bool, true, false, ◌&&◌, ◌||◌, Bool-cases, inl, inr, none,
  List, [], ◌∷◌, All, select, if◌then◌else◌, arith,
}
use kotsin_nse.Prelude.Dict.{Dict, lookup, insert, lookup-insert}
use kotsin_nse.Prelude.Sort.{min_by, min_from, All-select, All-both}
use kotsin_nse.Prelude.Strings.{str_eq}
use kotsin_nse.Num.{Num, gt, ge}
use kotsin_nse.Num.Laws.{IsOrdered}
use kotsin_nse.Strategy.Counter.{
  Leg, PivotRead, WallEval, RouteName, counter, in_trend, counter_score_min,
}
use kotsin_nse.Strategy.Counter.Route.{
  is_live, leg_wall, by_leg, reads_of, is_faded_at, decide, counter_route,
}

abbrev pub is_counter : RouteName → Bool
is_counter counter = true
is_counter in_trend = false

-- One of the list passes the test.
abbrev pub any_of : {A : Type 0} → (A → Bool) → List A → Bool
any_of t [] = false
any_of t (x ∷ xs) = t x || any_of t xs

any_of-insert :
    {A : Type 0} (t : A → Bool) (k : String) (v : A) (d : Dict A)
    → lookup k d ≡ none
    → any_of (λ e. t e.1) (insert k v d) ≡ (any_of (λ e. t e.1) d || t v)
any_of-insert t k v [] h = ground arith
any_of-insert t k v ((j, w) ∷ d) h = ground (arith, h, any_of-insert t k v d)

module _ {W : Type 0} ⦃f : Num W⦄ where
  -- No two legs have one name.
  abbrev pub IsDistinct : List (Leg W) → Type 0
  IsDistinct [] = Unit
  IsDistinct (l ∷ ls) = All (λ k. str_eq k.name l.name ≡ false) ls × IsDistinct ls

  select-IsDistinct :
      (t : Leg W → Bool) (ls : List (Leg W)) → IsDistinct ls → IsDistinct (select t ls)
  select-IsDistinct t [] d = tt
  select-IsDistinct t (l ∷ ls) d = elim (Bool-cases (t l)) [
    | inl e ↦ rw e (All-select _ t ls d.0, select-IsDistinct t ls d.1)
    | inr e ↦ rw e (select-IsDistinct t ls d.1)
  ]

  all_fresh : (A : Type 0) (ls : List (Leg W)) → All (λ l. lookup {V = A} l.name [] ≡ none) ls
  all_fresh A [] = tt
  all_fresh A (l ∷ ls) = (refl, all_fresh A ls)

  any_of-by_leg :
      {A : Type 0} (value : Leg W → A) (t : A → Bool) (d : Dict A) (ls : List (Leg W))
      → All (λ l. lookup l.name d ≡ none) ls
      → IsDistinct ls
      → any_of (λ e. t e.1) (by_leg value d ls)
        ≡ (any_of (λ e. t e.1) d || any_of (λ l. t (value l)) ls)
  any_of-by_leg value t d [] h k = ground arith
  any_of-by_leg value t d (l ∷ ls) h k =
      let next = insert l.name (value l) d in
      let fresh : All (λ m. lookup m.name next ≡ none) ls =
        All-both _ _ (λ m. lookup m.name next ≡ none) ls
          (λ m a b. ground (arith, a, b, lookup-insert l.name m.name (value l) d)) h.1 k.0 in
      ground
        (arith, any_of-by_leg value t next ls fresh k.1, any_of-insert t l.name (value l) d h.0)

  by_leg-ne-nil :
      {A : Type 0} (value : Leg W → A) (l : Leg W) (ls : List (Leg W))
      → IsDistinct (l ∷ ls)
      → by_leg value [] (l ∷ ls) ≢ []
  by_leg-ne-nil value l ls k e =
      let some_leg = any_of-by_leg value (λ v. true) [] (l ∷ ls) (all_fresh _ (l ∷ ls)) k in
      ground (arith, some_leg, ap (any_of (λ v. true)) e)

  module _ (laws : IsOrdered W) where
    open laws use {le_refl, le_trans, lt-eq-not-le, le_of_lt}

    -- The first of the greatest reaches a bound exactly if one of the list does.
    ge-min_from :
        {A : Type 0} (key : A → W) (bound : W) (x : A) (xs : List A)
        → ge (key (min_from (λ a b. gt (key a) (key b)) x xs)) bound
          ≡ (ge (key x) bound || any_of (λ y. ge (key y) bound) xs)
    unfolding min_from
    ge-min_from key bound x [] = ground arith
    ge-min_from key bound x (y ∷ ys) =
        let best = if gt (key y) (key x) then y else x in
        ground (
          arith,
          ge-min_from key bound best ys,
          lt-eq-not-le (key x) (key y),
          le_trans bound (key x) (key y),
          le_trans bound (key y) (key x),
          le_of_lt (key x) (key y),
        )

    is_faded_at-eq :
        (reads : List (PivotRead W))
        → is_faded_at (min_by (λ x y. gt x.score y.score) reads)
          ≡ any_of (λ r. ge r.score counter_score_min) reads
    is_faded_at-eq [] = refl
    is_faded_at-eq (r ∷ rs) = ge-min_from (λ x. x.score) counter_score_min r rs

    decide_lem :
        (st_flipped : Bool) (wall_min : W) (e : String × WallEval W) (d : Dict (WallEval W))
        (reads : List (PivotRead W))
        → is_counter
            (decide st_flipped wall_min
              (min_by (λ x y. gt x.1.strength y.1.strength) (e ∷ d))
              reads).route
          ≡ ((st_flipped && any_of (λ v. ge v.1.strength wall_min) (e ∷ d))
              || any_of (λ r. ge r.score counter_score_min) reads)
    unfolding decide
    decide_lem st_flipped wall_min e d reads =
        ground (arith, is_faded_at-eq reads, ge-min_from (λ v. v.1.strength) wall_min e d)

    walls_lem :
        (bullish st_flipped : Bool) (wall_min : W) (l : Leg W) (ls : List (Leg W))
        (d : Dict (WallEval W))
        → by_leg (leg_wall bullish) [] (l ∷ ls) ≡ d
        → IsDistinct (l ∷ ls)
        → is_counter
            (decide st_flipped wall_min
              (min_by (λ x y. gt x.1.strength y.1.strength) d)
              (reads_of bullish (l ∷ ls))).route
          ≡ ((st_flipped && any_of (λ m. ge (leg_wall bullish m).strength wall_min) (l ∷ ls))
              || any_of (λ r. ge r.score counter_score_min) (reads_of bullish (l ∷ ls)))
    walls_lem bullish st_flipped wall_min l ls [] e k =
        absurd (by_leg-ne-nil (leg_wall bullish) l ls k e)
    walls_lem bullish st_flipped wall_min l ls (w ∷ d) e k =
        let test = λ (v : WallEval W). ge v.strength wall_min in
        let walls : any_of (λ v. test v.1) (w ∷ d)
            ≡ any_of (λ m. test (leg_wall bullish m)) (l ∷ ls) =
          ap (any_of (λ v. test v.1)) (sym e)
          ∙ any_of-by_leg (leg_wall bullish) test [] (l ∷ ls) (all_fresh _ (l ∷ ls)) k in
        decide_lem st_flipped wall_min w d (reads_of bullish (l ∷ ls))
        ∙ ap
            (λ b.
              (st_flipped && b)
              || any_of (λ r. ge r.score counter_score_min) (reads_of bullish (l ∷ ls)))
            walls

    from_live :
        (bullish st_flipped : Bool) (wall_min : W) (legs : List (Leg W))
        → IsDistinct legs
        → is_counter
            (decide st_flipped wall_min
              (min_by (λ x y. gt x.1.strength y.1.strength) (by_leg (leg_wall bullish) [] legs))
              (reads_of bullish legs)).route
          ≡ ((st_flipped && any_of (λ l. ge (leg_wall bullish l).strength wall_min) legs)
              || any_of (λ r. ge r.score counter_score_min) (reads_of bullish legs))
    unfolding decide reads_of
    from_live bullish st_flipped wall_min [] k = ground arith
    from_live bullish st_flipped wall_min (l ∷ ls) k =
        walls_lem bullish st_flipped wall_min l ls _ refl k

    -- A trigger is faded exactly if it is a flip and the wall of a leg with an ATR and a close has
    -- the least strength of a wall, or the read of such a leg scores at least the least score.
    pub counter_route_exact :
        (bullish st_flipped : Bool) (wall_min : W) (legs : List (Leg W))
        → IsDistinct legs
        → is_counter (counter_route bullish st_flipped wall_min legs).route ≡ (
            (st_flipped
              && any_of (λ l. ge (leg_wall bullish l).strength wall_min) (select is_live legs))
            || any_of (λ r. ge r.score counter_score_min) (reads_of bullish (select is_live legs)))
    unfolding counter_route
    counter_route_exact bullish st_flipped wall_min legs k =
        from_live bullish st_flipped wall_min (select is_live legs)
          (select-IsDistinct is_live legs k)
