-- ===== src/Strategy/Counter/Wall/Strongest.antt =====
-- The wall is the strongest cluster of the levels in the way.
use kotsin_nse.Num.Sum.{sum_of}
use kotsin_nse.Prelude.{
  ℕ, suc, ap, ◌∙◌, select, ◌≡◌, refl, sym, subst, Bool, true, false, Bool-cases, ◌⊎◌, inl, inr,
  List, [], ◌∷◌, All, map, if◌then◌else◌, arith,
}
use kotsin_nse.Prelude.Sort.{IsIn, All-IsIn, select-All}
use kotsin_nse.Num.{Num, ◌⊗◌, gt, le, nought}
use kotsin_nse.Num.Laws.{◌≼◌, IsOrdered}
use kotsin_nse.Bars.Pivots.{PivotPoint}
use kotsin_nse.Strategy.Counter.{WallEval, cluster_atr, by_price}
use kotsin_nse.Strategy.Counter.Wall.{
  Scored, no_wall, cluster_at, strength_at, strongest, wall_of, levels_in_way, is_in_way, scored,
  numbered, score_at, scores_of, evaluate_wall,
}

module _ {W : Type 0} ⦃f : Num W⦄ (bullish : Bool) (close_price high low atr : W)
    (points : List (PivotPoint W)) where
  -- The strength and the members of an anchor's cluster.
  pub record IsWall (wall : WallEval W) : Type 0 where
    pub anchor : Scored W
    pub known : IsIn anchor (levels_in_way bullish close_price high low atr points)
    pub strength :
        wall.strength
        ≡ strength_at
            (cluster_atr ⊗ atr)
            (levels_in_way bullish close_price high low atr points)
            anchor
    pub members :
        wall.members
        ≡ by_price (
            map
              (λ s. s.point)
              (cluster_at
                (cluster_atr ⊗ atr)
                (levels_in_way bullish close_price high low atr points)
                anchor))

module _ {W : Type 0} ⦃f : Num W⦄ (laws : IsOrdered W) where
  open laws use {le_refl, le_trans, lt-eq-not-le, le_of_lt}

  module _ (width : W) (ahead : List (Scored W)) where
    -- Nothing yet, or the cluster of an anchor that is stronger than nothing.
    record IsCluster (best : W) (group : List (Scored W)) : Type 0 where
      pub anchor : Scored W
      pub known : IsIn anchor ahead
      pub strength : best ≡ strength_at width ahead anchor
      pub members : group ≡ cluster_at width ahead anchor
      pub stronger : gt best nought ≡ true

    abbrev IsFound : W → List (Scored W) → Type 0
    IsFound best group = ((best ≡ nought) × (group ≡ [])) ⊎ IsCluster best group

    abbrev IsTop : List (Scored W) → W → Type 0
    IsTop anchors best = All (λ a. strength_at width ahead a ≼ best) anchors

    abbrev Result : W → List (Scored W) → W × List (Scored W) → Type 0
    Result best anchors r = (best ≼ r.0) × IsTop anchors r.0 × IsFound r.0 r.1

    -- A cluster that beats the best so far.
    found :
        (a : Scored W) (best : W)
        → IsIn a ahead
        → gt (strength_at width ahead a) best ≡ true
        → nought ≼ best
        → IsCluster (strength_at width ahead a) (cluster_at width ahead a)
    found a best k e n = record {
      anchor = a;
      known = k;
      strength = refl;
      members = refl;
      stronger =
          let total : W = strength_at width ahead a in
          ground (
            arith,
            e,
            n,
            lt-eq-not-le best total,
            lt-eq-not-le nought total,
            le_trans total nought best,
          );
    }

    strongest_lem :
        (best : W) (group anchors : List (Scored W))
        → All (λ a. IsIn a ahead) anchors
        → nought ≼ best
        → IsFound best group
        → Result best anchors (strongest width ahead best group anchors)
    unfolding strongest
    strongest_lem best group [] k n h = (le_refl best, tt, h)
    strongest_lem best group (a ∷ rest) k n h =
        let grp = cluster_at width ahead a in
        let total : W = strength_at width ahead a in
        let goal = λ (b : Bool).
          Result best (a ∷ rest)
            (strongest width ahead (if b then total else best) (if b then grp else group) rest) in
        elim (Bool-cases (gt total best)) [
          | inl e ↦
              let grows : best ≼ total = le_of_lt best total e in
              let r =
                strongest_lem total grp rest k.1 (le_trans _ _ _ n grows)
                  (inr (found a best k.0 e n)) in
              subst goal (sym e) (le_trans _ _ _ grows r.0, (r.0, r.1), r.2)
          | inr e ↦
              let r = strongest_lem best group rest k.1 n h in
              let below : total ≼ best = ground (arith, e, lt-eq-not-le best total) in
              subst goal (sym e) (r.0, (le_trans _ _ _ below r.0, r.1), r.2)
        ]

  points-numbered :
      (g : ℕ → W) (i : ℕ) (ps : List (PivotPoint W))
      → map
          (λ (s : Scored W). s.point)
          (map (λ a. record { point = a.1; score = g a.0 }) (numbered i ps))
        ≡ ps
  points-numbered g i [] = refl
  points-numbered g i (p ∷ ps) = ap (λ qs. p ∷ qs) (points-numbered g (suc i) ps)

  All-points {κ} :
      (P : PivotPoint W → Type κ) (ss : List (Scored W))
      → All P (map (λ s. s.point) ss)
      → All (λ s. P s.point) ss
  All-points P [] h = tt
  All-points P (s ∷ ss) h = (h.0, All-points P ss h.1)

  points-scored : (x : W) (ps : List (PivotPoint W)) → map (λ s. s.point) (scored x ps) ≡ ps
  unfolding scored
  points-scored x ps = points-numbered (λ i. score_at i (scores_of x (numbered 0 ps))) 0 ps

  module _ (bullish : Bool) (close_price high low atr : W) (points : List (PivotPoint W)) where
    wall_of_lem :
        (r : W × List (Scored W))
        → IsFound
            (cluster_atr ⊗ atr)
            (levels_in_way bullish close_price high low atr points)
            r.0
            r.1
        → ((wall_of close_price atr r).strength ≡ r.0)
          × ((wall_of close_price atr r ≡ no_wall)
              ⊎ IsWall bullish close_price high low atr points (wall_of close_price atr r))
    unfolding wall_of
    wall_of_lem (best, []) (inl none_yet) = (sym none_yet.0, inl refl)
    wall_of_lem (best, []) (inr c) =
        let zero : best ≡ nought = c.strength ∙ ap (λ g. sum_of (λ s. s.score) g) (sym c.members) in
        ground (arith, c, zero, lt-eq-not-le nought nought, le_refl nought)
    wall_of_lem (best, s ∷ group) (inl none_yet) = ground (arith, none_yet)
    wall_of_lem (best, s ∷ group) (inr c) = (
      refl,
      inr record {
        anchor = c.anchor;
        known = c.known;
        strength = c.strength;
        members = ap (λ g. by_price (map (λ t. t.point) g)) c.members;
      },
    )

    -- With a positive close and ATR the wall is that of a cluster of the levels in the way, or there
    -- is none, and no cluster of these levels around one of them is stronger than it.
    pub evaluate_wall_exact :
        le atr nought ≡ false
        → le close_price nought ≡ false
        → All
            (λ s. is_in_way bullish close_price high low atr s.point ≡ true)
            (levels_in_way bullish close_price high low atr points)
          × All
              (λ a.
                strength_at
                  (cluster_atr ⊗ atr)
                  (levels_in_way bullish close_price high low atr points)
                  a
                ≼ (evaluate_wall bullish close_price high low atr points).strength)
              (levels_in_way bullish close_price high low atr points)
          × ((evaluate_wall bullish close_price high low atr points ≡ no_wall)
              ⊎ IsWall bullish close_price high low atr points
                  (evaluate_wall bullish close_price high low atr points))
    unfolding evaluate_wall
    evaluate_wall_exact a c =
        let found = select (is_in_way bullish close_price high low atr) points in
        let r =
          strongest_lem (cluster_atr ⊗ atr) (levels_in_way bullish close_price high low atr points)
            nought [] (levels_in_way bullish close_price high low atr points)
            (All-IsIn (levels_in_way bullish close_price high low atr points)) (le_refl nought)
            (inl (refl, refl)) in
        let w =
          wall_of_lem
            (strongest (cluster_atr ⊗ atr) (levels_in_way bullish close_price high low atr points)
              nought [] (levels_in_way bullish close_price high low atr points))
            r.2 in
        rw (a, c)
          (
            All-points (λ p. is_in_way bullish close_price high low atr p ≡ true)
                (levels_in_way bullish close_price high low atr points)
                (subst (All (λ p. is_in_way bullish close_price high low atr p ≡ true))
                  (sym (points-scored close_price found))
                  (select-All (is_in_way bullish close_price high low atr) points)),
            rw w.0 r.1,
            w.1,
          )
