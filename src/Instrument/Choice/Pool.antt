-- ===== src/Instrument/Choice/Pool.antt =====
-- The order in which the contracts are tried loses none of them.
use kotsin_nse.Prelude.{
  ◌≡◌, sym, subst, String, true, not, Bool-cases, inl, inr, Option, none, some, List, [], ◌∷◌, ◌++◌,
  map, select, All, All-append, if-elim,
}
use kotsin_nse.Prelude.Strings.{str_eq, str_eq_iff, member}
use kotsin_nse.Prelude.Sort.{All-select, sort_by-All}
use kotsin_nse.Num.{Num, gt, nought}
use kotsin_nse.Domain.{Direction, Instrument}
use kotsin_nse.Instrument.Quote.{SelectionPolicy}
use kotsin_nse.Instrument.Strikes.{Liquidity, nearer, strike_candidates, rank_by_liquidity}
use kotsin_nse.Instrument.Strikes.Picks.{strike_candidates-All, rank_by_liquidity-All}
use kotsin_nse.Instrument.Choice.{code, with_picks, ordered_pool}

append-All : {A : Type 0} (P : A → Type 0) (xs ys : List A) → All P (xs ++ ys) → All P xs × All P ys
append-All P [] ys p = (tt, p)
append-All P (x ∷ xs) ys p = let r = append-All P xs ys p.1 in ((p.0, r.0), r.1)

module _ {W : Type 0} ⦃f : Num W⦄ where
  with_picks-All :
      (P : Instrument W → Type 0) (picks pool : List (Instrument W)) (l : Liquidity W) (anchor : W)
      → All P picks
      → All P pool
      → All P (with_picks picks pool l anchor)
  unfolding with_picks
  with_picks-All P picks pool l anchor p q =
      let fresh = select (λ i. not (member i.scrip_code (map code picks))) pool in
      All-append P picks (rank_by_liquidity fresh l anchor) p
        ((rank_by_liquidity-All P fresh l anchor).0 (All-select P _ pool q))

  pub ordered_pool-All :
      (P : Instrument W → Type 0) (pol : SelectionPolicy W) (spot : W) (direction : Direction)
      (atr : W) (target : Option W) (l : Option (Liquidity W)) (anchor : W)
      (pool : List (Instrument W))
      → All P pool
      → All P (ordered_pool pol spot direction atr target l anchor pool).0
  unfolding ordered_pool
  ordered_pool-All P pol spot direction atr target none anchor pool p =
      (sort_by-All P (nearer anchor) pool).0 p
  ordered_pool-All P pol spot direction atr target (some l) anchor pool p =
      let picks = strike_candidates pool spot direction atr target l pol.min_delta pol.oi_margin in
      if-elim (λ (r : List (Instrument W) × W). All P r.0) (gt atr nought)
        (with_picks-All P picks pool l anchor
          (strike_candidates-All P pool spot direction atr target l pol.min_delta pol.oi_margin p)
          p)
        ((sort_by-All P (nearer anchor) pool).0 p)

  module _ (Q : String → Type 0) where
    abbrev OfCode : Instrument W → Type 0
    OfCode i = Q i.scrip_code

    member-All :
        (c : String) (picks : List (Instrument W))
        → member c (map code picks) ≡ true
        → All OfCode picks
        → Q c
    member-All c [] e p = absurd (cc e)
    member-All c (i ∷ picks) e p = elim (Bool-cases (str_eq c i.scrip_code)) [
      | inl same ↦ subst Q (sym ((str_eq_iff c i.scrip_code).0 same)) p.0
      | inr other ↦ member-All c picks (rw other at e) p.1
    ]

    unpicked-All :
        (picks pool : List (Instrument W))
        → All OfCode picks
        → All OfCode (select (λ i. not (member i.scrip_code (map code picks))) pool)
        → All OfCode pool
    unpicked-All picks [] p q = tt
    unpicked-All picks (i ∷ pool) p q = elim (Bool-cases (member i.scrip_code (map code picks))) [
      | inl e ↦ (member-All i.scrip_code picks e p, unpicked-All picks pool p (rw e at q))
      | inr e ↦ let r = rw e at q in (r.0, unpicked-All picks pool p r.1)
    ]

    All-with_picks :
        (picks pool : List (Instrument W)) (l : Liquidity W) (anchor : W)
        → All OfCode (with_picks picks pool l anchor)
        → All OfCode pool
    unfolding with_picks
    All-with_picks picks pool l anchor p =
        let fresh = select (λ i. not (member i.scrip_code (map code picks))) pool in
        let (first, left) = append-All OfCode picks (rank_by_liquidity fresh l anchor) p in
        unpicked-All picks pool first ((rank_by_liquidity-All OfCode fresh l anchor).1 left)

    -- What holds of the code of every contract that is tried holds of every contract of the pool.
    pub All-ordered_pool :
        (pol : SelectionPolicy W) (spot : W) (direction : Direction) (atr : W) (target : Option W)
        (l : Option (Liquidity W)) (anchor : W) (pool : List (Instrument W))
        → All OfCode (ordered_pool pol spot direction atr target l anchor pool).0
        → All OfCode pool
    unfolding ordered_pool
    All-ordered_pool pol spot direction atr target none anchor pool p =
        (sort_by-All OfCode (nearer anchor) pool).1 p
    All-ordered_pool pol spot direction atr target (some l) anchor pool p =
        let picks =
          strike_candidates pool spot direction atr target l pol.min_delta pol.oi_margin in
        if-elim (λ (r : List (Instrument W) × W). All OfCode r.0 → All OfCode pool) (gt atr nought)
          (All-with_picks picks pool l anchor) (sort_by-All OfCode (nearer anchor) pool).1 p
