-- ===== src/Instrument/Strikes/Picks.antt =====
-- What the two candidate strikes and the ranking keep of the pool they are taken from.
use kotsin_nse.Prelude.{Option, none, some, List, [], ◌∷◌, All, if-elim, ◌||◌, if◌then◌else◌, ◌&&◌}
use kotsin_nse.Prelude.Strings.{str_eq}
use kotsin_nse.Prelude.Sort.{sort_by-All, min_from-All}
use kotsin_nse.Num.{Num, ◌⊕◌, ◌⊖◌, le, truthy, nought}
use kotsin_nse.Domain.{Direction, Instrument}
use kotsin_nse.Instrument.Strikes.{
  Liquidity, clears_floor, beats_on_liquidity, liquidity_of, is_bullish, nearer, nearest,
  nearest_target, order_picks, both_picks, picks_from, rank_by_liquidity, ranked_before,
  strike_candidates,
}

module _ {W : Type 0} ⦃f : Num W⦄ (P : Instrument W → Type 0) where
  abbrev AllOption : Option (Instrument W) → Type 0
  AllOption none = Unit
  AllOption (some i) = P i

  nearest-All : (otm : List (Instrument W)) (level : W) → All P otm → AllOption (nearest otm level)
  unfolding nearest
  nearest-All [] level p = tt
  nearest-All (i ∷ otm) level p = min_from-All P (nearer level) i otm p.0 p.1

  nearest_target-All :
      (otm : List (Instrument W)) (target : Option W)
      → All P otm
      → AllOption (nearest_target otm target)
  unfolding nearest_target
  nearest_target-All otm none p = tt
  nearest_target-All otm (some t) p = if-elim AllOption (truthy t) (nearest-All otm t p) tt

  order_picks-All :
      (spot : W) (direction : Direction) (floor margin : W) (l : Liquidity W) (a b : Instrument W)
      → P a
      → P b
      → All P (order_picks spot direction floor margin l a b)
  unfolding order_picks
  order_picks-All spot direction floor margin l a b p q =
      let good_a = clears_floor spot direction floor a in
      let good_b = clears_floor spot direction floor b in
      let beaten = beats_on_liquidity (liquidity_of l b) (liquidity_of l a) margin in
      if-elim (All P) (good_a && good_b) (if-elim (All P) beaten (q, (p, tt)) (p, (q, tt)))
        (if-elim (All P) good_a (p, tt) (if-elim (All P) good_b (q, tt) tt))

  both_picks-All :
      (spot : W) (direction : Direction) (floor margin : W) (l : Liquidity W) (a : Instrument W)
      (b : Option (Instrument W))
      → P a
      → AllOption b
      → All P (both_picks spot direction floor margin l a b)
  unfolding both_picks
  both_picks-All spot direction floor margin l a none p q =
      if-elim (All P) (clears_floor spot direction floor a) (p, tt) tt
  both_picks-All spot direction floor margin l a (some b) p q =
      if-elim (All P) (str_eq b.scrip_code a.scrip_code) (p, tt)
        (order_picks-All spot direction floor margin l a b p q)

  picks_from-All :
      (found : Option (Instrument W)) (spot : W) (direction : Direction) (floor margin : W)
      (l : Liquidity W) (b : Option (Instrument W))
      → AllOption found
      → AllOption b
      → All P (picks_from spot direction floor margin l found b)
  unfolding picks_from
  picks_from-All none spot direction floor margin l b p q = tt
  picks_from-All (some a) spot direction floor margin l b p q =
      both_picks-All spot direction floor margin l a b p q

  -- The candidates are strikes of the pool.
  pub strike_candidates-All :
      (otm : List (Instrument W)) (spot : W) (direction : Direction) (atr : W) (target : Option W)
      (l : Liquidity W) (floor margin : W)
      → All P otm
      → All P (strike_candidates otm spot direction atr target l floor margin)
  unfolding strike_candidates
  strike_candidates-All otm spot direction atr target l floor margin p =
      let level = if is_bullish direction then spot ⊕ atr else spot ⊖ atr in
      if-elim (All P) (le spot nought || le atr nought) tt (
        picks_from-All (nearest otm level) spot direction floor margin l (nearest_target otm target)
          (nearest-All otm level p) (nearest_target-All otm target p))

  -- The ranking keeps what all contracts have, in both directions.
  pub rank_by_liquidity-All :
      (pool : List (Instrument W)) (l : Liquidity W) (anchor : W)
      → (All P pool → All P (rank_by_liquidity pool l anchor))
        × (All P (rank_by_liquidity pool l anchor) → All P pool)
  unfolding rank_by_liquidity
  rank_by_liquidity-All pool l anchor = sort_by-All P (ranked_before l pool anchor) pool
