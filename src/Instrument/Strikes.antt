-- ===== src/Instrument/Strikes.antt =====
-- The choice of expiry and strike in backend/kotsin_nse/instrument/select.py. A day is its number; the
-- texts of the reasons are left out.
pub mod Picks
use kotsin_nse.Prelude.{
  ℕ, zero, suc, ◌+◌, ◌-◌, String, Bool, true, false, not, ◌&&◌, ◌||◌, Option, none, some, List, [],
  ◌∷◌, ◌++◌, map, select, length, leb, ltb, ◌==◌, min, if◌then◌else◌, get_elem?,
}
use kotsin_nse.Prelude.Strings.{str_eq, member}
use kotsin_nse.Prelude.Dict.{Dict, lookup}
use kotsin_nse.Prelude.Sort.{sort_by, min_by}
use kotsin_nse.Num.{Num, ◌⊕◌, ◌⊖◌, ◌⊘◌, gt, lt, le, ge, truthy, nought}
use kotsin_nse.Domain.{Direction, bullish, bearish, OptionType, ce, pe, Instrument}
use kotsin_nse.Instrument.Quote.{SelectionPolicy}
use kotsin_nse.Instrument.Select.{estimate_delta}

-- `Direction.option_type`
abbrev pub option_type : Direction → OptionType
option_type bullish = ce
option_type bearish = pe

abbrev pub is_bullish : Direction → Bool
is_bullish bullish = true
is_bullish bearish = false

-- `choose_expiry`
unfoldable pub choose_expiry : {W : Type 0} → List ℕ → ℕ → SelectionPolicy W → Option ℕ
unfolding sort_by
choose_expiry expiries today policy =
    let still = select (λ e. leb (today + policy.min_days_to_expiry) e) (sort_by ltb expiries) in
    get_elem? still (min policy.expiry_index (length still - 1))

-- A code's volume and open interest.
abbrev pub Liquidity : Type 0 → Type 0
Liquidity W = Dict (W × W)

-- A ratio of two measures; none is `inf`.
abbrev Ratio : Type 0 → Type 0
Ratio W = Option W

module _ {W : Type 0} ⦃f : Num W⦄ where
  unfoldable pub otm_strike_anchor : W → Option W → Direction → W
  otm_strike_anchor spot none direction = spot
  otm_strike_anchor spot (some target) direction =
      if le target nought
      then spot
      else if is_bullish direction && lt target spot
      then spot
      else if not (is_bullish direction) && gt target spot
      then spot
      else target

  abbrev ratio_lt : Ratio W → Ratio W → Bool
  ratio_lt none b = false
  ratio_lt (some x) none = true
  ratio_lt (some x) (some y) = lt x y

  abbrev at_least : W → Option (Ratio W) → Bool
  at_least margin none = false
  at_least margin (some none) = true
  at_least margin (some (some x)) = ge x margin

  abbrev ratio_of : W → W → List (Ratio W)
  ratio_of vb va =
      if gt va nought then some (vb ⊘ va) ∷ [] else if gt vb nought then none ∷ [] else []

  unfoldable pub beats_on_liquidity : W × W → W × W → W → Bool
  beats_on_liquidity (volume_b, oi_b) (volume_a, oi_a) margin =
      at_least margin (min_by ratio_lt (ratio_of volume_b volume_a ++ ratio_of oi_b oi_a))

  abbrev liquidity_of : Liquidity W → Instrument W → W × W
  liquidity_of l i = elim (lookup i.scrip_code l) [ none ↦ (nought, nought) | some v ↦ v ]

  -- The key `abs(i.strike - level)`.
  abbrev pub nearer : W → Instrument W → Instrument W → Bool
  nearer level i j = lt (f.abs (i.strike ⊖ level)) (f.abs (j.strike ⊖ level))

  unfoldable pub nearest : List (Instrument W) → W → Option (Instrument W)
  nearest otm level = min_by (nearer level) otm

  nearest_target : List (Instrument W) → Option W → Option (Instrument W)
  unfolding nearest
  nearest_target otm none = none
  nearest_target otm (some target) = if truthy target then nearest otm target else none

  -- Whether a strike is over the floor of delta.
  abbrev clears_floor : W → Direction → W → Instrument W → Bool
  clears_floor spot direction floor i =
      ge (f.abs (estimate_delta spot i.strike (option_type direction))) floor

  -- The two strikes, when they differ.
  order_picks :
      W → Direction → W → W → Liquidity W → Instrument W → Instrument W → List (Instrument W)
  unfolding beats_on_liquidity estimate_delta
  order_picks spot direction floor margin l a b =
      let good_a = clears_floor spot direction floor a in
      let good_b = clears_floor spot direction floor b in
      if good_a && good_b
      then (if beats_on_liquidity (liquidity_of l b) (liquidity_of l a) margin
          then b ∷ a ∷ []
          else a ∷ b ∷ [])
      else if good_a
      then a ∷ []
      else if good_b
      then b ∷ []
      else []

  both_picks :
      W
      → Direction
      → W
      → W
      → Liquidity W
      → Instrument W
      → Option (Instrument W)
      → List (Instrument W)
  unfolding order_picks
  both_picks spot direction floor margin l a none =
      if clears_floor spot direction floor a then a ∷ [] else []
  both_picks spot direction floor margin l a (some b) =
      if str_eq b.scrip_code a.scrip_code
      then a ∷ []
      else order_picks spot direction floor margin l a b

  picks_from :
      W
      → Direction
      → W
      → W
      → Liquidity W
      → Option (Instrument W)
      → Option (Instrument W)
      → List (Instrument W)
  unfolding both_picks
  picks_from spot direction floor margin l none b = []
  picks_from spot direction floor margin l (some a) b = both_picks spot direction floor margin l a b

  -- `strike_candidates`
  unfoldable pub strike_candidates :
      List (Instrument W) → W → Direction → W → Option W → Liquidity W → W → W → List (Instrument W)
  unfolding nearest nearest_target picks_from
  strike_candidates otm spot direction atr target l floor margin =
      let level = if is_bullish direction then spot ⊕ atr else spot ⊖ atr in
      let b = nearest_target otm target in
      let picks = picks_from spot direction floor margin l (nearest otm level) b in
      if le spot nought || le atr nought then [] else picks

  -- The values of a set, once each.
  distinct : List W → List W
  distinct [] = []
  distinct (x ∷ xs) = x ∷ select (λ y. not (f.eq x y)) (distinct xs)

  index_of : W → List W → ℕ
  index_of x [] = 0
  index_of x (y ∷ ys) = if f.eq x y then 0 else suc (index_of x ys)

  -- `ranks`: how many greater values there are.
  unfoldable pub rank_of : (W × W → W) → Liquidity W → List (Instrument W) → Instrument W → ℕ
  unfolding distinct index_of sort_by
  rank_of which l candidates i =
      index_of (which (liquidity_of l i))
        (sort_by gt (distinct (map (λ j. which (liquidity_of l j)) candidates)))

  combined_rank : Liquidity W → List (Instrument W) → Instrument W → ℕ
  unfolding rank_of
  combined_rank l candidates i =
      rank_of (λ v. v.0) l candidates i + rank_of (λ v. v.1) l candidates i

  -- The key of the sort: the combined rank, then the distance from the anchor.
  ranked_before : Liquidity W → List (Instrument W) → W → Instrument W → Instrument W → Bool
  unfolding combined_rank
  ranked_before l candidates anchor i j =
      let rank_i = combined_rank l candidates i in
      let rank_j = combined_rank l candidates j in
      ltb rank_i rank_j || ((rank_i == rank_j) && nearer anchor i j)

  -- `rank_by_liquidity`
  unfoldable pub rank_by_liquidity : List (Instrument W) → Liquidity W → W → List (Instrument W)
  unfolding ranked_before sort_by
  rank_by_liquidity candidates l anchor = sort_by (ranked_before l candidates anchor) candidates
