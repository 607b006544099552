-- ===== src/Instrument/Choice/Exact.antt =====
-- Which contract `select_option` chooses.
use kotsin_nse.Prelude.{
  and_true, ◌≡◌, ◌⊎◌, refl, Bool, true, inl, inr, Option, none, some, List, [], ◌∷◌, select, All,
  if◌then◌else◌, ◌&&◌,
}
use kotsin_nse.Prelude.Dict.{Dict}
use kotsin_nse.Prelude.Sort.{IsIn, All-IsIn, All-mono, All-at, All-both, All-select, select-All}
use kotsin_nse.Num.{Num, gt, lt, nought}
use kotsin_nse.Domain.{Time, Direction, OptionType, Instrument}
use kotsin_nse.Instrument.Quote.{SelectionPolicy, Quote}
use kotsin_nse.Instrument.Strikes.{Liquidity, option_type, otm_strike_anchor}
use kotsin_nse.Instrument.Choice.{
  same_type, is_call, tradeable, candidates_of, otm_of, or_list, open_pool, ordered_pool,
  select_option,
}
use kotsin_nse.Instrument.Choice.Pool.{ordered_pool-All, All-ordered_pool}
use kotsin_nse.Instrument.Choice.Offer.{IsOffer, tradeable-IsOffer, first_tradeable-IsFirst}

module _ {W : Type 0} ⦃f : Num W⦄ where
  -- A strike of the chain, of the wanted type, and out of the money unless no such strike is.
  pub record IsEligible (want : OptionType) (spot : W) (chain : List (Instrument W))
      (i : Instrument W) : Type 0 where
    pub listed : IsIn i chain
    pub wanted : same_type i.option_type want ≡ true
    pub positive : gt i.strike nought ≡ true
    pub otm :
        ((if is_call want then gt i.strike spot else lt i.strike spot) ≡ true)
        ⊎ (otm_of want spot (candidates_of want chain) ≡ [])

  -- A strike of the chain and of the wanted type.
  record IsCandidate (want : OptionType) (chain : List (Instrument W)) (i : Instrument W)
      : Type 0 where
    listed : IsIn i chain
    wanted : same_type i.option_type want ≡ true
    positive : gt i.strike nought ≡ true

  candidates_of-All :
      (want : OptionType) (chain : List (Instrument W))
      → All (IsCandidate want chain) (candidates_of want chain)
  unfolding candidates_of
  candidates_of-All want chain =
      let test : Instrument W → Bool = λ i. same_type i.option_type want && gt i.strike nought in
      All-both (λ i. IsIn i chain) (λ i. test i ≡ true) (IsCandidate want chain) (select test chain)
        (λ i m t.
          let both = and_true t in record { listed = m; wanted = both.0; positive = both.1 })
        (All-select (λ i. IsIn i chain) test chain (All-IsIn chain)) (select-All test chain)

  or_list-All :
      (P : Instrument W → Type 0) (xs ys : List (Instrument W))
      → All P xs
      → (xs ≡ [] → All P ys)
      → All P (or_list xs ys)
  or_list-All P [] ys p q = q refl
  or_list-All P (x ∷ xs) ys p q = p

  abbrev is_otm : OptionType → W → Instrument W → Bool
  is_otm want spot i = if is_call want then gt i.strike spot else lt i.strike spot

  eligible :
      (want : OptionType) (spot : W) (chain : List (Instrument W)) (i : Instrument W)
      → IsCandidate want chain i
      → (is_otm want spot i ≡ true) ⊎ (otm_of want spot (candidates_of want chain) ≡ [])
      → IsEligible want spot chain i
  eligible want spot chain i c o = record {
    listed = c.listed;
    wanted = c.wanted;
    positive = c.positive;
    otm = o;
  }

  otm_of-All :
      (P : Instrument W → Type 0) (want : OptionType) (spot : W) (xs : List (Instrument W))
      → All P xs
      → All P (otm_of want spot xs) × All (λ i. is_otm want spot i ≡ true) (otm_of want spot xs)
  unfolding otm_of
  otm_of-All P want spot xs p =
      (All-select P (is_otm want spot) xs p, select-All (is_otm want spot) xs)

  open_pool-IsEligible :
      (want : OptionType) (spot : W) (chain : List (Instrument W))
      → All (IsEligible want spot chain) (open_pool want spot chain)
  unfolding open_pool
  open_pool-IsEligible want spot chain =
      let candidates = candidates_of want chain in
      let all = candidates_of-All want chain in
      let otm = otm_of want spot candidates in
      let (kept, out) = otm_of-All (IsCandidate want chain) want spot candidates all in
      or_list-All (IsEligible want spot chain) otm candidates
        (All-both (IsCandidate want chain) (λ i. is_otm want spot i ≡ true)
          (IsEligible want spot chain) otm (λ i c o. eligible want spot chain i c (inl o)) kept out)
        (λ none_out.
          All-mono (IsCandidate want chain) (IsEligible want spot chain) candidates
            (λ i c. eligible want spot chain i c (inr none_out)) all)

  -- `select_option` takes only what it may and finds it if it is there: it chooses a strike of the
  -- chain, of the wanted type and out of the money unless none is, whose quote is fresh, inside the
  -- premium band, two-sided and tight, and reports that quote's mid and spread; or it chooses nothing,
  -- and then no contract of the pool can be traded, whatever order the delta floor, the liquidity and
  -- the target put them in.
  pub select_option_exact :
      (chain : List (Instrument W)) (quotes : Dict (Quote W)) (spot : W) (target : Option W)
      (direction : Direction) (now : Time) (pol : SelectionPolicy W) (atr : W)
      (l : Option (Liquidity W))
      → let s = select_option chain quotes spot target direction now pol atr l in
        ((s.instrument ≡ none)
          × All
              (λ i. tradeable pol now quotes i.scrip_code ≡ none)
              (open_pool (option_type direction) spot chain))
        ⊎ ((i : Instrument W) × (spread : W) × (s.instrument ≡ some i)
            × (s.spread ≡ some spread)
            × IsEligible (option_type direction) spot chain i
            × IsOffer pol now quotes i.scrip_code s.premium spread)
  unfolding select_option
  select_option_exact chain quotes spot target direction now pol atr l =
      let want = option_type direction in
      let pool = open_pool want spot chain in
      let anchor = otm_strike_anchor spot target direction in
      let ordered = ordered_pool pol spot direction atr target l anchor pool in
      let good =
        ordered_pool-All (IsEligible want spot chain) pol spot direction atr target l anchor pool
          (open_pool-IsEligible want spot chain) in
      elim (first_tradeable-IsFirst pol now quotes ordered.1 ordered.0) [
        | inl (e, all) ↦ inl (
          e,
          All-ordered_pool (λ c. tradeable pol now quotes c ≡ none) pol spot direction atr target l
              anchor pool all,
        )
        | inr (i, spread, e, b, m, t) ↦ inr (
          i,
          spread,
          e,
          b,
          All-at (IsEligible want spot chain) ordered.0 good m,
          tradeable-IsOffer pol now quotes i.scrip_code _ spread t,
        )
      ]
