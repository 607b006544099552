-- ===== src/Instrument/Choice.antt =====
-- `select_option` of backend/kotsin_nse/instrument/select.py, and what stands after it. Instants are
-- whole microseconds; the texts of the reasons are left out.
pub mod Pool
pub mod Offer
pub mod Exact
use kotsin_nse.Prelude.{
  ℕ, ◌+◌, String, Bool, true, false, not, ◌&&◌, ◌||◌, Option, none, some, List, [], ◌∷◌, ◌++◌, map,
  select, ltb, if◌then◌else◌,
}
use kotsin_nse.Prelude.Strings.{member}
use kotsin_nse.Prelude.Dict.{Dict, lookup}
use kotsin_nse.Prelude.Sort.{sort_by}
use kotsin_nse.Num.{Num, ◌⊕◌, ◌⊖◌, ◌⊗◌, gt, lt, nought, of_nat, max_of, min_of}
use kotsin_nse.Domain.{
  Time, Direction, OptionType, ce, pe, fut, no_option, Instrument, InstrumentKind, future, option,
  Segment, nse_fo, mcx_fo,
}
use kotsin_nse.Instrument.Quote.{SelectionPolicy, Quote, mid, spread_pct}
use kotsin_nse.Instrument.Strikes.{
  Liquidity, nearer, option_type, otm_strike_anchor, rank_by_liquidity, strike_candidates,
}

pub record Selection (W : Type 0) : Type 0 where
  pub instrument : Option (Instrument W)
  pub premium : W
  pub anchor : W
  pub spread : Option W

abbrev pub same_type : OptionType → OptionType → Bool
same_type ce ce = true
same_type pe pe = true
same_type fut fut = true
same_type no_option no_option = true
same_type _ _ = false

abbrev pub is_call : OptionType → Bool
is_call ce = true
is_call _ = false

abbrev or_list : {A : Type 0} → List A → List A → List A
or_list [] ys = ys
or_list (x ∷ xs) ys = x ∷ xs

module _ {W : Type 0} ⦃f : Num W⦄ where
  abbrev over_max : Option W → W → Bool
  over_max none premium = false
  over_max (some top) premium = gt premium top

  tight_spread : SelectionPolicy W → W → Option W → Option (W × W)
  tight_spread pol premium none = none
  tight_spread pol premium (some s) = if gt s pol.max_spread_pct then none else some (premium, s)

  -- The tests of the loop on one quote: the premium and the spread, unless it goes on.
  unfoldable pub accept : SelectionPolicy W → Time → Quote W → Option (W × W)
  unfolding mid spread_pct tight_spread
  accept pol now q =
      let premium = mid q in
      if ltb (q.ts + pol.max_quote_age) now
      then none
      else if lt premium pol.min_premium || over_max pol.max_premium premium
      then none
      else tight_spread pol premium (spread_pct q)

  -- The premium and the spread of a contract that the loop would take.
  unfoldable pub tradeable : SelectionPolicy W → Time → Dict (Quote W) → String → Option (W × W)
  unfolding accept
  tradeable pol now quotes code = elim (lookup code quotes) [
    | none ↦ none
    | some q ↦ accept pol now q
  ]

  -- The loop over the pool: the first contract that can be traded.
  unfoldable pub first_tradeable :
      SelectionPolicy W → Time → Dict (Quote W) → W → List (Instrument W) → Selection W
  unfolding tradeable
  first_tradeable pol now quotes anchor [] = record {
    instrument = none;
    premium = nought;
    anchor = anchor;
    spread = none;
  }
  first_tradeable pol now quotes anchor (i ∷ pool) =
      let rest = first_tradeable pol now quotes anchor pool in
      elim (tradeable pol now quotes i.scrip_code) [
        | none ↦ rest
        | some (premium, s) ↦ record {
          instrument = some i;
          premium = premium;
          anchor = anchor;
          spread = some s;
        }
      ]

  -- The strikes of the wanted type, and those of them that are out of the money.
  unfoldable pub candidates_of : OptionType → List (Instrument W) → List (Instrument W)
  candidates_of want chain = select (λ i. same_type i.option_type want && gt i.strike nought) chain

  unfoldable pub otm_of : OptionType → W → List (Instrument W) → List (Instrument W)
  otm_of want spot candidates =
      select (λ i. if is_call want then gt i.strike spot else lt i.strike spot) candidates

  -- `pool = otm or candidates`
  unfoldable pub open_pool : OptionType → W → List (Instrument W) → List (Instrument W)
  unfolding candidates_of otm_of
  open_pool want spot chain =
      or_list (otm_of want spot (candidates_of want chain)) (candidates_of want chain)

  abbrev anchor_of : List (Instrument W) → W → W
  anchor_of [] anchor = anchor
  anchor_of (i ∷ picks) anchor = i.strike

  abbrev pub code : Instrument W → String
  code i = i.scrip_code

  -- The picks first, then everything else by liquidity.
  unfoldable pub with_picks :
      List (Instrument W) → List (Instrument W) → Liquidity W → W → List (Instrument W)
  unfolding rank_by_liquidity
  with_picks picks pool l anchor =
      picks
      ++ rank_by_liquidity (select (λ i. not (member i.scrip_code (map code picks))) pool) l anchor

  -- The pool in the order in which the loop tries it, and the anchor.
  unfoldable pub ordered_pool :
      SelectionPolicy W
      → W
      → Direction
      → W
      → Option W
      → Option (Liquidity W)
      → W
      → List (Instrument W)
      → List (Instrument W) × W
  unfolding with_picks strike_candidates sort_by
  ordered_pool pol spot direction atr target none anchor pool =
      (sort_by (nearer anchor) pool, anchor)
  ordered_pool pol spot direction atr target (some l) anchor pool =
      let picks = strike_candidates pool spot direction atr target l pol.min_delta pol.oi_margin in
      if gt atr nought
      then (with_picks picks pool l anchor, anchor_of picks anchor)
      else (sort_by (nearer anchor) pool, anchor)

  -- `select_option`; with no strike of the wanted type the pool is empty.
  unfoldable pub select_option :
      List (Instrument W)
      → Dict (Quote W)
      → W
      → Option W
      → Direction
      → Time
      → SelectionPolicy W
      → W
      → Option (Liquidity W)
      → Selection W
  unfolding otm_strike_anchor open_pool ordered_pool first_tradeable
  select_option chain quotes spot target direction now pol atr l =
      let anchor = otm_strike_anchor spot target direction in
      let (pool, anchor') =
        ordered_pool pol spot direction atr target l anchor
          (open_pool (option_type direction) spot chain) in
      first_tradeable pol now quotes anchor' pool

  abbrev no_future : Selection W
  no_future = record { instrument = none; premium = nought; anchor = nought; spread = none }

  -- `select_future`
  unfoldable pub select_future :
      Option (Instrument W) → Option (Quote W) → Time → SelectionPolicy W → Selection W
  unfolding mid spread_pct
  select_future none quote now pol = no_future
  select_future (some front) none now pol = no_future
  select_future (some front) (some q) now pol =
      if ltb (q.ts + pol.max_quote_age) now then no_future else record {
        instrument = some front;
        premium = mid q;
        anchor = nought;
        spread = spread_pct q;
      }

  -- `map_levels_to_option`
  unfoldable pub map_levels_to_option : W → W → List W → W → W → W × List W
  unfolding max_of min_of
  map_levels_to_option equity_entry equity_stop equity_targets premium delta =
      let d = max_of (f.lit 5 2) (min_of (of_nat 1) (f.abs delta)) in
      let move_stop = f.abs (equity_entry ⊖ equity_stop) ⊗ d in
      (
        max_of (f.lit 5 2) (f.round 2 (premium ⊖ move_stop)),
        map (λ t. f.round 2 (premium ⊕ f.abs (t ⊖ equity_entry) ⊗ d))
            (select (λ t. gt t nought) equity_targets),
      )

-- `segment_for_signal`
unfoldable pub segment_for_signal : Segment → Segment
segment_for_signal mcx_fo = mcx_fo
segment_for_signal _ = nse_fo

-- `kind_traded`
unfoldable pub kind_traded : Segment → InstrumentKind
kind_traded mcx_fo = future
kind_traded _ = option
