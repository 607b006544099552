-- ===== src/Bars/Aggregator/Sanity/Bars.antt =====
-- One bar whose prices are in order, and the ways that the aggregator makes and closes one.
use kotsin_nse.Prelude.{ℕ, String, true, Option, none, some, List, [], ◌∷◌, All, All-take, arith}
use kotsin_nse.Num.{Num, of_nat}
use kotsin_nse.Num.Laws.{◌≼◌, IsOrdered, le-max_left, le-max_right, min-le_left, min-le_right}
use kotsin_nse.Domain.{Time}
use kotsin_nse.Market.Session.{Frame}
use kotsin_nse.Bars.Bar.{UnifiedBar, merge_tick}
use kotsin_nse.Bars.Store.{set_forming, close_series}
use kotsin_nse.Bars.Store.Refinement.{set_at-elim}
use kotsin_nse.Bars.Aggregator.{
  Aggregator, SymbolState, open_bar, raise_high, lower_low, update_bar, close_bar, put_forming,
}

module _ {W : Type 0} ⦃f : Num W⦄ where
  -- The open and the close stand between the low and the high.
  pub record IsSane (b : UnifiedBar W) : Type 0 where
    pub low_open : b.low ≼ b.open_price
    pub open_high : b.open_price ≼ b.high
    pub low_close : b.low ≼ b.close_price
    pub close_high : b.close_price ≼ b.high

  abbrev pub FormingIsSane : Option (UnifiedBar W) → Type 0
  FormingIsSane none = Unit
  FormingIsSane (some b) = IsSane b

  -- Every bar in the store is sane, and so was every bar that was handed on.
  pub record IsClean (a : Aggregator W) : Type 0 where
    pub forming : (s : String) (t : Frame) → FormingIsSane (a.store.forming s t)
    pub closed : (s : String) (t : Frame) → All IsSane (a.store.closed s t)
    pub emitted : All IsSane a.emitted

  module _ (laws : IsOrdered W) where
    open laws use {le_refl, le_trans, le_of_lt}

    merge_tick-IsSane :
        (price qty : W) (b : UnifiedBar W) → IsSane b → IsSane (merge_tick price qty b)
    unfolding merge_tick
    merge_tick-IsSane price qty b h =
        let up = le-max_left laws b.high price in
        let over = le-max_right laws b.high price in
        let down = min-le_left laws b.low price in
        let under = min-le_right laws b.low price in
        let low = le_trans _ _ _ down h.low_open in
        let high = le_trans _ _ _ h.open_high up in ground (arith, h, low, high, over, under)

    raise_high-IsSane : (x : Option W) (b : UnifiedBar W) → IsSane b → IsSane (raise_high x b)
    raise_high-IsSane none b h = h
    raise_high-IsSane (some x) b h = ground (
      arith,
      h,
      le_of_lt b.high x,
      le_trans b.open_price b.high x h.open_high,
      le_trans b.close_price b.high x h.close_high,
    )

    lower_low-IsSane : (x : Option W) (b : UnifiedBar W) → IsSane b → IsSane (lower_low x b)
    lower_low-IsSane none b h = h
    lower_low-IsSane (some x) b h = ground (
      arith,
      h,
      le_of_lt x b.low,
      λ (e : x ≼ b.low). le_trans x b.low b.open_price e h.low_open,
      λ (e : x ≼ b.low). le_trans x b.low b.close_price e h.low_close,
    )

    pub update_bar-IsSane :
        (st : SymbolState W) (price : W) (qty : ℕ) (new_high new_low : Option W) (vwap : W)
        (b : UnifiedBar W)
        → IsSane b
        → IsSane (update_bar st price qty new_high new_low vwap b)
    unfolding update_bar
    update_bar-IsSane st price qty new_high new_low vwap b h =
        let merged = merge_tick-IsSane price (of_nat qty) b h in
        let c = lower_low-IsSane new_low _ (raise_high-IsSane new_high _ merged) in
        record {
          low_open = c.low_open;
          open_high = c.open_high;
          low_close = c.low_close;
          close_high = c.close_high;
        }

    pub open_bar-IsSane :
        (st : SymbolState W) (tf : Frame) (bucket : Time) (price : W)
        → IsSane (open_bar st tf bucket price)
    unfolding open_bar
    open_bar-IsSane st tf bucket price = record {
      low_open = le_refl price;
      open_high = le_refl price;
      low_close = le_refl price;
      close_high = le_refl price;
    }

    pub put_forming-IsClean :
        (b : UnifiedBar W) (a : Aggregator W) → IsSane b → IsClean a → IsClean (put_forming b a)
    unfolding set_forming
    put_forming-IsClean b a h c = record {
      forming = λ s t.
          set_at-elim FormingIsSane b.symbol b.tf (some b) a.store.forming s t h (c.forming s t);
      closed = c.closed;
      emitted = c.emitted;
    }

    close_series-IsSane :
        (cap : ℕ) (b : UnifiedBar W) (s : List (UnifiedBar W))
        → IsSane b
        → All IsSane s
        → All IsSane (close_series cap b s)
    unfolding close_series
    close_series-IsSane cap b [] h k = All-take IsSane cap (b ∷ []) (h, tt)
    close_series-IsSane cap b (c ∷ cs) h k =
        let trimmed = All-take IsSane cap (b ∷ c ∷ cs) (h, k) in ground (arith, h, k, trimmed)

    pub close_bar-IsClean :
        (b : UnifiedBar W) (a : Aggregator W) → IsSane b → IsClean a → IsClean (close_bar b a)
    unfolding close_bar
    close_bar-IsClean b a h c =
        let done : UnifiedBar W = record b { complete = true } in
        let sane : IsSane done = record {
          low_open = h.low_open;
          open_high = h.open_high;
          low_close = h.low_close;
          close_high = h.close_high;
        } in
        record {
          forming = λ s t.
              set_at-elim FormingIsSane b.symbol b.tf none a.store.forming s t tt (c.forming s t);
          closed = λ s t.
              set_at-elim (All IsSane) b.symbol b.tf _ a.store.closed s t
                (close_series-IsSane a.store.max_bars done (a.store.closed b.symbol b.tf) sane
                  (c.closed b.symbol b.tf))
                (c.closed s t);
          emitted = (sane, c.emitted);
        }
