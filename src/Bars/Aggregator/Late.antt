-- ===== src/Bars/Aggregator/Late.antt =====
-- A tick whose bucket has been closed before it arrived.
use kotsin_nse.Prelude.{
  ℕ, ◌+◌, ◌≤◌, ◌≡◌, refl, String, Bool-cases, inl, inr, sym, ◌∙◌, le→leb, true, false, none, some,
  List, ◌∷◌, arith, ltb,
}
use kotsin_nse.Prelude.Strings.{str_eq_refl}
use kotsin_nse.Num.{Num, le, nought}
use kotsin_nse.Domain.{Time, Instrument}
use kotsin_nse.Market.Session.{Frame, daily, intraday, same_frame, second, bucket_start}
use kotsin_nse.Bars.Bar.{UnifiedBar, live}
use kotsin_nse.Bars.Store.{BarStore, set_forming, close, close_series}
use kotsin_nse.Bars.Aggregator.{
  Aggregator, SymbolState, open_bar, open_with, update_bar, apply_tf, flush_one, ends_at,
}

same_frame_refl : (tf : Frame) → same_frame tf tf ≡ true
same_frame_refl daily = refl
same_frame_refl (intraday tf) = ground arith

module _ {W : Type 0} ⦃f : Num W⦄ where
  -- What a bar that was opened by its only trade holds.
  record IsSingle (st : SymbolState W) (tf : Frame) (bucket : Time) (price : W) (x : UnifiedBar W)
      : Type 0 where
    symbol : x.symbol ≡ st.instrument.symbol
    frame : x.tf ≡ tf
    start : x.ts ≡ bucket
    trades : x.trades ≡ 1
    opened : x.open_price ≡ price
    source : x.source ≡ live

  open_bar-IsSingle :
      (st : SymbolState W) (tf : Frame) (bucket : Time) (price vwap : W) (qty : ℕ)
      → le price nought ≡ false
      → st.connected_since ≤ bucket
      → IsSingle st tf bucket price
          (update_bar st price qty none none vwap (open_bar st tf bucket price))
  unfolding update_bar open_bar
  open_bar-IsSingle st tf bucket price vwap qty pos conn = ground (arith, pos)

  apply_tf_idle :
      (st : SymbolState W) (change : UnifiedBar W → UnifiedBar W) (ts : Time) (price : W)
      (tf : Frame) (a : Aggregator W)
      → a.store.forming st.instrument.symbol tf ≡ none
      → (apply_tf st change ts price tf a).store
        ≡ set_forming
            (change (open_bar st tf (bucket_start st.instrument.segment ts tf) price))
            a.store
  unfolding apply_tf
  apply_tf_idle st change ts price tf a idle =
      let bucket = bucket_start st.instrument.segment ts tf in
      elim (Bool-cases (ltb (bucket + second) st.connected_since)) [
        | inl e ↦ rw (apply_tf, idle, open_with, e) refl
        | inr e ↦ rw (apply_tf, idle, open_with, e) refl
      ]

  flush_ended :
      (now : Time) (i : Instrument W) (tf : Frame) (x : UnifiedBar W) (n : ℕ) (a : Aggregator W)
      → a.store.forming i.symbol tf ≡ some x
      → ends_at i x tf ≤ now
      → (flush_one now i tf (n, a)).1.store ≡ (close x a.store).1
  unfolding flush_one
  flush_ended now i tf x n a e h = rw (flush_one, e, le→leb _ _ h) refl

  set_forming_lem :
      (symbol : String) (tf : Frame) (x : UnifiedBar W) (s : BarStore W)
      → x.symbol ≡ symbol
      → x.tf ≡ tf
      → ((set_forming x s).forming symbol tf ≡ some x)
        × ((set_forming x s).closed symbol tf ≡ s.closed symbol tf)
  unfolding set_forming
  set_forming_lem symbol tf x s e k =
      rw (← e, ← k) (rw (str_eq_refl x.symbol, same_frame_refl x.tf) (refl, refl))

  ends_at-eq :
      (i : Instrument W) (b x : UnifiedBar W) (tf : Frame) {now : Time}
      → b.ts ≡ x.ts
      → ends_at i b tf ≤ now
      → ends_at i x tf ≤ now
  unfolding ends_at
  ends_at-eq i b x daily e h = rw (← e) h
  ends_at-eq i b x (intraday n) e h = rw (← e) h

  close_series_again :
      (cap : ℕ) (x b : UnifiedBar W) (bs : List (UnifiedBar W))
      → x.source ≡ live
      → b.ts ≡ x.ts
      → close_series cap x (b ∷ bs) ≡ x ∷ bs
  unfolding close_series
  close_series_again cap x b bs l t = ground (arith, l, t)

  close_again :
      (symbol : String) (tf : Frame) (x b : UnifiedBar W) (bs : List (UnifiedBar W))
      (s : BarStore W)
      → x.symbol ≡ symbol
      → x.tf ≡ tf
      → x.source ≡ live
      → b.ts ≡ x.ts
      → s.closed symbol tf ≡ b ∷ bs
      → (close x s).1.closed symbol tf ≡ record x { complete = true } ∷ bs
  unfolding close
  close_again symbol tf x b bs s e k l t held =
      let done : UnifiedBar W = record x { complete = true } in
      let old : s.closed x.symbol x.tf ≡ b ∷ bs = rw (e, k) held in
      rw (← e, ← k)
        (rw (str_eq_refl x.symbol, same_frame_refl x.tf, old)
          (close_series_again s.max_bars done b bs l t))

  -- The bar of a series that has been closed for a bucket gives way to the next one for it: a tick with
  -- a positive price and with no new high or low of the day, of a feed that was connected at the bucket's
  -- start, that comes once its bucket has been closed by the clock, and while no other bar is forming,
  -- opens the bucket again, and at the next flush, at or after the bucket's end, a bar of that one trade
  -- stands in the series in place of the whole bar.
  pub late_tick_replaces_bar :
      (st : SymbolState W) (price vwap : W) (qty n : ℕ) (ts now : Time) (tf : Frame)
      (a : Aggregator W) (b : UnifiedBar W) (bs : List (UnifiedBar W))
      → le price nought ≡ false
      → st.connected_since ≤ bucket_start st.instrument.segment ts tf
      → a.store.forming st.instrument.symbol tf ≡ none
      → a.store.closed st.instrument.symbol tf ≡ b ∷ bs
      → b.ts ≡ bucket_start st.instrument.segment ts tf
      → ends_at st.instrument b tf ≤ now
      → let late = apply_tf st (update_bar st price qty none none vwap) ts price tf a in
        let flushed = (flush_one now st.instrument tf (n, late)).1 in
        (c : UnifiedBar W) × (flushed.store.closed st.instrument.symbol tf ≡ c ∷ bs)
        × (c.ts ≡ b.ts)
        × (c.trades ≡ 1)
        × (c.open_price ≡ price)
  late_tick_replaces_bar st price vwap qty n ts now tf a b bs pos conn idle held same ended =
      let i = st.instrument in
      let bucket = bucket_start i.segment ts tf in
      let x = update_bar st price qty none none vwap (open_bar st tf bucket price) in
      let single = open_bar-IsSingle st tf bucket price vwap qty pos conn in
      let late = apply_tf st (update_bar st price qty none none vwap) ts price tf a in
      let store = apply_tf_idle st (update_bar st price qty none none vwap) ts price tf a idle in
      let kept = set_forming_lem i.symbol tf x a.store single.symbol single.frame in
      let forming : late.store.forming i.symbol tf ≡ some x = rw store kept.0 in
      let flushed =
        flush_ended now i tf x n late forming
          (ends_at-eq i b x tf (same ∙ sym single.start) ended) in
      let series =
        close_again i.symbol tf x b bs late.store single.symbol single.frame single.source
          (same ∙ sym single.start) (rw store (kept.1 ∙ held)) in
      (
        record x { complete = true },
        rw flushed series,
        single.start ∙ sym same,
        single.trades,
        single.opened,
      )
