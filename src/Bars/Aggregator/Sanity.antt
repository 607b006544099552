-- ===== src/Bars/Aggregator/Sanity.antt =====
-- The prices of a bar keep their order, in every bar that the aggregator builds.
pub mod Bars
use kotsin_nse.Prelude.{
  ℕ, ◌+◌, if-elim, Option, none, some, List, [], ◌∷◌, Option-cases, inl, inr, ltb, leb,
  if◌then◌else◌, ◌==◌,
}
use kotsin_nse.Prelude.Dict.{Dict, lookup}
use kotsin_nse.Num.{Num, of_nat, gt, nought}
use kotsin_nse.Num.Laws.{IsOrdered}
use kotsin_nse.Domain.{Time, Instrument}
use kotsin_nse.Market.Session.{Frame, bucket_start, ist_day}
use kotsin_nse.Bars.Bar.{UnifiedBar}
use kotsin_nse.Bars.Aggregator.{
  Aggregator, SymbolState, Tick, open_with, update_bar, close_bar, put_forming, apply_tf, apply_all,
  apply, ensure_day, volume_delta, day_extreme_moves, ends_at, tick_in_session, on_tick, flush_one,
  flush_frames, flush_states, flush_stale,
}
use kotsin_nse.Bars.Aggregator.Sanity.Bars.{
  IsSane, FormingIsSane, IsClean, update_bar-IsSane, open_bar-IsSane, put_forming-IsClean,
  close_bar-IsClean,
}

module _ {W : Type 0} ⦃f : Num W⦄ where
  module _ (laws : IsOrdered W) where
    open laws use {le_refl, le_trans, le_of_lt}

    -- A change of a bar that keeps it sane.
    abbrev Keeps : (UnifiedBar W → UnifiedBar W) → Type 0
    Keeps change = (b : UnifiedBar W) → IsSane b → IsSane (change b)

    -- The counters and the states do not matter.
    uncounted :
        {a : Aggregator W} {state : Dict (SymbolState W)} {n p l o : ℕ}
        → IsClean a
        → IsClean (record a {
          state = state;
          bars_closed = n;
          partial_bars = p;
          late_ticks = l;
          out_of_session_ticks = o;
        })
    uncounted c = record { forming = c.forming; closed = c.closed; emitted = c.emitted }

    open_with-IsClean :
        (st : SymbolState W) (change : UnifiedBar W → UnifiedBar W) (tf : Frame) (bucket : Time)
        (price : W) (a : Aggregator W)
        → Keeps change
        → IsClean a
        → IsClean (open_with st change tf bucket price a)
    unfolding open_with
    open_with-IsClean st change tf bucket price a k c =
        let opened =
          put_forming-IsClean laws _ a (k _ (open_bar-IsSane laws st tf bucket price)) c in
        if-elim IsClean _ (uncounted opened) opened

    apply_tf-IsClean :
        (st : SymbolState W) (change : UnifiedBar W → UnifiedBar W) (ts : Time) (price : W)
        (tf : Frame) (a : Aggregator W)
        → Keeps change
        → IsClean a
        → IsClean (apply_tf st change ts price tf a)
    unfolding apply_tf
    apply_tf-IsClean st change ts price tf a k c =
        go (a.store.forming st.instrument.symbol tf) (c.forming st.instrument.symbol tf)
      where
        bucket : Time
        bucket = bucket_start st.instrument.segment ts tf

        go :
            (o : Option (UnifiedBar W))
            → FormingIsSane o
            → IsClean (elim o [
              | none ↦ open_with st change tf bucket price a
              | some cur ↦
                  if ltb cur.ts bucket
                  then open_with st change tf bucket price (close_bar cur a)
                  else if ltb bucket cur.ts
                  then record a { late_ticks = a.late_ticks + 1 }
                  else put_forming (change cur) a
            ])
        go none h = open_with-IsClean st change tf bucket price a k c
        go (some cur) h =
            if-elim IsClean (ltb cur.ts bucket)
              (open_with-IsClean st change tf bucket price _ k (close_bar-IsClean laws cur a h c))
              (if-elim IsClean (ltb bucket cur.ts) (uncounted c)
                (put_forming-IsClean laws (change cur) a (k cur h) c))

    apply_all-IsClean :
        (st : SymbolState W) (change : UnifiedBar W → UnifiedBar W) (ts : Time) (price : W)
        (tfs : List Frame) (a : Aggregator W)
        → Keeps change
        → IsClean a
        → IsClean (apply_all st change ts price tfs a)
    unfolding apply_all
    apply_all-IsClean st change ts price [] a k c = c
    apply_all-IsClean st change ts price (tf ∷ tfs) a k c =
        apply_all-IsClean st change ts price tfs (apply_tf st change ts price tf a) k
          (apply_tf-IsClean st change ts price tf a k c)

    apply-IsClean :
        (ts : Time) (price : W) (qty : ℕ) (new_high new_low : Option W) (st : SymbolState W)
        (a : Aggregator W)
        → IsClean a
        → IsClean (apply ts price qty new_high new_low st a).1
    unfolding apply
    apply-IsClean ts price qty new_high new_low st a c =
        let st' : SymbolState W = record st {
          session_pv = f.add st.session_pv (f.mul price (of_nat qty));
          session_v = f.add st.session_v (of_nat qty);
        } in
        let vwap : W =
          if gt st'.session_v nought then f.div st'.session_pv st'.session_v else price in
        apply_all-IsClean st' (update_bar st' price qty new_high new_low vwap) ts price a.timeframes
          a (update_bar-IsSane laws st' price qty new_high new_low vwap) c

    tick_in_session-IsClean :
        (tick : Tick W) (ts : Time) (st : SymbolState W) (a : Aggregator W)
        → IsClean a
        → IsClean (tick_in_session tick ts st a).1
    unfolding tick_in_session
    tick_in_session-IsClean tick ts st a c =
        let counted = volume_delta tick (ensure_day (ist_day ts) tick st) in
        let moved = day_extreme_moves tick counted.1 in
        apply-IsClean ts tick.ltp counted.0 moved.0 moved.1 moved.2 a c

    on_tick-IsClean :
        (tick : Tick W) (now : Time) (a : Aggregator W) → IsClean a → IsClean (on_tick tick now a)
    unfolding on_tick
    on_tick-IsClean tick now a c = elim (Option-cases (lookup tick.scrip_code a.state)) [
      | inl e ↦ rw (on_tick, e) c
      | inr (st, e) ↦
          let ts = if tick.ts == 0 then now else tick.ts in
          let booked = tick_in_session-IsClean tick ts (record st { ticks = st.ticks + 1 }) a c in
          rw (on_tick, e) (if-elim IsClean _ c (if-elim IsClean _ (uncounted booked) (uncounted c)))
    ]

    flush_one-IsClean :
        (now : Time) (i : Instrument W) (tf : Frame) (out : ℕ × Aggregator W)
        → IsClean out.1
        → IsClean (flush_one now i tf out).1
    unfolding flush_one
    flush_one-IsClean now i tf (n, a) c = go (a.store.forming i.symbol tf) (c.forming i.symbol tf)
      where
        go :
            (o : Option (UnifiedBar W))
            → FormingIsSane o
            → IsClean
                (elim o as (λ o. ℕ × Aggregator W) [
                  | none ↦ (n, a)
                  | some cur ↦
                      if leb (ends_at i cur tf) now then (n + 1, close_bar cur a) else (n, a)
                ]).1
        go none h = c
        go (some cur) h =
            if-elim (λ (out : ℕ × Aggregator W). IsClean out.1) (leb (ends_at i cur tf) now)
              (close_bar-IsClean laws cur a h c) c

    flush_frames-IsClean :
        (now : Time) (i : Instrument W) (tfs : List Frame) (out : ℕ × Aggregator W)
        → IsClean out.1
        → IsClean (flush_frames now i tfs out).1
    unfolding flush_frames
    flush_frames-IsClean now i [] out c = c
    flush_frames-IsClean now i (tf ∷ tfs) out c =
        flush_frames-IsClean now i tfs (flush_one now i tf out) (flush_one-IsClean now i tf out c)

    flush_states-IsClean :
        (now : Time) (tfs : List Frame) (d : Dict (SymbolState W)) (out : ℕ × Aggregator W)
        → IsClean out.1
        → IsClean (flush_states now tfs d out).1
    unfolding flush_states
    flush_states-IsClean now tfs [] out c = c
    flush_states-IsClean now tfs ((code, st) ∷ d) out c =
        flush_states-IsClean now tfs d (flush_frames now st.instrument tfs out)
          (flush_frames-IsClean now st.instrument tfs out c)

    flush_stale-IsClean :
        (now : Time) (a : Aggregator W) → IsClean a → IsClean (flush_stale now a).1
    unfolding flush_stale
    flush_stale-IsClean now a c = flush_states-IsClean now a.timeframes a.state (0, a) c

    -- Ticks and the clock keep every bar sane: in the aggregator that `on_tick` or `flush_stale` leaves,
    -- every forming bar, every finished bar and every bar handed to `on_bar_close` has its open and its
    -- close between its low and its high, if that was so before.
    pub bars_stay_sane :
        (tick : Tick W) (now : Time) (a : Aggregator W)
        → IsClean a
        → IsClean (on_tick tick now a) × IsClean (flush_stale now a).1
    bars_stay_sane tick now a c = (on_tick-IsClean tick now a c, flush_stale-IsClean now a c)
