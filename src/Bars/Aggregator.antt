-- ===== src/Bars/Aggregator.antt =====
-- backend/kotsin_nse/bars/aggregator.py: ticks to bars. A tick's missing fields are 0, as the code
-- reads them; share counts are naturals. What `on_bar_close` is called with is kept in `emitted`,
-- newest first.
pub mod Volume
pub mod Sanity
pub mod Late
pub mod Backfill
use kotsin_nse.Prelude.{
  ℕ, ◌+◌, ◌-◌, String, Bool, true, false, not, ◌&&◌, ◌||◌, Option, none, some, List, [], ◌∷◌, leb,
  ltb, min, ◌==◌, if◌then◌else◌,
}
use kotsin_nse.Prelude.Strings.{str_eq}
use kotsin_nse.Prelude.Dict.{Dict, lookup, insert}
use kotsin_nse.Num.{Num, ◌⊕◌, ◌⊗◌, ◌⊘◌, gt, lt, le, nought, of_nat, max_of, min_of}
use kotsin_nse.Domain.{Time, Instrument}
use kotsin_nse.Market.Session.{
  Frame, daily, intraday, tf_length, second, ist_day, bucket_start, session_open_ts,
  session_close_ts,
}
use kotsin_nse.Bars.Bar.{UnifiedBar, BarSource, live, partial, rest, merge_tick, typical}
use kotsin_nse.Bars.Store.{BarStore, set_forming, close, seed}

-- `day` is none before the first tick.
pub record SymbolState (W : Type 0) : Type 0 where
  pub instrument : Instrument W
  pub last_total_qty : Option ℕ
  pub day : Option ℕ
  pub session_pv : W
  pub session_v : W
  pub prev_close : Option W
  pub oi : Option ℕ
  pub oi_change_pct : Option W
  pub fut_scrip_code : Option String
  pub connected_since : Time
  pub ticks : ℕ
  pub day_high : W
  pub day_low : W

pub record Aggregator (W : Type 0) : Type 0 where
  pub store : BarStore W
  pub timeframes : List Frame
  pub state : Dict (SymbolState W)
  pub bars_closed : ℕ
  pub partial_bars : ℕ
  pub late_ticks : ℕ
  pub out_of_session_ticks : ℕ
  pub emitted : List (UnifiedBar W)

pub record Tick (W : Type 0) : Type 0 where
  pub scrip_code : String
  pub ltp : W
  pub ts : Time
  pub prev_close : W
  pub high : W
  pub low : W
  pub total_qty : ℕ
  pub last_qty : ℕ

abbrev is_day : ℕ → Option ℕ → Bool
is_day d none = false
is_day d (some e) = d == e

module _ {W : Type 0} ⦃f : Num W⦄ where
  -- `SymbolState(instrument)`
  abbrev pub new_state : Instrument W → Time → SymbolState W
  new_state i now = record {
    instrument = i;
    last_total_qty = none;
    day = none;
    session_pv = nought;
    session_v = nought;
    prev_close = none;
    oi = none;
    oi_change_pct = none;
    fut_scrip_code = none;
    connected_since = now;
    ticks = 0;
    day_high = nought;
    day_low = nought;
  }

  abbrev claims : String → Dict (SymbolState W) → Bool
  claims symbol [] = false
  claims symbol ((code, st) ∷ d) = str_eq st.instrument.symbol symbol || claims symbol d

  -- `track`: none is the `ValueError` of a second instrument that claims a bar series.
  unfoldable pub track : Instrument W → Time → Aggregator W → Option (Aggregator W)
  track i now a = elim (lookup i.scrip_code a.state) [
    | some st ↦ some a
    | none ↦
        if claims i.symbol a.state
        then none
        else some (record a { state = insert i.scrip_code (new_state i now) a.state })
  ]

  -- `set_oi`
  unfoldable pub set_oi : String → ℕ → W → String → Aggregator W → Aggregator W
  set_oi code oi change fut a = elim (lookup code a.state) [
    | none ↦ a
    | some st ↦ record a {
      state =
          insert code
            (record st { oi = some oi; oi_change_pct = some change; fut_scrip_code = some fut })
            a.state;
    }
  ]

  -- `_roll_day`
  unfoldable pub roll_day : ℕ → Tick W → SymbolState W → SymbolState W
  roll_day day tick st =
      let opened = session_open_ts st.instrument.segment day in
      record st {
        day = some day;
        session_pv = nought;
        session_v = nought;
        day_high = nought;
        day_low = nought;
        last_total_qty = if leb st.connected_since opened then some 0 else none;
        prev_close = if gt tick.prev_close nought then some tick.prev_close else st.prev_close;
      }

  -- `_volume_delta`: the shares to book, and the state.
  unfoldable pub volume_delta : Tick W → SymbolState W → ℕ × SymbolState W
  volume_delta tick st =
      let seen = record st { last_total_qty = some tick.total_qty } in
      if tick.total_qty == 0 then (tick.last_qty, st) else elim st.last_total_qty [
        | none ↦ (0, seen)
        | some last ↦ (if ltb tick.total_qty last then 0 else tick.total_qty - last, seen)
      ]

  -- `_day_extreme_moves`: the new high, the new low, and the state.
  unfoldable pub day_extreme_moves : Tick W → SymbolState W → Option W × Option W × SymbolState W
  unfolding max_of min_of
  day_extreme_moves tick st =
      let dh = tick.high in
      let dl = tick.low in
      (
        if gt dh nought && (gt st.day_high nought && gt dh st.day_high) then some dh else none,
        if gt dl nought && (gt st.day_low nought && lt dl st.day_low) then some dl else none,
        record st {
          day_high = if gt dh nought then max_of st.day_high dh else st.day_high;
          day_low =
              if gt dl nought
              then (if le st.day_low nought then dl else min_of st.day_low dl)
              else st.day_low;
        },
      )

  -- A bucket whose start predates the connection by more than a second is missing its first trades.
  abbrev began_before_connect : Time → SymbolState W → Bool
  began_before_connect bucket st = ltb (bucket + second) st.connected_since

  -- `_open_bar`
  unfoldable pub open_bar : SymbolState W → Frame → Time → W → UnifiedBar W
  open_bar st tf bucket price = record {
    symbol = st.instrument.symbol;
    scrip_code = st.instrument.scrip_code;
    tf = tf;
    ts = bucket;
    open_price = price;
    high = price;
    low = price;
    close_price = price;
    volume = nought;
    trades = 0;
    source = if began_before_connect bucket st then partial else live;
    complete = false;
    vwap = none;
    prev_close = st.prev_close;
    oi = none;
    oi_change_pct = none;
    fut_scrip_code = none;
  }

  abbrev raise_high : Option W → UnifiedBar W → UnifiedBar W
  raise_high none b = b
  raise_high (some h) b = if gt h b.high then record b { high = h } else b

  abbrev lower_low : Option W → UnifiedBar W → UnifiedBar W
  lower_low none b = b
  lower_low (some l) b = if lt l b.low then record b { low = l } else b

  -- What one tick does to the bar of its bucket.
  unfoldable pub update_bar :
      SymbolState W → W → ℕ → Option W → Option W → W → UnifiedBar W → UnifiedBar W
  unfolding merge_tick
  update_bar st price qty new_high new_low vwap b =
      record (lower_low new_low (raise_high new_high (merge_tick price (of_nat qty) b))) {
        vwap = some vwap;
        prev_close = st.prev_close;
        oi = st.oi;
        oi_change_pct = st.oi_change_pct;
        fut_scrip_code = st.fut_scrip_code;
      }

  -- `_close`
  unfoldable pub close_bar : UnifiedBar W → Aggregator W → Aggregator W
  unfolding close
  close_bar bar a =
      let (done, store) = close bar a.store in
      record a { store = store; bars_closed = a.bars_closed + 1; emitted = done ∷ a.emitted }

  abbrev put_forming : UnifiedBar W → Aggregator W → Aggregator W
  put_forming b a = record a { store = set_forming b a.store }

  -- A new bar for the bucket, with the tick in it.
  open_with :
      SymbolState W → (UnifiedBar W → UnifiedBar W) → Frame → Time → W → Aggregator W → Aggregator W
  unfolding open_bar
  open_with st change tf bucket price a =
      let opened = put_forming (change (open_bar st tf bucket price)) a in
      if began_before_connect bucket st
      then record opened { partial_bars = a.partial_bars + 1 }
      else opened

  -- The body of the loop of `_apply`, on one timeframe.
  unfoldable pub apply_tf :
      SymbolState W → (UnifiedBar W → UnifiedBar W) → Time → W → Frame → Aggregator W → Aggregator W
  unfolding open_with close_bar bucket_start
  apply_tf st change ts price tf a =
      let bucket = bucket_start st.instrument.segment ts tf in
      elim (a.store.forming st.instrument.symbol tf) [
        | none ↦ open_with st change tf bucket price a
        | some cur ↦
            if ltb cur.ts bucket
            then open_with st change tf bucket price (close_bar cur a)
            else if ltb bucket cur.ts
            then record a { late_ticks = a.late_ticks + 1 }
            else put_forming (change cur) a
      ]

  unfoldable pub apply_all :
      SymbolState W
      → (UnifiedBar W → UnifiedBar W)
      → Time
      → W
      → List Frame
      → Aggregator W
      → Aggregator W
  unfolding apply_tf
  apply_all st change ts price [] a = a
  apply_all st change ts price (tf ∷ tfs) a =
      apply_all st change ts price tfs (apply_tf st change ts price tf a)

  -- `_apply`
  unfoldable pub apply :
      Time
      → W
      → ℕ
      → Option W
      → Option W
      → SymbolState W
      → Aggregator W
      → SymbolState W × Aggregator W
  unfolding update_bar apply_all
  apply ts price qty new_high new_low st a =
      let st' = record st {
        session_pv = st.session_pv ⊕ price ⊗ of_nat qty;
        session_v = st.session_v ⊕ of_nat qty;
      } in
      let vwap = if gt st'.session_v nought then st'.session_pv ⊘ st'.session_v else price in
      (st', apply_all st' (update_bar st' price qty new_high new_low vwap) ts price a.timeframes a)

  -- `if day != st.day: self._roll_day(st, day, tick)`
  unfoldable pub ensure_day : ℕ → Tick W → SymbolState W → SymbolState W
  unfolding roll_day
  ensure_day day tick st = if is_day day st.day then st else roll_day day tick st

  -- The part of `on_tick` behind the session test.
  unfoldable pub tick_in_session :
      Tick W → Time → SymbolState W → Aggregator W → SymbolState W × Aggregator W
  unfolding ensure_day ist_day volume_delta day_extreme_moves apply
  tick_in_session tick ts st a =
      let rolled = ensure_day (ist_day ts) tick st in
      let (qty, counted) = volume_delta tick rolled in
      let (new_high, new_low, moved) = day_extreme_moves tick counted in
      apply ts tick.ltp qty new_high new_low moved a

  abbrev in_session : SymbolState W → Time → Bool
  in_session st ts =
      leb (session_open_ts st.instrument.segment (ist_day ts)) ts
      && ltb ts (session_close_ts st.instrument.segment (ist_day ts))

  -- `on_tick`
  unfoldable pub on_tick : Tick W → Time → Aggregator W → Aggregator W
  unfolding tick_in_session
  on_tick tick now a = elim (lookup tick.scrip_code a.state) [
    | none ↦ a
    | some st ↦
        let ts = if tick.ts == 0 then now else tick.ts in
        let counted = record st { ticks = st.ticks + 1 } in
        let outside = record a {
          state = insert tick.scrip_code counted a.state;
          out_of_session_ticks = a.out_of_session_ticks + 1;
        } in
        let (st', a') = tick_in_session tick ts counted a in
        if le tick.ltp nought
        then a
        else if in_session st ts
        then record a' { state = insert tick.scrip_code st' a.state }
        else outside
  ]

  -- When a bar's bucket has ended.
  unfoldable pub ends_at : Instrument W → UnifiedBar W → Frame → Time
  ends_at i b daily = session_close_ts i.segment (ist_day b.ts)
  ends_at i b (intraday tf) = min (b.ts + tf_length tf) (session_close_ts i.segment (ist_day b.ts))

  -- The body of the loops of `flush_stale`.
  unfoldable pub flush_one : Time → Instrument W → Frame → ℕ × Aggregator W → ℕ × Aggregator W
  unfolding close_bar ends_at
  flush_one now i tf (n, a) = elim (a.store.forming i.symbol tf) [
    | none ↦ (n, a)
    | some cur ↦ if leb (ends_at i cur tf) now then (n + 1, close_bar cur a) else (n, a)
  ]

  flush_frames : Time → Instrument W → List Frame → ℕ × Aggregator W → ℕ × Aggregator W
  unfolding flush_one
  flush_frames now i [] out = out
  flush_frames now i (tf ∷ tfs) out = flush_frames now i tfs (flush_one now i tf out)

  flush_states : Time → List Frame → Dict (SymbolState W) → ℕ × Aggregator W → ℕ × Aggregator W
  unfolding flush_frames
  flush_states now tfs [] out = out
  flush_states now tfs ((code, st) ∷ d) out =
      flush_states now tfs d (flush_frames now st.instrument tfs out)

  -- `flush_stale`: how many bars it closed.
  unfoldable pub flush_stale : Time → Aggregator W → ℕ × Aggregator W
  unfolding flush_states
  flush_stale now a = flush_states now a.timeframes a.state (0, a)
