-- ===== src/Bars/Aggregator/Backfill.antt =====
-- The backfill of backend/kotsin_nse/bars/aggregator.py: `seed` and `_stamp_session_vwap`. Reading a
-- row's date is the caller's, `ts_of`.
use kotsin_nse.Prelude.{
  ℕ, String, Bool, true, false, Option, none, some, List, [], ◌∷◌, ◌==◌, if◌then◌else◌,
}
use kotsin_nse.Num.{Num, ◌⊕◌, ◌⊗◌, ◌⊘◌, gt, nought}
use kotsin_nse.Domain.{Time, Instrument, Segment}
use kotsin_nse.Market.Session.{Frame, ist_day, bucket_start, session_open_ts}
use kotsin_nse.Bars.Bar.{UnifiedBar, rest, typical}
use kotsin_nse.Bars.Store
use kotsin_nse.Bars.Aggregator.{Aggregator, track}

-- The broker's row.
pub record Ohlcv (W : Type 0) : Type 0 where
  pub dt : String
  pub o : W
  pub h : W
  pub l : W
  pub c : W
  pub v : W

abbrev is_same : Time → Option Time → Bool
is_same start none = false
is_same start (some t) = t == start

module _ {W : Type 0} ⦃f : Num W⦄ where
  -- The close of the day before: that of the last bar, once the day changes.
  abbrev carried : ℕ → Option (ℕ × W) → Option W → Option W
  carried day none prev = prev
  carried day (some (last_day, close)) prev = if day == last_day then prev else some close

  abbrev backfilled : Instrument W → Frame → Time → Option W → Ohlcv W → UnifiedBar W
  backfilled i tf ts prev row = record {
    symbol = i.symbol;
    scrip_code = i.scrip_code;
    tf = tf;
    ts = bucket_start i.segment ts tf;
    open_price = row.o;
    high = row.h;
    low = row.l;
    close_price = row.c;
    volume = row.v;
    trades = 0;
    source = rest;
    complete = true;
    vwap = none;
    prev_close = prev;
    oi = none;
    oi_change_pct = none;
    fut_scrip_code = none;
  }

  -- The loop over the rows, with the day and the close of the last bar, and the close of the day before.
  unfoldable pub bars_of :
      Instrument W
      → Frame
      → (String → Time)
      → Option (ℕ × W)
      → Option W
      → List (Ohlcv W)
      → List (UnifiedBar W)
  unfolding ist_day bucket_start
  bars_of i tf ts_of last prev [] = []
  bars_of i tf ts_of last prev (row ∷ rows) =
      let ts = ts_of row.dt in
      let prev' = carried (ist_day ts) last prev in
      backfilled i tf ts prev' row ∷ bars_of i tf ts_of (some (ist_day ts, row.c)) prev' rows

  -- `_stamp_session_vwap`, from the session that the sums are of.
  unfoldable pub stamp_from :
      Segment → Option Time → W → W → List (UnifiedBar W) → List (UnifiedBar W)
  unfolding session_open_ts ist_day typical
  stamp_from seg day_open pv v [] = []
  stamp_from seg day_open pv v (b ∷ bars) =
      let start = session_open_ts seg (ist_day b.ts) in
      let same = is_same start day_open in
      let pv' = (if same then pv else nought) ⊕ typical b ⊗ b.volume in
      let v' = (if same then v else nought) ⊕ b.volume in
      record b { vwap = some (if gt v' nought then pv' ⊘ v' else b.close_price) }
      ∷ stamp_from seg (some start) pv' v' bars

  unfoldable pub stamp_session_vwap : Segment → List (UnifiedBar W) → List (UnifiedBar W)
  unfolding stamp_from
  stamp_session_vwap seg bars = stamp_from seg none nought nought bars

  -- `Aggregator.seed`: none is the `ValueError` of `track`.
  unfoldable pub backfill :
      Instrument W
      → Frame
      → List (Ohlcv W)
      → (String → Time)
      → Time
      → Aggregator W
      → Option (ℕ × Aggregator W)
  unfolding track bars_of stamp_session_vwap Store.seed
  backfill i tf rows ts_of now a = elim (track i now a) [
    | none ↦ none
    | some a' ↦
        let bars = stamp_session_vwap i.segment (bars_of i tf ts_of none none rows) in
        let (held, store) = Store.seed i.symbol tf bars a'.store in
        some (held, record a' { store = store })
  ]
