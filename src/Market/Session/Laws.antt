-- ===== src/Market/Session/Laws.antt =====
-- The bucket grid of session.py, and how the windows of a session nest.
use kotsin_nse.Prelude.{
  ℕ, zero, suc, ◌+◌, ◌-◌, ◌%◌, ◌≤◌, ◌<◌, ◌≡◌, inl, inr, true, false, arith, Bool-cases,
}
use native.Mathlib.Decide.{dec_lt}
use native.Mathlib.Numerals.{sub-one}
use kotsin_nse.Domain.{Time, Segment, nse_eq, mcx_fo}
use kotsin_nse.Market.Session.{
  Timeframe, m1, tf_length, intraday, spec, ist_day, ist_time, session_open_ts, session_close_ts,
  bucket_start, bucket_end, Holidays, is_open, in_entry_window, past_force_flat, is_trading_day,
  previous_from, previous_trading_day,
}

-- IST and epoch agree in both directions: the day and the wall clock of a session's open.
pub session_open_wall_clock :
    (seg : Segment) (d : ℕ)
    → (ist_day (session_open_ts seg d) ≡ d) × (ist_time (session_open_ts seg d) ≡ (spec seg).opens)
unfolding session_open_ts ist_day ist_time
session_open_wall_clock nse_eq d = omega arith
session_open_wall_clock mcx_fo d = omega arith
session_open_wall_clock _ d = omega arith

-- A tick stands in its session's hours exactly if its wall clock does.
in_session_wall_clock :
    (seg : Segment) (ts : Time)
    → session_open_ts seg (ist_day ts) ≤ ts
    → (spec seg).opens ≤ ist_time ts
unfolding session_open_ts ist_day ist_time
in_session_wall_clock nse_eq ts h = omega arith
in_session_wall_clock mcx_fo ts h = omega arith
in_session_wall_clock _ ts h = omega arith

-- The bucket's start is on the grid, and within one step of the tick.
pub bucket_start_grid :
    (seg : Segment) (ts : Time) (tf : Timeframe)
    → session_open_ts seg (ist_day ts) ≤ ts
    → let b = bucket_start seg ts (intraday tf) in
      (session_open_ts seg (ist_day ts) ≤ b)
      × (b ≤ ts)
      × (ts < b + tf_length tf)
      × ((b - session_open_ts seg (ist_day ts)) % tf_length tf ≡ 0)
unfolding bucket_start
bucket_start_grid seg ts m1 h = ground arith
bucket_start_grid seg ts tf h = ground arith

-- No IST midnight lies between the open of a day and a later instant of that day.
same_day :
    (seg : Segment) (b ts : Time)
    → session_open_ts seg (ist_day ts) ≤ b
    → b ≤ ts
    → ist_day b ≡ ist_day ts
unfolding session_open_ts ist_day
same_day nse_eq b ts h k = omega arith
same_day mcx_fo b ts h k = omega arith
same_day _ b ts h k = omega arith

-- A tick inside the session lies in the bucket that `bucket_start` and `bucket_end` bound, the
-- bucket lies inside the session, and its start is a whole number of steps from the open.
pub bucket_contains :
    (seg : Segment) (ts : Time) (tf : Timeframe)
    → session_open_ts seg (ist_day ts) ≤ ts
    → ts < session_close_ts seg (ist_day ts)
    → let b = bucket_start seg ts (intraday tf) in
      (session_open_ts seg (ist_day ts) ≤ b)
      × (b ≤ ts)
      × (ts < bucket_end seg b (intraday tf))
      × (bucket_end seg b (intraday tf) ≤ session_close_ts seg (ist_day ts))
      × ((b - session_open_ts seg (ist_day ts)) % tf_length tf ≡ 0)
unfolding bucket_end
bucket_contains seg ts tf h k =
    let (low, up, near, grid) = bucket_start_grid seg ts tf h in
    let b = bucket_start seg ts (intraday tf) in
    let e = same_day seg b ts low up in (low, up, rw e (omega arith), rw e (omega arith), grid)

grid_unique :
    (tf : Timeframe) (o b c : ℕ)
    → o ≤ c
    → c ≤ b
    → b < c + tf_length tf
    → (b - o) % tf_length tf ≡ 0
    → (c - o) % tf_length tf ≡ 0
    → c ≡ b
grid_unique m1 o b c p q r g g' = omega arith
grid_unique tf o b c p q r g g' = omega arith

-- `bucket_start` is idempotent, so `is_boundary` holds exactly at the starts of buckets.
pub bucket_start_idempotent :
    (seg : Segment) (ts : Time) (tf : Timeframe)
    → session_open_ts seg (ist_day ts) ≤ ts
    → let b = bucket_start seg ts (intraday tf) in bucket_start seg b (intraday tf) ≡ b
bucket_start_idempotent seg ts tf h =
    let (low, up, near, grid) = bucket_start_grid seg ts tf h in
    let b = bucket_start seg ts (intraday tf) in
    let e = same_day seg b ts low up in
    let h' : session_open_ts seg (ist_day b) ≤ b = rw e low in
    let (low', up', near', grid') = bucket_start_grid seg b tf h' in
    grid_unique tf (session_open_ts seg (ist_day b)) b (bucket_start seg b (intraday tf)) low' up'
      near' (rw e grid) grid'

-- Two ticks of one day, in order, are in buckets in that order.
pub bucket_start_mono :
    (seg : Segment) (a b : Time) (tf : Timeframe)
    → ist_day a ≡ ist_day b
    → a ≤ b
    → bucket_start seg a (intraday tf) ≤ bucket_start seg b (intraday tf)
unfolding bucket_start
bucket_start_mono seg a b m1 e h = rw e (ground arith)
bucket_start_mono seg a b tf e h = rw e (ground arith)

-- After the close the grid goes on: a tick a whole step late opens a bucket past the close.
pub bucket_start_post_close :
    (seg : Segment) (ts : Time) (tf : Timeframe)
    → session_open_ts seg (ist_day ts) ≤ ts
    → session_close_ts seg (ist_day ts) + tf_length tf ≤ ts
    → session_close_ts seg (ist_day ts) < bucket_start seg ts (intraday tf)
bucket_start_post_close seg ts tf h k =
    let (low, up, near, grid) = bucket_start_grid seg ts tf h in omega arith

-- The entry window ends before the force-flat, and lies in the session's hours.
pub in_entry_window_lem :
    (seg : Segment) (ts : Time) (cal : Holidays)
    → in_entry_window seg ts cal ≡ true
    → (is_open seg ts cal ≡ true) × (past_force_flat seg ts ≡ false)
unfolding in_entry_window is_open past_force_flat
in_entry_window_lem nse_eq ts cal h = ground arith
in_entry_window_lem mcx_fo ts cal h = ground arith
in_entry_window_lem _ ts cal h = ground arith

-- What `previous_from` returns, from `cur` down: the latest trading day.
abbrev pub IsLatest : Holidays → ℕ → ℕ → Type 0
IsLatest cal cur p =
    (is_trading_day cal p ≡ true)
    × (p ≤ cur)
    × ((d : ℕ) → p < d → d ≤ cur → is_trading_day cal d ≡ false)

IsLatest-suc :
    (cal : Holidays) (cur p : ℕ)
    → is_trading_day cal (suc cur) ≡ false
    → IsLatest cal cur p
    → IsLatest cal (suc cur) p
IsLatest-suc cal cur p e (t, low, gap) = (
  t,
  omega arith,
  λ d q r. elim (dec_lt d (suc cur)) [
    | yes below ↦ gap d q (omega arith)
    | no above ↦ (let h : d ≡ suc cur = omega arith in rw h e)
  ],
)

previous_from_lem :
    (cal : Holidays) (cur gap rounds : ℕ)
    → gap < rounds
    → gap ≤ cur
    → is_trading_day cal (cur - gap) ≡ true
    → IsLatest cal cur (previous_from cal cur rounds)
unfolding previous_from
previous_from_lem cal cur gap zero h k t = absurd (omega arith)
previous_from_lem cal zero gap (suc rounds) h k t =
    let e : zero - gap ≡ zero = omega arith in
    let now : is_trading_day cal zero ≡ true = rw e at t in
    rw now (now, omega arith, λ d p q. absurd (omega arith))
previous_from_lem cal (suc cur) zero (suc rounds) h k t =
    let e : suc cur - zero ≡ suc cur = omega arith in
    let now : is_trading_day cal (suc cur) ≡ true = rw e at t in
    rw now (now, omega arith, λ d p q. absurd (omega arith))
previous_from_lem cal (suc cur) (suc gap) (suc rounds) h k t =
    let e : suc cur - suc gap ≡ cur - gap = omega arith in
    let before : is_trading_day cal (cur - gap) ≡ true = rw e at t in
    let ih = previous_from_lem cal cur gap rounds (omega arith) (omega arith) before in
    elim (Bool-cases (is_trading_day cal (suc cur))) [
      | inl now ↦ rw now (now, omega arith, λ d p q. absurd (omega arith))
      | inr later ↦ rw (later, sub-one) (IsLatest-suc cal cur _ later ih)
    ]

-- If one of the thirty days before `d` trades, `previous_trading_day` is the latest day before
-- `d` that does.
pub previous_trading_day_lem :
    (cal : Holidays) (d gap : ℕ)
    → gap < 30
    → gap ≤ d - 1
    → is_trading_day cal (d - 1 - gap) ≡ true
    → IsLatest cal (d - 1) (previous_trading_day cal d)
unfolding previous_trading_day
previous_trading_day_lem cal d gap h k t = previous_from_lem cal (d - 1) gap 30 h k t
