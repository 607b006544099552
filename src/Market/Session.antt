-- ===== src/Market/Session.antt =====
-- backend/kotsin_nse/market/session.py: the session clock. `Asia/Kolkata` is UTC+05:30 with no
-- transition since 1945, so IST is an offset; a day is the number of IST midnights since the epoch.
pub mod Laws
use kotsin_nse.Prelude.{
  ℕ, ◌+◌, ◌-◌, ◌*◌, ◌/◌, ◌%◌, Bool, true, false, ◌&&◌, ◌||◌, not, leb, ltb, ◌==◌, if◌then◌else◌,
  List, [], ◌∷◌, zero, suc, min,
}
use kotsin_nse.Domain.{Time, Segment, nse_eq, nse_fo, nse_idx, mcx_fo}

abbrev pub second : ℕ
second = 1_000_000

abbrev pub minute : ℕ
minute = 60 * second

abbrev pub day_length : ℕ
day_length = 86_400 * second

abbrev pub ist_offset : ℕ
ist_offset = 19_800 * second

-- `time(h, m)`, as a time of day
abbrev pub hm : ℕ → ℕ → ℕ
hm h m = (h * 60 + m) * minute

pub data Timeframe : Type 0 where
  m1 m2 m3 m5 m15 m30 m60 : Timeframe

-- `TF_SECONDS`
abbrev pub tf_length : Timeframe → ℕ
tf_length m1 = 60 * second
tf_length m2 = 120 * second
tf_length m3 = 180 * second
tf_length m5 = 300 * second
tf_length m15 = 900 * second
tf_length m30 = 1800 * second
tf_length m60 = 3600 * second

-- The argument `tf` of the bucket functions: `none` of them is "1d".
pub data Frame : Type 0 where
  intraday : Timeframe → Frame
  daily : Frame

-- `tf == other`, on the labels
abbrev pub same_frame : Frame → Frame → Bool
same_frame daily daily = true
same_frame (intraday a) (intraday b) = tf_length a == tf_length b
same_frame _ _ = false

pub record SessionSpec : Type 0 where
  pub opens : ℕ
  pub closes : ℕ
  pub entry_cutoff : ℕ
  pub force_flat : ℕ

abbrev nse : SessionSpec
nse = record { opens = hm 9 15; closes = hm 15 30; entry_cutoff = hm 14 45; force_flat = hm 15 20 }

abbrev mcx : SessionSpec
mcx = record { opens = hm 9 0; closes = hm 23 30; entry_cutoff = hm 23 0; force_flat = hm 23 20 }

-- `SESSIONS`
abbrev pub spec : Segment → SessionSpec
spec nse_eq = nse
spec nse_fo = nse
spec nse_idx = nse
spec mcx_fo = mcx

-- `SessionSpec.contains`
unfoldable pub contains : SessionSpec → ℕ → Bool
contains s t = leb s.opens t && leb t s.closes

-- `to_ist(ts).date()`
unfoldable pub ist_day : Time → ℕ
ist_day ts = (ts + ist_offset) / day_length

-- `to_ist(ts).time()`
unfoldable pub ist_time : Time → ℕ
ist_time ts = (ts + ist_offset) % day_length

-- `from_ist(datetime.combine(d, t))`
unfoldable pub from_ist : ℕ → ℕ → Time
from_ist d t = d * day_length + t - ist_offset

unfoldable pub session_open_ts : Segment → ℕ → Time
unfolding from_ist
session_open_ts seg d = from_ist d (spec seg).opens

unfoldable pub session_close_ts : Segment → ℕ → Time
unfolding from_ist
session_close_ts seg d = from_ist d (spec seg).closes

-- 1970-01-01 was a Thursday: Monday is 0.
unfoldable pub weekday : ℕ → ℕ
weekday d = (d + 3) % 7

abbrev pub Holidays : Type 0
Holidays = List ℕ

listed : ℕ → Holidays → Bool
listed d [] = false
listed d (h ∷ hs) = d == h || listed d hs

unfoldable pub is_trading_day : Holidays → ℕ → Bool
unfolding listed weekday
is_trading_day cal d = ltb (weekday d) 5 && not (listed d cal)

-- The loop of `previous_trading_day`, with the rounds that are left.
previous_from : Holidays → ℕ → ℕ → ℕ
previous_from cal cur zero = cur
previous_from cal cur (suc rounds) =
    let rest = previous_from cal (cur - 1) rounds in if is_trading_day cal cur then cur else rest

unfoldable pub previous_trading_day : Holidays → ℕ → ℕ
unfolding previous_from
previous_trading_day cal d = previous_from cal (d - 1) 30

unfoldable pub is_open : Segment → Time → Holidays → Bool
unfolding is_trading_day ist_day contains ist_time
is_open seg ts cal = is_trading_day cal (ist_day ts) && contains (spec seg) (ist_time ts)

unfoldable pub in_entry_window : Segment → Time → Holidays → Bool
unfolding is_trading_day ist_day ist_time
in_entry_window seg ts cal =
    is_trading_day cal (ist_day ts)
    && (leb (spec seg).opens (ist_time ts) && leb (ist_time ts) (spec seg).entry_cutoff)

unfoldable pub past_force_flat : Segment → Time → Bool
unfolding ist_time
past_force_flat seg ts = leb (spec seg).force_flat (ist_time ts)

unfoldable pub bucket_start : Segment → Time → Frame → Time
unfolding session_open_ts ist_day
bucket_start seg ts daily = session_open_ts seg (ist_day ts)
bucket_start seg ts (intraday tf) =
    let open_ts = session_open_ts seg (ist_day ts) in
    if ltb ts open_ts then open_ts else open_ts + (ts - open_ts) / tf_length tf * tf_length tf

unfoldable pub bucket_end : Segment → Time → Frame → Time
unfolding session_close_ts ist_day
bucket_end seg bucket daily = session_close_ts seg (ist_day bucket)
bucket_end seg bucket (intraday tf) =
    min (bucket + tf_length tf) (session_close_ts seg (ist_day bucket))

unfoldable pub is_boundary : Segment → Time → Frame → Bool
unfolding bucket_start
is_boundary seg ts tf = bucket_start seg ts tf == ts

pub data Phase : Type 0 where
  open_phase mid_phase eod_phase : Phase

-- `ist_hm`: the text "HH:MM" orders as the whole minutes do.
unfoldable pub ist_minute : Time → ℕ
unfolding ist_time
ist_minute ts = ist_time ts / minute

unfoldable pub session_phase : Segment → Time → Phase
unfolding ist_minute
session_phase seg ts =
    if leb ((spec seg).entry_cutoff / minute) (ist_minute ts)
    then eod_phase
    else if leb (ist_minute ts) ((spec seg).opens / minute)
    then open_phase
    else mid_phase
