-- ===== src/Tests/Market.antt =====
-- The session clock on 4 October 2024.
use kotsin_nse.Prelude.{ℕ, ◌+◌, ◌-◌, ◌*◌, ◌%◌, ◌≤◌, ◌<◌, ◌≡◌, refl, arith}
use kotsin_nse.Domain.{nse_fo}
use kotsin_nse.Market.Session.{
  m30, tf_length, intraday, minute, hm, session_open_ts, session_close_ts, ist_day, ist_time,
  bucket_start, bucket_end,
}
use kotsin_nse.Market.Session.Laws.{session_open_wall_clock, bucket_contains}
use kotsin_nse.Tests.Data.{ten, day}

-- 10:00 is in the half hour that starts at 09:45.
bucket-ten : bucket_start nse_fo ten (intraday m30) ≡ ten - 15 * minute
unfolding bucket_start
bucket-ten = refl

session_open_wall_clock_example :
    (ist_day (session_open_ts nse_fo day) ≡ day) × (ist_time (session_open_ts nse_fo day) ≡ hm 9 15)
session_open_wall_clock_example = session_open_wall_clock nse_fo day

bucket_contains_example :
    let b = bucket_start nse_fo ten (intraday m30) in
    (session_open_ts nse_fo (ist_day ten) ≤ b)
    × (b ≤ ten)
    × (ten < bucket_end nse_fo b (intraday m30))
    × (bucket_end nse_fo b (intraday m30) ≤ session_close_ts nse_fo (ist_day ten))
    × ((b - session_open_ts nse_fo (ist_day ten)) % tf_length m30 ≡ 0)
unfolding session_open_ts session_close_ts ist_day
bucket_contains_example = bucket_contains nse_fo ten m30 (ground arith) (ground arith)

-- 15:40 is after the close of 15:30.
abbrev late : ℕ
late = ten + 340 * minute

-- The Monday after, with the Friday a holiday: Thursday.
abbrev monday : ℕ
monday = day + 3
