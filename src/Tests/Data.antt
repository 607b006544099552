-- ===== src/Tests/Data.antt =====
-- The data of the tests: one option, an order for it, a gateway and a position.
use kotsin_nse.Prelude.{ℕ, ◌+◌, ◌*◌, true, false, none, some, List, [], ◌∷◌}
use kotsin_nse.Prelude.Int.{pos}
use kotsin_nse.Num.Cents.{Cents, cents_num}
use kotsin_nse.Domain.{
  Time, Instrument, nse_fo, option, ce, OrderIntent, buy, Purpose, Fill, Position, long, bullish,
  opened, unarmed,
}
use kotsin_nse.Market.Session.{second}
use kotsin_nse.Risk.Limits.{RiskLimits, default_limits, rt_x_limits}
use kotsin_nse.Risk.Costs.{CostSettings}
use kotsin_nse.Risk.Exits.{MarketView}
use kotsin_nse.Exec.Paper.{BookSnapshot, Matcher}
use kotsin_nse.Exec.Live.{no_error}
use kotsin_nse.Prelude.Ascii.{codes}
use kotsin_nse.Exec.Gateway.{Gateway, LiveCaps, LiveContext, Inputs, Mode, LiveResult}

-- 10:00 IST on 4 October 2024, a Friday.
abbrev pub ten : Time
ten = 1_728_016_200 * second

abbrev pub day : ℕ
day = 20_000

abbrev pub call_option : Instrument Cents
call_option = record {
  scrip_code = "42";
  symbol = "NIFTY";
  segment = nse_fo;
  kind = option;
  lot_size = 50;
  tick_size = pos 5;
  multiplier = 1;
  strike = pos 2_500_000;
  option_type = ce;
}

abbrev pub order : Purpose → OrderIntent Cents
order purpose = record {
  strategy = "FUDKII";
  instrument = call_option;
  side = buy;
  qty = 100;
  purpose = purpose;
  signal_id = "s";
  client_order_id = "k";
  ref_price = none;
  limit_price = none;
}

abbrev pub costs : CostSettings Cents
costs = record {
  brokerage_per_order = pos 4_000;
  brokerage_pct = pos 0;
  exchange_pct_option = pos 3;
  exchange_pct_future = pos 0;
  exchange_pct_equity = pos 0;
  stt_pct_option = pos 6;
  stt_pct_future = pos 2;
  stt_pct_equity = pos 2;
  sebi_pct = pos 0;
  stamp_pct_buy = pos 0;
  gst_pct = pos 1_800;
  slippage_bps_default = pos 500;
}

abbrev pub matcher : Matcher Cents
matcher = record {
  costs = costs;
  max_book_age = 3 * second;
  open_max_book_age = 10 * second;
  open_from = 555;
  open_until = 570;
  ceiling_pct = pos 500;
  fills = 0;
  truncated = 0;
  rejected_stale = 0;
}

-- 60 at 100.00, 30 at 101.00, and more beyond the ceiling.
abbrev pub asks : List (Cents × ℕ)
asks = (pos 10_000, 60) ∷ (pos 10_100, 30) ∷ (pos 12_000, 500) ∷ []

abbrev pub book : BookSnapshot Cents
book = record { bids = (pos 9_900, 80) ∷ []; asks = asks; ts = ten }

abbrev pub caps : LiveCaps Cents
caps = record {
  segments = nse_fo ∷ [];
  max_notional_inr = pos 10_000_000;
  max_positions = 3;
  max_orders_per_day = 5;
  daily_loss_inr = pos 500_000;
  entry_cutoff = 885;
  breaker_consecutive_rejects = 2;
  skip_index = true;
}

abbrev pub gateway : Gateway Cents
gateway = record {
  caps = caps;
  matcher = matcher;
  seen = "old" ∷ [];
  orders_today = 1;
  consecutive_rejects = 0;
  breaker_tripped = false;
  day = day;
}

abbrev pub inputs : Mode → Inputs Cents
inputs mode = record {
  mode = mode;
  halted = false;
  book = some book;
  ltp = some (pos 10_000);
  now = ten;
}

abbrev pub context : LiveContext Cents
context = record {
  open_positions = 0;
  day_pnl_inr = pos 0;
  now_minute = 600;
  segment = nse_fo;
  exposure_ok = true;
}

abbrev pub live_fill : Fill Cents
live_fill = record {
  price = pos 10_000;
  qty = 100;
  ts = ten;
  charges = pos 4_000;
  slippage_bps = none;
  book_age = none;
  levels = 1;
}

abbrev pub placed_at_broker : LiveResult Cents
placed_at_broker = record {
  ok = true;
  order_id = "b1";
  fill = some live_fill;
  error = no_error;
  status = codes "EXECUTED";
}

-- 100 bought at 100.00 with the stop at 90.00 and rungs at 110.00 and 120.00.
abbrev pub position : Position Cents
position = record {
  id = "p";
  strategy = "FUDKII";
  instrument = call_option;
  underlying = call_option;
  side = long;
  qty = 100;
  entry_price = pos 10_000;
  opened_ts = ten;
  signal_id = "s";
  direction = bullish;
  equity_entry = pos 2_500_000;
  equity_sl = pos 2_400_000;
  equity_targets = pos 2_600_000 ∷ [];
  option_sl = pos 9_000;
  option_targets = pos 11_000 ∷ pos 12_000 ∷ [];
  r_unit = pos 1_000;
  peak_r = pos 0;
  mfe_r = pos 0;
  mae_r = pos 0;
  charges = pos 0;
  targets_hit = 0;
  qty_remaining = 100;
  status = opened;
  bars_held = 0;
  closed_ts = none;
  exit_price = none;
  exit_reason = none;
  breach_since = none;
  peak_mid = pos 0;
  trail_dwell = 0;
  option_t1 = pos 0;
  armed_by = unarmed;
  armed_ts = none;
  ratchet_sl = pos 8_000;
  last_reproject_ts = ten;
  t_touch_ts = none;
  t_close_ok = false;
  sustained_count = 0;
  option_edm = pos 0;
  line_breach_since = none;
  last_minute = none;
}

-- The option at `price`, a second later.
abbrev pub view_at : Cents → MarketView Cents
view_at price = record {
  option_ltp = price;
  underlying_ltp = some (pos 2_500_000);
  now = ten + second;
  bars_held = 0;
  past_force_flat = false;
  halted = false;
  daily_loss_hit = false;
  option_mid = some price;
  spread_pct = none;
  quote_ok = true;
}

abbrev pub base : RiskLimits Cents
base = default_limits

abbrev pub rt_x : RiskLimits Cents
rt_x = rt_x_limits
