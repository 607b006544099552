-- ===== src/Domain.antt =====
-- The records that risk and exec share (backend/kotsin_nse/domain.py, and `Segment` of config.py).
-- Counts and quantities are naturals; timestamps are whole microseconds since the epoch.
use Prim.Native.Nat.{max}
use kotsin_nse.Prelude.{ℕ, String, Bool, true, false, Option, List, if◌then◌else◌}
use kotsin_nse.Prelude.Int.{ℤ, pos, negsuc}
use kotsin_nse.Num.{Num, ◌⊖◌, ◌⊗◌, ◌⊘◌, gt, nought, of_nat}

-- Microseconds, the resolution of Python's datetime.
abbrev pub Time : Type 0
Time = ℕ

pub data Segment : Type 0 where
  nse_eq nse_fo nse_idx mcx_fo : Segment

pub data OptionType : Type 0 where
  ce pe fut no_option : OptionType

pub data InstrumentKind : Type 0 where
  equity future option index : InstrumentKind

pub data PosSide : Type 0 where
  long short : PosSide

pub data OrderSide : Type 0 where
  buy sell : OrderSide

pub data Purpose : Type 0 where
  entry exit : Purpose

pub data ExitReason : Type 0 where
  sl_op sl_eq target trail time_stop eod halt daily_loss manual end_of_range : ExitReason

pub data Direction : Type 0 where
  bullish bearish : Direction

pub record Instrument (W : Type 0) : Type 0 where
  pub scrip_code : String
  pub symbol : String
  pub segment : Segment
  pub kind : InstrumentKind
  pub lot_size : ℕ
  pub tick_size : W
  pub multiplier : ℕ
  pub strike : W
  pub option_type : OptionType

-- Cash trades in shares; everything else in lots.
unfoldable pub qty_step : {W : Type 0} → Instrument W → ℕ
qty_step i = elim i.kind [ equity ↦ 1 | _ ↦ max 1 i.lot_size ]

pub record OrderIntent (W : Type 0) : Type 0 where
  pub strategy : String
  pub instrument : Instrument W
  pub side : OrderSide
  pub qty : ℕ
  pub purpose : Purpose
  pub signal_id : String
  pub client_order_id : String
  pub ref_price : Option W
  pub limit_price : Option W

pub record Fill (W : Type 0) : Type 0 where
  pub price : W
  pub qty : ℕ
  pub ts : Time
  pub charges : W
  pub slippage_bps : Option W
  -- microseconds
  pub book_age : Option ℤ
  pub levels : ℕ

-- "OPEN" and "CLOSED"
pub data PositionStatus : Type 0 where
  opened closed : PositionStatus

-- `armed_by`: "", "equity" or "option"
pub data Trigger : Type 0 where
  unarmed by_equity by_option : Trigger

pub record Position (W : Type 0) : Type 0 where
  pub id : String
  pub strategy : String
  pub instrument : Instrument W
  pub underlying : Instrument W
  pub side : PosSide
  pub qty : ℕ
  pub entry_price : W
  pub opened_ts : Time
  pub signal_id : String
  pub direction : Direction
  pub equity_entry : W
  pub equity_sl : W
  pub equity_targets : List W
  pub option_sl : W
  pub option_targets : List W
  pub r_unit : W
  pub peak_r : W
  pub mfe_r : W
  pub mae_r : W
  pub charges : W
  pub targets_hit : ℕ
  pub qty_remaining : ℕ
  pub status : PositionStatus
  pub bars_held : ℕ
  pub closed_ts : Option Time
  pub exit_price : Option W
  pub exit_reason : Option ExitReason
  pub breach_since : Option Time
  pub peak_mid : W
  pub trail_dwell : ℕ
  pub option_t1 : W
  pub armed_by : Trigger
  pub armed_ts : Option Time
  pub ratchet_sl : W
  pub last_reproject_ts : Time
  pub t_touch_ts : Option Time
  pub t_close_ok : Bool
  -- the number of rungs whose sustain has completed: `sustained_idx + 1`
  pub sustained_count : ℕ
  pub option_edm : W
  pub line_breach_since : Option Time
  -- the entry of `ExitEngine._minute` for this position: a minute and its last print
  pub last_minute : Option (ℕ × W)

pub record ExitDecision (W : Type 0) : Type 0 where
  pub position_id : String
  pub reason : ExitReason
  pub ref_price : W
  pub qty : ℕ

abbrev pub is_opened : PositionStatus → Bool
is_opened opened = true
is_opened closed = false

unfoldable pub dir_sign : {W : Type 0} → Position W → ℤ
dir_sign p = elim p.side [ long ↦ pos 1 | short ↦ negsuc 0 ]

module _ {W : Type 0} ⦃f : Num W⦄ where
  -- `Instrument.notional`
  unfoldable pub notional : Instrument W → W → ℕ → W
  notional i price qty = price ⊗ of_nat qty ⊗ of_nat i.multiplier

  unfoldable pub r_now : Position W → W → W
  unfolding dir_sign
  r_now p ltp =
      if gt p.r_unit nought
      then (ltp ⊖ p.entry_price) ⊗ f.of_int (dir_sign p) ⊘ p.r_unit
      else nought
