-- ===== src/Risk/Limits.antt =====
-- backend/kotsin_nse/risk/limits.py: `RiskLimits`, with the durations in microseconds.
use kotsin_nse.Prelude.{ℕ, ◌*◌, Bool, true, false, Option, none, some, List, [], ◌∷◌}
use kotsin_nse.Num.{Num, ◌⊗◌, ◌⊘◌, min_of, of_nat, nought}
use kotsin_nse.Market.Session.{second}

-- `arm_mode`: "touch" or "immediate"
pub data ArmMode : Type 0 where
  touch immediate : ArmMode

-- `band_exit`: "through", "dwell" or "sustain"
pub data BandExit : Type 0 where
  through dwell sustain : BandExit

-- `ladder_mode`: "mtf" or "daily_r"
pub data LadderMode : Type 0 where
  mtf daily_r : LadderMode

pub record RiskLimits (W : Type 0) : Type 0 where
  pub risk_per_trade_pct : W
  pub max_position_pct : W
  pub max_position_inr : W
  pub max_lots : Option ℕ
  pub max_positions_per_strategy : ℕ
  pub max_positions_per_underlying : ℕ
  pub max_positions_all_books : ℕ
  pub max_underlying_exposure_pct : W
  pub daily_loss_limit_pct : W
  pub max_drawdown_pct : W
  pub time_stop_bars : Option ℕ
  pub sustain_s : Option ℕ
  pub hard_floor_below_stop_pct : W
  pub peak_giveback_pct : Option W
  pub peak_giveback_spread_mult : W
  pub trail_dwell_samples : ℕ
  pub peak_arm_after_s : ℕ
  pub target_ladder : List W
  pub breakeven_after_t1 : Bool
  pub trail_giveback_pct : W
  pub trail_arm_pct : W
  pub hard_floor_pct : W
  pub own_ladder : Bool
  pub reproject_stop_s : Option ℕ
  pub arm_tranche_lots : ℕ
  pub arm_mode : ArmMode
  pub arm_min_move : W
  pub sl_lag : Bool
  pub giveback_move_frac : W
  pub band_exit : BandExit
  pub post_arm_sustain : Bool
  pub min_stop_ticks : ℕ
  pub ladder_mode : LadderMode
  pub dried_volume_v : Option W

-- `position_budget`
unfoldable pub position_budget : {W : Type 0} ⦃f : Num W⦄ → RiskLimits W → W → W
unfolding min_of
position_budget lim balance =
    min_of (balance ⊗ lim.max_position_pct ⊘ of_nat 100) lim.max_position_inr

module _ {W : Type 0} ⦃f : Num W⦄ where
  -- The defaults of `RiskLimits`.
  abbrev pub default_limits : RiskLimits W
  default_limits = record {
    risk_per_trade_pct = of_nat 1;
    max_position_pct = of_nat 10;
    max_position_inr = of_nat 100_000;
    max_lots = none;
    max_positions_per_strategy = 30;
    max_positions_per_underlying = 1;
    max_positions_all_books = 90;
    max_underlying_exposure_pct = of_nat 20;
    daily_loss_limit_pct = of_nat 3;
    max_drawdown_pct = of_nat 15;
    time_stop_bars = some 8;
    sustain_s = none;
    hard_floor_below_stop_pct = of_nat 9;
    peak_giveback_pct = none;
    peak_giveback_spread_mult = f.lit 15 1;
    trail_dwell_samples = 3;
    peak_arm_after_s = 90 * second;
    target_ladder = f.lit 4 1 ∷ f.lit 3 1 ∷ f.lit 2 1 ∷ f.lit 1 1 ∷ [];
    breakeven_after_t1 = true;
    trail_giveback_pct = of_nat 40;
    trail_arm_pct = of_nat 3;
    hard_floor_pct = of_nat 50;
    own_ladder = false;
    reproject_stop_s = none;
    arm_tranche_lots = 1;
    arm_mode = touch;
    arm_min_move = nought;
    sl_lag = false;
    giveback_move_frac = nought;
    band_exit = through;
    post_arm_sustain = false;
    min_stop_ticks = 0;
    ladder_mode = mtf;
    dried_volume_v = none;
  }

  -- `RT_X_LIMITS`, `RT_N_LIMITS`, `RT_Y_LIMITS`, `CT_X_LIMITS` and `CT_Y_LIMITS`
  abbrev pub rt_x_limits : RiskLimits W
  rt_x_limits = record default_limits {
    max_lots = some 4;
    time_stop_bars = none;
    sustain_s = some (75 * second);
    peak_giveback_pct = some (of_nat 3);
    own_ladder = true;
    reproject_stop_s = some (10 * second);
    min_stop_ticks = 8;
    dried_volume_v = some (f.lit 85 2);
  }

  abbrev pub rt_n_limits : RiskLimits W
  rt_n_limits = record rt_x_limits {
    peak_giveback_pct = some (of_nat 2);
    ladder_mode = daily_r;
    arm_mode = immediate;
    band_exit = dwell;
    dried_volume_v = none;
  }

  abbrev pub rt_y_limits : RiskLimits W
  rt_y_limits = record rt_x_limits {
    peak_giveback_pct = some (of_nat 10);
    arm_min_move = f.lit 5 1;
    sl_lag = true;
    giveback_move_frac = f.lit 25 2;
    band_exit = sustain;
    post_arm_sustain = true;
  }

  abbrev pub ct_x_limits : RiskLimits W
  ct_x_limits = record rt_x_limits { dried_volume_v = none }

  abbrev pub ct_y_limits : RiskLimits W
  ct_y_limits = record rt_y_limits { dried_volume_v = none }
