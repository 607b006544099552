-- ===== src/Risk/Wallet.antt =====
-- backend/kotsin_nse/risk/wallet.py: one wallet for each strategy. A halt reason is kept by its kind,
-- without the figures in its text; a day is the number of the IST day.
pub mod Halts
use kotsin_nse.Prelude.{
  ℕ, String, Bool, true, false, not, ◌&&◌, Option, none, some, List, [], ◌∷◌, ◌+◌, ◌==◌,
  if◌then◌else◌,
}
use kotsin_nse.Num.{Num, ◌⊕◌, ◌⊖◌, ◌⊗◌, ◌⊘◌, gt, ge, lt, le, nought, of_nat, truthy, max_of}
use kotsin_nse.Domain.{Time}
use kotsin_nse.Market.Session.{ist_day}
use kotsin_nse.Risk.Limits.{RiskLimits}

-- `halt_reason`: "", "DAILY_LOSS …" or "DRAWDOWN …"
pub data HaltReason : Type 0 where
  unset by_daily_loss by_drawdown : HaltReason

pub record Wallet (W : Type 0) : Type 0 where
  pub strategy : String
  pub initial : W
  pub balance : W
  pub peak : W
  pub day_start_balance : W
  pub day : ℕ
  pub realized_pnl : W
  pub charges_paid : W
  pub trades : ℕ
  pub wins : ℕ
  pub losses : ℕ
  pub deployed : W
  pub halted : Bool
  pub halt_reason : HaltReason
  pub updated_ts : Time

abbrev pub is_daily_loss : HaltReason → Bool
is_daily_loss by_daily_loss = true
is_daily_loss _ = false

module _ {W : Type 0} ⦃f : Num W⦄ where
  -- `Wallet.new`
  unfoldable pub new_wallet : String → W → Time → Wallet W
  unfolding ist_day
  new_wallet strategy initial now = record {
    strategy = strategy;
    initial = initial;
    balance = initial;
    peak = initial;
    day_start_balance = initial;
    day = ist_day now;
    realized_pnl = nought;
    charges_paid = nought;
    trades = 0;
    wins = 0;
    losses = 0;
    deployed = nought;
    halted = false;
    halt_reason = unset;
    updated_ts = now;
  }

  unfoldable pub available : Wallet W → W
  unfolding max_of
  available w = max_of nought (w.balance ⊖ w.deployed)

  unfoldable pub day_pnl : Wallet W → W
  day_pnl w = w.balance ⊖ w.day_start_balance

  unfoldable pub day_pnl_pct : Wallet W → W
  unfolding day_pnl
  day_pnl_pct w =
      if truthy w.day_start_balance then day_pnl w ⊘ w.day_start_balance ⊗ of_nat 100 else nought

  unfoldable pub drawdown_pct : Wallet W → W
  drawdown_pct w = if truthy w.peak then (w.peak ⊖ w.balance) ⊘ w.peak ⊗ of_nat 100 else nought

  -- `win_rate`
  unfoldable pub win_rate : Wallet W → Option W
  win_rate w = if w.trades == 0 then none else some (of_nat w.wins ⊘ of_nat w.trades)

  -- `rollover`
  unfoldable pub roll : Time → Wallet W → Bool × Wallet W
  roll now w =
      let turned = record w {
        day = ist_day now;
        day_start_balance = w.balance;
        updated_ts = now;
      } in
      if ist_day now == w.day
      then (false, w)
      else if w.halted && is_daily_loss w.halt_reason
      then (true, record turned { halted = false; halt_reason = unset })
      else (true, turned)

  unfoldable pub reserve : W → Time → Wallet W → Bool × Wallet W
  unfolding available
  reserve amount now w =
      if gt amount (available w)
      then (false, w)
      else (true, record w { deployed = w.deployed ⊕ amount; updated_ts = now })

  unfoldable pub commit : W → Time → Wallet W → W × Wallet W
  unfolding available max_of
  commit amount now w = (
    max_of nought (amount ⊖ available w),
    record w { deployed = w.deployed ⊕ amount; updated_ts = now },
  )

  unfoldable pub release : W → Time → Wallet W → Wallet W
  unfolding max_of
  release amount now w = record w {
    deployed = max_of nought (w.deployed ⊖ amount);
    updated_ts = now;
  }

  unfoldable pub apply_charges : W → Time → Wallet W → Wallet W
  apply_charges amount now w = record w {
    balance = w.balance ⊖ amount;
    charges_paid = w.charges_paid ⊕ amount;
    updated_ts = now;
  }

  unfoldable pub apply_close : W → Time → Wallet W → Wallet W
  unfolding max_of
  apply_close net_pnl now w =
      let balance = w.balance ⊕ net_pnl in
      record w {
        balance = balance;
        realized_pnl = w.realized_pnl ⊕ net_pnl;
        trades = w.trades + 1;
        wins = if gt net_pnl nought then w.wins + 1 else w.wins;
        losses =
            if gt net_pnl nought
            then w.losses
            else if lt net_pnl nought
            then w.losses + 1
            else w.losses;
        peak = max_of w.peak balance;
        updated_ts = now;
      }

  -- `check_breakers`: the reason, if the wallet is newly halted.
  unfoldable pub check_breakers : RiskLimits W → Time → Wallet W → Option HaltReason × Wallet W
  unfolding day_pnl_pct drawdown_pct
  check_breakers lim now w =
      if w.halted
      then (none, w)
      else if le (day_pnl_pct w) (nought ⊖ lim.daily_loss_limit_pct)
      then (
        some by_daily_loss,
        record w { halted = true; halt_reason = by_daily_loss; updated_ts = now },
      )
      else if ge (drawdown_pct w) lim.max_drawdown_pct
      then (
        some by_drawdown,
        record w { halted = true; halt_reason = by_drawdown; updated_ts = now },
      )
      else (none, w)
