-- ===== src/Risk/Wallet/Halts.antt =====
-- How long a wallet's halt lasts, over any sequence of the operations on it.
use kotsin_nse.Prelude.{
  ℕ, ◌+◌, ◌≤◌, ◌≡◌, refl, true, false, not, List, [], ◌∷◌, ◌==◌, arith, ◌∙◌, All,
}
use kotsin_nse.Num.{Num, ◌⊕◌, nought}
use kotsin_nse.Num.Laws.{◌≼◌, IsOrdered, le-max_left}
use kotsin_nse.Domain.{Time}
use kotsin_nse.Market.Session.{ist_day}
use kotsin_nse.Risk.Limits.{RiskLimits}
use kotsin_nse.Risk.Wallet.{
  Wallet, by_drawdown, roll, reserve, commit, release, apply_charges, apply_close, check_breakers,
  is_daily_loss,
}

-- The calls that the engine makes on a wallet.
pub data Op (W : Type 0) : Type 0 where
  rolled breakers : Time → Op W
  reserved committed released charged booked : W → Time → Op W

-- The halt of a day: no rollover to another day.
abbrev pub SameDay : {W : Type 0} → ℕ → Op W → Type 0
SameDay day (rolled now) = ist_day now ≡ day
SameDay day _ = Unit

module _ {W : Type 0} ⦃f : Num W⦄ where
  unfoldable pub act : RiskLimits W → Op W → Wallet W → Wallet W
  act lim (rolled now) w = (roll now w).1
  act lim (breakers now) w = (check_breakers lim now w).1
  act lim (reserved a now) w = (reserve a now w).1
  act lim (committed a now) w = (commit a now w).1
  act lim (released a now) w = release a now w
  act lim (charged a now) w = apply_charges a now w
  act lim (booked pnl now) w = apply_close pnl now w

  unfoldable pub act_all : RiskLimits W → List (Op W) → Wallet W → Wallet W
  unfolding act
  act_all lim [] w = w
  act_all lim (o ∷ os) w = act_all lim os (act lim o w)

  drawdown_step :
      (lim : RiskLimits W) (o : Op W) (w : Wallet W)
      → w.halted ≡ true
      → w.halt_reason ≡ by_drawdown
      → ((act lim o w).halted ≡ true) × ((act lim o w).halt_reason ≡ by_drawdown)
  unfolding act roll check_breakers reserve commit release apply_charges apply_close
  drawdown_step lim o w h r = ground arith

  -- A wallet halted for its drawdown stays halted for it, whatever is called on it after that, days
  -- and profits included.
  pub drawdown_halt_stays :
      (lim : RiskLimits W) (os : List (Op W)) (w : Wallet W)
      → w.halted ≡ true
      → w.halt_reason ≡ by_drawdown
      → ((act_all lim os w).halted ≡ true) × ((act_all lim os w).halt_reason ≡ by_drawdown)
  unfolding act_all
  drawdown_halt_stays lim [] w h r = (h, r)
  drawdown_halt_stays lim (o ∷ os) w h r =
      let step = drawdown_step lim o w h r in drawdown_halt_stays lim os (act lim o w) step.0 step.1

  -- The halt of a wallet is the same one, on the same day.
  abbrev SameHalt : Wallet W → Wallet W → Type 0
  SameHalt w v = (v.halted ≡ true) × (v.halt_reason ≡ w.halt_reason) × (v.day ≡ w.day)

  daily_step :
      (lim : RiskLimits W) (o : Op W) (w : Wallet W)
      → SameDay w.day o
      → w.halted ≡ true
      → SameHalt w (act lim o w)
  unfolding act roll check_breakers reserve commit release apply_charges apply_close
  daily_step lim o w s h = ground arith

  daily_run :
      (lim : RiskLimits W) (os : List (Op W)) (w : Wallet W)
      → All (SameDay w.day) os
      → w.halted ≡ true
      → SameHalt w (act_all lim os w)
  unfolding act_all
  daily_run lim [] w s h = (h, refl, refl)
  daily_run lim (o ∷ os) w s h =
      let step = daily_step lim o w s.0 h in
      let rest = daily_run lim os (act lim o w) (rw step.2 s.1) step.0 in
      (rest.0, rest.1 ∙ step.1, rest.2 ∙ step.2)

  -- A halted wallet stays halted through any calls of the same IST day, and the rollover to another
  -- day that follows them resumes it exactly if the halt was for the day's loss.
  pub halt_lasts_the_day :
      (lim : RiskLimits W) (os : List (Op W)) (w : Wallet W) (now : Time)
      → All (SameDay w.day) os
      → w.halted ≡ true
      → (ist_day now == w.day) ≡ false
      → ((act_all lim os w).halted ≡ true)
        × ((roll now (act_all lim os w)).1.halted ≡ not (is_daily_loss w.halt_reason))
  unfolding roll
  halt_lasts_the_day lim os w now s h d = ground (arith, daily_run lim os w s h)

  -- What a closing books, and nothing otherwise.
  abbrev pnl_of : Op W → W
  pnl_of (booked pnl now) = pnl
  pnl_of _ = nought

  counts_step :
      (laws : IsOrdered W) (lim : RiskLimits W) (o : Op W) (w : Wallet W)
      → w.wins + w.losses ≤ w.trades
      → ((act lim o w).wins + (act lim o w).losses ≤ (act lim o w).trades)
        × (w.peak ≼ (act lim o w).peak)
  unfolding act roll check_breakers reserve commit release apply_charges apply_close
  counts_step laws lim o w h =
      ground (arith, laws.le_refl w.peak, le-max_left laws w.peak (w.balance ⊕ pnl_of o))

  -- Over any calls a wallet never counts more wins and losses than trades, if it did not before, and
  -- its peak never falls.
  pub counts_hold :
      (laws : IsOrdered W) (lim : RiskLimits W) (os : List (Op W)) (w : Wallet W)
      → w.wins + w.losses ≤ w.trades
      → ((act_all lim os w).wins + (act_all lim os w).losses ≤ (act_all lim os w).trades)
        × (w.peak ≼ (act_all lim os w).peak)
  unfolding act_all
  counts_hold laws lim [] w h = (h, laws.le_refl w.peak)
  counts_hold laws lim (o ∷ os) w h =
      let step = counts_step laws lim o w h in
      let rest = counts_hold laws lim os (act lim o w) step.0 in
      (rest.0, laws.le_trans _ _ _ step.1 rest.1)
