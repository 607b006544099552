-- ===== src/Tests/Wallet.antt =====
-- A wallet's halts at concrete calls.
use kotsin_nse.Prelude.{ℕ, ◌+◌, ◌≡◌, refl, true, false, List, [], ◌∷◌, some}
use kotsin_nse.Prelude.Int.{pos, ◌+ℤ◌, ◌-ℤ◌, ◌*ℤ◌}
use kotsin_nse.Num.Cents.{Cents, cents_num}
use kotsin_nse.Market.Session.{second, day_length, ist_day}
use kotsin_nse.Risk.Wallet.{
  Wallet, HaltReason, by_daily_loss, new_wallet, roll, check_breakers, day_pnl_pct,
}
use kotsin_nse.Risk.Wallet.Halts.{Op, rolled, breakers, booked, act_all, halt_lasts_the_day}
use kotsin_nse.Tests.Data.{ten, base}

abbrev fresh : Wallet Cents
fresh = new_wallet "FUDKII" (pos 10_000_000) ten

abbrev halted_by : HaltReason → Wallet Cents
halted_by reason = record fresh { halted = true; halt_reason = reason }

-- A loss of 4 % trips the daily limit of 3 %.
loss_trips :
    (check_breakers base ten (record fresh { balance = pos 9_600_000 })).0 ≡ some by_daily_loss
unfolding check_breakers day_pnl_pct new_wallet ◌+ℤ◌ ◌-ℤ◌ ◌*ℤ◌
loss_trips = refl

abbrev ops : List (Op Cents)
ops = booked (pos 500_000) ten ∷ rolled (ten + second) ∷ breakers ten ∷ []

abbrev tomorrow : ℕ
tomorrow = ten + day_length

halt_lasts_the_day_example :
    ((act_all base ops (halted_by by_daily_loss)).halted ≡ true)
    × ((roll tomorrow (act_all base ops (halted_by by_daily_loss))).1.halted ≡ false)
unfolding new_wallet ist_day
halt_lasts_the_day_example =
    halt_lasts_the_day base ops (halted_by by_daily_loss) tomorrow (tt, (refl, (tt, tt))) refl refl
