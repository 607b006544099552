-- ===== src/Tests/Sizing.antt =====
-- Sizes and exposure verdicts at concrete inputs.
use kotsin_nse.Prelude.{◌≡◌, refl, some}
use kotsin_nse.Prelude.Int.{pos, ◌+ℤ◌, ◌-ℤ◌, ◌*ℤ◌}
use kotsin_nse.Num.Cents.{Cents, cents_num}
use kotsin_nse.Risk.Sizing.{SizingResult, size_position}
use kotsin_nse.Tests.Data.{call_option, costs, base}

-- A premium of 100.00 with the stop at 90.00, from a wallet of 1,00,000.00.
abbrev size : SizingResult Cents
size =
    size_position call_option (pos 10_000) (pos 9_000) (some (pos 11_000)) (pos 10_000_000)
      (pos 10_000_000) base costs (pos 35)

size-lots : size.lots ≡ 2
unfolding size_position ◌+ℤ◌ ◌-ℤ◌ ◌*ℤ◌
size-lots = refl
