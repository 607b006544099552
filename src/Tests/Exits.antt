-- ===== src/Tests/Exits.antt =====
-- The exit rules at concrete positions.
use kotsin_nse.Prelude.{◌+◌, ◌*◌, ◌≤◌, ◌<◌, ◌≡◌, refl, true, false, none, some, List, [], ◌∷◌}
use kotsin_nse.Prelude.Int.{pos, ◌+ℤ◌, ◌-ℤ◌, ◌*ℤ◌}
use kotsin_nse.Num.Cents.{Cents, cents_num, Cents-IsOrdered}
use kotsin_nse.Num.Laws.{◌≼◌}
use kotsin_nse.Domain.{ExitDecision, opened, target, dir_sign, qty_step}
use kotsin_nse.Market.Session.{second}
use kotsin_nse.Risk.Limits.{RiskLimits}
use kotsin_nse.Risk.Exits.{
  MarketView, evaluate, prepare, reproject_stop, track, equity_breached, mark,
  hard_floor_below_stop, equity_confirmed_stop, sustain_block, touch_stop, equity_stop,
  legacy_hard_floor, targets_rule,
}
use kotsin_nse.Risk.Exits.Quantity.{evaluate_quantity}
use kotsin_nse.Risk.Exits.Quantity.Books.{SameBook}
use kotsin_nse.Risk.Exits.Stops.Climbs.{IsRounded}
use kotsin_nse.Risk.Exits.Stops.{ratchet_holds}
use kotsin_nse.Risk.Exits.Backstops.{stale_breach_holds}
use kotsin_nse.Risk.Exits.Lifecycle.{Tick, IsBooked, sold, live, lifecycle_conserves}
use kotsin_nse.Tests.Data.{position, view_at, ten, base, rt_x}

-- The first rung of the base book: 40 % of 100, cut to a lot of 50, takes all that is left.
abbrev first_rung : ExitDecision Cents
first_rung = record { position_id = "p"; reason = target; ref_price = pos 11_000; qty = 100 }

evaluate_quantity_example :
    (0 < 100)
    × (100 ≤ 100)
    × (position.status ≡ opened)
    × SameBook position (evaluate base (view_at (pos 11_000)) position).1
unfolding evaluate dir_sign qty_step hard_floor_below_stop equity_confirmed_stop sustain_block
    touch_stop mark reproject_stop track equity_stop legacy_hard_floor targets_rule ◌+ℤ◌ ◌-ℤ◌ ◌*ℤ◌
evaluate_quantity_example = evaluate_quantity base (view_at (pos 11_000)) position first_rung refl

position-IsRounded : IsRounded position
unfolding ◌+ℤ◌ ◌-ℤ◌ ◌*ℤ◌
position-IsRounded = record { stop = refl; ratchet = refl }

-- A touch of the first rung under the RT-X policy.
ratchet_holds_example :
    IsRounded (evaluate rt_x (view_at (pos 11_000)) position).1
    × (pos 8_000 ≼ (evaluate rt_x (view_at (pos 11_000)) position).1.ratchet_sl)
    × ((evaluate rt_x (view_at (pos 11_000)) position).1.ratchet_sl
        ≼ (evaluate rt_x (view_at (pos 11_000)) position).1.option_sl)
unfolding ◌+ℤ◌ ◌-ℤ◌ ◌*ℤ◌
ratchet_holds_example =
    ratchet_holds Cents-IsOrdered rt_x (view_at (pos 11_000)) position position-IsRounded refl

abbrev late : MarketView Cents
late = record (view_at (pos 10_500)) { past_force_flat = true }

-- The quote is old, the last price is under the stop, and the force-flat has passed.
abbrev stale_late : MarketView Cents
stale_late = record (view_at (pos 8_500)) {
  past_force_flat = true;
  halted = true;
  quote_ok = false;
}

abbrev sustained : RiskLimits Cents
sustained = record base { sustain_s = some (75 * second) }

stale_breach_holds_example : (evaluate sustained stale_late position).0 ≡ none
unfolding prepare mark reproject_stop track equity_breached ◌+ℤ◌ ◌-ℤ◌ ◌*ℤ◌
stale_breach_holds_example =
    stale_breach_holds sustained stale_late position refl refl refl refl refl refl

abbrev ticks : List (Tick Cents)
ticks =
    record {
      view = view_at (pos 11_000);
      fill = some (record { price = pos 10_990; charges = pos 4_000 });
      now = ten + second;
    }
    ∷ record { view = view_at (pos 8_000); fill = none; now = ten + 2 * second }
    ∷ []

lifecycle_conserves_example :
    (sold base ticks position + (live base ticks position).qty_remaining ≡ 100)
    × IsBooked (live base ticks position)
lifecycle_conserves_example = lifecycle_conserves base ticks position refl
