-- ===== src/Tests/Live.antt =====
-- Live orders at a concrete venue.
use kotsin_nse.Prelude.{
  ℕ, ◌+◌, ◌*◌, ◌<◌, ◌≡◌, ◌⊎◌, refl, String, true, Option, none, some, arith, ltb, if◌then◌else◌,
}
use kotsin_nse.Prelude.Int.{pos}
use kotsin_nse.Prelude.Ascii.{codes}
use kotsin_nse.Num.Cents.{Cents, cents_num}
use kotsin_nse.Domain.{exit}
use kotsin_nse.Market.Session.{second}
use kotsin_nse.Exec.Gateway.{live, submit_live}
use kotsin_nse.Exec.Gateway.Orders.{IsLoud, live_exit_fills_or_raises}
use kotsin_nse.Exec.Live.{
  LiveExecutor, Row, Venue, Placement, raised, Call, gave, venue_error, place,
}
use kotsin_nse.Exec.Live.Deadline.{sent, IsTicking, place_terminates}
use kotsin_nse.Exec.Live.Outcome.{IsFill, IsRefusal, place_answers}
use kotsin_nse.Tests.Data.{order, gateway, inputs, context, costs, ten}

abbrev executor : LiveExecutor Cents
executor = record {
  costs = costs;
  poll_interval = second;
  poll_timeout = 20 * second;
  intraday = true;
  placed = 0;
  rejected = 0;
}

abbrev row : String → Row Cents
row status = record {
  status = some (codes status);
  order_status = none;
  rate = some (pos 10_000);
  avg_rate = none;
  traded_qty = some 100;
  qty = none;
  reason = none;
  message = none;
}

-- The first poll fails, the second shows the order pending, and the third a terminal status.
abbrev replies : String → ℕ → Call (Row Cents)
replies status n =
    if ltb n 1
    then venue_error "timeout"
    else if ltb n 2
    then gave (row "Pending")
    else gave (row status)

abbrev venue : String → Venue Cents
venue status = record {
  place_order = λ i side qty price intraday id. gave "b1";
  order_status = λ i id n. replies status n;
  started = ten;
  test_clock = λ n. ten + n * second;
  fill_clock = λ n. ten + n * second;
}

venue-IsTicking : (status : String) → IsTicking second (venue status)
venue-IsTicking status n = omega arith

place_terminates_example :
    (out : Placement Cents × LiveExecutor Cents) × ((fuel : ℕ)
      → 20 < fuel
      → place fuel (order exit) (venue " fully executed ") executor ≡ some out)
place_terminates_example =
    place_terminates 20 (order exit) (venue " fully executed ") executor
      (venue-IsTicking " fully executed ") (omega arith) (omega arith)

abbrev outcome : Option (Placement Cents × LiveExecutor Cents)
outcome = place 21 (order exit) (venue "Rejected") executor

-- A rejected exit is raised, and counted.
rejected_exit :
    place 21 (order exit) (venue "Rejected") executor
    ≡ some (raised, record executor { placed = 1; rejected = 1 })
unfolding place
rejected_exit = refl

place_answers_example :
    let v = venue "Rejected" in
    ((id : String) × (sent (order exit) v executor ≡ gave id)
      × (IsFill (order exit) v (record executor { placed = 1 }) id raised
          ⊎ IsRefusal (order exit) raised))
    ⊎ ((text : String) × (sent (order exit) v executor ≡ venue_error text)
        × IsRefusal (order exit) raised)
place_answers_example =
    place_answers 21 (order exit) (venue "Rejected") executor
      (record executor { placed = 1; rejected = 1 }) raised rejected_exit

live_exit_fills_or_raises_example :
    IsLoud (submit_live (order exit) context (inputs live) (some raised) gateway).0
live_exit_fills_or_raises_example =
    live_exit_fills_or_raises (order exit) context (inputs live) gateway 21 (venue "Rejected")
      executor (record executor { placed = 1; rejected = 1 }) raised refl refl refl rejected_exit
