-- ===== src/Tests/Gateway.antt =====
-- The gateway at concrete orders.
use kotsin_nse.Prelude.{◌≤◌, ◌≡◌, refl, true, none, some, List, [], ◌∷◌, arith, leb}
use kotsin_nse.Prelude.Int.{pos}
use kotsin_nse.Num.Cents.{Cents, cents_num}
use kotsin_nse.Domain.{OrderIntent, entry, exit, Fill}
use kotsin_nse.Exec.Paper
use kotsin_nse.Exec.Paper.{Matcher, filled}
use kotsin_nse.Exec.Gateway.{
  Inputs, shadow, paper, live_capped, live, dup_blocked, rejected_book, returned, raised, submit,
  submit_live, reset_breaker,
}
use kotsin_nse.Exec.Gateway.Calls.{
  Call, paper_call, live_call, reset_call, run, placements, call, tries,
}
use kotsin_nse.Exec.Gateway.Idempotency.{placed_once, attempt_uses_id, refusal}
use kotsin_nse.Exec.Gateway.Breaker.{breaker_exact, submit_all, longest_row, decisions}
use kotsin_nse.Exec.Gateway.Caps.{LiveOrder, entries, entries-le}
use kotsin_nse.Market.Session.{ist_day}
use kotsin_nse.Tests.Data.{order, gateway, inputs, context, live_fill, placed_at_broker}

-- The same entry on paper, live, and after a reset of the breaker.
abbrev calls : List (Call Cents)
calls =
    paper_call (order entry) (inputs shadow)
    ∷ live_call (order entry) context (inputs live_capped) (some (returned placed_at_broker))
    ∷ reset_call
    ∷ live_call (order entry) context (inputs live) (some (returned placed_at_broker))
    ∷ []

-- One of the three goes out.
placements-calls : placements "k" calls gateway ≡ 1
unfolding placements submit ist_day submit_live reset_breaker
placements-calls = refl

placed_once_example : placements "k" calls gateway ≤ 1
placed_once_example = placed_once "k" calls gateway

-- There is no book and no price, so the first attempt fills nothing.
abbrev no_book : Inputs Cents
no_book = record (inputs paper) { book = none; ltp = none }

first_attempt_fails : (submit (order exit) no_book gateway).0.decision ≡ rejected_book
unfolding submit ist_day Paper.fill
first_attempt_fails = refl

-- A live exit whose placement raised, and the next round's exit under its id.
abbrev timed_out : Call Cents
timed_out = live_call (order exit) context (inputs live) (some raised)

abbrev retry : Call Cents
retry = live_call (order exit) context (inputs live) (some (returned placed_at_broker))

attempt_uses_id_example :
    refusal (call retry (run (reset_call ∷ []) (call timed_out gateway).1)).0 ≡ some dup_blocked
unfolding tries
attempt_uses_id_example = attempt_uses_id "k" timed_out retry (reset_call ∷ []) gateway refl refl

-- An order that timed out counts as one that went out.
timed_out_counts : placements "k" (timed_out ∷ retry ∷ []) gateway ≡ 1
unfolding placements submit_live ist_day
timed_out_counts = refl

abbrev halted_inputs : Inputs Cents
halted_inputs = record (inputs live) { halted = true }

abbrev halted_paper : Inputs Cents
halted_paper = record (inputs paper) { halted = true; book = none }

-- The fill at the last price, with the slippage allowance.
abbrev degraded : Fill Cents
degraded = record live_fill { charges = pos 5_074; slippage_bps = some (pos 500); levels = 0 }

abbrev failing : List (OrderIntent Cents × Inputs Cents)
failing = (order entry, no_book) ∷ (record (order entry) { client_order_id = "k2" }, no_book) ∷ []

-- Two rejections in a row, at a limit of two.
failing_row : longest_row 0 (decisions failing gateway) ≡ 2
unfolding longest_row decisions submit ist_day Paper.fill
failing_row = refl

breaker_exact_example :
    (submit_all failing gateway).breaker_tripped ≡ leb 2 (longest_row 0 (decisions failing gateway))
breaker_exact_example = breaker_exact failing gateway (ground arith) refl

abbrev live_order : LiveOrder Cents
live_order = record {
  intent = order entry;
  ctx = context;
  inputs = inputs live_capped;
  place = some (returned placed_at_broker);
}

entries-le_example : entries (live_order ∷ live_order ∷ []) gateway ≤ 4
unfolding ist_day
entries-le_example =
    entries-le (live_order ∷ live_order ∷ []) gateway ((refl, refl), ((refl, refl), tt))
