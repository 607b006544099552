-- ===== src/Exec/Live.antt =====
-- backend/kotsin_nse/exec/live.py: real orders. The venue's client is not part of the file: its calls
-- are the fields of `Venue`, with the clock's readings, numbered by the rounds of the poll loop.
-- Statuses are ASCII texts; the log lines are left out.
pub mod Deadline
pub mod Outcome
use kotsin_nse.Prelude.{
  ℕ, zero, suc, ◌+◌, String, Bool, true, false, Option, none, some, List, [], ◌∷◌, ◌++◌, ltb, ◌==◌,
  if◌then◌else◌,
}
use kotsin_nse.Prelude.Ascii.{Text, codes, one_of, is_empty, upper, strip}
use kotsin_nse.Num.{Num, truthy, nought}
use kotsin_nse.Domain.{
  Time, Instrument, OrderIntent, OrderSide, buy, sell, Purpose, entry, exit, Fill,
}
use kotsin_nse.Risk.Costs.{CostSettings, leg, total}

-- Why an order did not fill. The texts are the venue's own.
pub data LiveError : Type 0 where
  no_error : LiveError
  place_failed : String → LiveError
  refused : Text → LiveError
  not_terminal : Text → LiveError

pub record LiveResult (W : Type 0) : Type 0 where
  pub ok : Bool
  pub order_id : String
  pub fill : Option (Fill W)
  pub error : LiveError
  pub status : Text

-- `LiveExecutor.place`: its `LiveResult`, or the exception `VenueError`.
pub data Placement (W : Type 0) : Type 0 where
  returned : LiveResult W → Placement W
  raised : Placement W

-- The row of an order in the broker's book; a key that is missing is none.
pub record Row (W : Type 0) : Type 0 where
  pub status : Option Text
  pub order_status : Option Text
  pub rate : Option W
  pub avg_rate : Option W
  pub traded_qty : Option ℕ
  pub qty : Option ℕ
  pub reason : Option Text
  pub message : Option Text

-- What a call of the venue comes back with: its value, or a `VenueError` with its text.
pub data Call (A : Type 0) : Type 0 where
  gave : A → Call A
  venue_error : String → Call A

-- `order_status` and the clock, by the round of the loop: the reading that its test makes, and the
-- one that stamps a fill.
pub record Venue (W : Type 0) : Type 0 where
  pub place_order : Instrument W → OrderSide → ℕ → W → Bool → String → Call String
  pub order_status : Instrument W → String → ℕ → Call (Row W)
  pub started : Time
  pub test_clock : ℕ → Time
  pub fill_clock : ℕ → Time

pub record LiveExecutor (W : Type 0) : Type 0 where
  pub costs : CostSettings W
  pub poll_interval : ℕ
  pub poll_timeout : ℕ
  pub intraday : Bool
  pub placed : ℕ
  pub rejected : ℕ

abbrev pub terminal_ok : List Text
terminal_ok =
    codes "FULLY EXECUTED" ∷ codes "FULLY_EXECUTED" ∷ codes "EXECUTED" ∷ codes "FILLED" ∷ []

abbrev pub terminal_bad : List Text
terminal_bad = codes "REJECTED" ∷ codes "CANCELLED" ∷ codes "CANCELED" ∷ codes "EXPIRED" ∷ []

-- `a or b`, on a text, a count and a number that may be missing.
abbrev pub or_text : Option Text → Text → Text
or_text none t = t
or_text (some s) t = if is_empty s then t else s

abbrev pub or_count : Option ℕ → ℕ → ℕ
or_count none n = n
or_count (some m) n = if m == 0 then n else m

abbrev pub is_exit : Purpose → Bool
is_exit entry = false
is_exit exit = true

-- What one round of the loop of `_await_fill` comes to: a result, or the `last_status` to go on with.
pub data Round (W : Type 0) : Type 0 where
  settled : Placement W × LiveExecutor W → Round W
  waiting : Text → Round W

-- `exit_side`
unfoldable pub exit_side : OrderSide → OrderSide
exit_side buy = sell
exit_side sell = buy

module _ {W : Type 0} ⦃f : Num W⦄ where
  abbrev pub or_num : Option W → W → W
  or_num none y = y
  or_num (some x) y = if truthy x then x else y

  -- The row's status in capitals, with no blanks round it.
  unfoldable pub status_of : Row W → Text
  unfolding upper strip
  status_of row = strip (upper (or_text row.status (or_text row.order_status [])))

  unfoldable pub fill_of : OrderIntent W → Row W → Time → LiveExecutor W → Fill W
  unfolding leg total
  fill_of intent row now e =
      let price = or_num row.rate (or_num row.avg_rate (or_num intent.ref_price nought)) in
      let qty = or_count row.traded_qty (or_count row.qty intent.qty) in
      record {
        price = price;
        qty = qty;
        ts = now;
        charges = total (leg e.costs intent.instrument intent.side price qty);
        slippage_bps = none;
        book_age = none;
        levels = 0;
      }

  abbrev refusal : String → LiveError → Text → LiveResult W
  refusal id error status = record {
    ok = false;
    order_id = id;
    fill = none;
    error = error;
    status = status;
  }

  -- A failed exit is raised, a failed entry returned.
  abbrev pub fail_loudly : OrderIntent W → LiveResult W → Placement W
  fail_loudly intent res = if is_exit intent.purpose then raised else returned res

  -- The body of the loop.
  unfoldable pub judge_row : OrderIntent W → String → Row W → Time → Text → LiveExecutor W → Round W
  unfolding fill_of status_of
  judge_row intent id row now last e =
      let status = status_of row in
      let filled : LiveResult W = record {
        ok = true;
        order_id = id;
        fill = some (fill_of intent row now e);
        error = no_error;
        status = status;
      } in
      let reason = or_text row.reason (or_text row.message status) in
      let bad = fail_loudly intent (refusal id (refused reason) status) in
      if one_of status terminal_ok
      then settled (returned filled, e)
      else if one_of status terminal_bad
      then settled (bad, record e { rejected = e.rejected + 1 })
      else waiting (or_text (some status) last)

  unfoldable pub poll_round : OrderIntent W → String → Venue W → ℕ → Text → LiveExecutor W → Round W
  unfolding judge_row
  poll_round intent id v n last e = elim (v.order_status intent.instrument id n) [
    | gave row ↦ judge_row intent id row (v.fill_clock n) last e
    | venue_error text ↦ waiting (codes "status poll failed: " ++ codes text)
  ]

  -- `while time.time() < deadline`, from round `n`; none means that the fuel ran out.
  unfoldable pub poll_from :
      ℕ
      → OrderIntent W
      → String
      → Venue W
      → ℕ
      → Text
      → LiveExecutor W
      → Option (Placement W × LiveExecutor W)
  unfolding poll_round
  poll_from zero intent id v n last e = none
  poll_from (suc fuel) intent id v n last e =
      elim (ltb (v.test_clock n) (v.started + e.poll_timeout)) [
        | false ↦ some (fail_loudly intent (refusal id (not_terminal last) last), e)
        | true ↦ elim (poll_round intent id v n last e) [
          | settled out ↦ some out
          | waiting last' ↦ poll_from fuel intent id v (n + 1) last' e
        ]
      ]

  -- `_await_fill`
  unfoldable pub await_fill :
      ℕ → OrderIntent W → String → Venue W → LiveExecutor W → Option (Placement W × LiveExecutor W)
  unfolding poll_from
  await_fill fuel intent id v e = poll_from fuel intent id v 0 [] e

  -- `place`
  unfoldable pub place :
      ℕ → OrderIntent W → Venue W → LiveExecutor W → Option (Placement W × LiveExecutor W)
  unfolding await_fill
  place fuel intent v e =
      let sent =
        v.place_order intent.instrument intent.side intent.qty (or_num intent.limit_price nought)
          e.intraday intent.client_order_id in
      elim sent [
        | gave id ↦ await_fill fuel intent id v (record e { placed = e.placed + 1 })
        | venue_error text ↦ some (
          fail_loudly intent (refusal "" (place_failed text) []),
          record e { rejected = e.rejected + 1 },
        )
      ]
