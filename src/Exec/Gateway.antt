-- ===== src/Exec/Gateway.antt =====
-- backend/kotsin_nse/exec/gateway.py: the pipeline that every order passes through. The callables
-- that the gateway is built with are read once for each call, so they are fields of `Inputs`.
-- A note is kept as the decision that it explains; order ids and texts are left out.
pub mod Calls
pub mod Idempotency
pub mod Breaker
pub mod Exits
pub mod Caps
pub mod Orders
use kotsin_nse.Prelude.{
  ℕ, zero, suc, ◌+◌, String, Bool, true, false, not, ◌&&◌, ◌||◌, Option, none, some, List, [], ◌∷◌,
  leb, ltb, ◌==◌, if◌then◌else◌,
}
use kotsin_nse.Prelude.Int.{ℤ}
use kotsin_nse.Prelude.Strings.{member, str_eq}
use kotsin_nse.Num.{Num, ◌⊖◌, gt, lt, le, truthy, nought}
use kotsin_nse.Domain.{Time, Segment, OrderIntent, OrderSide, Purpose, entry, exit, Fill, notional}
use kotsin_nse.Market.Session.{ist_day}
use text.Mathlib.Text.{starts_with}
pub use kotsin_nse.Exec.Live.{LiveResult, Placement, returned, raised}
use kotsin_nse.Exec.Paper
use kotsin_nse.Exec.Paper.{Matcher, BookSnapshot, Filled, filled}

pub data Mode : Type 0 where
  shadow paper live_capped live : Mode

pub data Decision : Type 0 where
  submitted paper_filled shadow_ok rejected_halt rejected_cap rejected_book rejected_broker
        dup_blocked :
      Decision

-- "FILLED", "SHADOW" and "REJECTED"
pub data OrderStatus : Type 0 where
  order_filled order_shadow order_rejected : OrderStatus

-- `LiveCaps`; the cutoff is in minutes of the IST day.
pub record LiveCaps (W : Type 0) : Type 0 where
  pub segments : List Segment
  pub max_notional_inr : W
  pub max_positions : ℕ
  pub max_orders_per_day : ℕ
  pub daily_loss_inr : W
  pub entry_cutoff : ℕ
  pub breaker_consecutive_rejects : ℕ
  pub skip_index : Bool

pub record LiveContext (W : Type 0) : Type 0 where
  pub open_positions : ℕ
  pub day_pnl_inr : W
  pub now_minute : ℕ
  pub segment : Segment
  pub exposure_ok : Bool

pub record Order (W : Type 0) : Type 0 where
  pub client_order_id : String
  pub purpose : Purpose
  pub qty : ℕ
  pub mode : Mode
  pub status : OrderStatus
  pub avg_price : Option W
  pub filled : ℕ
  pub charges : W
  pub slippage_bps : Option W
  pub broker_order_id : String

pub record OrderResult (W : Type 0) : Type 0 where
  pub decision : Decision
  pub order : Order W
  pub fill : Option (Fill W)

-- The attributes that the methods change.
pub record Gateway (W : Type 0) : Type 0 where
  pub caps : LiveCaps W
  pub matcher : Matcher W
  pub seen : List String
  pub orders_today : ℕ
  pub consecutive_rejects : ℕ
  pub breaker_tripped : Bool
  pub day : ℕ

-- What `mode()`, `halted()`, `book_for(code)`, `ltp_for(code)` and the clock return in one call.
pub record Inputs (W : Type 0) : Type 0 where
  pub mode : Mode
  pub halted : Bool
  pub book : Option (BookSnapshot W)
  pub ltp : Option W
  pub now : Time

-- What a caller gets: a result, or the exception that went through.
pub data Reply (W : Type 0) : Type 0 where
  answered : OrderResult W → Reply W
  failed : Reply W

-- `if halted and intent.purpose is Purpose.ENTRY`
abbrev pub is_entry : Purpose → Bool
is_entry entry = true
is_entry exit = false

abbrev is_duplicate : Decision → Bool
is_duplicate dup_blocked = true
is_duplicate _ = false

abbrev pub segment_number : Segment → ℕ
segment_number Segment.nse_eq = 0
segment_number Segment.nse_fo = 1
segment_number Segment.nse_idx = 2
segment_number Segment.mcx_fo = 3

unfoldable pub whitelisted : Segment → List Segment → Bool
whitelisted s [] = false
whitelisted s (t ∷ ts) = segment_number s == segment_number t || whitelisted s ts

abbrev capped_mode : Mode → Bool
capped_mode live_capped = true
capped_mode _ = false

abbrev pub is_live_mode : Mode → Bool
is_live_mode live_capped = true
is_live_mode live = true
is_live_mode _ = false

module _ {W : Type 0} ⦃f : Num W⦄ where
  -- `remember`
  unfoldable pub remember : String → Gateway W → Gateway W
  remember cid g = record g { seen = cid ∷ g.seen }

  unfoldable pub rollover : Time → Gateway W → Gateway W
  rollover now g =
      let d = ist_day now in if d == g.day then g else record g { day = d; orders_today = 0 }

  unfoldable pub order_for : OrderIntent W → Mode → Order W
  order_for intent mode = record {
    client_order_id = intent.client_order_id;
    purpose = intent.purpose;
    qty = intent.qty;
    mode = mode;
    status = order_rejected;
    avg_price = none;
    filled = 0;
    charges = nought;
    slippage_bps = none;
    broker_order_id = "";
  }

  unfoldable pub reject : Order W → Decision → Gateway W → OrderResult W × Gateway W
  reject order decision g =
      let n = g.consecutive_rejects + 1 in
      (
        record {
          decision = decision;
          order = record order { status = order_rejected };
          fill = none;
        },
        if is_duplicate decision then g else record g {
          consecutive_rejects = n;
          breaker_tripped = g.breaker_tripped || leb g.caps.breaker_consecutive_rejects n;
        },
      )

  -- `_precheck`: a result is a rejection, and none lets the order go on.
  unfoldable pub precheck :
      OrderIntent W → Order W → Bool → Gateway W → Option (OrderResult W) × Gateway W
  unfolding reject
  precheck intent order halted g =
      let marked = record g { seen = intent.client_order_id ∷ g.seen } in
      let dup = reject order dup_blocked g in
      let stopped = reject order rejected_halt marked in
      if member intent.client_order_id g.seen
      then (some dup.0, dup.1)
      else if halted && is_entry intent.purpose
      then (some stopped.0, stopped.1)
      else (none, marked)

  -- The tail of a paper order, by what the matcher returned.
  paper_result : Order W → Filled W × Matcher W → Gateway W → OrderResult W × Gateway W
  unfolding reject
  paper_result order (filled x, m) g = (
    record {
      decision = paper_filled;
      order = record order {
        status = order_filled;
        avg_price = some x.price;
        filled = x.qty;
        charges = x.charges;
        slippage_bps = x.slippage_bps;
      };
      fill = some x;
    },
    record g { matcher = m; consecutive_rejects = 0; orders_today = g.orders_today + 1 },
  )
  paper_result order (_, m) g = reject order rejected_book (record g { matcher = m })

  -- `submit` after the checks, by the mode.
  by_mode : Mode → OrderIntent W → Order W → Inputs W → Gateway W → OrderResult W × Gateway W
  unfolding paper_result reject
  by_mode shadow intent order i g = (
    record { decision = shadow_ok; order = record order { status = order_shadow }; fill = none },
    record g { consecutive_rejects = 0 },
  )
  by_mode paper intent order i g =
      paper_result order (Paper.fill g.matcher intent i.book i.ltp i.now) g
  by_mode mode intent order i g = reject order rejected_broker g

  after_precheck :
      Option (OrderResult W) × Gateway W
      → OrderIntent W
      → Order W
      → Inputs W
      → OrderResult W × Gateway W
  unfolding by_mode
  after_precheck (some r, g) intent order i = (r, g)
  after_precheck (none, g) intent order i = by_mode i.mode intent order i g

  -- `submit`
  unfoldable pub submit : OrderIntent W → Inputs W → Gateway W → OrderResult W × Gateway W
  unfolding rollover order_for precheck after_precheck
  submit intent i g =
      let order = order_for intent i.mode in
      after_precheck (precheck intent order i.halted (rollover i.now g)) intent order i

  -- `intent.ref_price or ltp or 0.0`
  abbrev or_zero : Option W → W
  or_zero none = nought
  or_zero (some x) = x

  abbrev reference_price : Option W → Option W → W
  reference_price none ltp = or_zero ltp
  reference_price (some ref) ltp = if truthy ref then ref else or_zero ltp

  -- `check_live_caps`: whether the intent breaks a cap.
  unfoldable pub breaks_cap : OrderIntent W → LiveContext W → Option W → Gateway W → Bool
  unfolding whitelisted notional
  breaks_cap intent ctx ltp g =
      let c = g.caps in
      let ref = reference_price intent.ref_price ltp in
      is_entry intent.purpose
      && (g.breaker_tripped
          || not (whitelisted ctx.segment c.segments)
          || (c.skip_index && starts_with intent.instrument.scrip_code "999920")
          || not ctx.exposure_ok
          || leb c.max_positions ctx.open_positions
          || leb c.max_orders_per_day g.orders_today
          || ltb c.entry_cutoff ctx.now_minute
          || le ctx.day_pnl_inr (nought ⊖ c.daily_loss_inr)
          || gt (notional intent.instrument ref intent.qty) c.max_notional_inr)

  -- The tail of a live order, by what `place` returned.
  live_fill : Order W → LiveResult W → Option (Fill W) → Gateway W → OrderResult W × Gateway W
  unfolding reject
  live_fill order res none g = reject order rejected_broker g
  live_fill order res (some x) g =
      if res.ok
      then (
        record {
          decision = submitted;
          order = record order {
            status = order_filled;
            avg_price = some x.price;
            filled = x.qty;
            charges = x.charges;
            broker_order_id = res.order_id;
          };
          fill = some x;
        },
        record g { consecutive_rejects = 0; orders_today = g.orders_today + 1 },
      )
      else reject order rejected_broker g

  abbrev answer : OrderResult W × Gateway W → Reply W × Gateway W
  answer (r, g) = (answered r, g)

  live_result : Order W → Placement W → Gateway W → Reply W × Gateway W
  unfolding live_fill
  live_result order (returned res) g = answer (live_fill order res res.fill g)
  live_result order raised g = (failed, g)

  after_live_precheck :
      Option (OrderResult W) × Gateway W
      → OrderIntent W
      → Order W
      → LiveContext W
      → Inputs W
      → Placement W
      → Reply W × Gateway W
  unfolding live_result reject
  after_live_precheck (some r, g) intent order ctx i place = (answered r, g)
  after_live_precheck (none, g) intent order ctx i place =
      if capped_mode i.mode && breaks_cap intent ctx i.ltp g
      then answer (reject order rejected_cap g)
      else live_result order place g

  -- `submit_live`, without a call of another task while `place` is awaited; the outcome of `place` is an
  -- input, and `none` stands for no live executor.
  unfoldable pub submit_live :
      OrderIntent W
      → LiveContext W
      → Inputs W
      → Option (Placement W)
      → Gateway W
      → Reply W × Gateway W
  unfolding rollover order_for precheck after_live_precheck reject
  submit_live intent ctx i none g =
      answer (reject (order_for intent i.mode) rejected_broker (rollover i.now g))
  submit_live intent ctx i (some place) g =
      let order = order_for intent i.mode in
      let g' = rollover i.now g in
      if is_live_mode i.mode
      then after_live_precheck (precheck intent order i.halted g') intent order ctx i place
      else answer (reject order rejected_broker g')

  -- `reset_breaker`
  unfoldable pub reset_breaker : Gateway W → Gateway W
  reset_breaker g = record g { consecutive_rejects = 0; breaker_tripped = false }
