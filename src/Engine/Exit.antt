-- ===== src/Engine/Exit.antt =====
-- Managing the open positions: `_manage_positions`, `_exit` and `exit_client_order_id` of
-- backend/kotsin_nse/engine.py. The marks that the page shows are left out.
use kotsin_nse.Prelude.{
  ℕ, ◌+◌, String, Bool, true, false, not, ◌&&◌, ◌||◌, Option, none, some, ltb, leb, min,
  if◌then◌else◌,
}
use kotsin_nse.Prelude.Strings.{concat, decimal}
use kotsin_nse.Prelude.Dict.{lookup, insert, remove}
use kotsin_nse.Num.{Num, ◌⊘◌, le, nought, of_nat}
use kotsin_nse.Domain.{
  Time, OrderIntent, sell, exit, ExitReason, sl_op, sl_eq, target, trail, time_stop, eod, halt,
  daily_loss, manual, end_of_range, ExitDecision, Fill, Position, is_opened, notional,
}
use kotsin_nse.Market.Session.{past_force_flat}
use kotsin_nse.Risk.Limits.{default_limits}
use kotsin_nse.Risk.Wallet.{
  Wallet, release, apply_charges, apply_close, check_breakers, is_daily_loss,
}
use kotsin_nse.Risk.Exits.{MarketView, evaluate, apply_exit}
use kotsin_nse.Instrument.Quote.{Quote, mid, spread_pct}
use kotsin_nse.Exec.Gateway.{Placement, Reply, answered, failed, Decision, shadow_ok}
use kotsin_nse.Engine.State.{Engine, limits_of, is_halted, submit_order}
use kotsin_nse.Engine.Settle.{on_wallet}

-- `ExitReason.value`
abbrev reason_text : ExitReason → String
reason_text sl_op = "SL-OP"
reason_text sl_eq = "SL-EQ"
reason_text target = "TARGET"
reason_text trail = "TRAIL"
reason_text time_stop = "TIME_STOP"
reason_text eod = "EOD"
reason_text halt = "HALT"
reason_text daily_loss = "DAILY_LOSS"
reason_text manual = "MANUAL"
reason_text end_of_range = "END"

abbrev pub is_shadow : Decision → Bool
is_shadow shadow_ok = true
is_shadow _ = false

module _ {W : Type 0} ⦃f : Num W⦄ where
  -- `exit_client_order_id`
  unfoldable pub exit_id : Position W → ExitReason → String
  unfolding decimal
  exit_id p reason =
      concat p.id
        (concat "|EXIT|" (concat (decimal p.targets_hit) (concat "|" (reason_text reason))))

  unfoldable pub exit_intent : Position W → ExitDecision W → OrderIntent W
  unfolding exit_id
  exit_intent p d = record {
    strategy = p.strategy;
    instrument = p.instrument;
    side = sell;
    qty = d.qty;
    purpose = exit;
    signal_id = p.signal_id;
    client_order_id = exit_id p d.reason;
    ref_price = some d.ref_price;
    limit_price = none;
  }

  unfoldable pub send_exit :
      Position W → ExitDecision W → Time → Option (Placement W) → Engine W → Reply W × Engine W
  unfolding submit_order exit_intent
  send_exit p d now place e = submit_order (exit_intent p d) true now place e

  -- The wallet's side of a filled exit: what was at risk goes back, then charges, result and breakers.
  unfoldable pub settle_wallet : Position W → ExitDecision W → Fill W → Time → Wallet W → Wallet W
  unfolding notional apply_exit apply_charges apply_close release check_breakers
  settle_wallet p d x now w =
      let back = notional p.instrument p.entry_price (min d.qty p.qty_remaining) in
      let gross = (apply_exit d x.price x.charges now p).0 in
      let charged = apply_charges x.charges now (release back now w) in
      (check_breakers default_limits now (apply_close gross now charged)).1

  unfoldable pub book_exit : Position W → ExitDecision W → Fill W → Time → Engine W → Engine W
  unfolding settle_wallet remove on_wallet
  book_exit p d x now e =
      let after = (apply_exit d x.price x.charges now p).1 in
      on_wallet p.strategy (settle_wallet p d x now) (record e {
        positions =
            if is_opened after.status
            then insert p.id after e.positions
            else remove p.id e.positions;
      })

  -- `_exit` after the reply: a shadow order and an order without a fill change nothing.
  unfoldable pub finish_exit : Position W → ExitDecision W → Time → Reply W → Engine W → Engine W
  unfolding book_exit
  finish_exit p d now failed e = e
  finish_exit p d now (answered r) e =
      let booked : Engine W = elim r.fill [ none ↦ e | some x ↦ book_exit p d x now e ] in
      if is_shadow r.decision then e else booked

  -- `_exit`, without a step of another task in between
  unfoldable pub exit_position :
      Position W → ExitDecision W → Time → Option (Placement W) → Engine W → Engine W
  unfolding send_exit finish_exit
  exit_position p d now place e =
      let sent = send_exit p d now place e in finish_exit p d now sent.0 sent.1

  abbrev stale : Option (Quote W) → ℕ → Time → Bool
  stale none max_age now = false
  stale (some q) max_age now = ltb (q.ts + max_age) now

  abbrev good : Option (Quote W) → ℕ → Time → Bool
  good none max_age now = false
  good (some q) max_age now = leb now (q.ts + max_age)

  abbrev spread_share : Option (Quote W) → Option W
  spread_share none = none
  spread_share (some q) = elim (spread_pct q) [ none ↦ none | some s ↦ some (s ⊘ of_nat 100) ]

  abbrev mid_price : Option (Quote W) → Option W
  mid_price none = none
  mid_price (some q) = some (mid q)

  -- The `MarketView` of a position whose contract last printed at `ltp`.
  unfoldable pub view_of : Position W → W → Wallet W → Time → Engine W → MarketView W
  unfolding spread_pct mid
  view_of p ltp w now e =
      let q = lookup p.instrument.scrip_code e.quotes in
      record {
        option_ltp = ltp;
        underlying_ltp = lookup p.underlying.scrip_code e.ltps;
        now = now;
        bars_held = p.bars_held;
        past_force_flat = past_force_flat p.underlying.segment now;
        halted = is_halted e;
        daily_loss_hit = w.halted && is_daily_loss w.halt_reason;
        option_mid = mid_price q;
        spread_pct = spread_share q;
        quote_ok = good q e.quote_max_age now;
      }

  -- Whether a position is passed over: its quote is old, and nothing forces it out.
  unfoldable pub is_unquoted : Position W → Time → Engine W → Bool
  is_unquoted p now e =
      stale (lookup p.instrument.scrip_code e.quotes) e.quote_max_age now
      && not (past_force_flat p.underlying.segment now || is_halted e)

  -- The evaluation, and the exit that it may decide.
  unfoldable pub evaluate_position :
      Position W → W → Wallet W → Time → Option (Placement W) → Engine W → Engine W
  unfolding view_of limits_of exit_position
  evaluate_position p ltp w now place e =
      let out = evaluate (limits_of p.strategy) (view_of p ltp w now e) p in
      let seen : Engine W = record e { positions = insert p.id out.1 e.positions } in
      elim out.0 [ none ↦ seen | some d ↦ exit_position out.1 d now place seen ]

  -- One round of `_manage_positions`.
  unfoldable pub manage_position : Position W → Time → Option (Placement W) → Engine W → Engine W
  unfolding is_unquoted evaluate_position
  manage_position p now place e =
      let managed : Engine W = elim (lookup p.instrument.scrip_code e.ltps) [
        | none ↦ e
        | some ltp ↦ elim (lookup p.strategy e.wallets) [
          | none ↦ e
          | some w ↦
              if le ltp nought || is_unquoted p now e
              then e
              else evaluate_position p ltp w now place e
        ]
      ] in
      if is_opened p.status then managed else e
