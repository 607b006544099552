-- ===== src/Engine/Forced.antt =====
-- The exit loop and the exit rules together: what a halt or the force-flat does to a position.
use kotsin_nse.Prelude.{
  ◌≤◌, ◌<◌, ◌≡◌, ◌||◌, true, false, Option, none, some, arith, refl, ap, ◌∙◌, Option-cases, inl,
  inr,
}
use kotsin_nse.Prelude.Dict.{lookup, insert}
use kotsin_nse.Num.{Num, le, nought}
use kotsin_nse.Domain.{Time, Position, ExitDecision, OrderIntent, sell, exit, opened, is_opened}
use kotsin_nse.Market.Session.{past_force_flat}
use kotsin_nse.Risk.Wallet.{Wallet}
use kotsin_nse.Risk.Exits.{MarketView, evaluate}
use kotsin_nse.Risk.Exits.Quantity.{evaluate_quantity, evaluate_book}
use kotsin_nse.Risk.Exits.Backstops.{backstop_exits, at_backstop}
use kotsin_nse.Exec.Gateway.{Placement, Reply}
use kotsin_nse.Engine.State.{Engine, limits_of, is_halted, submit_order}
use kotsin_nse.Engine.Exit.{
  manage_position, evaluate_position, exit_position, send_exit, exit_intent, finish_exit, view_of,
  is_unquoted,
}

-- A sell exit, for its book, of the position's contract in the decided quantity.
pub record IsExitOrder {W : Type 0} (p : Position W) (d : ExitDecision W) (intent : OrderIntent W)
    : Type 0 where
  pub sells : intent.side ≡ sell
  pub leaves : intent.purpose ≡ exit
  pub all : intent.qty ≡ d.qty
  pub contract : intent.instrument ≡ p.instrument
  pub owner : intent.strategy ≡ p.strategy

module _ {W : Type 0} ⦃f : Num W⦄ (p : Position W) (ltp : W) (w : Wallet W) (now : Time)
    (place : Option (Placement W)) (e : Engine W) where
  -- The view of this round, the position after the evaluation, and the engine that holds it.
  abbrev pub seen : MarketView W
  seen = view_of p ltp w now e

  abbrev pub evaluated : Option (ExitDecision W) × Position W
  evaluated = evaluate (limits_of p.strategy) seen p

  abbrev pub with_evaluated : Engine W
  with_evaluated = record e { positions = insert p.id evaluated.1 e.positions }

  forced-at_backstop :
      (past_force_flat p.underlying.segment now || is_halted e) ≡ true → at_backstop seen ≡ true
  unfolding at_backstop view_of
  forced-at_backstop h = ground arith

  forced_is_quoted :
      (past_force_flat p.underlying.segment now || is_halted e) ≡ true → is_unquoted p now e ≡ false
  unfolding is_unquoted
  forced_is_quoted h = ground arith

  managed_lem :
      p.status ≡ opened
      → lookup p.instrument.scrip_code e.ltps ≡ some ltp
      → le ltp nought ≡ false
      → lookup p.strategy e.wallets ≡ some w
      → is_unquoted p now e ≡ false
      → manage_position p now place e ≡ evaluate_position p ltp w now place e
  unfolding manage_position
  managed_lem o price printed purse quoted =
      let opens : is_opened p.status ≡ true = ap is_opened o in
      rw (opens, price, purse, printed, quoted, manage_position) refl

  decided_lem :
      (d : ExitDecision W)
      → evaluated.0 ≡ some d
      → evaluate_position p ltp w now place e ≡ exit_position evaluated.1 d now place with_evaluated
  unfolding evaluate_position
  decided_lem d h = rw (h, evaluate_position) refl

  -- The reply of the order pipeline to the exit, and the engine after it.
  abbrev pub handed_over : ExitDecision W → Reply W × Engine W
  handed_over d = submit_order (exit_intent evaluated.1 d) true now place with_evaluated

  handed_lem :
      (d : ExitDecision W)
      → exit_position evaluated.1 d now place with_evaluated
        ≡ finish_exit evaluated.1 d now (handed_over d).0 (handed_over d).1
  unfolding exit_position send_exit
  handed_lem d = refl

  intent-IsExitOrder : (d : ExitDecision W) → IsExitOrder p d (exit_intent evaluated.1 d)
  unfolding exit_intent
  intent-IsExitOrder d =
      let same = evaluate_book (limits_of p.strategy) seen p in
      record {
        sells = refl;
        leaves = refl;
        all = refl;
        contract = same.contract;
        owner = same.owner;
      }

  -- When the engine is halted, by hand, by the reconciler or by the breaker, or the segment of the
  -- underlying is past its force-flat, a round of the exit loop hands to the order pipeline a sell exit
  -- of the contract of every open position of a book without a sustain policy whose contract has printed
  -- above 0, however old its quote is: an order for at least one unit and for no more than is left. The
  -- pipeline may refuse it, as an id that it has seen; the round ends with what `finish_exit` makes of the
  -- pipeline's reply.
  pub forced_exit_sent :
      p.status ≡ opened
      → 0 < p.qty_remaining
      → (limits_of {W = W} p.strategy).sustain_s ≡ none
      → lookup p.instrument.scrip_code e.ltps ≡ some ltp
      → le ltp nought ≡ false
      → lookup p.strategy e.wallets ≡ some w
      → (past_force_flat p.underlying.segment now || is_halted e) ≡ true
      → (d : ExitDecision W) × (0 < d.qty)
        × (d.qty ≤ p.qty_remaining)
        × IsExitOrder p d (exit_intent evaluated.1 d)
        × (manage_position p now place e
            ≡ finish_exit evaluated.1 d now (handed_over d).0 (handed_over d).1)
  forced_exit_sent o q s price printed purse forced =
      let goes = backstop_exits (limits_of p.strategy) seen p s o q (forced-at_backstop forced) in
      let managed = managed_lem o price printed purse (forced_is_quoted forced) in
      elim (Option-cases evaluated.0) [
        | inl n ↦ absurd (ground (arith, n, goes))
        | inr (d, h) ↦
            let fits = evaluate_quantity (limits_of p.strategy) seen p d h in
            (d, fits.0, fits.1, intent-IsExitOrder d, managed ∙ decided_lem d h ∙ handed_lem d)
      ]
