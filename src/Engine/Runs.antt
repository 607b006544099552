-- ===== src/Engine/Runs.antt =====
-- Exits as steps, and the runs of the engine in which nothing but exits comes between the steps of an
-- entry.
use kotsin_nse.Prelude.{
  ◌≡◌, refl, ◌∙◌, String, true, Option, none, some, List, arith, Option-cases, Bool-cases, inl, inr,
  if-elim, ◌||◌, subst,
}
use kotsin_nse.Prelude.Strings.{str_eq_refl}
use kotsin_nse.Prelude.Dict.{lookup, insert, lookup-insert, remove, values}
use kotsin_nse.Num.{Num, le, nought}
use kotsin_nse.Domain.{Time, Fill, Position, ExitDecision, is_opened}
use kotsin_nse.Risk.Wallet.{Wallet}
use kotsin_nse.Risk.Exits.{evaluate, apply_exit}
use kotsin_nse.Risk.Exits.Quantity.{evaluate_book}
use kotsin_nse.Exec.Gateway.{Placement, Reply, answered, failed}
use kotsin_nse.Engine.State.{Engine, limits_of}
use kotsin_nse.Strategy.Signals.{Signal}
use kotsin_nse.Engine.Settle.{LadderFor, Course, settle, handle_signal}
use kotsin_nse.Engine.Twin.{mirror_one}
use kotsin_nse.Engine.Exit.{
  manage_position, evaluate_position, exit_position, send_exit, finish_exit, book_exit, view_of,
  settle_wallet, is_unquoted, is_shadow, exit_intent,
}
use kotsin_nse.Engine.Offer.{
  IsOffered, SameHoldings, begin_offer, submit_order_holdings, on_wallet_holdings,
}
use kotsin_nse.Engine.Entry.{Pending, pending, begin, place_entry}
use kotsin_nse.Engine.Caps.{IsWithinCaps, IsLike}
use kotsin_nse.Engine.Fewer.{IsFewer, IsFewer-trans, same-IsFewer, changed-IsFewer, removed-IsFewer}
use kotsin_nse.Engine.TwinSteps.{mirror_one-IsOrderly}
use kotsin_nse.Engine.Steps.{
  IsNamed, IsOrderly, fewer-IsOrderly, same-IsOrderly, handle_signal-IsOrderly, settle-IsOrderly,
  place_entry_holdings,
}

module _ {W : Type 0} ⦃f : Num W⦄ where
  IsOrderly-trans : (e g h : Engine W) → IsOrderly e g → IsOrderly g h → IsOrderly e h
  IsOrderly-trans e g h a b = (b.0 ∙ a.0, λ n w. b.1 (rw a.0 n) (a.1 n w))

  apply_exit-IsLike :
      (d : ExitDecision W) (price charges : W) (now : Time) (p : Position W)
      → IsLike p (apply_exit d price charges now p).1
  unfolding apply_exit
  apply_exit-IsLike d price charges now p = ground arith

  book_exit-IsFewer :
      (p : Position W) (d : ExitDecision W) (x : Fill W) (now : Time) (e : Engine W)
      → lookup p.id e.positions ≡ some p
      → IsFewer e (book_exit p d x now e)
  unfolding book_exit
  book_exit-IsFewer p d x now e at =
      let after = (apply_exit d x.price x.charges now p).1 in
      let paid = settle_wallet p d x now in
      elim (Bool-cases (is_opened after.status)) [
        | inl o ↦
            changed-IsFewer e (book_exit p d x now e) p after at
              (apply_exit-IsLike d x.price x.charges now p)
              (rw (o, book_exit)
                (on_wallet_holdings p.strategy paid
                  (record e { positions = insert p.id after e.positions })))
        | inr o ↦ removed-IsFewer p.id e (book_exit p d x now e) (
            rw (o, book_exit)
              (on_wallet_holdings p.strategy paid
                (record e { positions = remove p.id e.positions })))
      ]

  finish_exit-IsFewer :
      (p : Position W) (d : ExitDecision W) (now : Time) (r : Reply W) (e : Engine W)
      → lookup p.id e.positions ≡ some p
      → IsFewer e (finish_exit p d now r e)
  unfolding finish_exit
  finish_exit-IsFewer p d now failed e at = same-IsFewer e e (refl, refl)
  finish_exit-IsFewer p d now (answered r) e at = elim (Option-cases r.fill) [
    | inl n ↦ rw n (
        if-elim (IsFewer e) (is_shadow r.decision) (same-IsFewer e e (refl, refl))
          (same-IsFewer e e (refl, refl)))
    | inr (x, h) ↦ rw h (
        if-elim (IsFewer e) (is_shadow r.decision) (same-IsFewer e e (refl, refl))
          (book_exit-IsFewer p d x now e at))
  ]

  pub exit_position-IsFewer :
      (p : Position W) (d : ExitDecision W) (now : Time) (place : Option (Placement W))
      (e : Engine W)
      → lookup p.id e.positions ≡ some p
      → IsFewer e (exit_position p d now place e)
  unfolding exit_position send_exit
  exit_position-IsFewer p d now place e at =
      let sent = send_exit p d now place e in
      let h = submit_order_holdings (exit_intent p d) true now place e in
      IsFewer-trans e sent.1 (finish_exit p d now sent.0 sent.1) (same-IsFewer e sent.1 h)
        (finish_exit-IsFewer p d now sent.0 sent.1 (rw h.0 at))

  evaluate_position-IsFewer :
      (p : Position W) (ltp : W) (w : Wallet W) (now : Time) (place : Option (Placement W))
      (e : Engine W)
      → lookup p.id e.positions ≡ some p
      → IsFewer e (evaluate_position p ltp w now place e)
  unfolding evaluate_position
  evaluate_position-IsFewer p ltp w now place e at =
      let out = evaluate (limits_of p.strategy) (view_of p ltp w now e) p in
      let seen : Engine W = record e { positions = insert p.id out.1 e.positions } in
      let same = evaluate_book (limits_of p.strategy) (view_of p ltp w now e) p in
      let first =
        changed-IsFewer e seen p out.1 at
          (record { status = ground (arith, same); owner = same.owner; parent = same.parent })
          (refl, refl) in
      let found : lookup out.1.id seen.positions ≡ some out.1 =
        ground (arith, lookup-insert p.id p.id out.1 e.positions, str_eq_refl p.id, same) in
      elim (Option-cases out.0) [
        | inl n ↦ rw (n, evaluate_position) first
        | inr (d, h) ↦
            rw (h, evaluate_position)
              (IsFewer-trans e seen (exit_position out.1 d now place seen) first
                (exit_position-IsFewer out.1 d now place seen found))
      ]

  manage_position-IsFewer :
      (p : Position W) (now : Time) (place : Option (Placement W)) (e : Engine W)
      → lookup p.id e.positions ≡ some p
      → IsFewer e (manage_position p now place e)
  unfolding manage_position
  manage_position-IsFewer p now place e at =
      let idle = same-IsFewer e e (refl, refl) in
      if-elim (IsFewer e) (is_opened p.status)
        (elim (Option-cases (lookup p.instrument.scrip_code e.ltps)) [
          | inl n ↦ rw n idle
          | inr (ltp, h) ↦ elim (Option-cases (lookup p.strategy e.wallets)) [
            | inl n ↦ rw (h, n) idle
            | inr (w, k) ↦
                rw (h, k)
                  (if-elim (IsFewer e) (le ltp nought || is_unquoted p now e) idle
                    (evaluate_position-IsFewer p ltp w now place e at))
          ]
        ])
        idle

  -- A step of the exits: a round of the exit loop and the operator's exit find a position under its id;
  -- the feed, the operator's switches and the wallets change nothing that is held.
  pub data ExitStep : Engine W → Engine W → Type 0 where
    manage_step :
        (e : Engine W) (p : Position W) (now : Time) (place : Option (Placement W))
        → lookup p.id e.positions ≡ some p
        → ExitStep e (manage_position p now place e)
    exit_step :
        (e : Engine W) (p : Position W) (d : ExitDecision W) (now : Time)
        (place : Option (Placement W))
        → lookup p.id e.positions ≡ some p
        → ExitStep e (exit_position p d now place e)
    outside_step : (e g : Engine W) → SameHoldings e g → ExitStep e g

  pub data ExitRun : Engine W → Engine W → Type 0 where
    rest : (e : Engine W) → ExitRun e e
    next : (e g h : Engine W) → ExitStep e g → ExitRun g h → ExitRun e h

  -- What the engine does between two states in which no entry is pending. A new position gets an id that
  -- is not in use. An entry goes through at once (`signal_step`), or exits come between its beginning,
  -- its order and its settlement (`entry_step`).
  pub data EngineStep : Engine W → Engine W → Type 0 where
    signal_step :
        (e : Engine W) (sig : Signal W) (c : Course W)
        → lookup c.id e.positions ≡ none
        → EngineStep e (handle_signal sig c e).1
    entry_step :
        (e g h k : Engine W) (sig : Signal W) (c : Course W) (p : Pending W)
        → begin sig c.selection c.begun_at e ≡ (pending p, g)
        → ExitRun g h
        → ExitRun (place_entry p c.placed_at c.place h).1 k
        → lookup c.id k.positions ≡ none
        → EngineStep e
            (settle c.ladder c.id p c.written c.settled_at
              (place_entry p c.placed_at c.place h).0
              k).1
    twin_step :
        (e : Engine W) (ladder : LadderFor W) (vol : List (W × W)) (id key : String)
        (p : Position W) (x : Fill W)
        → lookup id e.positions ≡ none
        → EngineStep e (mirror_one ladder vol id key p x e)
    leave_step : (e g : Engine W) → ExitStep e g → EngineStep e g

  pub data EngineRun : Engine W → Engine W → Type 0 where
    done : (e : Engine W) → EngineRun e e
    more : (e g h : Engine W) → EngineStep e g → EngineRun g h → EngineRun e h

  exit-IsFewer : (e g : Engine W) → ExitStep e g → IsFewer e g
  exit-IsFewer e g (manage_step _ p now place at) = manage_position-IsFewer p now place e at
  exit-IsFewer e g (exit_step _ p d now place at) = exit_position-IsFewer p d now place e at
  exit-IsFewer e g (outside_step _ _ h) = same-IsFewer e g h

  exits-IsFewer : (e g : Engine W) → ExitRun e g → IsFewer e g
  exits-IsFewer e g (rest _) = same-IsFewer e e (refl, refl)
  exits-IsFewer e g (next _ h _ s r) =
      IsFewer-trans e h g (exit-IsFewer e h s) (exits-IsFewer h g r)

  entry-IsOrderly :
      (e g h k : Engine W) (sig : Signal W) (c : Course W) (p : Pending W)
      → begin sig c.selection c.begun_at e ≡ (pending p, g)
      → ExitRun g h
      → ExitRun (place_entry p c.placed_at c.place h).1 k
      → lookup c.id k.positions ≡ none
      → IsOrderly e
          (settle c.ladder c.id p c.written c.settled_at
            (place_entry p c.placed_at c.place h).0
            k).1
  entry-IsOrderly e g h k sig c p b r1 r2 n =
      let sent = place_entry p c.placed_at c.place h in
      let offer : IsOffered e (pending p) × SameHoldings e g =
        subst (λ o. IsOffered e o.0 × SameHoldings e o.1) b
          (begin_offer sig c.selection c.begun_at e) in
      let begun = same-IsFewer e g offer.1 in
      let before = IsFewer-trans e g h begun (exits-IsFewer g h r1) in
      let placed = same-IsFewer h sent.1 (place_entry_holdings p c.placed_at c.place h) in
      let after = IsFewer-trans h sent.1 k placed (exits-IsFewer sent.1 k r2) in
      settle-IsOrderly c.ladder c.id p c.written c.settled_at sent.0 e k n offer.0
        (IsFewer-trans e h k before after)

  step-IsOrderly : (e g : Engine W) → EngineStep e g → IsOrderly e g
  step-IsOrderly e g (signal_step _ sig c n) = handle_signal-IsOrderly sig c e n
  step-IsOrderly e g (entry_step _ b h k sig c p began r1 r2 n) =
      entry-IsOrderly e b h k sig c p began r1 r2 n
  step-IsOrderly e g (twin_step _ ladder vol id key p x n) =
      mirror_one-IsOrderly ladder vol id key p x e n
  step-IsOrderly e g (leave_step _ _ s) = fewer-IsOrderly e g (exit-IsFewer e g s)

  run-IsOrderly : (e g : Engine W) → EngineRun e g → IsOrderly e g
  run-IsOrderly e g (done _) = same-IsOrderly e e (refl, refl)
  run-IsOrderly e g (more _ h _ s r) =
      IsOrderly-trans e h g (step-IsOrderly e h s) (run-IsOrderly h g r)

  -- Over any run of entries, twins, rounds of the exit loop and operator's exits in which neither an entry
  -- begins nor a twin is opened while an entry is pending, though rounds of the exit loop and operator's
  -- exits may come between its beginning, its order and its settlement, every book stays within its two
  -- position caps and within its cap on each underlying, if it was so before and every underlying stands
  -- under its own symbol.
  pub caps_hold :
      (e g : Engine W)
      → EngineRun e g
      → IsNamed e
      → IsWithinCaps (values e.positions)
      → IsWithinCaps (values g.positions)
  caps_hold e g r n w = (run-IsOrderly e g r).1 n w
