-- ===== src/Engine/Steps.antt =====
-- The steps of the engine that change positions, each without a break, and what they keep.
use kotsin_nse.Prelude.{
  ◌≡◌, ◌≤◌, sym, ◌∙◌, subst, String, Bool, true, false, Option, none, some, ◌∷◌, arith, inl, inr,
  ◌⊎◌,
}
use kotsin_nse.Prelude.Dict.{Dict, lookup, insert, values}
use kotsin_nse.Prelude.Counts.{count, count-cons, count-insert_new}
use kotsin_nse.Num.{Num}
use kotsin_nse.Domain.{Time, Instrument, Fill, Position}
use kotsin_nse.Risk.Exposure.{check}
use kotsin_nse.Exec.Gateway.{Placement, Reply, answered, failed}
use kotsin_nse.Engine.State.{Engine, limits_of}
use kotsin_nse.Strategy.Signals.{Signal}
use kotsin_nse.Engine.Entry.{Pending, Begun, refused, pending, place_entry}
use kotsin_nse.Engine.Settle.{
  LadderFor, Course, settle, open_position, handle_signal, register_fill, after_begin, give_back,
  pay,
}
use kotsin_nse.Engine.Offer.{
  IsOffered, SameHoldings, begin_offer, submit_order_holdings, on_wallet_holdings,
}
use kotsin_nse.Engine.Fewer.{IsFewer, IsFewer-trans, same-IsFewer}
use kotsin_nse.Engine.Caps.{IsWithinCaps, IsPlain, fewer-IsWithinCaps, cons-IsWithinCaps}

module _ {W : Type 0} ⦃f : Num W⦄ where
  -- Every underlying stands under its own symbol.
  abbrev pub IsNamed : Engine W → Type 0
  IsNamed e = (s : String) (u : Instrument W) → lookup s e.underlyings ≡ some u → u.symbol ≡ s

  pub insert-IsWithinCaps :
      (outlay capital : W) (id : String) (p : Position W) (d : Dict (Position W))
      → lookup id d ≡ none
      → (check
          (limits_of p.strategy)
          p.strategy
          p.underlying.symbol
          outlay
          (values d)
          capital).allowed
        ≡ true
      → IsWithinCaps (values d)
      → IsWithinCaps (values (insert id p d))
  insert-IsWithinCaps outlay capital id p d n a w =
      fewer-IsWithinCaps (p ∷ values d) (values (insert id p d))
        (λ t plain. ground (arith, count-insert_new t id p d n))
        (cons-IsWithinCaps outlay capital p (values d) a w)

  open_position_lem :
      (ladder : LadderFor W) (id : String) (p : Pending W) (x : Fill W)
      → ((open_position ladder id p x).strategy ≡ p.signal.strategy)
        × ((open_position ladder id p x).underlying ≡ p.underlying)
  unfolding open_position
  open_position_lem ladder id p x = ground arith

  -- The engine with the position of a fill.
  abbrev registered : LadderFor W → String → Pending W → Fill W → Engine W → Engine W
  registered ladder id p x e = record e {
    positions = insert id (open_position ladder id p x) e.positions;
  }

  -- What `settle` can do to the positions, from the fill that came.
  IsBooked : LadderFor W → String → Pending W → Engine W → Engine W → Type 0
  IsBooked ladder id p e g =
      SameHoldings e g ⊎ ((x : Fill W) × SameHoldings (registered ladder id p x e) g)

  give_back_holdings :
      (p : Pending W) (now : Time) (e : Engine W) → SameHoldings e (give_back p now e)
  unfolding give_back
  give_back_holdings p now e = ground (arith, on_wallet_holdings p.signal.strategy)

  register_fill-cases :
      (ladder : LadderFor W) (id : String) (p : Pending W) (now : Time) (o : Option (Fill W))
      (e : Engine W)
      → IsBooked ladder id p e (register_fill ladder id p now o e).1
  unfolding IsBooked register_fill
  register_fill-cases ladder id p now none e = inl (give_back_holdings p now e)
  register_fill-cases ladder id p now (some x) e =
      inr (x, on_wallet_holdings p.signal.strategy (pay p x) (registered ladder id p x e))

  settle-cases :
      (ladder : LadderFor W) (id : String) (p : Pending W) (written : Bool) (now : Time)
      (r : Reply W) (e : Engine W)
      → IsBooked ladder id p e (settle ladder id p written now r e).1
  unfolding IsBooked settle
  settle-cases ladder id p written now failed e = inl (give_back_holdings p now e)
  settle-cases ladder id p true now (answered r) e = register_fill-cases ladder id p now r.fill e
  settle-cases ladder id p false now (answered r) e = inl (give_back_holdings p now e)

  -- What a step keeps: the universe, and the caps if they held.
  abbrev pub IsOrderly : Engine W → Engine W → Type 0
  IsOrderly e g =
      (g.underlyings ≡ e.underlyings)
      × (IsNamed e → IsWithinCaps (values e.positions) → IsWithinCaps (values g.positions))

  pub same-IsOrderly : (e g : Engine W) → SameHoldings e g → IsOrderly e g
  same-IsOrderly e g h = (h.1, λ n w. subst (λ d. IsWithinCaps (values d)) (sym h.0) w)

  booked-IsOrderly :
      (ladder : LadderFor W) (id : String) (p : Pending W) (e g : Engine W)
      → lookup id e.positions ≡ none
      → IsOffered e (pending p)
      → IsBooked ladder id p e g
      → IsOrderly e g
  unfolding IsBooked
  booked-IsOrderly ladder id p e g n o (inl h) = same-IsOrderly e g h
  booked-IsOrderly ladder id p e g n ((capital, a), u) (inr (x, h)) = (
    h.1,
    λ named w.
        subst (λ d. IsWithinCaps (values d)) (sym h.0)
          (insert-IsWithinCaps p.outlay capital id (open_position ladder id p x) e.positions n
            (ground
              (arith, open_position_lem ladder id p x, named p.signal.symbol p.underlying u, a))
            w),
  )

  SameHoldings-trans : (e g h : Engine W) → SameHoldings e g → SameHoldings g h → SameHoldings e h
  SameHoldings-trans e g h a b = (b.0 ∙ a.0, b.1 ∙ a.1)

  moved-IsOffered :
      (p : Pending W) (e g : Engine W)
      → SameHoldings e g
      → IsOffered e (pending p)
      → IsOffered g (pending p)
  moved-IsOffered p e g h o = rw (h.0, h.1) o

  pub moved-IsOrderly : (e g h : Engine W) → SameHoldings e g → IsOrderly g h → IsOrderly e h
  moved-IsOrderly e g h s o = (o.0 ∙ s.1, λ n w. o.1 (rw s.1 n) (rw s.0 w))

  pub place_entry_holdings :
      (p : Pending W) (now : Time) (place : Option (Placement W)) (e : Engine W)
      → SameHoldings e (place_entry p now place e).1
  unfolding place_entry
  place_entry_holdings p now place e = submit_order_holdings _ _ now place e

  after_begin-IsOrderly :
      (c : Course W) (e g : Engine W) (b : Begun W)
      → lookup c.id e.positions ≡ none
      → IsOffered e b
      → SameHoldings e g
      → IsOrderly e (after_begin c (b, g)).1
  unfolding after_begin
  after_begin-IsOrderly c e g (refused r) n o s = same-IsOrderly e g s
  after_begin-IsOrderly c e g (pending p) n o s =
      let sent = place_entry p c.placed_at c.place g in
      let end = (settle c.ladder c.id p c.written c.settled_at sent.0 sent.1).1 in
      let t = SameHoldings-trans e g sent.1 s (place_entry_holdings p c.placed_at c.place g) in
      moved-IsOrderly e sent.1 end t (
        booked-IsOrderly c.ladder c.id p sent.1 end (rw t.0 n) (moved-IsOffered p e sent.1 t o)
          (settle-cases c.ladder c.id p c.written c.settled_at sent.0 sent.1))

  pub handle_signal-IsOrderly :
      (sig : Signal W) (c : Course W) (e : Engine W)
      → lookup c.id e.positions ≡ none
      → IsOrderly e (handle_signal sig c e).1
  unfolding handle_signal
  handle_signal-IsOrderly sig c e n =
      let b = begin_offer sig c.selection c.begun_at e in after_begin-IsOrderly c e _ _ n b.0 b.1

  pub fewer-IsOrderly : (e g : Engine W) → IsFewer e g → IsOrderly e g
  fewer-IsOrderly e g h =
      (h.0, λ named w. fewer-IsWithinCaps (values e.positions) (values g.positions) h.1 w)

  -- The position of a pending entry, put where there are no more positions than at its check.
  fewer-insert :
      (outlay capital : W) (id : String) (p : Position W) (d d' : Dict (Position W))
      → lookup id d' ≡ none
      → ((t : Position W → Bool) → IsPlain t → count t (values d') ≤ count t (values d))
      → (check
          (limits_of p.strategy)
          p.strategy
          p.underlying.symbol
          outlay
          (values d)
          capital).allowed
        ≡ true
      → IsWithinCaps (values d)
      → IsWithinCaps (values (insert id p d'))
  fewer-insert outlay capital id p d d' n few a w =
      fewer-IsWithinCaps (p ∷ values d) (values (insert id p d'))
        (λ t plain. ground (
          arith,
          count-insert_new t id p d' n,
          count-cons t p (values d),
          count-cons t p (values d'),
          few t plain,
        ))
        (cons-IsWithinCaps outlay capital p (values d) a w)

  -- An entry settles in an engine that has no more positions than at its check.
  pub settle-IsOrderly :
      (ladder : LadderFor W) (id : String) (p : Pending W) (written : Bool) (now : Time)
      (r : Reply W) (e k : Engine W)
      → lookup id k.positions ≡ none
      → IsOffered e (pending p)
      → IsFewer e k
      → IsOrderly e (settle ladder id p written now r k).1
  unfolding IsBooked
  settle-IsOrderly ladder id p written now r e k n ((capital, a), u) few =
      let end = (settle ladder id p written now r k).1 in
      elim (settle-cases ladder id p written now r k) [
        | inl h ↦ fewer-IsOrderly e end (IsFewer-trans e k end few (same-IsFewer k end h))
        | inr (x, h) ↦ (
          h.1 ∙ few.0,
          λ named w.
              subst (λ d. IsWithinCaps (values d)) (sym h.0)
                (fewer-insert p.outlay capital id (open_position ladder id p x) e.positions
                  k.positions n few.1
                  (ground (
                    arith,
                    open_position_lem ladder id p x,
                    named p.signal.symbol p.underlying u,
                    a,
                  ))
                  w),
        )
      ]
