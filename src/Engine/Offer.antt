-- ===== src/Engine/Offer.antt =====
-- What `begin` has checked when it leaves an entry pending, and what the steps leave alone.
use kotsin_nse.Prelude.{
  ◌≡◌, refl, String, Bool, true, Option, some, arith, Option-cases, Bool-cases, inl, inr, if-elim,
  not, ◌==◌, ◌⊎◌, sym, subst,
}
use kotsin_nse.Prelude.Dict.{lookup, values}
use kotsin_nse.Num.{Num}
use kotsin_nse.Domain.{Time, Instrument, OrderIntent}
use kotsin_nse.Risk.Wallet.{Wallet}
use kotsin_nse.Risk.Exposure.{check}
use kotsin_nse.Instrument.Choice.{Selection}
use kotsin_nse.Exec.Gateway.{Placement}
use kotsin_nse.Engine.State.{Engine, limits_of, book_trades, submit_order}
use kotsin_nse.Strategy.Signals.{Signal}
use kotsin_nse.Engine.Entry.{
  Begun, refused, pending, begin, reserve_entry, entry_levels, size_entry, Refusal, no_underlying,
  no_instrument, wrong_segment, no_wallet, wallet_halted, not_sized, exposure_full, wallet_taken,
}
use kotsin_nse.Engine.Settle.{on_wallet}

module _ {W : Type 0} ⦃f : Num W⦄ where
  -- The exposure verdict and the underlying that a pending entry rests on.
  abbrev pub IsOffered : Engine W → Begun W → Type 0
  IsOffered e (refused r) = Unit
  IsOffered e (pending p) =
      ((capital : W) × ((check (limits_of p.signal.strategy) p.signal.strategy p.signal.symbol
            p.outlay (values e.positions) capital).allowed
          ≡ true))
      × (lookup p.signal.symbol e.underlyings ≡ some p.underlying)

  -- The positions and the universe are as before.
  abbrev pub SameHoldings : Engine W → Engine W → Type 0
  SameHoldings e g = (g.positions ≡ e.positions) × (g.underlyings ≡ e.underlyings)

  reserve_entry_offer :
      (sig : Signal W) (u inst : Instrument W) (premium : W) (now : Time) (w : Wallet W)
      (e : Engine W)
      → lookup sig.symbol e.underlyings ≡ some u
      → IsOffered e (reserve_entry sig u inst premium now w e).0
        × SameHoldings e (reserve_entry sig u inst premium now w e).1
  unfolding reserve_entry
  reserve_entry_offer sig u inst premium now w e h =
      let P : Begun W × Engine W → Type 0 = λ o. IsOffered e o.0 × SameHoldings e o.1 in
      let stops : (r : Refusal) → P (refused r, e) = λ r. (tt, (refl, refl)) in
      let levels = entry_levels sig inst premium in
      let sizing = size_entry sig inst premium levels w e in
      let allowed =
        (check (limits_of sig.strategy) sig.strategy sig.symbol sizing.outlay (values e.positions)
          w.balance).allowed in
      elim (Bool-cases allowed) [
        | inl a ↦ if-elim P w.halted (stops wallet_halted) (
            if-elim P (sizing.qty == 0) (stops not_sized) (
              if-elim P (not allowed) (stops exposure_full)
                (if-elim P _ (stops wallet_taken) (((w.balance, a), h), (refl, refl)))))
        | inr a ↦
            if-elim P w.halted (stops wallet_halted)
              (if-elim P (sizing.qty == 0) (stops not_sized) (rw a (stops exposure_full)))
      ]

  -- A signal that `begin` turns down changes nothing; the others come to the wallet's check.
  begin-cases :
      (sig : Signal W) (sel : Selection W) (now : Time) (e : Engine W)
      → ((r : Refusal) × (begin sig sel now e ≡ (refused r, e)))
        ⊎ ((u : Instrument W) × (inst : Instrument W) × (w : Wallet W) × (lookup sig.symbol
                e.underlyings
              ≡ some u)
            × (begin sig sel now e ≡ reserve_entry sig u inst sel.premium now w e))
  unfolding begin
  begin-cases sig sel now e = elim (Option-cases (lookup sig.symbol e.underlyings)) [
    | inl n ↦ inl (no_underlying, rw (n, begin) refl)
    | inr (u, h) ↦ elim (Option-cases sel.instrument) [
      | inl n ↦ inl (no_instrument, rw (h, n, begin) refl)
      | inr (inst, i) ↦ elim (Bool-cases (book_trades sig.strategy u.segment)) [
        | inr b ↦ inl (wrong_segment, rw (h, i, b, begin) refl)
        | inl b ↦ elim (Option-cases (lookup sig.strategy e.wallets)) [
          | inl n ↦ inl (no_wallet, rw (h, i, b, n, begin) refl)
          | inr (w, k) ↦ inr (u, inst, w, h, rw (h, i, b, k, begin) refl)
        ]
      ]
    ]
  ]

  pub begin_offer :
      (sig : Signal W) (sel : Selection W) (now : Time) (e : Engine W)
      → IsOffered e (begin sig sel now e).0 × SameHoldings e (begin sig sel now e).1
  begin_offer sig sel now e =
      let P : Begun W × Engine W → Type 0 = λ o. IsOffered e o.0 × SameHoldings e o.1 in
      elim (begin-cases sig sel now e) [
        | inl (r, q) ↦ subst P (sym q) (tt, (refl, refl))
        | inr (u, inst, w, h, q) ↦
            subst P (sym q) (reserve_entry_offer sig u inst sel.premium now w e h)
      ]

  pub submit_order_holdings :
      (intent : OrderIntent W) (ok : Bool) (now : Time) (place : Option (Placement W))
      (e : Engine W)
      → SameHoldings e (submit_order intent ok now place e).1
  unfolding submit_order
  submit_order_holdings intent ok now place e = ground arith

  pub on_wallet_holdings :
      (key : String) (change : Wallet W → Wallet W) (e : Engine W)
      → SameHoldings e (on_wallet key change e)
  unfolding on_wallet
  on_wallet_holdings key change e = ground arith
