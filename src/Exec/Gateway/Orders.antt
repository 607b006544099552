-- ===== src/Exec/Gateway/Orders.antt =====
-- A live order through both of its stages: the gateway's `submit_live`, with the `place` of the live
-- executor as what it calls.
use kotsin_nse.Prelude.{
  ℕ, ◌+◌, String, sym, ◌∙◌, ◌≡◌, inl, inr, Bool, true, false, Option, none, some, arith,
}
use kotsin_nse.Prelude.Strings.{member}
use kotsin_nse.Num.{Num}
use kotsin_nse.Domain.{OrderIntent, Fill, exit}
use kotsin_nse.Exec.Live.{
  LiveExecutor, LiveResult, Venue, Placement, returned, raised, place, fill_of,
}
use kotsin_nse.Exec.Live.Outcome.{place_answers, IsFill, IsRefusal}
use kotsin_nse.Exec.Gateway.{
  LiveContext, Gateway, Inputs, Reply, answered, failed, submit_live, breaks_cap, submitted,
  is_live_mode,
}

abbrev is_some : {A : Type 0} → Option A → Bool
is_some none = false
is_some (some x) = true

-- The two ways out of an exit.
abbrev pub IsLoud : {W : Type 0} → Reply W → Type 0
IsLoud (answered r) = (r.decision ≡ submitted) × (is_some r.fill ≡ true)
IsLoud failed = Unit {0}

module _ {W : Type 0} ⦃f : Num W⦄ (intent : OrderIntent W) (ctx : LiveContext W) (i : Inputs W)
    (g : Gateway W) where
  full_result-IsLoud :
      (res : LiveResult W) (x : Fill W)
      → intent.purpose ≡ exit
      → is_live_mode i.mode ≡ true
      → member intent.client_order_id g.seen ≡ false
      → res.ok ≡ true
      → res.fill ≡ some x
      → IsLoud (submit_live intent ctx i (some (returned res)) g).0
  unfolding submit_live breaks_cap
  full_result-IsLoud res x e p new good fills = ground arith

  raised-IsLoud :
      intent.purpose ≡ exit
      → is_live_mode i.mode ≡ true
      → member intent.client_order_id g.seen ≡ false
      → IsLoud (submit_live intent ctx i (some raised) g).0
  unfolding submit_live breaks_cap
  raised-IsLoud e p new = ground arith

  fill-IsLoud :
      (v : Venue W) (e : LiveExecutor W) (id : String) (p : Placement W)
      → intent.purpose ≡ exit
      → is_live_mode i.mode ≡ true
      → member intent.client_order_id g.seen ≡ false
      → IsFill intent v e id p
      → IsLoud (submit_live intent ctx i (some p) g).0
  fill-IsLoud v e id raised x m new h = absurd h
  fill-IsLoud v e id (returned r) x m new (ok, (n, at, early, before)) =
      full_result-IsLoud r (fill_of intent at.row (v.fill_clock n) e) x m new ok at.filled

  refusal-IsLoud :
      (p : Placement W)
      → intent.purpose ≡ exit
      → is_live_mode i.mode ≡ true
      → member intent.client_order_id g.seen ≡ false
      → IsRefusal intent p
      → IsLoud (submit_live intent ctx i (some p) g).0
  refusal-IsLoud raised x m new h = raised-IsLoud x m new
  refusal-IsLoud (returned r) x m new (no_ok, no_fill, e) = absurd (cc (sym e ∙ x))

  -- A live exit under a new id never fails in silence: with what the live executor's `place` comes to,
  -- for whatever the venue answers, `submit_live` either reports a submitted order with its fill, or
  -- lets the exception through; no gate of the gateway turns it away.
  pub live_exit_fills_or_raises :
      (fuel : ℕ) (v : Venue W) (e e' : LiveExecutor W) (p : Placement W)
      → intent.purpose ≡ exit
      → is_live_mode i.mode ≡ true
      → member intent.client_order_id g.seen ≡ false
      → place fuel intent v e ≡ some (p, e')
      → IsLoud (submit_live intent ctx i (some p) g).0
  live_exit_fills_or_raises fuel v e e' p x m new run =
      elim (place_answers fuel intent v e e' p run) [
        | inl (id, sent, inl full) ↦
            fill-IsLoud v (record e { placed = e.placed + 1 }) id p x m new full
        | inl (id, sent, inr bad) ↦ refusal-IsLoud p x m new bad
        | inr (text, sent, bad) ↦ refusal-IsLoud p x m new bad
      ]
