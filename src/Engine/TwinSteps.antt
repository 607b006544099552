-- ===== src/Engine/TwinSteps.antt =====
-- The opening of a twin as a step: `_open_rt_twin` keeps the position caps.
use kotsin_nse.Prelude.{
  ◌≡◌, refl, String, Bool, true, none, some, List, arith, if◌then◌else◌, Option-cases, inl, inr,
  ◌≢◌, not,
}
use kotsin_nse.Prelude.Dict.{lookup, values}
use kotsin_nse.Num.{Num, lt}
use kotsin_nse.Domain.{Fill, Position}
use kotsin_nse.Risk.Exposure.{check}
use kotsin_nse.Risk.Wallet.{Wallet, available}
use kotsin_nse.Engine.State.{Engine, limits_of, book_trades}
use kotsin_nse.Engine.Settle.{LadderFor}
use kotsin_nse.Engine.Twin.{
  mirror_one, twin_of, twin_cost, skip_twin, open_twin, is_dry, wrong_book, dried, no_purse,
  halted_purse, short_of_money, exposure_full,
}
use kotsin_nse.Engine.Steps.{IsOrderly, insert-IsWithinCaps, same-IsOrderly}

-- The guards of `skip_twin`, for one wallet.
guards_lem :
    (trades dry stopped short allowed : Bool)
    → (if not trades
        then some wrong_book
        else if dry
        then some dried
        else if stopped
        then some halted_purse
        else if short
        then some short_of_money
        else if not allowed
        then some exposure_full
        else none)
      ≡ none
    → allowed ≡ true
guards_lem trades dry stopped short allowed h = ground (arith, h)

no_purse_lem :
    (trades dry : Bool)
    → (if not trades then some wrong_book else if dry then some dried else some no_purse) ≢ none
no_purse_lem trades dry h = ground (arith, h)

module _ {W : Type 0} ⦃f : Num W⦄ where
  twin_of_lem :
      (ladder : LadderFor W) (id key : String) (p : Position W)
      → ((twin_of ladder id key p).strategy ≡ key)
        × ((twin_of ladder id key p).underlying ≡ p.underlying)
  unfolding twin_of
  twin_of_lem ladder id key p = ground arith

  purseless_lem :
      (vol : List (W × W)) (key : String) (p : Position W) (e : Engine W)
      → lookup key e.wallets ≡ none
      → skip_twin vol key p e ≢ none
  unfolding skip_twin
  purseless_lem vol key p e n h =
      no_purse_lem (book_trades key p.underlying.segment) (is_dry (limits_of key) vol)
        (rw (n, skip_twin) at h)

  -- The verdict that lets a twin open.
  skip_twin_lem :
      (vol : List (W × W)) (key : String) (p : Position W) (e : Engine W)
      → skip_twin vol key p e ≡ none
      → (w : Wallet W) × (lookup key e.wallets ≡ some w)
        × ((check
              (limits_of key)
              key
              p.underlying.symbol
              (twin_cost p)
              (values e.positions)
              w.balance).allowed
            ≡ true)
  unfolding skip_twin
  skip_twin_lem vol key p e h = elim (Option-cases (lookup key e.wallets)) [
    | inl n ↦ absurd (purseless_lem vol key p e n h)
    | inr (w, k) ↦ (
      w,
      k,
      guards_lem (book_trades key p.underlying.segment) (is_dry (limits_of key) vol) w.halted
          (lt (available w) (twin_cost p))
          (check (limits_of key) key p.underlying.symbol (twin_cost p) (values e.positions)
            w.balance).allowed
          (rw (k, skip_twin) at h),
    )
  ]

  pub mirror_one-IsOrderly :
      (ladder : LadderFor W) (vol : List (W × W)) (id key : String) (p : Position W) (x : Fill W)
      (e : Engine W)
      → lookup id e.positions ≡ none
      → IsOrderly e (mirror_one ladder vol id key p x e)
  unfolding mirror_one open_twin
  mirror_one-IsOrderly ladder vol id key p x e n = elim (Option-cases (skip_twin vol key p e)) [
    | inr (s, h) ↦ rw (h, mirror_one) (same-IsOrderly e e (refl, refl))
    | inl h ↦
        let (w, k, a) = skip_twin_lem vol key p e h in
        rw (h, k, mirror_one, open_twin)
          (
            refl,
            λ named caps.
                insert-IsWithinCaps (twin_cost p) w.balance id (twin_of ladder id key p) e.positions
                  n (ground (arith, a, twin_of_lem ladder id key p)) caps,
          )
  ]
