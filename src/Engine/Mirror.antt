-- ===== src/Engine/Mirror.antt =====
-- What the twins of an entry are, and what becomes of a twin that is copied late.
use kotsin_nse.Prelude.{
  ◌≡◌, refl, ap, String, true, false, Option, none, some, List, All, arith, ◌⊎◌,
}
use kotsin_nse.Prelude.Strings.{str_eq_refl, member}
use kotsin_nse.Prelude.Dict.{lookup, lookup-insert}
use kotsin_nse.Num.{Num, ◌⊕◌, nought}
use kotsin_nse.Domain.{
  Time, Segment, nse_eq, nse_fo, nse_idx, mcx_fo, Fill, Position, closed, is_opened, unarmed,
}
use kotsin_nse.Risk.Wallet.{Wallet, commit, apply_charges}
use kotsin_nse.Exec.Gateway.{Placement}
use kotsin_nse.Engine.State.{Engine, book_trades}
use kotsin_nse.Engine.Settle.{LadderFor}
use kotsin_nse.Engine.Twin.{
  twin_keys, mirror_one, twin_of, twin_cost, skip_twin, open_twin, pay_twin,
}
use kotsin_nse.Engine.Exit.{manage_position}

-- The books that mirror an entry trade its segment, so that the guard on it never fires.
twin_keys_trade :
    (strategy : String) (segment : Segment)
    → All (λ key. book_trades key segment ≡ true) (twin_keys strategy segment)
unfolding twin_keys book_trades
twin_keys_trade strategy segment = elim segment [
  | nse_eq ↦ ground arith
  | nse_fo ↦ ground arith
  | nse_idx ↦ ground arith
  | mcx_fo ↦ ground arith
]

module _ {W : Type 0} ⦃f : Num W⦄ where
  -- Nothing of the exit rules' state is set: no rung hit, no ratchet, no trigger, no sustained breach,
  -- no touch, no peak.
  pub record IsFresh (t : Position W) : Type 0 where
    pub rungs : t.targets_hit ≡ 0
    pub ratchet : t.ratchet_sl ≡ nought
    pub trigger : t.armed_by ≡ unarmed
    pub triggered : t.armed_ts ≡ none
    pub sustained : t.sustained_count ≡ 0
    pub touched : t.t_touch_ts ≡ none
    pub confirmed : t.t_close_ok ≡ false
    pub breached : t.line_breach_since ≡ none
    pub peak : t.peak_mid ≡ nought
    pub dwell : t.trail_dwell ≡ 0
    pub minute : t.last_minute ≡ none

  -- `t` holds what `p` holds, at its price and from its instant, under `key` and with the state of the exit rules fresh.
  pub record IsTwin (p : Position W) (key : String) (t : Position W) : Type 0 where
    pub owner : t.strategy ≡ key
    pub contract : t.instrument ≡ p.instrument
    pub parent : t.underlying ≡ p.underlying
    pub total : t.qty ≡ p.qty
    pub paid : t.entry_price ≡ p.entry_price
    pub since : t.opened_ts ≡ p.opened_ts
    pub fresh : IsFresh t

  abbrev IsSourced :
      (String → String) → List String → Position W → Engine W → String → Position W → Type 0
  IsSourced ids keys p e id t =
      (lookup id e.positions ≡ some t)
      ⊎ ((key : String) × (member key keys ≡ true) × (id ≡ ids key) × IsTwin p key t)

  closed_twin :
      (ladder : LadderFor W) (id key : String) (p : Position W)
      → p.status ≡ closed
      → (twin_of ladder id key p).status ≡ closed
  unfolding twin_of
  closed_twin ladder id key p c = ground arith

  -- A twin that is opened when its primary has already closed is registered as closed, with its whole
  -- cost deployed from its book, and no round of the exit loop does anything about it.
  pub closed_twin_stays :
      (ladder : LadderFor W) (vol : List (W × W)) (id key : String) (p : Position W) (x : Fill W)
      (w : Wallet W) (e : Engine W)
      → p.status ≡ closed
      → skip_twin vol key p e ≡ none
      → lookup key e.wallets ≡ some w
      → (lookup id (mirror_one ladder vol id key p x e).positions ≡ some (twin_of ladder id key p))
        × (lookup key (mirror_one ladder vol id key p x e).wallets ≡ some (pay_twin p x w))
        × ((pay_twin p x w).deployed ≡ w.deployed ⊕ twin_cost p)
        × ((now : Time) (place : Option (Placement W)) (g : Engine W)
            → manage_position (twin_of ladder id key p) now place g ≡ g)
  unfolding mirror_one pay_twin manage_position commit apply_charges
  closed_twin_stays ladder vol id key p x w e c free purse =
      let shut : is_opened (twin_of ladder id key p).status ≡ false =
        ap is_opened (closed_twin ladder id key p c) in
      let twin = twin_of ladder id key p in
      (
        rw (free, purse, mirror_one, open_twin)
            (ground (arith, str_eq_refl id, lookup-insert id id twin e.positions)),
        rw (free, purse, mirror_one, open_twin)
            (ground (arith, str_eq_refl key, lookup-insert key key (pay_twin p x w) e.wallets)),
        ground arith,
        λ now place g. rw (shut, manage_position) refl,
      )
