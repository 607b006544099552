-- ===== src/Engine/Twin.antt =====
-- `_open_rt_twin` of backend/kotsin_nse/engine.py: the mirror of an entry in the books that test other
-- exits, and `dried_volume` of backend/kotsin_nse/bars/indicators.py. The surges of the volume are what
-- `_volume_surges` awaited on.
use kotsin_nse.Prelude.{
  String, Bool, true, false, not, ◌&&◌, ◌||◌, Option, none, some, List, [], ◌∷◌, ◌==◌,
  if◌then◌else◌,
}
use kotsin_nse.Prelude.Strings.{str_eq}
use kotsin_nse.Prelude.Dict.{lookup, insert, values}
use kotsin_nse.Num.{Num, lt, nought, truthy}
use kotsin_nse.Domain.{Segment, mcx_fo, Fill, Position, unarmed, notional}
use kotsin_nse.Risk.Limits.{RiskLimits}
use kotsin_nse.Risk.Wallet.{Wallet, available, commit, apply_charges}
use kotsin_nse.Risk.Exposure.{check}
use kotsin_nse.Engine.State.{Engine, book_trades, limits_of}
use kotsin_nse.Engine.Settle.{LadderFor, stamp_own_ladder}

abbrev pub is_mcx : Segment → Bool
is_mcx mcx_fo = true
is_mcx _ = false

-- The books that mirror a book's entry.
unfoldable pub twin_keys : String → Segment → List String
twin_keys strategy segment =
    if str_eq strategy "FUDKII"
    then if is_mcx segment
      then "FUDKII_RT_MCX" ∷ []
      else "FUDKII_RT_X" ∷ "FUDKII_RT_N" ∷ "FUDKII_RT_Y" ∷ []
    else if str_eq strategy "FUDKII_CT_X" && not (is_mcx segment)
    then "FUDKII_CT_Y" ∷ []
    else []

-- Why a book gets no twin.
pub data Skip : Type 0 where
  wrong_book dried no_purse halted_purse short_of_money exposure_full : Skip

module _ {W : Type 0} ⦃f : Num W⦄ where
  -- `dried_volume`, for two surges that are there
  unfoldable pub dried_volume : W → W → W → Bool
  dried_volume surge_t surge_t1 v =
      lt nought surge_t && lt surge_t v && lt nought surge_t1 && lt surge_t1 v

  any_dried : List (W × W) → W → Bool
  unfolding dried_volume
  any_dried [] v = false
  any_dried ((t, t1) ∷ vol) v = dried_volume t t1 v || any_dried vol v

  -- `lim_v and vol`, and then whether a leg of the volume is dried
  unfoldable pub is_dry : RiskLimits W → List (W × W) → Bool
  unfolding any_dried
  is_dry lim vol = elim lim.dried_volume_v [ none ↦ false | some v ↦ truthy v && any_dried vol v ]

  -- `replace(pos, …)`, whose `__post_init__` takes no remaining quantity for a new position.
  unfoldable pub copy_position : String → String → Position W → Position W
  copy_position id key p = record p {
    id = id;
    strategy = key;
    targets_hit = 0;
    ratchet_sl = nought;
    armed_by = unarmed;
    armed_ts = none;
    sustained_count = 0;
    t_touch_ts = none;
    t_close_ok = false;
    line_breach_since = none;
    peak_mid = nought;
    trail_dwell = 0;
    qty_remaining = if p.qty_remaining == 0 then p.qty else p.qty_remaining;
    last_minute = none;
  }

  unfoldable pub twin_of : LadderFor W → String → String → Position W → Position W
  unfolding copy_position stamp_own_ladder limits_of
  twin_of ladder id key p =
      let twin = copy_position id key p in
      let lim = limits_of key in
      if lim.own_ladder then stamp_own_ladder ladder p.underlying.symbol lim twin else twin

  -- The cost of the twin, which is the primary's.
  unfoldable pub twin_cost : Position W → W
  unfolding notional
  twin_cost p = notional p.instrument p.entry_price p.qty

  unfoldable pub pay_twin : Position W → Fill W → Wallet W → Wallet W
  unfolding twin_cost
  pay_twin p x w = apply_charges x.charges x.ts (commit (twin_cost p) x.ts w).1

  -- The guards of one round: none lets the twin open.
  unfoldable pub skip_twin : List (W × W) → String → Position W → Engine W → Option Skip
  unfolding is_dry limits_of available check book_trades twin_cost
  skip_twin vol key p e =
      let lim = limits_of key in
      let purse : Option Skip = elim (lookup key e.wallets) [
        | none ↦ some no_purse
        | some w ↦
            let verdict =
              check lim key p.underlying.symbol (twin_cost p) (values e.positions) w.balance in
            if w.halted
            then some halted_purse
            else if lt (available w) (twin_cost p)
            then some short_of_money
            else if not verdict.allowed
            then some exposure_full
            else none
      ] in
      if not (book_trades key p.underlying.segment)
      then some wrong_book
      else if is_dry lim vol
      then some dried
      else purse

  unfoldable pub open_twin :
      LadderFor W → String → String → Position W → Fill W → Engine W → Engine W
  unfolding twin_of
  open_twin ladder id key p x e = elim (lookup key e.wallets) [
    | none ↦ e
    | some w ↦ record e {
      positions = insert id (twin_of ladder id key p) e.positions;
      wallets = insert key (pay_twin p x w) e.wallets;
    }
  ]

  -- One round of the loop.
  unfoldable pub mirror_one :
      LadderFor W → List (W × W) → String → String → Position W → Fill W → Engine W → Engine W
  unfolding skip_twin open_twin
  mirror_one ladder vol id key p x e =
      let opened = open_twin ladder id key p x e in
      elim (skip_twin vol key p e) [ none ↦ opened | some s ↦ e ]

  unfoldable pub mirror_all :
      LadderFor W
      → List (W × W)
      → (String → String)
      → List String
      → Position W
      → Fill W
      → Engine W
      → Engine W
  unfolding mirror_one
  mirror_all ladder vol ids [] p x e = e
  mirror_all ladder vol ids (key ∷ keys) p x e =
      mirror_all ladder vol ids keys p x (mirror_one ladder vol (ids key) key p x e)

  -- `_open_rt_twin`; `ids` gives the new ids.
  unfoldable pub mirror :
      LadderFor W → List (W × W) → (String → String) → Position W → Fill W → Engine W → Engine W
  unfolding mirror_all twin_keys
  mirror ladder vol ids p x e =
      mirror_all ladder vol ids (twin_keys p.strategy p.underlying.segment) p x e
