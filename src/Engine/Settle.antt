-- ===== src/Engine/Settle.antt =====
-- What `_handle_signal` of backend/kotsin_nse/engine.py does when the order and the ledger have
-- answered: the hold goes back, and a fill becomes a position. `_stamp_own_ladder` gets the levels of
-- `_own_ladder_for` as an argument. The wallet of a book is not replaced in between.
use kotsin_nse.Prelude.{String, Bool, false, Option, none, some, List, [], ◌∷◌, if◌then◌else◌}
use kotsin_nse.Prelude.Dict.{lookup, insert}
use kotsin_nse.Num.{Num, ◌⊖◌, nought}
use kotsin_nse.Domain.{Time, Instrument, Fill, Position, long, opened, unarmed, notional}
use kotsin_nse.Risk.Limits.{RiskLimits}
use kotsin_nse.Risk.Wallet.{Wallet, release, commit, apply_charges}
use kotsin_nse.Instrument.Choice.{Selection}
use kotsin_nse.Exec.Gateway.{Placement, Reply, answered, failed}
use kotsin_nse.Engine.State.{Engine, own_limits}
use kotsin_nse.Strategy.Signals.{Signal, signal_id}
use kotsin_nse.Engine.Entry.{Pending, Begun, Refusal, refused, pending, begin, place_entry}

-- `_own_ladder_for`: the rungs and the expected move, from the symbol, the contract, the entry price
-- and the limits.
abbrev pub LadderFor : Type 0 → Type 0
LadderFor W = String → Instrument W → W → RiskLimits W → List W × W

-- How a signal ends.
pub data Ending (W : Type 0) : Type 0 where
  turned_down : Refusal → Ending W
  -- an exception of the order or of the ledger, which is raised again
  broke : Ending W
  unfilled : Ending W
  entered : Position W → Fill W → Ending W

-- What reaches the task from outside while it handles a signal.
pub record Course (W : Type 0) : Type 0 where
  pub selection : Selection W
  pub begun_at : Time
  pub placed_at : Time
  pub place : Option (Placement W)
  pub written : Bool
  pub settled_at : Time
  pub ladder : LadderFor W
  pub id : String

module _ {W : Type 0} ⦃f : Num W⦄ where
  -- `Position(...)` and its `__post_init__`
  unfoldable pub new_position : String → Pending W → Fill W → Position W
  unfolding signal_id
  new_position id p x = record {
    id = id;
    strategy = p.signal.strategy;
    instrument = p.instrument;
    underlying = p.underlying;
    side = long;
    qty = x.qty;
    entry_price = x.price;
    opened_ts = x.ts;
    signal_id = signal_id p.signal;
    direction = p.signal.direction;
    equity_entry = p.signal.entry_price;
    equity_sl = p.signal.stop;
    equity_targets = p.signal.targets;
    option_sl = p.option_sl;
    option_targets = p.option_targets;
    r_unit = f.abs (x.price ⊖ p.option_sl);
    peak_r = nought;
    mfe_r = nought;
    mae_r = nought;
    charges = nought;
    targets_hit = 0;
    qty_remaining = x.qty;
    status = opened;
    bars_held = 0;
    closed_ts = none;
    exit_price = none;
    exit_reason = none;
    breach_since = none;
    peak_mid = nought;
    trail_dwell = 0;
    option_t1 = nought;
    armed_by = unarmed;
    armed_ts = none;
    ratchet_sl = nought;
    last_reproject_ts = 0;
    t_touch_ts = none;
    t_close_ok = false;
    sustained_count = 0;
    option_edm = nought;
    line_breach_since = none;
    last_minute = none;
  }

  abbrev first_rung : List W → W
  first_rung [] = nought
  first_rung (x ∷ xs) = x

  -- `_stamp_own_ladder`
  unfoldable pub stamp_own_ladder : LadderFor W → String → RiskLimits W → Position W → Position W
  stamp_own_ladder ladder symbol lim p =
      let own = ladder symbol p.instrument p.entry_price lim in
      record p { option_targets = own.0; option_t1 = first_rung own.0; option_edm = own.1 }

  -- The new position, stamped if the book has limits of its own that say so.
  unfoldable pub open_position : LadderFor W → String → Pending W → Fill W → Position W
  unfolding new_position stamp_own_ladder own_limits
  open_position ladder id p x =
      let pos = new_position id p x in
      elim (lookup p.signal.strategy own_limits) [
        | none ↦ pos
        | some lim ↦ if lim.own_ladder then stamp_own_ladder ladder p.signal.symbol lim pos else pos
      ]

  unfoldable pub on_wallet : String → (Wallet W → Wallet W) → Engine W → Engine W
  on_wallet key change e = elim (lookup key e.wallets) [
    | none ↦ e
    | some w ↦ record e { wallets = insert key (change w) e.wallets }
  ]

  unfoldable pub give_back : Pending W → Time → Engine W → Engine W
  unfolding on_wallet
  give_back p now e = on_wallet p.signal.strategy (release p.outlay now) e

  -- The provisional hold is swapped for what the fill cost.
  unfoldable pub pay : Pending W → Fill W → Wallet W → Wallet W
  unfolding notional
  pay p x w =
      let cost = notional p.instrument x.price x.qty in
      apply_charges x.charges x.ts (commit cost x.ts (release p.outlay x.ts w)).1

  unfoldable pub register_fill :
      LadderFor W → String → Pending W → Time → Option (Fill W) → Engine W → Ending W × Engine W
  unfolding give_back on_wallet
  register_fill ladder id p now none e = (unfilled, give_back p now e)
  register_fill ladder id p now (some x) e =
      let pos = open_position ladder id p x in
      (
        entered pos x,
        on_wallet p.signal.strategy (pay p x) (record e { positions = insert id pos e.positions }),
      )

  -- The rest of `_handle_signal` up to the twins; `written` is false if a write of the ledger raised.
  unfoldable pub settle :
      LadderFor W → String → Pending W → Bool → Time → Reply W → Engine W → Ending W × Engine W
  unfolding register_fill
  settle ladder id p written now failed e = (broke, give_back p now e)
  settle ladder id p written now (answered r) e =
      let booked = register_fill ladder id p now r.fill e in
      if written then booked else (broke, give_back p now e)

  unfoldable pub after_begin : Course W → Begun W × Engine W → Ending W × Engine W
  after_begin c (refused r, e) = (turned_down r, e)
  after_begin c (pending p, e) =
      let sent = place_entry p c.placed_at c.place e in
      settle c.ladder c.id p c.written c.settled_at sent.0 sent.1

  -- `_handle_signal` up to the twins, without a step of another task in between
  unfoldable pub handle_signal : Signal W → Course W → Engine W → Ending W × Engine W
  unfolding after_begin
  handle_signal sig c e = after_begin c (begin sig c.selection c.begun_at e)
