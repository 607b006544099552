-- ===== src/Engine/Entry.antt =====
-- From a signal to a position: `_handle_signal` of backend/kotsin_nse/engine.py, from the contract
-- that `_select_instrument` awaited on. The task runs from there through `wallet.reserve` without a
-- break (`begin`), sends its order (`place_entry`), awaits the ledger and then books what came of it
-- (`settle`); the steps of other tasks may stand between these.
use kotsin_nse.Prelude.{
  ℕ, String, Bool, true, false, not, ◌||◌, Option, none, some, List, [], ◌∷◌, ◌==◌, if◌then◌else◌,
}
use kotsin_nse.Prelude.Strings.{member, concat}
use kotsin_nse.Prelude.Dict.{lookup, insert, values}
use kotsin_nse.Num.{Num, ◌⊖◌, ◌⊗◌, le, nought, of_nat, truthy, max_of, min_of}
use kotsin_nse.Domain.{Time, Instrument, InstrumentKind, option, OrderIntent, buy, entry}
use kotsin_nse.Strategy.Signals.{Signal, signal_id}
use kotsin_nse.Risk.Wallet.{Wallet, available, reserve}
use kotsin_nse.Risk.Sizing.{SizingResult, size_position}
use kotsin_nse.Risk.Exposure.{check}
use kotsin_nse.Instrument.Select.{estimate_delta}
use kotsin_nse.Instrument.Choice.{Selection, map_levels_to_option}
use kotsin_nse.Exec.Gateway.{Placement, Reply}
use kotsin_nse.Engine.State.{Engine, book_trades, no_premium_floor, limits_of, submit_order}

-- What `_handle_signal` tells the ledger when it goes no further; `no_wallet` is the KeyError.
pub data Refusal : Type 0 where
  no_underlying no_instrument wrong_segment no_wallet wallet_halted not_sized exposure_full
        wallet_taken :
      Refusal

-- The locals of the task that are used after its first await.
pub record Pending (W : Type 0) : Type 0 where
  pub signal : Signal W
  pub instrument : Instrument W
  pub underlying : Instrument W
  pub premium : W
  pub option_sl : W
  pub option_targets : List W
  pub qty : ℕ
  pub outlay : W

pub data Begun (W : Type 0) : Type 0 where
  refused : Refusal → Begun W
  pending : Pending W → Begun W

abbrev is_option : InstrumentKind → Bool
is_option option = true
is_option _ = false

module _ {W : Type 0} ⦃f : Num W⦄ where
  -- `floored_option_stop`
  unfoldable pub floored_option_stop : String → W → W → W → W
  unfolding max_of min_of
  floored_option_stop key premium option_sl tick =
      let step = if truthy tick then tick else f.lit 5 2 in
      if not (member key no_premium_floor) || le premium nought
      then option_sl
      else f.round 2 (min_of option_sl (max_of step (premium ⊖ of_nat 8 ⊗ step)))

  abbrev first : List W → Option W
  first [] = none
  first (x ∷ xs) = some x

  -- The levels on the contract, before the guards.
  unfoldable pub entry_levels : Signal W → Instrument W → W → W × List W
  unfolding estimate_delta map_levels_to_option floored_option_stop
  entry_levels sig inst premium =
      let delta =
        if is_option inst.kind
        then estimate_delta sig.entry_price inst.strike inst.option_type
        else of_nat 1 in
      let levels = map_levels_to_option sig.entry_price sig.stop sig.targets premium delta in
      let floored = floored_option_stop sig.strategy premium levels.0 inst.tick_size in
      (if is_option inst.kind then floored else levels.0, levels.1)

  -- `book_limits`, and the cap of `size_position` on the costs
  unfoldable pub size_entry :
      Signal W → Instrument W → W → W × List W → Wallet W → Engine W → SizingResult W
  unfolding available size_position limits_of
  size_entry sig inst premium levels w e =
      size_position inst premium levels.0 (first levels.1) w.balance (available w)
        (limits_of sig.strategy) e.costs (f.lit 35 2)

  -- From the wallet's check to its reservation.
  unfoldable pub reserve_entry :
      Signal W → Instrument W → Instrument W → W → Time → Wallet W → Engine W → Begun W × Engine W
  unfolding entry_levels size_entry reserve check limits_of
  reserve_entry sig underlying inst premium now w e =
      let levels = entry_levels sig inst premium in
      let sizing = size_entry sig inst premium levels w e in
      let verdict =
        check (limits_of sig.strategy) sig.strategy sig.symbol sizing.outlay (values e.positions)
          w.balance in
      let taken = reserve sizing.outlay now w in
      let p : Pending W = record {
        signal = sig;
        instrument = inst;
        underlying = underlying;
        premium = premium;
        option_sl = levels.0;
        option_targets = levels.1;
        qty = sizing.qty;
        outlay = sizing.outlay;
      } in
      if w.halted
      then (refused wallet_halted, e)
      else if sizing.qty == 0
      then (refused not_sized, e)
      else if not verdict.allowed
      then (refused exposure_full, e)
      else if not taken.0
      then (refused wallet_taken, e)
      else (pending p, record e { wallets = insert sig.strategy taken.1 e.wallets })

  -- From the signal to the reservation, in the order of the code's guards.
  unfoldable pub begin : Signal W → Selection W → Time → Engine W → Begun W × Engine W
  unfolding reserve_entry book_trades
  begin sig sel now e = elim (lookup sig.symbol e.underlyings) [
    | none ↦ (refused no_underlying, e)
    | some underlying ↦ elim sel.instrument [
      | none ↦ (refused no_instrument, e)
      | some inst ↦
          let trades = book_trades sig.strategy underlying.segment in
          let rest : Begun W × Engine W = elim (lookup sig.strategy e.wallets) [
            | none ↦ (refused no_wallet, e)
            | some w ↦ reserve_entry sig underlying inst sel.premium now w e
          ] in
          if trades then rest else (refused wrong_segment, e)
    ]
  ]

  -- The order that `_handle_signal` builds.
  unfoldable pub entry_intent : String → Pending W → OrderIntent W
  unfolding signal_id
  entry_intent cid p = record {
    strategy = p.signal.strategy;
    instrument = p.instrument;
    side = buy;
    qty = p.qty;
    purpose = entry;
    signal_id = signal_id p.signal;
    client_order_id = cid;
    ref_price = some p.premium;
    limit_price = none;
  }

  -- `f"{sig.signal_id}|ENTRY"`
  abbrev entry_id : Signal W → String
  entry_id sig = concat (signal_id sig) "|ENTRY"

  unfoldable pub place_entry :
      Pending W → Time → Option (Placement W) → Engine W → Reply W × Engine W
  unfolding submit_order entry_intent
  place_entry p now place e = submit_order (entry_intent (entry_id p.signal) p) true now place e
