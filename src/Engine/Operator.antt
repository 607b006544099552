-- ===== src/Engine/Operator.antt =====
-- The operator's calls on a book: `operator_skip` and `reset_wallet` of backend/kotsin_nse/engine.py,
-- and `INITIAL_INR` of backend/kotsin_nse/strategy/keys.py. None of them is the call's exception.
use kotsin_nse.Prelude.{
  String, Bool, false, ◌&&◌, ◌||◌, Option, none, some, List, [], ◌∷◌, if◌then◌else◌,
}
use kotsin_nse.Prelude.Strings.{str_eq}
use kotsin_nse.Prelude.Dict.{Dict, lookup, insert, values}
use kotsin_nse.Num.{Num, of_nat, truthy}
use kotsin_nse.Domain.{Time, ExitDecision, manual, Position}
use kotsin_nse.Risk.Wallet.{new_wallet}
use kotsin_nse.Risk.Exposure.{is_mine}
use kotsin_nse.Exec.Gateway.{Placement}
use kotsin_nse.Engine.State.{Engine}
use kotsin_nse.Engine.Exit.{exit_position}

-- `next((x for x in xs if p(x)), None)`
unfoldable pub find : {A : Type 0} → (A → Bool) → List A → Option A
find p [] = none
find p (x ∷ xs) = let later = find p xs in if p x then some x else later

-- `a or b`, for a number that may be missing
abbrev or_price : {W : Type 0} ⦃f : Num W⦄ → Option W → W → W
or_price none y = y
or_price (some x) y = if truthy x then x else y

module _ {W : Type 0} ⦃f : Num W⦄ where
  -- The position of a trigger, or of a signal that was derived from it; `sources` are the sources of the
  -- day's signals.
  unfoldable pub of_trigger : Dict String → String → String → Position W → Bool
  unfolding is_mine
  of_trigger sources book signal_id p =
      let derived : Bool = elim (lookup p.signal_id sources) [
        | none ↦ false
        | some source ↦ str_eq source signal_id
      ] in
      is_mine book p && (str_eq p.signal_id signal_id || derived)

  -- `operator_skip`; `marked` is the mid that the exit loop published for the position.
  unfoldable pub operator_skip :
      Dict String
      → Dict W
      → String
      → String
      → Time
      → Option (Placement W)
      → Engine W
      → Option (Engine W)
  unfolding find of_trigger exit_position
  operator_skip sources marked book signal_id now place e =
      elim (find (of_trigger sources book signal_id) (values e.positions)) [
        | none ↦ none
        | some p ↦
            let print = or_price (lookup p.instrument.scrip_code e.ltps) p.entry_price in
            let d : ExitDecision W = record {
              position_id = p.id;
              reason = manual;
              ref_price = or_price (lookup p.id marked) print;
              qty = p.qty_remaining;
            } in
            some (exit_position p d now place e)
      ]

  -- `INITIAL_INR.get(strategy, paper_initial_inr)`
  unfoldable pub initial_of : String → W → W
  initial_of strategy paper_initial =
      if str_eq strategy "FUDKII_RT_MCX" then of_nat 3_000_000 else paper_initial

  -- `reset_wallet`
  unfoldable pub reset_wallet : String → Option W → W → Time → Engine W → Option (Engine W)
  unfolding find initial_of is_mine new_wallet
  reset_wallet strategy initial paper_initial now e =
      let fresh = new_wallet strategy (or_price initial (initial_of strategy paper_initial)) now in
      let reset : Engine W = record e { wallets = insert strategy fresh e.wallets } in
      elim (lookup strategy e.wallets) [
        | none ↦ none
        | some old ↦ elim (find (is_mine strategy) (values e.positions)) [
          | some p ↦ none
          | none ↦ some reset
        ]
      ]
