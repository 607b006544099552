-- ===== src/Risk/Exits/Evaluate.antt =====
-- `ExitEngine.evaluate`, `apply_exit` and `replay_gap`.
use kotsin_nse.Prelude.{
  ℕ, ◌+◌, ◌-◌, Bool, true, false, not, ◌||◌, Option, none, some, List, [], ◌∷◌, leb, ◌==◌, min,
  if◌then◌else◌,
}
use kotsin_nse.Num.{Num, ◌⊕◌, ◌⊖◌, ◌⊗◌, gt, le, nought, of_nat}
use kotsin_nse.Domain.{
  Time, Position, is_opened, closed, ExitReason, target, sl_op, ExitDecision, dir_sign,
}
use kotsin_nse.Risk.Limits.{RiskLimits}
use kotsin_nse.Risk.Exits.Rules.{
  MarketView, Verdict, leave, next, Rule, ◌▹◌, positive, mid_of, track, hard_floor_below_stop,
  equity_confirmed_stop, sustain_block, touch_stop, equity_stop, legacy_hard_floor, targets_rule,
  trail_stop, peak_ratchet, backstops, exit_all,
}
use kotsin_nse.Risk.Exits.Ladder.{reproject_stop, mark, own_hard_stop, own_ladder_rule}

abbrev pub decision_of : {W : Type 0} → Verdict W → Option (ExitDecision W)
decision_of (leave d) = some d
decision_of _ = none

abbrev is_target : ExitReason → Bool
is_target target = true
is_target _ = false

module _ {W : Type 0} ⦃f : Num W⦄ where
  abbrev pub when : Bool → Rule W → Rule W
  when b r p = if b then r p else (next, p)

  -- `if ltp > 0: self._track(pos, ltp)`
  unfoldable pub track_print : MarketView W → Position W → Position W
  track_print view p = if positive view.option_ltp then track view.option_ltp p else p

  -- What `evaluate` does to the position before the rules.
  unfoldable pub prepare : RiskLimits W → MarketView W → Position W → Position W
  unfolding track_print
  prepare lim view p = mark lim view (mid_of view) (reproject_stop lim view (track_print view p))

  unfoldable pub stops : RiskLimits W → MarketView W → Rule W
  stops lim view =
      let mid = mid_of view in
      hard_floor_below_stop lim view mid
      ▹ when lim.own_ladder (own_hard_stop lim view mid)
      ▹ equity_confirmed_stop lim view
      ▹ sustain_block lim view mid
      ▹ touch_stop lim view
      ▹ equity_stop view
      ▹ legacy_hard_floor lim view

  unfoldable pub target_rules : RiskLimits W → MarketView W → Rule W
  target_rules lim view p =
      if lim.own_ladder then own_ladder_rule lim view (mid_of view) p else targets_rule lim view p

  -- The base book's trail, which never ends the evaluation.
  unfoldable pub trail_rule : RiskLimits W → MarketView W → Rule W
  trail_rule lim view p = (next, if lim.own_ladder then p else trail_stop lim view.option_ltp p)

  unfoldable pub rules : RiskLimits W → MarketView W → Rule W
  unfolding stops target_rules trail_rule
  rules lim view =
      stops lim view
      ▹ target_rules lim view
      ▹ peak_ratchet lim view (mid_of view)
      ▹ trail_rule lim view
      ▹ backstops lim view

  unfoldable pub evaluate :
      RiskLimits W → MarketView W → Position W → Option (ExitDecision W) × Position W
  unfolding rules prepare
  evaluate lim view p =
      let out = rules lim view (prepare lim view p) in
      if not (is_opened p.status) || p.qty_remaining == 0
      then (none, p)
      else (decision_of out.0, out.1)

  -- `apply_exit`: the gross result of the slice, and the position.
  unfoldable pub apply_exit : ExitDecision W → W → W → Time → Position W → W × Position W
  unfolding dir_sign
  apply_exit d fill_price charges now p =
      let qty = min d.qty p.qty_remaining in
      let gross =
        (fill_price ⊖ p.entry_price)
        ⊗ f.of_int (dir_sign p)
        ⊗ of_nat qty
        ⊗ of_nat p.instrument.multiplier in
      let booked = record p {
        qty_remaining = p.qty_remaining - qty;
        charges = p.charges ⊕ charges;
        targets_hit = if is_target d.reason then p.targets_hit + 1 else p.targets_hit;
      } in
      (
        gross,
        if p.qty_remaining - qty == 0
            then record booked {
              status = closed;
              closed_ts = some now;
              exit_price = some fill_price;
              exit_reason = some d.reason;
            }
            else booked,
      )

  -- The loop of `replay_gap`, over candles in order of time.
  replay_from : ℕ → List (Time × W) → Position W → Option (ExitDecision W) × Position W
  replay_from sustain_s [] p = (none, p)
  replay_from sustain_s ((ts, close) ∷ rest) p =
      let skipped = replay_from sustain_s rest p in
      let cleared = replay_from sustain_s rest (record p { breach_since = none }) in
      let started = replay_from sustain_s rest (record p { breach_since = some ts }) in
      if le close nought || le p.option_sl nought
      then skipped
      else if gt close p.option_sl
      then cleared
      else elim p.breach_since [
        | none ↦ started
        | some since ↦
            if leb (since + sustain_s) ts
            then (decision_of (exit_all p sl_op close), p)
            else skipped
      ]

  -- `replay_gap`; the candles are given oldest first.
  unfoldable pub replay_gap :
      RiskLimits W → List (Time × W) → Position W → Option (ExitDecision W) × Position W
  unfolding replay_from
  replay_gap lim candles p = elim lim.sustain_s [
    | none ↦ (none, p)
    | some s ↦ replay_from s candles p
  ]
