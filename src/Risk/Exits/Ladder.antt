-- ===== src/Risk/Exits/Ladder.antt =====
-- The rules of the own-ladder books: `_reproject_stop`, `_mark`, the rising line and the rungs.
use kotsin_nse.Prelude.{
  ℕ, zero, suc, ◌+◌, ◌*◌, ◌/◌, Bool, true, false, not, ◌&&◌, ◌||◌, Option, none, some, List, [],
  ◌∷◌, length, leb, ltb, ◌==◌, min, max, if◌then◌else◌, select,
}
use kotsin_nse.Num.{Num, ◌⊕◌, ◌⊖◌, ◌⊗◌, ◌⊘◌, gt, ge, lt, le, truthy, nought, of_nat, max_of, min_of}
use kotsin_nse.Domain.{
  Time, Position, Direction, bullish, bearish, Trigger, unarmed, by_equity, by_option, sl_op, trail,
  target,
}
use kotsin_nse.Market.Session.{minute}
use kotsin_nse.Instrument.Select.{estimate_delta}
use kotsin_nse.Risk.Limits.{
  RiskLimits, ArmMode, immediate, touch, BandExit, through, dwell, sustain,
}
use kotsin_nse.Risk.Exits.Rules.{
  MarketView, Verdict, leave, next, Rule, exit_all, seconds_or_zero, is_some, get_or, positive,
  spread_floor,
}

abbrev pub is_immediate : ArmMode → Bool
is_immediate immediate = true
is_immediate touch = false

abbrev pub is_unarmed : Trigger → Bool
is_unarmed unarmed = true
is_unarmed _ = false

-- `x is None or not (x[0] != bucket)`: the close of an earlier minute than `bucket`.
abbrev pub closed_minute : {W : Type 0} → Option (ℕ × W) → ℕ → Option W
closed_minute none bucket = none
closed_minute (some (m, price)) bucket = if m == bucket then none else some price

abbrev pub take4 {ℓ} : {A : Type ℓ} → List A → List A
take4 (a ∷ b ∷ c ∷ d ∷ rest) = a ∷ b ∷ c ∷ d ∷ []
take4 xs = xs

module _ {W : Type 0} ⦃f : Num W⦄ where
  -- The projected stop, never nearer than the set number of ticks below the entry.
  unfoldable pub projected_stop : RiskLimits W → Position W → W → W
  unfolding max_of min_of estimate_delta
  projected_stop lim p u =
      let delta = f.abs (estimate_delta u p.instrument.strike p.instrument.option_type) in
      let raw = max_of (f.lit 5 2) (p.entry_price ⊖ f.abs (p.equity_entry ⊖ p.equity_sl) ⊗ delta) in
      let tick = if truthy p.instrument.tick_size then p.instrument.tick_size else f.lit 5 2 in
      if lim.min_stop_ticks == 0
      then raw
      else min_of raw (max_of tick (p.entry_price ⊖ of_nat lim.min_stop_ticks ⊗ tick))

  -- `_reproject_stop`
  unfoldable pub reproject_stop : RiskLimits W → MarketView W → Position W → Position W
  unfolding max_of
  reproject_stop lim view p = elim lim.reproject_stop_s [
    | none ↦ p
    | some every ↦ elim view.underlying_ltp [
      | none ↦ p
      | some u ↦
          if le p.equity_sl nought || ltb view.now (p.last_reproject_ts + every)
          then p
          else record p {
            last_reproject_ts = view.now;
            option_sl = f.round 2 (max_of (projected_stop lim p u) p.ratchet_sl);
          }
    ]
  ]

  -- `_mark`
  unfoldable pub mark : RiskLimits W → MarketView W → W → Position W → Position W
  mark lim view mid p =
      if not (is_some lim.peak_giveback_pct) || not view.quote_ok || le mid nought
      then p
      else if lim.own_ladder
      then (if is_some p.armed_ts && gt mid p.peak_mid then record p { peak_mid = mid } else p)
      else if ltb view.now (p.opened_ts + lim.peak_arm_after_s)
      then p
      else if gt mid p.peak_mid
      then record p { peak_mid = mid; trail_dwell = 0 }
      else p

  -- `_tranche`
  unfoldable pub tranche : RiskLimits W → Position W → ℕ
  tranche lim p =
      let lot = max 1 p.instrument.lot_size * max 1 lim.arm_tranche_lots in
      if leb p.qty_remaining lot then p.qty_remaining else min lot p.qty_remaining

  -- `_band_level`
  unfoldable pub band_level : RiskLimits W → MarketView W → Position W → W
  unfolding max_of
  band_level lim view p = elim lim.peak_giveback_pct [
    | none ↦ nought
    | some pct ↦
        let give = pct ⊘ of_nat 100 in
        let wider =
          if truthy lim.giveback_move_frac && positive p.option_edm
          then max_of give (lim.giveback_move_frac ⊗ p.option_edm)
          else give in
        if not (is_some p.armed_ts) || le p.peak_mid nought
        then nought
        else f.round 2 (p.peak_mid ⊗ (of_nat 1 ⊖ spread_floor lim view wider))
  ]

  -- How a breach of the line ends the trade: after `through`, `dwell` or `sustain`.
  unfoldable pub line_breach : BandExit → RiskLimits W → MarketView W → Verdict W → Rule W
  line_breach through lim view done p = (done, p)
  line_breach dwell lim view done p =
      let n = p.trail_dwell + 1 in
      (if ltb n lim.trail_dwell_samples then next else done, record p { trail_dwell = n })
  line_breach sustain lim view done p = elim p.line_breach_since [
    | none ↦ (next, record p { line_breach_since = some view.now })
    | some since ↦ (if ltb view.now (since + seconds_or_zero lim.sustain_s) then next else done, p)
  ]

  -- `_own_hard_stop`
  unfoldable pub own_hard_stop : RiskLimits W → MarketView W → W → Rule W
  unfolding max_of band_level line_breach
  own_hard_stop lim view mid p =
      let band = band_level lim view p in
      let line = max_of p.ratchet_sl band in
      let by_band = gt band p.ratchet_sl in
      let mode =
        if by_band then lim.band_exit else (if lim.post_arm_sustain then sustain else through) in
      let done = exit_all p (if by_band then trail else sl_op) view.option_ltp in
      if not view.quote_ok || le mid nought
      then (next, p)
      else if le line nought || gt mid line
      then (next, record p { line_breach_since = none; trail_dwell = 0 })
      else line_breach mode lim view done p

  -- The ratchet steps to the rung, and the stop is never below it unless it lags.
  unfoldable pub step_ratchet : Bool → W → Position W → Position W
  unfolding max_of
  step_ratchet lag rung p =
      let ratchet = f.round 2 (max_of p.ratchet_sl rung) in
      if lag
      then p
      else record p { ratchet_sl = ratchet; option_sl = f.round 2 (max_of p.option_sl ratchet) }

  -- The first touch under the immediate policy arms the band.
  unfoldable pub arm_now : RiskLimits W → MarketView W → W → Trigger → Position W → Position W
  unfolding max_of
  arm_now lim view mid by p =
      if p.targets_hit == 0
      then (if is_immediate lim.arm_mode
          then record p {
            armed_by = by;
            armed_ts = some view.now;
            peak_mid = max_of p.peak_mid mid;
            trail_dwell = 0;
          }
          else record p { armed_by = by })
      else p

  -- The rung below the next one, and the entry price below the first.
  abbrev pub rung_below : Position W → W
  rung_below p = elim p.targets_hit [
    | zero ↦ p.entry_price
    | suc j ↦ get_or p.option_targets j nought
  ]

  -- `_touch`: a lot out, or the rest on the last rung, and the stop steps to the rung below.
  unfoldable pub touch_rung : RiskLimits W → MarketView W → W → Trigger → Rule W
  unfolding arm_now tranche step_ratchet
  touch_rung lim view mid by p =
      let i = p.targets_hit in
      let is_last = leb (length p.option_targets) (i + 1) in
      let armed = arm_now lim view mid by (step_ratchet false (rung_below p) p) in
      (
        leave (record {
          position_id = p.id;
          reason = target;
          ref_price = view.option_ltp;
          qty = if is_last then p.qty_remaining else tranche lim p;
        }),
        record armed {
          t_touch_ts = if ge mid (get_or p.option_targets i nought) then some view.now else none;
          t_close_ok = false;
        },
      )

  -- The end of a rung's sustain; that of T1 starts the band.
  unfoldable pub complete_sustain : RiskLimits W → MarketView W → W → W → Position W → Position W
  unfolding max_of step_ratchet
  complete_sustain lim view mid rung p =
      let counted = record (step_ratchet lim.sl_lag rung p) { sustained_count = p.targets_hit } in
      if (p.targets_hit == 1) && not (is_some p.armed_ts)
      then record counted {
        armed_ts = some view.now;
        peak_mid = max_of p.peak_mid mid;
        trail_dwell = 0;
      }
      else counted

  -- The clock of a rung runs from its touch, and notes a minute closed at or above it.
  abbrev pub run_clock : MarketView W → Option W → W → Position W → Position W
  run_clock view minute_close rung p = record p {
    t_touch_ts = elim p.t_touch_ts [ none ↦ some view.now | some t ↦ some t ];
    t_close_ok = elim minute_close [
      | none ↦ p.t_close_ok
      | some c ↦ if ge c rung then true else p.t_close_ok
    ];
  }

  -- `_sustain`, on the rung that was touched last.
  unfoldable pub sustain_rung :
      RiskLimits W → MarketView W → W → Option W → W → Position W → Position W
  unfolding complete_sustain
  sustain_rung lim view mid minute_close rung p =
      let q = run_clock view minute_close rung p in
      let since : Time = elim p.t_touch_ts [ none ↦ view.now | some t ↦ t ] in
      if lt mid rung
      then record p { t_touch_ts = none; t_close_ok = false }
      else if leb (since + seconds_or_zero lim.sustain_s) view.now && q.t_close_ok
      then complete_sustain lim view mid rung q
      else q

  unfoldable pub sustain_step : RiskLimits W → MarketView W → W → Option W → Position W → Position W
  unfolding sustain_rung
  sustain_step lim view mid minute_close p = elim p.targets_hit [
    | zero ↦ p
    | suc k ↦
        if leb (suc k) p.sustained_count || leb (length p.option_targets) k || not view.quote_ok
        then p
        else sustain_rung lim view mid minute_close (rung_below p) p
  ]

  abbrev reaches : Direction → W → W → Bool
  reaches bullish u t1 = ge u t1
  reaches bearish u t1 = le u t1

  -- Whether the underlying has touched its own T1.
  unfoldable pub equity_t1_hit : MarketView W → Position W → Bool
  equity_t1_hit view p = elim view.underlying_ltp [
    | none ↦ false
    | some u ↦ elim p.equity_targets [ [] ↦ false | t1 ∷ _ ↦ reaches p.direction u t1 ]
  ]

  unfoldable pub reached : Option W → W → Bool
  reached none level = false
  reached (some c) level = ge c level

  -- The ladder from the price at which the underlying reached its T1.
  abbrev pub rebase : W → Position W → Position W
  rebase ltp p = record p {
    option_targets = take4 (ltp ∷ select (λ r. gt r ltp) p.option_targets);
    option_t1 = ltp;
  }

  -- The part of `_own_ladder` behind the sustain.
  unfoldable pub ladder_touch : RiskLimits W → MarketView W → W → W → Option W → Rule W
  unfolding equity_t1_hit reached touch_rung
  ladder_touch lim view ltp mid minute_close p =
      let i = p.targets_hit in
      let threshold =
        if truthy lim.arm_min_move && truthy p.option_edm
        then p.entry_price ⊗ (of_nat 1 ⊕ lim.arm_min_move ⊗ p.option_edm)
        else nought in
      let first = (i == 0) && is_unarmed p.armed_by in
      if first && positive ltp && equity_t1_hit view p && ge ltp threshold
      then touch_rung lim view mid by_equity (rebase ltp p)
      else if is_immediate lim.arm_mode && first
      then (if positive p.option_t1 && reached minute_close p.option_t1
          then touch_rung lim view mid by_option p
          else (next, p))
      else if positive ltp
          && ltb i (length p.option_targets)
          && ge ltp (get_or p.option_targets i nought)
          && (ltb 0 i || ge ltp threshold)
      then touch_rung lim view mid by_option p
      else (next, p)

  -- The latest print of the minute.
  abbrev pub note_print : MarketView W → Position W → Position W
  note_print view p =
      if positive view.option_ltp
      then record p { last_minute = some (view.now / minute, view.option_ltp) }
      else p

  -- `_own_ladder`
  unfoldable pub own_ladder_rule : RiskLimits W → MarketView W → W → Rule W
  unfolding ladder_touch sustain_step
  own_ladder_rule lim view mid p =
      let ltp = view.option_ltp in
      let bucket = view.now / minute in
      let minute_close = closed_minute p.last_minute bucket in
      ladder_touch lim view ltp mid minute_close
        (sustain_step lim view mid minute_close (note_print view p))
