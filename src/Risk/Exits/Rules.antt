-- ===== src/Risk/Exits/Rules.antt =====
-- The rules of `ExitEngine` that both exit policies share, and those of the base book.
use kotsin_nse.Prelude.{
  ℕ, zero, suc, ◌+◌, ◌*◌, ◌/◌, Bool, true, false, not, ◌&&◌, ◌||◌, Option, none, some, List, [],
  ◌∷◌, length, leb, ltb, ◌==◌, min, if◌then◌else◌,
}
use kotsin_nse.Prelude.Int.{pos_part}
use kotsin_nse.Num.{Num, ◌⊕◌, ◌⊖◌, ◌⊗◌, ◌⊘◌, gt, ge, le, truthy, nought, of_nat, max_of, min_of}
use kotsin_nse.Domain.{
  Time, Position, Direction, bullish, bearish, ExitReason, sl_op, sl_eq, trail, target, halt,
  daily_loss, eod, time_stop, ExitDecision, r_now, qty_step,
}
use kotsin_nse.Risk.Limits.{RiskLimits}

pub record MarketView (W : Type 0) : Type 0 where
  pub option_ltp : W
  pub underlying_ltp : Option W
  pub now : Time
  pub bars_held : ℕ
  pub past_force_flat : Bool
  pub halted : Bool
  pub daily_loss_hit : Bool
  pub option_mid : Option W
  pub spread_pct : Option W
  pub quote_ok : Bool

-- How a rule leaves `evaluate`: with an exit, with `return None`, or not at all.
pub data Verdict (W : Type 0) : Type 0 where
  leave : ExitDecision W → Verdict W
  hold next : Verdict W

abbrev pub Rule : Type 0 → Type 0
Rule W = Position W → Verdict W × Position W

-- `lim.sustain_s or 0`
abbrev pub seconds_or_zero : Option ℕ → ℕ
seconds_or_zero none = 0
seconds_or_zero (some s) = s

abbrev pub is_some : {A : Type 0} → Option A → Bool
is_some none = false
is_some (some _) = true

module _ {W : Type 0} where
  -- The second rule runs only if the first does not end the evaluation.
  infixr 20 ◌▹◌
  abbrev pub ◌▹◌ : Rule W → Rule W → Rule W
  ◌▹◌ r s p = elim (r p).0 [
    | leave d ↦ (leave d, (r p).1)
    | hold ↦ (hold, (r p).1)
    | next ↦ s (r p).1
  ]

  abbrev pub exit_all : Position W → ExitReason → W → Verdict W
  exit_all p reason price =
      leave
        (record { position_id = p.id; reason = reason; ref_price = price; qty = p.qty_remaining })

-- `xs[i] if i < len(xs) else d`
abbrev pub get_or {ℓ} : {A : Type ℓ} → List A → ℕ → A → A
get_or [] i d = d
get_or (x ∷ xs) zero d = x
get_or (x ∷ xs) (suc i) d = get_or xs i d

module _ {W : Type 0} ⦃f : Num W⦄ where
  abbrev pub positive : W → Bool
  positive x = gt x nought

  -- `view.option_mid if view.option_mid and view.option_mid > 0 else ltp`
  abbrev pub mid_of : MarketView W → W
  mid_of view = elim view.option_mid [
    | none ↦ view.option_ltp
    | some m ↦ if truthy m && positive m then m else view.option_ltp
  ]

  -- `_track`
  unfoldable pub track : W → Position W → Position W
  unfolding r_now max_of min_of
  track ltp p =
      let r = r_now p ltp in
      record p { mfe_r = max_of p.mfe_r r; mae_r = min_of p.mae_r r; peak_r = max_of p.peak_r r }

  -- `view.underlying_ltp <= pos.equity_sl` for a bullish position, `>=` for a bearish one.
  abbrev through_stop : Direction → W → W → Bool
  through_stop bullish ltp sl = le ltp sl
  through_stop bearish ltp sl = ge ltp sl

  -- `_equity_breached`
  unfoldable pub equity_breached : Position W → MarketView W → Bool
  equity_breached p view = elim view.underlying_ltp [
    | none ↦ false
    | some u ↦ positive p.equity_sl && through_stop p.direction u p.equity_sl
  ]

  -- `_sustained_option_stop`
  unfoldable pub sustained_option_stop : RiskLimits W → MarketView W → W → Rule W
  sustained_option_stop lim view mid p =
      if not view.quote_ok
      then (next, p)
      else if gt mid p.option_sl
      then (next, record p { breach_since = none })
      else elim p.breach_since [
        | none ↦ (next, record p { breach_since = some view.now })
        | some since ↦
            if ltb view.now (since + seconds_or_zero lim.sustain_s)
            then (next, p)
            else (exit_all p sl_op view.option_ltp, p)
      ]

  -- Step 0 of `evaluate`.
  unfoldable pub hard_floor_below_stop : RiskLimits W → MarketView W → W → Rule W
  hard_floor_below_stop lim view mid p =
      let floor = p.option_sl ⊗ (of_nat 1 ⊖ lim.hard_floor_below_stop_pct ⊘ of_nat 100) in
      if is_some lim.sustain_s
        && view.quote_ok
        && positive mid
        && positive p.option_sl
        && le mid floor
      then (exit_all p sl_op view.option_ltp, p)
      else (next, p)

  -- An equity breach ends the grace of the sustain policy.
  unfoldable pub equity_confirmed_stop : RiskLimits W → MarketView W → Rule W
  unfolding equity_breached
  equity_confirmed_stop lim view p =
      if is_some lim.sustain_s && equity_breached p view
      then (exit_all p sl_eq view.option_ltp, p)
      else (next, p)

  -- The option-side stop under the sustain policy: a breach that is not sustained holds.
  unfoldable pub sustain_block : RiskLimits W → MarketView W → W → Rule W
  unfolding sustained_option_stop
  sustain_block lim view mid p =
      let out = sustained_option_stop lim view mid p in
      if is_some lim.sustain_s && positive mid && positive p.option_sl
      then elim out.0 [
        | leave d ↦ (leave d, out.1)
        | _ ↦ (if le mid out.1.option_sl then hold else next, out.1)
      ]
      else (next, p)

  -- The plain touch, which a sustain policy never takes.
  unfoldable pub touch_stop : RiskLimits W → MarketView W → Rule W
  touch_stop lim view p =
      if positive view.option_ltp && positive p.option_sl && le view.option_ltp p.option_sl
      then (if is_some lim.sustain_s then hold else exit_all p sl_op view.option_ltp, p)
      else (next, p)

  unfoldable pub equity_stop : MarketView W → Rule W
  unfolding equity_breached
  equity_stop view p =
      if equity_breached p view then (exit_all p sl_eq view.option_ltp, p) else (next, p)

  -- The base book's give-back of a peak.
  unfoldable pub legacy_hard_floor : RiskLimits W → MarketView W → Rule W
  legacy_hard_floor lim view p =
      let ltp = view.option_ltp in
      let peak_price = p.entry_price ⊕ p.peak_r ⊗ p.r_unit in
      let floor_price =
        p.entry_price
        ⊕ (peak_price ⊖ p.entry_price) ⊗ (of_nat 1 ⊖ lim.hard_floor_pct ⊘ of_nat 100) in
      if not lim.own_ladder
        && positive p.peak_r
        && positive ltp
        && (gt peak_price p.entry_price
            && (le ltp floor_price && le floor_price peak_price)
            && ge p.peak_r (of_nat 1))
      then (exit_all p trail ltp, p)
      else (next, p)

  -- `_ladder_qty`; a negative share of the quantity counts as none.
  unfoldable pub ladder_qty : Position W → W → ℕ
  unfolding qty_step
  ladder_qty p share =
      let step = qty_step p.instrument in
      let raw = pos_part (f.trunc (of_nat p.qty ⊗ share)) in
      let want = if ltb 1 step then raw / step * step else raw in
      if le share nought
      then 0
      else if (p.targets_hit + 1 == length p.option_targets) || want == 0
      then p.qty_remaining
      else min want p.qty_remaining

  -- The target ladder of the base book.
  unfoldable pub targets_rule : RiskLimits W → MarketView W → Rule W
  unfolding ladder_qty
  targets_rule lim view p =
      let ltp = view.option_ltp in
      let level = get_or p.option_targets p.targets_hit nought in
      let qty = ladder_qty p (get_or lim.target_ladder p.targets_hit nought) in
      if positive ltp
        && ltb p.targets_hit (length p.option_targets)
        && (positive level && ge ltp level)
        && ltb 0 qty
      then (leave (record { position_id = p.id; reason = target; ref_price = ltp; qty = qty }), p)
      else (next, p)

  -- The stop that `_trail` proposes.
  unfoldable pub trail_target : RiskLimits W → W → Position W → W
  unfolding max_of
  trail_target lim ltp p =
      let breakeven =
        if lim.breakeven_after_t1 && leb 1 p.targets_hit
        then max_of p.option_sl p.entry_price
        else p.option_sl in
      let gain_pct =
        if positive p.entry_price
        then (ltp ⊖ p.entry_price) ⊘ p.entry_price ⊗ of_nat 100
        else nought in
      let peak_price = p.entry_price ⊕ p.peak_r ⊗ p.r_unit in
      let giveback = (peak_price ⊖ p.entry_price) ⊗ lim.trail_giveback_pct ⊘ of_nat 100 in
      if ge gain_pct lim.trail_arm_pct then max_of breakeven (peak_price ⊖ giveback) else breakeven

  -- `if new_stop > pos.option_sl: pos.option_sl = round(new_stop, 2)`
  unfoldable pub raise_stop : W → Position W → Position W
  raise_stop n p = if gt n p.option_sl then record p { option_sl = f.round 2 n } else p

  -- `_trail`
  unfoldable pub trail_stop : RiskLimits W → W → Position W → Position W
  unfolding raise_stop trail_target
  trail_stop lim ltp p =
      if le ltp nought || le p.r_unit nought then p else raise_stop (trail_target lim ltp p) p

  -- `give`: the give-back, floored by the live spread.
  abbrev pub spread_floor : RiskLimits W → MarketView W → W → W
  spread_floor lim view give = elim view.spread_pct [
    | none ↦ give
    | some s ↦ if truthy s then max_of give (s ⊗ lim.peak_giveback_spread_mult) else give
  ]

  -- `_peak_ratchet`
  unfoldable pub peak_ratchet : RiskLimits W → MarketView W → W → Rule W
  unfolding max_of
  peak_ratchet lim view mid p = elim lim.peak_giveback_pct [
    | none ↦ (next, p)
    | some pct ↦
        let level = p.peak_mid ⊗ (of_nat 1 ⊖ spread_floor lim view (pct ⊘ of_nat 100)) in
        let dwell = p.trail_dwell + 1 in
        if not view.quote_ok
          || le p.peak_mid nought
          || le mid nought
          || lim.own_ladder
          || p.targets_hit == 0
        then (next, p)
        else if gt mid level
        then (next, record p { trail_dwell = 0 })
        else (
          if ltb dwell lim.trail_dwell_samples then next else exit_all p trail view.option_ltp,
          record p { trail_dwell = dwell },
        )
  ]

  -- Step 5 of `evaluate`.
  unfoldable pub backstops : RiskLimits W → MarketView W → Rule W
  backstops lim view p =
      let ltp = view.option_ltp in
      (
        if view.halted
            then exit_all p halt ltp
            else if view.daily_loss_hit
            then exit_all p daily_loss ltp
            else if view.past_force_flat
            then exit_all p eod ltp
            else elim lim.time_stop_bars [
              | none ↦ next
              | some bars ↦ if leb bars view.bars_held then exit_all p time_stop ltp else next
            ],
        p,
      )
