-- ===== src/Risk/Exits/Backstops.antt =====
-- The backstops of `evaluate`: halt, daily loss, force-flat, time stop, and what comes before them.
use kotsin_nse.Prelude.{◌<◌, ◌≡◌, refl, Bool, true, false, ◌||◌, Option, none, arith, if◌then◌else◌}
use kotsin_nse.Num.{Num, le}
use kotsin_nse.Domain.{Position, opened}
use kotsin_nse.Risk.Limits.{RiskLimits}
use kotsin_nse.Risk.Exits.Rules.{
  MarketView, Verdict, leave, hold, Rule, ◌▹◌, mid_of, positive, is_some, equity_breached,
  hard_floor_below_stop, equity_confirmed_stop, sustain_block, sustained_option_stop, touch_stop,
  equity_stop, legacy_hard_floor, targets_rule, peak_ratchet, backstops,
}
use kotsin_nse.Risk.Exits.Ladder.{
  own_hard_stop, line_breach, own_ladder_rule, ladder_touch, touch_rung,
}
use kotsin_nse.Risk.Exits.Evaluate.{evaluate, prepare, stops, target_rules, trail_rule, rules, when}

abbrev is_hold : {W : Type 0} → Verdict W → Bool
is_hold hold = true
is_hold _ = false

abbrev is_leave : {W : Type 0} → Verdict W → Bool
is_leave (leave d) = true
is_leave _ = false

module _ {W : Type 0} where
  -- A rule that lets the later ones run unless it exits.
  record NeverHolds (r : Rule W) : Type 0 where
    pub never : (p : Position W) → is_hold (r p).0 ≡ false

  record AlwaysLeaves (r : Rule W) : Type 0 where
    pub always : (p : Position W) → is_leave (r p).0 ≡ true

  ▹-NeverHolds : (r s : Rule W) → NeverHolds r → NeverHolds s → NeverHolds (r ▹ s)
  ▹-NeverHolds r s h k = record { never = λ p. ground (arith, h.never p, k.never (r p).1) }

  ▹-AlwaysLeaves : (r s : Rule W) → NeverHolds r → AlwaysLeaves s → AlwaysLeaves (r ▹ s)
  ▹-AlwaysLeaves r s h k = record { always = λ p. ground (arith, h.never p, k.always (r p).1) }

-- A backstop's flag is up.
unfoldable pub at_backstop : {W : Type 0} → MarketView W → Bool
at_backstop view = view.halted || view.daily_loss_hit || view.past_force_flat

module _ {W : Type 0} ⦃f : Num W⦄ (lim : RiskLimits W) (view : MarketView W) where
  own_hard_stop-NeverHolds : (mid : W) → NeverHolds (own_hard_stop lim view mid)
  unfolding own_hard_stop line_breach
  own_hard_stop-NeverHolds mid = record { never = λ p. ground arith }

  when-NeverHolds : (b : Bool) (r : Rule W) → NeverHolds r → NeverHolds (when b r)
  when-NeverHolds true r h = h
  when-NeverHolds false r h = record { never = λ p. refl }

  choice-NeverHolds :
      (b : Bool) (r s : Rule W)
      → NeverHolds r
      → NeverHolds s
      → NeverHolds (λ p. if b then r p else s p)
  choice-NeverHolds true r s h k = h
  choice-NeverHolds false r s h k = k

  ladder_touch-NeverHolds :
      (ltp mid : W) (c : Option W) (p : Position W)
      → is_hold (ladder_touch lim view ltp mid c p).0 ≡ false
  unfolding ladder_touch touch_rung
  ladder_touch-NeverHolds ltp mid c p = ground arith

  own_ladder_rule-NeverHolds : (mid : W) → NeverHolds (own_ladder_rule lim view mid)
  unfolding own_ladder_rule
  own_ladder_rule-NeverHolds mid = record { never = λ p. search (ladder_touch-NeverHolds) }

  targets_rule-NeverHolds : NeverHolds (targets_rule lim view)
  unfolding targets_rule
  targets_rule-NeverHolds = record { never = λ p. ground arith }

  target_rules-NeverHolds : NeverHolds (target_rules lim view)
  unfolding target_rules
  target_rules-NeverHolds =
      choice-NeverHolds lim.own_ladder _ _ (own_ladder_rule-NeverHolds (mid_of view))
        targets_rule-NeverHolds

  hard_floor_below_stop-NeverHolds : (mid : W) → NeverHolds (hard_floor_below_stop lim view mid)
  unfolding hard_floor_below_stop
  hard_floor_below_stop-NeverHolds mid = record { never = λ p. ground arith }

  equity_confirmed_stop-NeverHolds : NeverHolds (equity_confirmed_stop lim view)
  unfolding equity_confirmed_stop
  equity_confirmed_stop-NeverHolds = record { never = λ p. ground arith }

  equity_stop-NeverHolds : NeverHolds (equity_stop view)
  unfolding equity_stop
  equity_stop-NeverHolds = record { never = λ p. ground arith }

  legacy_hard_floor-NeverHolds : NeverHolds (legacy_hard_floor lim view)
  unfolding legacy_hard_floor
  legacy_hard_floor-NeverHolds = record { never = λ p. ground arith }

  peak_ratchet-NeverHolds : NeverHolds (peak_ratchet lim view (mid_of view))
  unfolding peak_ratchet
  peak_ratchet-NeverHolds = record { never = λ p. ground arith }

  trail_rule-NeverHolds : NeverHolds (trail_rule lim view)
  unfolding trail_rule
  trail_rule-NeverHolds = record { never = λ p. refl }

  backstops-AlwaysLeaves : at_backstop view ≡ true → AlwaysLeaves (backstops lim view)
  unfolding backstops at_backstop
  backstops-AlwaysLeaves h = record { always = λ p. ground arith }

  -- Only the sustain policy has rules that hold.
  sustain_block-NeverHolds :
      (mid : W) → lim.sustain_s ≡ none → NeverHolds (sustain_block lim view mid)
  unfolding sustain_block
  sustain_block-NeverHolds mid e = record { never = λ p. ground arith }

  touch_stop-NeverHolds : lim.sustain_s ≡ none → NeverHolds (touch_stop lim view)
  unfolding touch_stop
  touch_stop-NeverHolds e = record { never = λ p. ground arith }

  stops-NeverHolds : lim.sustain_s ≡ none → NeverHolds (stops lim view)
  unfolding stops
  stops-NeverHolds e =
      let mid = mid_of view in
      ▹-NeverHolds _ _ (hard_floor_below_stop-NeverHolds mid) (
        ▹-NeverHolds _ _ (when-NeverHolds lim.own_ladder _ (own_hard_stop-NeverHolds mid)) (
          ▹-NeverHolds _ _ equity_confirmed_stop-NeverHolds (
            ▹-NeverHolds _ _ (sustain_block-NeverHolds mid e) (
              ▹-NeverHolds _ _ (touch_stop-NeverHolds e)
                (▹-NeverHolds _ _ equity_stop-NeverHolds legacy_hard_floor-NeverHolds)))))

  rules-AlwaysLeaves :
      lim.sustain_s ≡ none → at_backstop view ≡ true → AlwaysLeaves (rules lim view)
  unfolding rules
  rules-AlwaysLeaves e b = ▹-AlwaysLeaves _ _ (stops-NeverHolds e) (
      ▹-AlwaysLeaves _ _ target_rules-NeverHolds (
        ▹-AlwaysLeaves _ _ peak_ratchet-NeverHolds
          (▹-AlwaysLeaves _ _ trail_rule-NeverHolds (backstops-AlwaysLeaves b))))

  -- Without a sustain policy, an open position with something left is told to exit whenever the
  -- engine is halted, the daily loss limit is hit or its segment is past the force-flat, whatever
  -- the quotes, the stops and the state of the ladder are.
  pub backstop_exits :
      (p : Position W)
      → lim.sustain_s ≡ none
      → p.status ≡ opened
      → 0 < p.qty_remaining
      → at_backstop view ≡ true
      → is_some (evaluate lim view p).0 ≡ true
  unfolding evaluate
  backstop_exits p e o h b = ground (arith, (rules-AlwaysLeaves e b).always (prepare lim view p))

  stale_stops_hold :
      (p : Position W)
      → is_some lim.sustain_s ≡ true
      → view.quote_ok ≡ false
      → positive (mid_of view) ≡ true
      → positive p.option_sl ≡ true
      → le (mid_of view) p.option_sl ≡ true
      → equity_breached p view ≡ false
      → (stops lim view p).0 ≡ hold
  unfolding stops hard_floor_below_stop own_hard_stop equity_confirmed_stop sustain_block
      sustained_option_stop
  stale_stops_hold p s q m o b e = ground arith

  -- Under a sustain policy, while the quote is not good and the view's mid, that of the old quote where
  -- it is above 0 and else the last price, is above 0 and at or below the stop as it is re-projected for
  -- this evaluation, which is above 0 and which the underlying has not confirmed, `evaluate` returns no
  -- exit, and so also when
  -- the engine is halted, past the daily loss limit or past the force-flat.
  pub stale_breach_holds :
      (p : Position W)
      → is_some lim.sustain_s ≡ true
      → view.quote_ok ≡ false
      → positive (mid_of view) ≡ true
      → positive (prepare lim view p).option_sl ≡ true
      → le (mid_of view) (prepare lim view p).option_sl ≡ true
      → equity_breached (prepare lim view p) view ≡ false
      → (evaluate lim view p).0 ≡ none
  unfolding evaluate rules
  stale_breach_holds p s q m o b e =
      ground (arith, stale_stops_hold (prepare lim view p) s q m o b e)
