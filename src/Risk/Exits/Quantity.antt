-- ===== src/Risk/Exits/Quantity.antt =====
-- What an exit sells: never nothing, never more than is left; rules leave the bookkeeping alone.
pub mod Books
use kotsin_nse.Prelude.{◌/◌, ◌≤◌, ◌<◌, max, ◌≡◌, Option, some, arith}
use native.Mathlib.Nat.{mul-pos}
use kotsin_nse.Num.{Num, nought}
use kotsin_nse.Domain.{Position, ExitDecision, opened, Trigger, by_equity, by_option}
use kotsin_nse.Market.Session.{minute}
use kotsin_nse.Risk.Limits.{RiskLimits}
use kotsin_nse.Risk.Exits.Rules.{MarketView, Verdict, ◌▹◌, mid_of, track}
use kotsin_nse.Risk.Exits.Ladder.{
  tranche, reproject_stop, mark, own_ladder_rule, rebase, note_print, closed_minute, touch_rung,
  sustain_step, ladder_touch, sustain_rung, arm_now, complete_sustain,
}
use kotsin_nse.Risk.Exits.Evaluate.{evaluate, prepare, track_print, stops, target_rules, rules}
use kotsin_nse.Risk.Exits.Quantity.Books.{
  ▹-IsSound, SameBook, Sells, SameBook-refl, SameBook-trans, IsSound, when-IsSound,
  hard_floor_below_stop-IsSound, own_hard_stop-IsSound, equity_confirmed_stop-IsSound,
  sustain_block-IsSound, touch_stop-IsSound, equity_stop-IsSound, legacy_hard_floor-IsSound,
  targets_rule-IsSound, peak_ratchet-IsSound, trail_rule-IsSound, backstops-IsSound,
}

module _ {W : Type 0} ⦃f : Num W⦄ (lim : RiskLimits W) (view : MarketView W) where
  tranche_lem :
      (p : Position W)
      → 0 < p.qty_remaining
      → (0 < tranche lim p) × (tranche lim p ≤ p.qty_remaining)
  unfolding tranche
  tranche_lem p h = ground (
    arith,
    mul-pos {m = max 1 p.instrument.lot_size} {n = max 1 lim.arm_tranche_lots} (ground arith)
        (ground arith),
  )

  SameBook-arm_now :
      (mid : W) (by : Trigger) (p : Position W) → SameBook p (arm_now lim view mid by p)
  unfolding arm_now
  SameBook-arm_now mid by p = ground arith

  touch_rung-IsSound : (mid : W) (by : Trigger) → IsSound (touch_rung lim view mid by)
  unfolding touch_rung
  touch_rung-IsSound mid by = record {
    book = λ p. ground (arith, SameBook-arm_now mid by p);
    sells = λ p h. ground (arith, tranche_lem p h);
  }

  SameBook-sustain_step :
      (mid : W) (c : Option W) (p : Position W) → SameBook p (sustain_step lim view mid c p)
  unfolding sustain_step sustain_rung complete_sustain
  SameBook-sustain_step mid c p = ground arith

  SameBook-track_print : (p : Position W) → SameBook p (track_print view p)
  unfolding track_print track
  SameBook-track_print p = ground arith

  SameBook-reproject_stop : (p : Position W) → SameBook p (reproject_stop lim view p)
  unfolding reproject_stop
  SameBook-reproject_stop p = ground arith

  SameBook-mark : (mid : W) (p : Position W) → SameBook p (mark lim view mid p)
  unfolding mark
  SameBook-mark mid p = ground arith

  pub SameBook-prepare : (p : Position W) → SameBook p (prepare lim view p)
  unfolding prepare
  SameBook-prepare p =
      let tracked = track_print view p in
      let projected = reproject_stop lim view tracked in
      SameBook-trans (SameBook-track_print p)
        (SameBook-trans (SameBook-reproject_stop tracked) (SameBook-mark (mid_of view) projected))

  -- What a rule's outcome at `p` is held to.
  abbrev IsFine : Position W → Verdict W × Position W → Type 0
  IsFine p out = SameBook p out.1 × (0 < p.qty_remaining → Sells p.qty_remaining out.0)

  -- A rung's touch, after a change that leaves the book alone.
  touch_rung-IsFine :
      (mid : W) (by : Trigger) (p q : Position W)
      → SameBook p q
      → IsFine p (touch_rung lim view mid by q)
  touch_rung-IsFine mid by p q e = (
    SameBook-trans e ((touch_rung-IsSound mid by).book q),
    ground (arith, e, (touch_rung-IsSound mid by).sells q),
  )

  ladder_touch-IsFine :
      (ltp mid : W) (c : Option W) (p : Position W) → IsFine p (ladder_touch lim view ltp mid c p)
  unfolding ladder_touch
  ladder_touch-IsFine ltp mid c p = ground (
    arith,
    touch_rung-IsFine mid by_equity p (rebase ltp p) (ground arith),
    touch_rung-IsFine mid by_option p p (SameBook-refl p),
  )

  own_ladder_rule-IsSound : (mid : W) → IsSound (own_ladder_rule lim view mid)
  unfolding own_ladder_rule
  own_ladder_rule-IsSound mid = record {
    book = λ p. (behind p).0;
    sells = λ p h. ground (arith, SameBook-before p, (behind p).1);
  }
    where
      close : Position W → Option W
      close p = closed_minute p.last_minute (view.now / minute)

      before : Position W → Position W
      before p = sustain_step lim view mid (close p) (note_print view p)

      SameBook-before : (p : Position W) → SameBook p (before p)
      SameBook-before p =
          SameBook-trans (ground arith) (SameBook-sustain_step mid (close p) (note_print view p))

      behind :
          (p : Position W)
          → IsFine p (ladder_touch lim view view.option_ltp mid (close p) (before p))
      behind p =
          ground
            (arith, SameBook-before p, ladder_touch-IsFine view.option_ltp mid (close p) (before p))

  target_rules-IsSound : IsSound (target_rules lim view)
  unfolding target_rules
  target_rules-IsSound = record {
    book = λ p. ground (
      arith,
      (own_ladder_rule-IsSound (mid_of view)).book p,
      (targets_rule-IsSound lim view nought).book p,
    );
    sells = λ p h. ground (
      arith,
      (own_ladder_rule-IsSound (mid_of view)).sells p,
      (targets_rule-IsSound lim view nought).sells p,
    );
  }

  stops-IsSound : IsSound (stops lim view)
  unfolding stops
  stops-IsSound =
      let mid = mid_of view in
      ▹-IsSound _ _ (hard_floor_below_stop-IsSound lim view mid) (
        ▹-IsSound _ _ (when-IsSound lim.own_ladder _ (own_hard_stop-IsSound lim view mid)) (
          ▹-IsSound _ _ (equity_confirmed_stop-IsSound lim view mid) (
            ▹-IsSound _ _ (sustain_block-IsSound lim view mid) (
              ▹-IsSound _ _ (touch_stop-IsSound lim view mid) (
                ▹-IsSound _ _ (equity_stop-IsSound lim view mid)
                  (legacy_hard_floor-IsSound lim view mid))))))

  pub rules-IsSound : IsSound (rules lim view)
  unfolding rules
  rules-IsSound =
      let mid = mid_of view in
      ▹-IsSound _ _ stops-IsSound (
        ▹-IsSound _ _ target_rules-IsSound (
          ▹-IsSound _ _ (peak_ratchet-IsSound lim view mid)
            (▹-IsSound _ _ (trail_rule-IsSound lim view mid) (backstops-IsSound lim view mid))))

  -- An exit that `evaluate` decides is of an open position, sells at least one unit and no more than
  -- is left, and deciding it changes neither what the position holds, for which book and at which price,
  -- nor the quantities, nor the status, nor the rungs hit.
  pub evaluate_quantity :
      (p : Position W) (d : ExitDecision W)
      → (evaluate lim view p).0 ≡ some d
      → (0 < d.qty)
        × (d.qty ≤ p.qty_remaining)
        × (p.status ≡ opened)
        × SameBook p (evaluate lim view p).1
  unfolding evaluate
  evaluate_quantity p d e = ground (
    arith,
    SameBook-prepare p,
    rules-IsSound.book (prepare lim view p),
    rules-IsSound.sells (prepare lim view p),
  )

  pub evaluate_book : (p : Position W) → SameBook p (evaluate lim view p).1
  unfolding evaluate
  evaluate_book p =
      ground (arith, SameBook-refl p, SameBook-prepare p, rules-IsSound.book (prepare lim view p))
