-- ===== src/Risk/Exits/Stops/Climbs.antt =====
-- Which way a rule moves the stop and the ratchet of a position; the trailing rule is the first case.
use kotsin_nse.Prelude.{◌≡◌, refl, Bool, true, false, arith, Bool-cases, inl, inr, if◌then◌else◌}
use kotsin_nse.Num.{Num, max_of}
use kotsin_nse.Num.Laws.{◌≼◌, IsOrdered, le-max_left, le-max_right}
use kotsin_nse.Domain.{Position}
use kotsin_nse.Risk.Limits.{RiskLimits}
use kotsin_nse.Risk.Exits.Rules.{MarketView, Rule, ◌▹◌, trail_stop, raise_stop}
use kotsin_nse.Risk.Exits.Evaluate.{trail_rule}

module _ {W : Type 0} ⦃f : Num W⦄ where
  -- Both levels are whole hundredths.
  pub record IsRounded (p : Position W) : Type 0 where
    pub stop : f.round 2 p.option_sl ≡ p.option_sl
    pub ratchet : f.round 2 p.ratchet_sl ≡ p.ratchet_sl

  pub record KeepsStops (p q : Position W) : Type 0 where
    pub stop : q.option_sl ≡ p.option_sl
    pub ratchet : q.ratchet_sl ≡ p.ratchet_sl

  -- No level falls, and a stop at or above the ratchet stays so.
  pub record Climbs (p q : Position W) : Type 0 where
    pub rounded : IsRounded q
    pub stop : p.option_sl ≼ q.option_sl
    pub ratchet : p.ratchet_sl ≼ q.ratchet_sl
    pub above : p.ratchet_sl ≼ p.option_sl → q.ratchet_sl ≼ q.option_sl

  -- A rule under which no level falls.
  pub record Lifts (r : Rule W) : Type 0 where
    pub lifts : (p : Position W) → IsRounded p → Climbs p (r p).1

  module _ (laws : IsOrdered W) where
    open laws use {le_refl, le_trans, le_of_lt, round_mono, round-round}

    pub Climbs-of_KeepsStops : (p q : Position W) → KeepsStops p q → IsRounded p → Climbs p q
    Climbs-of_KeepsStops p q k h = record {
      rounded = ground (arith, k, h);
      stop = ground (arith, k, le_refl p.option_sl);
      ratchet = ground (arith, k, le_refl p.ratchet_sl);
      above = ground (arith, k);
    }

    pub Climbs-trans : (p q r : Position W) → Climbs p q → Climbs q r → Climbs p r
    Climbs-trans p q r h k = record {
      rounded = k.rounded;
      stop = le_trans _ _ _ h.stop k.stop;
      ratchet = le_trans _ _ _ h.ratchet k.ratchet;
      above = λ a. k.above (h.above a);
    }

    pub ▹-Lifts : (r s : Rule W) → Lifts r → Lifts s → Lifts (r ▹ s)
    ▹-Lifts r s h k = record {
      lifts = λ p e.
          let a = h.lifts p e in
          let b = Climbs-trans p _ _ a (k.lifts (r p).1 a.rounded) in ground arith;
    }

    pub choice-Lifts :
        (b : Bool) (r s : Rule W) → Lifts r → Lifts s → Lifts (λ p. if b then r p else s p)
    choice-Lifts true r s h k = h
    choice-Lifts false r s h k = k

    pub Lifts-of_KeepsStops : (r : Rule W) → ((p : Position W) → KeepsStops p (r p).1) → Lifts r
    Lifts-of_KeepsStops r h = record { lifts = λ p e. Climbs-of_KeepsStops p (r p).1 (h p) e }

    -- A level rounded after a maximum with a rounded one is no lower than it.
    round-max : (x y : W) → f.round 2 x ≡ x → x ≼ f.round 2 (max_of x y)
    round-max x y e = ground (arith, e, round_mono 2 x (max_of x y) (le-max_left laws x y))

    -- The stop and the ratchet that a rung leaves behind.
    pub raised-Climbs :
        (level : W) (p q : Position W)
        → IsRounded p
        → q.ratchet_sl ≡ f.round 2 (max_of p.ratchet_sl level)
        → q.option_sl ≡ f.round 2 (max_of p.option_sl q.ratchet_sl)
        → Climbs p q
    raised-Climbs level p q h r s = record {
      rounded = record {
        stop = ground (arith, s, round-round 2 (max_of p.option_sl q.ratchet_sl));
        ratchet = ground (arith, r, round-round 2 (max_of p.ratchet_sl level));
      };
      stop = ground (arith, s, round-max p.option_sl q.ratchet_sl h.stop);
      ratchet = ground (arith, r, round-max p.ratchet_sl level h.ratchet);
      above = λ a. ground (
        arith,
        r,
        s,
        round-round 2 (max_of p.ratchet_sl level),
        round_mono 2 q.ratchet_sl (max_of p.option_sl q.ratchet_sl)
            (le-max_right laws p.option_sl q.ratchet_sl),
      );
    }

    pub Climbs-refl : (p : Position W) → IsRounded p → Climbs p p
    Climbs-refl p h = Climbs-of_KeepsStops p p (record { stop = refl; ratchet = refl }) h

    below-round : (x y : W) → f.round 2 x ≡ x → f.lt x y ≡ true → x ≼ f.round 2 y
    below-round x y e l = ground (arith, e, round_mono 2 x y (le_of_lt x y l))

    raise_stop-Climbs : (n : W) (p : Position W) → IsRounded p → Climbs p (raise_stop n p)
    unfolding raise_stop
    raise_stop-Climbs n p h = elim (Bool-cases (f.lt p.option_sl n)) [
      | inl l ↦ rw l record {
        rounded = record { stop = round-round 2 n; ratchet = h.ratchet };
        stop = below-round _ n h.stop l;
        ratchet = le_refl p.ratchet_sl;
        above = λ a. le_trans _ _ _ a (below-round _ n h.stop l);
      }
      | inr l ↦ rw l (Climbs-refl p h)
    ]

    if-Climbs :
        (p : Position W) (b : Bool) (x y : Position W)
        → Climbs p x
        → Climbs p y
        → Climbs p (if b then x else y)
    if-Climbs p true x y h k = h
    if-Climbs p false x y h k = k

    pub trail_rule-Lifts : (lim : RiskLimits W) (view : MarketView W) → Lifts (trail_rule lim view)
    unfolding trail_rule trail_stop
    trail_rule-Lifts lim view = record {
      lifts = λ p h. search (if-Climbs, Climbs-refl, raise_stop-Climbs);
    }
