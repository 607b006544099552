-- ===== src/Risk/Exits/Quantity/Books.antt =====
-- What a rule may not touch, and the rules of the stop, the targets and the backstops.
use kotsin_nse.Prelude.{ℕ, ◌≤◌, ◌<◌, ◌≡◌, refl, Bool, true, false, arith, ◌∙◌}
use kotsin_nse.Num.{Num}
use kotsin_nse.Domain.{Position}
use kotsin_nse.Risk.Limits.{RiskLimits}
use kotsin_nse.Risk.Exits.Rules.{
  MarketView, Verdict, leave, Rule, ◌▹◌, hard_floor_below_stop, equity_confirmed_stop,
  sustain_block, touch_stop, equity_stop, legacy_hard_floor, targets_rule, trail_stop, peak_ratchet,
  backstops,
}
use kotsin_nse.Risk.Exits.Ladder.{own_hard_stop}
use kotsin_nse.Risk.Exits.Evaluate.{trail_rule, when}

-- The fields of a position that say what is held, and those that `apply_exit` books; no rule touches
-- them.
pub record SameBook {W : Type 0} (p q : Position W) : Type 0 where
  pub remaining : q.qty_remaining ≡ p.qty_remaining
  pub total : q.qty ≡ p.qty
  pub status : q.status ≡ p.status
  pub rungs : q.targets_hit ≡ p.targets_hit
  pub key : q.id ≡ p.id
  pub owner : q.strategy ≡ p.strategy
  pub contract : q.instrument ≡ p.instrument
  pub parent : q.underlying ≡ p.underlying
  pub paid : q.entry_price ≡ p.entry_price

-- An exit sells something, and no more than is left.
abbrev pub Sells : {W : Type 0} → ℕ → Verdict W → Type 0
Sells n (leave d) = (0 < d.qty) × (d.qty ≤ n)
Sells n _ = Unit

module _ {W : Type 0} where
  pub SameBook-refl : (p : Position W) → SameBook p p
  SameBook-refl p = record {
    remaining = refl;
    total = refl;
    status = refl;
    rungs = refl;
    key = refl;
    owner = refl;
    contract = refl;
    parent = refl;
    paid = refl;
  }

  pub SameBook-trans : {p q r : Position W} → SameBook p q → SameBook q r → SameBook p r
  SameBook-trans a b = record {
    remaining = b.remaining ∙ a.remaining;
    total = b.total ∙ a.total;
    status = b.status ∙ a.status;
    rungs = b.rungs ∙ a.rungs;
    key = b.key ∙ a.key;
    owner = b.owner ∙ a.owner;
    contract = b.contract ∙ a.contract;
    parent = b.parent ∙ a.parent;
    paid = b.paid ∙ a.paid;
  }

  -- A rule that keeps the book and sells within what is left.
  pub record IsSound (r : Rule W) : Type 0 where
    pub book : (p : Position W) → SameBook p (r p).1
    pub sells : (p : Position W) → 0 < p.qty_remaining → Sells p.qty_remaining (r p).0

  pub ▹-IsSound : (r s : Rule W) → IsSound r → IsSound s → IsSound (r ▹ s)
  ▹-IsSound r s hr hs = record {
    book = λ p. ground (arith, hr.book p, hs.book (r p).1);
    sells = λ p h. ground (arith, hr.book p, hr.sells p, hs.sells (r p).1);
  }

module _ {W : Type 0} ⦃f : Num W⦄ where
  pub when-IsSound : (b : Bool) (r : Rule W) → IsSound r → IsSound (when b r)
  when-IsSound true r h = h
  when-IsSound false r h = record { book = SameBook-refl; sells = λ p h. tt }

  module _ (lim : RiskLimits W) (view : MarketView W) (mid : W) where
    pub hard_floor_below_stop-IsSound : IsSound (hard_floor_below_stop lim view mid)
    unfolding hard_floor_below_stop
    hard_floor_below_stop-IsSound = record { book = λ p. ground arith; sells = λ p h. ground arith }

    pub own_hard_stop-IsSound : IsSound (own_hard_stop lim view mid)
    unfolding own_hard_stop
    own_hard_stop-IsSound = record { book = λ p. ground arith; sells = λ p h. ground arith }

    pub equity_confirmed_stop-IsSound : IsSound (equity_confirmed_stop lim view)
    unfolding equity_confirmed_stop
    equity_confirmed_stop-IsSound = record { book = λ p. ground arith; sells = λ p h. ground arith }

    pub sustain_block-IsSound : IsSound (sustain_block lim view mid)
    unfolding sustain_block
    sustain_block-IsSound = record { book = λ p. ground arith; sells = λ p h. ground arith }

    pub touch_stop-IsSound : IsSound (touch_stop lim view)
    unfolding touch_stop
    touch_stop-IsSound = record { book = λ p. ground arith; sells = λ p h. ground arith }

    pub equity_stop-IsSound : IsSound (equity_stop view)
    unfolding equity_stop
    equity_stop-IsSound = record { book = λ p. ground arith; sells = λ p h. ground arith }

    pub legacy_hard_floor-IsSound : IsSound (legacy_hard_floor lim view)
    unfolding legacy_hard_floor
    legacy_hard_floor-IsSound = record { book = λ p. ground arith; sells = λ p h. ground arith }

    pub targets_rule-IsSound : IsSound (targets_rule lim view)
    unfolding targets_rule
    targets_rule-IsSound = record { book = λ p. ground arith; sells = λ p h. ground arith }

    pub peak_ratchet-IsSound : IsSound (peak_ratchet lim view mid)
    unfolding peak_ratchet
    peak_ratchet-IsSound = record { book = λ p. ground arith; sells = λ p h. ground arith }

    pub trail_rule-IsSound : IsSound (trail_rule lim view)
    unfolding trail_rule trail_stop
    trail_rule-IsSound = record { book = λ p. ground arith; sells = λ p h. tt }

    pub backstops-IsSound : IsSound (backstops lim view)
    unfolding backstops
    backstops-IsSound = record { book = λ p. ground arith; sells = λ p h. ground arith }
