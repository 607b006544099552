-- ===== src/Risk/Exits/Lifecycle.antt =====
-- A position from its opening to its close, over the ticks that evaluate it and book its exits.
use kotsin_nse.Prelude.{
  ℕ, ◌+◌, ◌≤◌, ◌≡◌, not, Option, none, some, List, [], ◌∷◌, arith, ◌==◌, Option-cases, inl, inr,
}
use kotsin_nse.Num.{Num}
use kotsin_nse.Domain.{Time, Position, ExitDecision, opened, is_opened}
use kotsin_nse.Risk.Limits.{RiskLimits}
use kotsin_nse.Risk.Exits.Rules.{MarketView}
use kotsin_nse.Risk.Exits.Evaluate.{evaluate, apply_exit}
use kotsin_nse.Risk.Exits.Quantity.{evaluate_quantity, evaluate_book}

-- The price and the charges of a filled exit.
pub record ExitFill (W : Type 0) : Type 0 where
  pub price : W
  pub charges : W

-- One tick: what the market shows, and the fill that an exit of this tick gets: none on shadow mode, or
-- if the order is refused or is not filled.
pub record Tick (W : Type 0) : Type 0 where
  pub view : MarketView W
  pub fill : Option (ExitFill W)
  pub now : Time

module _ {W : Type 0} ⦃f : Num W⦄ where
  -- What a decided exit books by its fill: without one nothing, else the quantity of the decision,
  -- whatever quantity was filled.
  unfoldable pub book_sale :
      ExitDecision W → Option (ExitFill W) → Time → Position W → ℕ × Position W
  unfolding apply_exit
  book_sale d none now p = (0, p)
  book_sale d (some x) now p = (d.qty, (apply_exit d x.price x.charges now p).1)

  -- A tick of `_manage_positions` for a position: the quantity booked as sold, and the position.
  unfoldable pub manage : RiskLimits W → Tick W → Position W → ℕ × Position W
  unfolding book_sale
  manage lim t p =
      let out = evaluate lim t.view p in
      elim out.0 [ none ↦ (0, out.1) | some d ↦ book_sale d t.fill t.now out.1 ]

  unfoldable pub sold : RiskLimits W → List (Tick W) → Position W → ℕ
  sold lim [] p = 0
  sold lim (t ∷ ts) p = (manage lim t p).0 + sold lim ts (manage lim t p).1

  unfoldable pub live : RiskLimits W → List (Tick W) → Position W → Position W
  live lim [] p = p
  live lim (t ∷ ts) p = live lim ts (manage lim t p).1

  -- A position is open exactly while something is left to sell.
  abbrev pub IsBooked : Position W → Type 0
  IsBooked p = is_opened p.status ≡ not (p.qty_remaining == 0)

  apply_exit_lem :
      (d : ExitDecision W) (price charges : W) (now : Time) (p : Position W)
      → p.status ≡ opened
      → d.qty ≤ p.qty_remaining
      → (d.qty + (apply_exit d price charges now p).1.qty_remaining ≡ p.qty_remaining)
        × IsBooked (apply_exit d price charges now p).1
  unfolding apply_exit
  apply_exit_lem d price charges now p o h = ground arith

  book_sale_lem :
      (d : ExitDecision W) (x : Option (ExitFill W)) (now : Time) (p : Position W)
      → p.status ≡ opened
      → d.qty ≤ p.qty_remaining
      → IsBooked p
      → ((book_sale d x now p).0 + (book_sale d x now p).1.qty_remaining ≡ p.qty_remaining)
        × IsBooked (book_sale d x now p).1
  unfolding book_sale
  book_sale_lem d none now p o h b = (omega arith, b)
  book_sale_lem d (some x) now p o h b = apply_exit_lem d x.price x.charges now p o h

  manage_lem :
      (lim : RiskLimits W) (t : Tick W) (p : Position W)
      → IsBooked p
      → ((manage lim t p).0 + (manage lim t p).1.qty_remaining ≡ p.qty_remaining)
        × IsBooked (manage lim t p).1
  unfolding manage
  manage_lem lim t p b = elim (Option-cases (evaluate lim t.view p).0) [
    | inl e ↦ ground (arith, e, evaluate_book lim t.view p)
    | inr (d, e) ↦
        let fits = evaluate_quantity lim t.view p d e in
        ground (
          arith,
          fits,
          book_sale_lem d t.fill t.now (evaluate lim t.view p).1 (ground arith) (ground arith)
              (ground arith),
        )
  ]

  -- Over any run of ticks, whose exits are filled or not, a position that is open exactly while something
  -- is left stays so, and what was booked as sold and what is left add up to what was left at the start: no
  -- exit oversells, an exit without a fill books nothing, and the position closes with the last unit.
  pub lifecycle_conserves :
      (lim : RiskLimits W) (ts : List (Tick W)) (p : Position W)
      → IsBooked p
      → (sold lim ts p + (live lim ts p).qty_remaining ≡ p.qty_remaining) × IsBooked (live lim ts p)
  unfolding sold live
  lifecycle_conserves lim [] p b = ground arith
  lifecycle_conserves lim (t ∷ ts) p b =
      let step = manage_lem lim t p b in
      ground (arith, step, lifecycle_conserves lim ts (manage lim t p).1 step.1)
