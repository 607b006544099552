-- ===== src/Exec/Paper/Walk.antt =====
-- `walk_book` of paper.py: everything at each level before the next, up to a ceiling on the price.
use native.Mathlib.Nat.{zero-add}
use kotsin_nse.Prelude.{
  ℕ, ◌+◌, ◌-◌, ◌≤◌, Bool, true, false, ◌&&◌, ◌||◌, not, List, [], ◌∷◌, leb, ◌==◌, min,
  if◌then◌else◌, ◌≡◌, refl, arith, length,
}
use kotsin_nse.Num.{Num, ◌⊕◌, ◌⊖◌, ◌⊗◌, ◌⊘◌, gt, lt, nought, of_nat}

-- `Walk`
pub record Fills (W : Type 0) : Type 0 where
  pub avg_price : W
  pub filled : ℕ
  pub levels : ℕ
  pub capped : Bool

-- The variables of the loop.
record Progress (W : Type 0) : Type 0 where
  pub taken : ℕ
  pub cost : W
  pub used : ℕ
  pub capped : Bool

module _ {W : Type 0} ⦃f : Num W⦄ where
  -- The price is past the limit, on the side that the order pays.
  unfoldable pub beyond : Bool → W → W → Bool
  beyond true limit price = gt price limit
  beyond false limit price = lt price limit

  take_level : ℕ → W → ℕ → Progress W → Progress W
  take_level qty price available s =
      let take = min available (qty - s.taken) in
      if take == 0 then s else record s {
        taken = s.taken + take;
        cost = s.cost ⊕ of_nat take ⊗ price;
        used = s.used + 1;
      }

  walk_levels : ℕ → W → Bool → List (W × ℕ) → Progress W → Progress W
  walk_levels qty limit side [] s = s
  walk_levels qty limit side ((price, available) ∷ rest) s =
      let on = walk_levels qty limit side rest (take_level qty price available s) in
      if leb qty s.taken
      then s
      else if beyond side limit price
      then record s { capped = true }
      else on

  unfoldable pub limit_of : W → W → Bool → W
  limit_of touch ceiling_pct true = touch ⊗ (of_nat 1 ⊕ ceiling_pct ⊘ of_nat 100)
  limit_of touch ceiling_pct false = touch ⊗ (of_nat 1 ⊖ ceiling_pct ⊘ of_nat 100)

  abbrev start : Progress W
  start = record { taken = 0; cost = nought; used = 0; capped = false }

  unfoldable pub walk_book : List (W × ℕ) → ℕ → W → W → Bool → Fills W
  unfolding walk_levels take_level limit_of beyond
  walk_book levels qty touch ceiling_pct side =
      let s = walk_levels qty (limit_of touch ceiling_pct side) side levels start in
      record {
        avg_price = if s.taken == 0 then nought else s.cost ⊘ of_nat s.taken;
        filled = s.taken;
        levels = s.used;
        capped = s.capped;
      }

  -- The levels that the walk may take: those before the first one past the limit.
  unfoldable pub reachable : Bool → W → List (W × ℕ) → List (W × ℕ)
  unfolding beyond
  reachable side limit [] = []
  reachable side limit ((price, available) ∷ rest) =
      let more = reachable side limit rest in
      if beyond side limit price then [] else (price, available) ∷ more

  unfoldable pub depth : List (W × ℕ) → ℕ
  depth [] = 0
  depth ((price, available) ∷ rest) = available + depth rest

  taken-walk_levels :
      (qty : ℕ) (limit : W) (side : Bool) (levels : List (W × ℕ)) (s : Progress W)
      → s.taken ≤ qty
      → (walk_levels qty limit side levels s).taken
        ≡ min qty (s.taken + depth (reachable side limit levels))
  unfolding walk_levels take_level reachable depth
  taken-walk_levels qty limit side [] s h = omega arith
  taken-walk_levels qty limit side ((price, available) ∷ rest) s h =
      ground (arith, taken-walk_levels qty limit side rest (take_level qty price available s))

  -- Some level is past the limit.
  unfoldable pub blocked : Bool → W → List (W × ℕ) → Bool
  unfolding beyond
  blocked side limit [] = false
  blocked side limit ((price, available) ∷ rest) =
      beyond side limit price || blocked side limit rest

  capped-walk_levels :
      (qty : ℕ) (limit : W) (side : Bool) (levels : List (W × ℕ)) (s : Progress W)
      → s.taken ≤ qty
      → s.capped ≡ false
      → (walk_levels qty limit side levels s).capped ≡ (
          blocked side limit levels
          && not (leb qty (s.taken + depth (reachable side limit levels))))
  unfolding walk_levels take_level reachable depth blocked
  capped-walk_levels qty limit side [] s h c = ground arith
  capped-walk_levels qty limit side ((price, available) ∷ rest) s h c =
      ground (arith, capped-walk_levels qty limit side rest (take_level qty price available s))

  used-walk_levels :
      (qty : ℕ) (limit : W) (side : Bool) (levels : List (W × ℕ)) (s : Progress W)
      → (walk_levels qty limit side levels s).used ≤ s.used + length (reachable side limit levels)
  unfolding walk_levels take_level reachable
  used-walk_levels qty limit side [] s = omega arith
  used-walk_levels qty limit side ((price, available) ∷ rest) s =
      ground (arith, used-walk_levels qty limit side rest (take_level qty price available s))

  -- The walk fills the order, or all that stands before the first level past the limit if that is
  -- less; it touches no more levels than those, and reports `capped` exactly if a level past the
  -- limit stopped it short of the order.
  pub walk_book_lem :
      (levels : List (W × ℕ)) (qty : ℕ) (touch ceiling_pct : W) (side : Bool)
      → let w = walk_book levels qty touch ceiling_pct side in
        let limit = limit_of touch ceiling_pct side in
        let near = reachable side limit levels in
        (w.filled ≡ min qty (depth near))
        × (w.levels ≤ length near)
        × (w.capped ≡ (blocked side limit levels && not (leb qty (depth near))))
  unfolding walk_book
  walk_book_lem levels qty touch ceiling_pct side =
      let limit = limit_of touch ceiling_pct side in
      (
        omega (arith, taken-walk_levels qty limit side levels start (omega arith)),
        omega (arith, used-walk_levels qty limit side levels start),
        rw zero-add at (capped-walk_levels qty limit side levels start (omega arith) refl),
      )
