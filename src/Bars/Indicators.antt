-- ===== src/Bars/Indicators.antt =====
-- backend/kotsin_nse/bars/indicators.py: the volume surges and the average true range. The lists are
-- given newest first, where the code's run oldest first.
use kotsin_nse.Prelude.{
  ℕ, ◌+◌, ◌-◌, ◌||◌, Option, none, some, List, [], ◌∷◌, length, take, drop, ltb, ◌==◌,
  if◌then◌else◌,
}
use kotsin_nse.Num.{Num, ◌⊕◌, ◌⊖◌, ◌⊗◌, ◌⊘◌, le, nought, of_nat, max_of}
use kotsin_nse.Bars.Bar.{UnifiedBar}

module _ {W : Type 0} ⦃f : Num W⦄ where
  -- `sum(xs)`
  unfoldable pub total : List W → W
  total [] = nought
  total (x ∷ xs) = total xs ⊕ x

  -- `volume_baseline`
  unfoldable pub volume_baseline : List W → ℕ → ℕ → W → Option W
  unfolding total max_of
  volume_baseline volumes window skip_last floor =
      let base = take window (drop skip_last volumes) in
      if window == 0 || ltb (length volumes) (window + skip_last)
      then none
      else some (max_of (total base ⊘ of_nat window) floor)

  abbrev surges_over : List W → W → Option W × Option W × Option W
  surges_over (t ∷ t1 ∷ vs) base =
      if le base nought
      then (none, none, some base)
      else (some (t ⊘ base), some (t1 ⊘ base), some base)
  surges_over _ base = (none, none, some base)

  -- `volume_surges`
  unfoldable pub volume_surges : List W → ℕ → W → Option W × Option W × Option W
  unfolding volume_baseline
  volume_surges volumes window floor = elim (volume_baseline volumes window 2 floor) [
    | none ↦ (none, none, none)
    | some base ↦ surges_over volumes base
  ]

  unfoldable pub true_range : UnifiedBar W → UnifiedBar W → W
  unfolding max_of
  true_range cur prev =
      max_of (max_of (cur.high ⊖ cur.low) (f.abs (cur.high ⊖ prev.close_price)))
        (f.abs (cur.low ⊖ prev.close_price))

  -- `true_ranges`
  unfoldable pub true_ranges : List (UnifiedBar W) → List W
  unfolding true_range
  true_ranges [] = []
  true_ranges (cur ∷ []) = []
  true_ranges (cur ∷ prev ∷ bars) = true_range cur prev ∷ true_ranges (prev ∷ bars)

  -- The last of `atr_series`, from the true ranges.
  unfoldable pub wilder : ℕ → List W → Option W
  unfolding total
  wilder period [] = none
  wilder period (t ∷ ts) =
      let before = wilder period ts in
      let n = length (t ∷ ts) in
      let smoothed : Option W = elim before [
        | none ↦ none
        | some prev ↦ some ((prev ⊗ of_nat (period - 1) ⊕ t) ⊘ of_nat period)
      ] in
      if ltb n period
      then none
      else if n == period
      then some (total (t ∷ ts) ⊘ of_nat period)
      else smoothed

  -- `atr`
  unfoldable pub atr : List (UnifiedBar W) → ℕ → Option W
  unfolding true_ranges wilder
  atr bars period = if period == 0 then none else wilder period (true_ranges bars)
