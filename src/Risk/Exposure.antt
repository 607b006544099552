-- ===== src/Risk/Exposure.antt =====
-- backend/kotsin_nse/risk/exposure.py: how much a book may hold. The reason of a verdict is left out.
use kotsin_nse.Prelude.{
  ℕ, ◌≤◌, ◌≡◌, String, Bool, true, false, not, ◌&&◌, ◌||◌, List, [], ◌∷◌, arith, leb, length,
  select, if◌then◌else◌,
}
use kotsin_nse.Prelude.Strings.{str_eq, str_eq_refl}
use kotsin_nse.Num.{Num, ◌⊕◌, ◌⊗◌, ◌⊘◌, gt, nought, of_nat}
use kotsin_nse.Domain.{Position, is_opened, opened}
use kotsin_nse.Risk.Limits.{RiskLimits}

pub record ExposureVerdict (W : Type 0) : Type 0 where
  pub allowed : Bool
  pub underlying_pct : W
  pub open_in_underlying : ℕ

module _ {W : Type 0} ⦃f : Num W⦄ where
  -- `p.status == "OPEN" and p.strategy == strategy`
  unfoldable pub is_mine : String → Position W → Bool
  is_mine strategy p = is_opened p.status && str_eq p.strategy strategy

  unfoldable pub is_in : String → Position W → Bool
  is_in symbol p = str_eq p.underlying.symbol symbol

  -- `by_underlying(positions).get(symbol, 0.0)`: the sum in the order of the list.
  unfoldable pub money_in : String → W → List (Position W) → W
  unfolding is_in
  money_in symbol acc [] = acc
  money_in symbol acc (p ∷ ps) =
      let more = acc ⊕ p.entry_price ⊗ of_nat p.qty_remaining ⊗ of_nat p.instrument.multiplier in
      money_in symbol (if is_opened p.status && is_in symbol p then more else acc) ps

  -- How many positions a book has open, and how many of them in one underlying.
  unfoldable pub open_in : String → List (Position W) → ℕ
  unfolding is_mine
  open_in strategy ps = length (select (is_mine strategy) ps)

  unfoldable pub same_in : String → String → List (Position W) → ℕ
  unfolding is_mine is_in
  same_in strategy symbol ps = length (select (is_in symbol) (select (is_mine strategy) ps))

  -- `check`
  unfoldable pub check :
      RiskLimits W → String → String → W → List (Position W) → W → ExposureVerdict W
  unfolding is_mine open_in same_in money_in
  check lim strategy symbol outlay positions capital =
      let mine = open_in strategy positions in
      let same = same_in strategy symbol positions in
      let current = money_in symbol nought (select (is_mine strategy) positions) in
      let pct = if gt capital nought then (current ⊕ outlay) ⊘ capital ⊗ of_nat 100 else nought in
      if leb lim.max_positions_all_books mine || leb lim.max_positions_per_strategy mine
      then record { allowed = false; underlying_pct = nought; open_in_underlying = 0 }
      else if leb lim.max_positions_per_underlying same
      then record { allowed = false; underlying_pct = nought; open_in_underlying = same }
      else record {
        allowed = not (gt pct lim.max_underlying_exposure_pct);
        underlying_pct = pct;
        open_in_underlying = same;
      }

  -- A position that a book opens after an allowing verdict on its strategy and its underlying leaves
  -- the book within its two position caps, and within its cap on that underlying.
  pub check_keeps_caps :
      (lim : RiskLimits W) (outlay capital : W) (p : Position W) (ps : List (Position W))
      → p.status ≡ opened
      → (check lim p.strategy p.underlying.symbol outlay ps capital).allowed ≡ true
      → (open_in p.strategy (p ∷ ps) ≤ lim.max_positions_all_books)
        × (open_in p.strategy (p ∷ ps) ≤ lim.max_positions_per_strategy)
        × (same_in p.strategy p.underlying.symbol (p ∷ ps) ≤ lim.max_positions_per_underlying)
  unfolding check open_in same_in is_mine is_in
  check_keeps_caps lim outlay capital p ps o a =
      ground (arith, str_eq_refl p.strategy, str_eq_refl p.underlying.symbol)
