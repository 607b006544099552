-- ===== src/Instrument/Select.antt =====
-- `estimate_delta` of backend/kotsin_nse/instrument/select.py.
use kotsin_nse.Prelude.{◌||◌, if◌then◌else◌}
use kotsin_nse.Num.{Num, ◌⊕◌, ◌⊖◌, ◌⊗◌, ◌⊘◌, le, nought, of_nat, max_of, min_of}
use kotsin_nse.Domain.{OptionType, ce}

module _ {W : Type 0} ⦃f : Num W⦄ where
  unfoldable pub estimate_delta : W → W → OptionType → W
  unfolding max_of min_of
  estimate_delta spot strike option_type =
      let moneyness : W = elim option_type [
        | ce ↦ (strike ⊖ spot) ⊘ spot
        | _ ↦ (spot ⊖ strike) ⊘ spot
      ] in
      if le spot nought || le strike nought
      then f.lit 5 1
      else if le moneyness nought
      then min_of (f.lit 85 2) (f.lit 5 1 ⊕ f.abs moneyness ⊗ of_nat 6)
      else max_of (f.lit 15 2) (f.lit 5 1 ⊖ moneyness ⊗ of_nat 8)
