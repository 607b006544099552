-- ===== src/Num/Sum.antt =====
-- Python's `sum`, which adds from the left, and `min` of numbers.
use kotsin_nse.Prelude.{List, [], ◌∷◌}
use kotsin_nse.Num.{Num, ◌⊕◌, nought, min_of}

module _ {W : Type 0} ⦃f : Num W⦄ {A : Type 0} (key : A → W) where
  abbrev pub sum_from : W → List A → W
  sum_from acc [] = acc
  sum_from acc (x ∷ xs) = sum_from (acc ⊕ key x) xs

  -- `sum(key(x) for x in xs)`
  abbrev pub sum_of : List A → W
  sum_of xs = sum_from nought xs

  -- `min(key(x) for x in …)`, of a first value and the others
  abbrev pub least_from : W → List A → W
  least_from m [] = m
  least_from m (x ∷ xs) = least_from (min_of m (key x)) xs
