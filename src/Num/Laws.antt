-- ===== src/Num/Laws.antt =====
-- What the proofs use of floating point: comparisons of finite values are a total preorder, and
-- `round` keeps the order and is idempotent.
use kotsin_nse.Prelude.{ℕ, ◌≡◌, true, not, ◌&&◌, arith}
use kotsin_nse.Num.{Num, max_of, min_of}

infix 4 ◌≼◌
abbrev pub ◌≼◌ : {W : Type 0} ⦃f : Num W⦄ → W → W → Type 0
◌≼◌ ⦃f⦄ x y = f.le x y ≡ true

pub record IsOrdered (W : Type 0) ⦃f : Num W⦄ : Type 0 where
  pub le_refl : (x : W) → x ≼ x
  pub le_trans : (x y z : W) → x ≼ y → y ≼ z → x ≼ z
  pub lt-eq-not-le : (x y : W) → f.lt x y ≡ not (f.le y x)
  pub le_of_lt : (x y : W) → f.lt x y ≡ true → x ≼ y
  pub eq-eq-le : (x y : W) → f.eq x y ≡ (f.le x y && f.le y x)
  pub round_mono : (k : ℕ) (x y : W) → x ≼ y → f.round k x ≼ f.round k y
  pub round-round : (k : ℕ) (x : W) → f.round k (f.round k x) ≡ f.round k x

module _ {W : Type 0} ⦃f : Num W⦄ (laws : IsOrdered W) where
  open laws use {le_refl, le_trans, lt-eq-not-le, le_of_lt}

  pub le-max_left : (x y : W) → x ≼ max_of x y
  unfolding max_of
  le-max_left x y = ground (arith, le_refl x, le_of_lt x y)

  pub le-max_right : (x y : W) → y ≼ max_of x y
  unfolding max_of
  le-max_right x y = ground (arith, le_refl y, lt-eq-not-le x y)

  pub max-le : (x y z : W) → x ≼ z → y ≼ z → max_of x y ≼ z
  unfolding max_of
  max-le x y z h k = ground arith

  pub min-le_left : (x y : W) → min_of x y ≼ x
  unfolding min_of
  min-le_left x y = ground (arith, le_refl x, le_of_lt y x)

  pub min-le_right : (x y : W) → min_of x y ≼ y
  unfolding min_of
  min-le_right x y = ground (arith, le_refl y, lt-eq-not-le y x)
