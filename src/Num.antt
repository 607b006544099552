-- ===== src/Num.antt =====
-- Python's `float`, as the code uses it: a type of finite values with its operations. Every formula
-- of the program keeps its shape; nothing is assumed of a result but the laws of `Num.Laws`.
pub mod Laws
pub mod Sum
pub mod Cents
use kotsin_nse.Prelude.{ℕ, Bool, not, if◌then◌else◌}
use kotsin_nse.Prelude.Int.{ℤ, pos, negsuc}

pub record Num (W : Type 0) : Type 0 where
  pub add : W → W → W
  pub sub : W → W → W
  pub mul : W → W → W
  pub div : W → W → W
  pub lt : W → W → Bool
  pub le : W → W → Bool
  pub eq : W → W → Bool
  pub abs : W → W
  -- `float(n)`
  pub of_int : ℤ → W
  -- the literal `m * 10 ** -k`
  pub lit : ℕ → ℕ → W
  -- `round(x, k)`
  pub round : ℕ → W → W
  -- `int(x)` and `int(x // y)`
  pub trunc : W → ℤ
  pub floor_div : W → W → ℤ

module _ {W : Type 0} ⦃f : Num W⦄ where
  infixl 65 ◌⊕◌ ◌⊖◌
  infixl 70 ◌⊗◌ ◌⊘◌
  abbrev pub ◌⊕◌ : W → W → W
  ◌⊕◌ = f.add

  abbrev pub ◌⊖◌ : W → W → W
  ◌⊖◌ = f.sub

  abbrev pub ◌⊗◌ : W → W → W
  ◌⊗◌ = f.mul

  abbrev pub ◌⊘◌ : W → W → W
  ◌⊘◌ = f.div

  abbrev pub lt : W → W → Bool
  lt = f.lt

  abbrev pub le : W → W → Bool
  le = f.le

  -- `x > y` and `x >= y`
  abbrev pub gt : W → W → Bool
  gt x y = f.lt y x

  abbrev pub ge : W → W → Bool
  ge x y = f.le y x

  abbrev pub of_nat : ℕ → W
  of_nat n = f.of_int (pos n)

  abbrev pub nought : W
  nought = f.of_int (pos 0)

  -- `-1`
  abbrev pub minus_one : W
  minus_one = f.of_int (negsuc 0)

  -- `if x:` for a number
  abbrev pub truthy : W → Bool
  truthy x = not (f.eq x (f.of_int (pos 0)))

  -- Python's `max(x, y)` keeps the first of two equal values, and so does `min`.
  unfoldable pub max_of : W → W → W
  max_of x y = if f.lt x y then y else x

  unfoldable pub min_of : W → W → W
  min_of x y = if f.lt y x then y else x
