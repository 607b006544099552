-- ===== src/Prelude/Strings.antt =====
-- Equality of texts as a test, and sets of texts as lists.
use Prim.Native.Nat.{ℕ, zero, suc, ◌/◌, ◌%◌}
use Prim.Native.String.{String, ◌++◌, slice}
use mathlib.Core.Path.{◌≡◌, refl}
use mathlib.Core.Logic.{◌↔◌}
use mathlib.Core.Bool.{Bool, true, false, ◌||◌}
use mathlib.Core.List.{List, [], ◌∷◌}
use text.Mathlib.Text.{◌==◌}
use text.Mathlib.TextEquality.{eq_iff}
use kotsin_nse.Prelude.Tests.{ltb, if◌then◌else◌}

abbrev pub str_eq : String → String → Bool
str_eq a b = a == b

pub str_eq_iff : (a b : String) → (str_eq a b ≡ true) ↔ (a ≡ b)
str_eq_iff a b = eq_iff a b

pub str_eq_refl : (a : String) → str_eq a a ≡ true
str_eq_refl a = (eq_iff a a).1 refl

-- `k in s`, for a set or a sequence of texts
abbrev pub member : String → List String → Bool
member k [] = false
member k (j ∷ s) = str_eq k j || member k s

-- `f"{a}{b}"`
abbrev pub concat : String → String → String
concat a b = a ++ b

-- `s[:n]`, for ASCII
abbrev pub prefix : ℕ → String → String
prefix n s = slice s 0 n

abbrev digit : ℕ → String
digit n = slice "0123456789" n (suc n)

-- The last digits of a number, without leading zeros.
digits : ℕ → ℕ → String
digits zero n = ""
digits (suc k) n =
    let front = digits k (n / 10) in if ltb n 10 then digit n else front ++ digit (n % 10)

-- `str(n)`, for numbers of at most twenty digits
unfoldable pub decimal : ℕ → String
unfolding digits
decimal n = digits 20 n
