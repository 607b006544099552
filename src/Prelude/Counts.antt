-- ===== src/Prelude/Counts.antt =====
-- How many values of a dict pass a test, when a key is set or removed.
use mathlib.Core.Path.{◌≡◌, ap}
use mathlib.Core.Logic.{inl, inr}
use mathlib.Core.Bool.{Bool, true, ◌&&◌}
use mathlib.Core.Option.{none, some, some-injective}
use mathlib.Core.List.{List, [], ◌∷◌}
use Prim.Native.Nat.{ℕ, ◌+◌, ◌≤◌}
use Prim.Native.String.{String}
use native.Mathlib.Omega.{arith}
use kotsin_nse.Prelude.Tests.{if◌then◌else◌, Bool-cases}
use kotsin_nse.Prelude.Lists.{length, select}
use kotsin_nse.Prelude.Strings.{str_eq}
use kotsin_nse.Prelude.Sort.{insert_by, sort_by}
use kotsin_nse.Prelude.Dict.{Dict, lookup, insert, remove, values}

abbrev pub one_if : Bool → ℕ
one_if b = if b then 1 else 0

module _ {V : Type 0} (t : V → Bool) where
  unfoldable pub count : List V → ℕ
  count vs = length (select t vs)

  pub count-cons : (v : V) (vs : List V) → count (v ∷ vs) ≡ one_if (t v) + count vs
  unfolding count
  count-cons v vs = ground arith

  pub count-insert_new :
      (k : String) (v : V) (d : Dict V)
      → lookup k d ≡ none
      → count (values (insert k v d)) ≡ count (v ∷ values d)
  unfolding count
  count-insert_new k v [] n = ground arith
  count-insert_new k v ((j, u) ∷ d) n = ground (arith, count-insert_new k v d)

  -- A change that does not make a value pass adds nothing.
  pub count-insert_same :
      (k : String) (v u : V) (d : Dict V)
      → lookup k d ≡ some u
      → (t v ≡ true → t u ≡ true)
      → count (values (insert k v d)) ≤ count (values d)
  unfolding count
  count-insert_same k v u [] n h = cc
  count-insert_same k v u ((j, w) ∷ d) n h = elim (Bool-cases (str_eq k j)) [
    | inl e ↦
        let same : some w ≡ some u = rw e at n in
        let q : t w ≡ t u = ap t (some-injective _ _ same) in ground (arith, e, q, h)
    | inr e ↦
        let later : lookup k d ≡ some u = rw e at n in
        ground (arith, e, count-insert_same k v u d later h)
  ]

  pub count-remove : (k : String) (d : Dict V) → count (values (remove k d)) ≤ count (values d)
  unfolding count remove
  count-remove k [] = ground arith
  count-remove k ((j, w) ∷ d) = ground (arith, count-remove k d)

-- Sorting keeps how many elements pass a test.
module _ {V : Type 0} (t : V → Bool) (less : V → V → Bool) where
  count-insert_by : (v : V) (vs : List V) → count t (insert_by less v vs) ≡ count t (v ∷ vs)
  unfolding count insert_by
  count-insert_by v [] = ground arith
  count-insert_by v (w ∷ vs) = ground (arith, count-insert_by v vs)

  pub count-sort_by : (vs : List V) → count t (sort_by less vs) ≡ count t vs
  unfolding count sort_by
  count-sort_by [] = ground arith
  count-sort_by (v ∷ vs) = ground (arith, count-insert_by v (sort_by less vs), count-sort_by vs)

-- A choice from a choice is one choice.
pub select-select :
    {V : Type 0} (s t : V → Bool) (vs : List V)
    → select s (select t vs) ≡ select (λ v. t v && s v) vs
select-select s t [] = ground arith
select-select s t (v ∷ vs) = let later = select-select s t vs in ground (arith, later)
