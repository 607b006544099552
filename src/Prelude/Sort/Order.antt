-- ===== src/Prelude/Sort/Order.antt =====
-- The order that sorting by a number leaves, and its last element.
use mathlib.Core.Path.{◌≡◌, subst}
use mathlib.Core.Bool.{Bool, true, false}
use mathlib.Core.Logic.{inl, inr}
use mathlib.Core.List.{List, [], ◌∷◌}
use mathlib.Core.Option.{none, some}
use Prim.Native.Nat.{ℕ, ◌≤◌}
use native.Mathlib.Omega.{arith}
use kotsin_nse.Prelude.Tests.{Bool-cases, ltb, if◌then◌else◌}
use kotsin_nse.Prelude.Lists.{All, select, last?}
use kotsin_nse.Prelude.Sort.{
  IsIn, All-IsIn, All-at, All-mono, All-select, insert_by, sort_by, sort_by-All, insert_by-All,
}

-- A test that agrees with a transitive relation, in the way `<` does with `≤`.
pub record Sorts {A : Type 0} (less : A → A → Bool) (Le : A → A → Type 0) : Type 0 where
  pub le_of_less : (a b : A) → less a b ≡ true → Le a b
  pub le_of_not : (a b : A) → less a b ≡ false → Le b a
  pub trans : (a b c : A) → Le a b → Le b c → Le a c

module _ {A : Type 0} (Le : A → A → Type 0) where
  abbrev pub IsSorted : List A → Type 0
  IsSorted [] = Unit
  IsSorted (x ∷ xs) = All (λ y. Le x y) xs × IsSorted xs

  pub select-IsSorted : (t : A → Bool) (xs : List A) → IsSorted xs → IsSorted (select t xs)
  select-IsSorted t [] s = tt
  select-IsSorted t (x ∷ xs) s = elim (Bool-cases (t x)) [
    | inl e ↦ rw e (All-select _ t xs s.0, select-IsSorted t xs s.1)
    | inr e ↦ rw e (select-IsSorted t xs s.1)
  ]

  module _ (less : A → A → Bool) (laws : Sorts less Le) where
    open laws use {le_of_less, le_of_not, trans}

    insert_by-IsSorted : (x : A) (ys : List A) → IsSorted ys → IsSorted (insert_by less x ys)
    unfolding insert_by
    insert_by-IsSorted x [] s = (tt, tt)
    insert_by-IsSorted x (y ∷ ys) s = elim (Bool-cases (less y x)) [
      | inl e ↦ rw e (
        (insert_by-All (λ z. Le y z) less x ys).0 (le_of_less y x e) s.0,
        insert_by-IsSorted x ys s.1,
      )
      | inr e ↦
          let le : Le x y = le_of_not y x e in
          rw e ((le, All-mono _ (λ z. Le x z) ys (λ z l. trans x y z le l) s.0), s)
    ]

    pub sort_by-IsSorted : (xs : List A) → IsSorted (sort_by less xs)
    unfolding sort_by
    sort_by-IsSorted [] = tt
    sort_by-IsSorted (x ∷ xs) = insert_by-IsSorted x (sort_by less xs) (sort_by-IsSorted xs)

-- Sorting by a number.
module _ {A : Type 0} (key : A → ℕ) where
  abbrev less : A → A → Bool
  less a b = ltb (key a) (key b)

  abbrev KeyLe : A → A → Type 0
  KeyLe a b = key a ≤ key b

  less-Sorts : Sorts less KeyLe
  less-Sorts = record {
    le_of_less = λ a b e. ground (arith, e);
    le_of_not = λ a b e. ground (arith, e);
    trans = λ a b c h k. omega arith;
  }

  last-IsSorted :
      (xs : List A) (m : A)
      → IsSorted KeyLe xs
      → last? xs ≡ some m
      → IsIn m xs × All (λ y. key y ≤ key m) xs
  last-IsSorted [] m s e = ground (arith, e)
  last-IsSorted (x ∷ []) m s e =
      let same : m ≡ x = ground (arith, e) in (inl same, (ground (arith, same), tt))
  last-IsSorted (x ∷ y ∷ ys) m s e =
      let ih = last-IsSorted (y ∷ ys) m s.1 e in
      let le : key x ≤ key m = All-at (λ z. key x ≤ key z) (y ∷ ys) s.0 ih.0 in
      (inr ih.0, (le, ih.1))

  -- The last of a sorted list is an element of it, and no element has a greater key.
  pub last-sort_by :
      (xs : List A) (m : A)
      → last? (sort_by less xs) ≡ some m
      → IsIn m xs × All (λ y. key y ≤ key m) xs
  last-sort_by xs m e =
      let r = last-IsSorted (sort_by less xs) m (sort_by-IsSorted KeyLe less less-Sorts xs) e in
      (
        All-at (λ y. IsIn y xs) (sort_by less xs) ((sort_by-All _ less xs).0 (All-IsIn xs)) r.0,
        (sort_by-All _ less xs).1 r.1,
      )

module _ {A : Type 0} where
  last-empty : (ys : List A) → last? ys ≡ none → All (λ y. ⊥) ys
  last-empty [] e = tt
  last-empty (y ∷ []) e = ground (arith, e)
  last-empty (y ∷ z ∷ ys) e = absurd (last-empty (z ∷ ys) e).0

  -- No last element, no element.
  pub last-sort_by-none :
      (lt : A → A → Bool) (xs : List A) → last? (sort_by lt xs) ≡ none → All (λ x. ⊥) xs
  last-sort_by-none lt xs e = (sort_by-All _ lt xs).1 (last-empty (sort_by lt xs) e)

  -- Where nothing is picked, nothing passes the test.
  pub select-none :
      (t : A → Bool) (xs : List A) → All (λ x. ⊥) (select t xs) → All (λ x. t x ≡ false) xs
  select-none t [] h = tt
  select-none t (x ∷ xs) h = elim (Bool-cases (t x)) [
    | inl e ↦ absurd (subst (λ b. All (λ y. ⊥) (if b then x ∷ select t xs else select t xs)) e h).0
    | inr e ↦ (
      e,
      select-none t xs (subst (λ b. All (λ y. ⊥) (if b then x ∷ select t xs else select t xs)) e h),
    )
  ]

  -- What holds of what is picked is what holds of an element that passes the test.
  All-of_select {κ} :
      (P : A → Type κ) (t : A → Bool) (xs : List A)
      → All P (select t xs)
      → All (λ a. t a ≡ true → P a) xs
  All-of_select P t [] h = tt
  All-of_select P t (x ∷ xs) h = elim (Bool-cases (t x)) [
    | inl e ↦
        let q = subst (λ b. All P (if b then x ∷ select t xs else select t xs)) e h in
        (λ p. q.0, All-of_select P t xs q.1)
    | inr e ↦
        let q = subst (λ b. All P (if b then x ∷ select t xs else select t xs)) e h in
        (λ p. ground (arith, e, p), All-of_select P t xs q)
  ]

  All-select_of {κ} :
      (P : A → Type κ) (t : A → Bool) (xs : List A)
      → All (λ a. t a ≡ true → P a) xs
      → All P (select t xs)
  All-select_of P t [] h = tt
  All-select_of P t (x ∷ xs) h = elim (Bool-cases (t x)) [
    | inl e ↦ rw e (h.0 e, All-select_of P t xs h.1)
    | inr e ↦ rw e (All-select_of P t xs h.1)
  ]

  -- Picking and sorting commute, as far as what all picked elements have.
  pub All-unsorted {κ} :
      (P : A → Type κ) (t : A → Bool) (lt : A → A → Bool) (xs : List A)
      → (All P (select t xs) → All P (select t (sort_by lt xs)))
        × (All P (select t (sort_by lt xs)) → All P (select t xs))
  All-unsorted P t lt xs =
      let Q : A → Type κ = λ a. t a ≡ true → P a in
      let moved = sort_by-All Q lt xs in
      (
        λ h. All-select_of P t (sort_by lt xs) (moved.0 (All-of_select P t xs h)),
        λ h. All-select_of P t xs (moved.1 (All-of_select P t (sort_by lt xs) h)),
      )
