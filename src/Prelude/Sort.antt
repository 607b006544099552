-- ===== src/Prelude/Sort.antt =====
-- Python's stable `sorted` and `min` by a key, over the test that one key is less than another, and
-- what they keep of a list.
pub mod Order
use mathlib.Core.Path.{◌≡◌, refl}
use mathlib.Core.Logic.{◌⊎◌, inl, inr}
use mathlib.Core.Bool.{Bool, true}
use mathlib.Core.List.{List, [], ◌∷◌}
use mathlib.Core.Option.{Option, none, some}
use kotsin_nse.Prelude.Tests.{if◌then◌else◌, Bool-cases}
use Prim.Native.Nat.{◌+◌}
use native.Mathlib.Omega.{arith}
use kotsin_nse.Prelude.Lists.{All, length, select}

module _ {A : Type 0} where
  unfoldable pub insert_by : (A → A → Bool) → A → List A → List A
  insert_by less x [] = x ∷ []
  insert_by less x (y ∷ ys) =
      let rest = insert_by less x ys in if less y x then y ∷ rest else x ∷ y ∷ ys

  -- `sorted(xs, key=…)`
  unfoldable pub sort_by : (A → A → Bool) → List A → List A
  unfolding insert_by
  sort_by less [] = []
  sort_by less (x ∷ xs) = insert_by less x (sort_by less xs)

  unfoldable pub min_from : (A → A → Bool) → A → List A → A
  min_from less b [] = b
  min_from less b (x ∷ xs) = min_from less (if less x b then x else b) xs

  -- `min(xs, key=…, default=None)`: the first of the least.
  abbrev pub min_by : (A → A → Bool) → List A → Option A
  min_by less [] = none
  min_by less (x ∷ xs) = some (min_from less x xs)

  abbrev pub IsIn : A → List A → Type 0
  IsIn a [] = ⊥
  IsIn a (x ∷ xs) = (a ≡ x) ⊎ IsIn a xs

  pub All-of_IsIn {κ} : (P : A → Type κ) (xs : List A) → ((a : A) → IsIn a xs → P a) → All P xs
  All-of_IsIn P [] h = tt
  All-of_IsIn P (x ∷ xs) h = (h x (inl refl), All-of_IsIn P xs (λ a m. h a (inr m)))

  pub All-IsIn : (xs : List A) → All (λ a. IsIn a xs) xs
  All-IsIn xs = All-of_IsIn (λ a. IsIn a xs) xs (λ a m. m)

  pub All-at {κ} : (P : A → Type κ) (xs : List A) {a : A} → All P xs → IsIn a xs → P a
  All-at P [] p m = absurd m
  All-at P (x ∷ xs) p (inl e) = rw e p.0
  All-at P (x ∷ xs) p (inr m) = All-at P xs p.1 m

  pub All-both {κ μ ν} :
      (P : A → Type κ) (Q : A → Type μ) (R : A → Type ν) (xs : List A)
      → ((a : A) → P a → Q a → R a)
      → All P xs
      → All Q xs
      → All R xs
  All-both P Q R [] h p q = tt
  All-both P Q R (x ∷ xs) h p q = (h x p.0 q.0, All-both P Q R xs h p.1 q.1)

  pub All-mono {κ μ} :
      (P : A → Type κ) (Q : A → Type μ) (xs : List A) → ((a : A) → P a → Q a) → All P xs → All Q xs
  All-mono P Q [] h p = tt
  All-mono P Q (x ∷ xs) h p = (h x p.0, All-mono P Q xs h p.1)

  pub All-select {κ} :
      (P : A → Type κ) (t : A → Bool) (xs : List A) → All P xs → All P (select t xs)
  All-select P t [] p = tt
  All-select P t (x ∷ xs) p = elim (Bool-cases (t x)) [
    | inl e ↦ rw e (p.0, All-select P t xs p.1)
    | inr e ↦ rw e (All-select P t xs p.1)
  ]

  -- What is picked passes the test.
  pub select-All : (t : A → Bool) (xs : List A) → All (λ a. t a ≡ true) (select t xs)
  select-All t [] = tt
  select-All t (x ∷ xs) = elim (Bool-cases (t x)) [
    | inl e ↦ rw e (e, select-All t xs)
    | inr e ↦ rw e (select-All t xs)
  ]

  pub insert_by-All {κ} :
      (P : A → Type κ) (less : A → A → Bool) (x : A) (xs : List A)
      → (P x → All P xs → All P (insert_by less x xs))
        × (All P (insert_by less x xs) → P x × All P xs)
  unfolding insert_by
  insert_by-All P less x [] = (λ p q. (p, tt), λ q. (q.0, tt))
  insert_by-All P less x (y ∷ ys) =
      let ih = insert_by-All P less x ys in
      elim (Bool-cases (less y x)) [
        | inl e ↦ rw e (λ p q. (q.0, ih.0 p q.1), λ q. let r = ih.1 q.1 in (r.0, (q.0, r.1)))
        | inr e ↦ rw e (λ p q. (p, q), λ q. q)
      ]

  -- Sorting keeps what all elements have, in both directions.
  pub sort_by-All {κ} :
      (P : A → Type κ) (less : A → A → Bool) (xs : List A)
      → (All P xs → All P (sort_by less xs)) × (All P (sort_by less xs) → All P xs)
  unfolding sort_by
  sort_by-All P less [] = (λ p. p, λ p. p)
  sort_by-All P less (x ∷ xs) =
      let ih = sort_by-All P less xs in
      let step = insert_by-All P less x (sort_by less xs) in
      (λ p. step.0 p.0 (ih.0 p.1), λ q. let r = step.1 q in (r.0, ih.1 r.1))

  pub min_from-All {κ} :
      (P : A → Type κ) (less : A → A → Bool) (b : A) (xs : List A)
      → P b
      → All P xs
      → P (min_from less b xs)
  unfolding min_from
  min_from-All P less b [] p q = p
  min_from-All P less b (x ∷ xs) p q = elim (Bool-cases (less x b)) [
    | inl e ↦ rw e (min_from-All P less x xs q.0 q.1)
    | inr e ↦ rw e (min_from-All P less b xs p q.1)
  ]

  length-insert_by :
      (less : A → A → Bool) (x : A) (ys : List A) → length (insert_by less x ys) ≡ length ys + 1
  unfolding insert_by
  length-insert_by less x [] = ground arith
  length-insert_by less x (y ∷ ys) = ground (arith, length-insert_by less x ys)

  pub length-sort_by : (less : A → A → Bool) (xs : List A) → length (sort_by less xs) ≡ length xs
  unfolding sort_by
  length-sort_by less [] = ground arith
  length-sort_by less (x ∷ xs) =
      ground (arith, length-sort_by less xs, length-insert_by less x (sort_by less xs))
