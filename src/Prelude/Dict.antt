-- ===== src/Prelude/Dict.antt =====
-- A Python dict keyed by texts, in insertion order.
use mathlib.Core.Path.{◌≡◌, refl}
use mathlib.Core.Logic.{inl, inr}
use mathlib.Core.Option.{Option, none, some, some-injective}
use mathlib.Core.List.{List, [], ◌∷◌}
use native.Mathlib.Omega.{arith}
use Prim.Native.String.{String}
use kotsin_nse.Prelude.Tests.{if◌then◌else◌, if-elim, Bool-cases}
use kotsin_nse.Prelude.Lists.{All}
use kotsin_nse.Prelude.Strings.{str_eq, str_eq_iff, str_eq_refl}

abbrev pub Dict {ℓ} : Type ℓ → Type ℓ
Dict V = List (String × V)

module _ {ℓ} {V : Type ℓ} where
  -- `d.get(k)`
  abbrev pub lookup : String → Dict V → Option V
  lookup k [] = none
  lookup k ((j, v) ∷ d) = if str_eq k j then some v else lookup k d

  -- `d[k] = v`
  abbrev pub insert : String → V → Dict V → Dict V
  insert k v [] = (k, v) ∷ []
  insert k v ((j, w) ∷ d) = if str_eq k j then (j, v) ∷ d else (j, w) ∷ insert k v d

  -- `d.pop(k, None)`
  unfoldable pub remove : String → Dict V → Dict V
  remove k [] = []
  remove k ((j, v) ∷ d) = if str_eq k j then d else (j, v) ∷ remove k d

  -- `list(d.values())`
  abbrev pub values : Dict V → List V
  values [] = []
  values ((j, v) ∷ d) = v ∷ values d

  pub lookup-insert :
      (k j : String) (v : V) (d : Dict V)
      → lookup j (insert k v d) ≡ (if str_eq j k then some v else lookup j d)
  lookup-insert k j v [] = refl
  lookup-insert k j v ((i, w) ∷ d) =
      ground (
        arith,
        str_eq_iff k j,
        str_eq_iff j k,
        str_eq_iff k i,
        str_eq_iff j i,
        lookup-insert k j v d,
      )

  -- No key stands twice.
  abbrev pub IsUnique : Dict V → Type ℓ
  IsUnique [] = Unit
  IsUnique ((k, v) ∷ d) = (lookup k d ≡ none) × IsUnique d

  pub insert-IsUnique : (k : String) (v : V) (d : Dict V) → IsUnique d → IsUnique (insert k v d)
  insert-IsUnique k v [] u = (refl, tt)
  insert-IsUnique k v ((j, w) ∷ d) u =
      ground
        (arith, str_eq_iff k j, str_eq_iff j k, insert-IsUnique k v d u.1, lookup-insert k j v d)

  pub All-lookup {κ} :
      (P : String × V → Type κ) (d : Dict V) {k : String} {v : V}
      → All P d
      → lookup k d ≡ some v
      → P (k, v)
  All-lookup P [] a e = cc
  All-lookup P ((j, w) ∷ d) {k} {v} a e = elim (Bool-cases (str_eq k j)) [
    | inl t ↦
        let p : k ≡ j = (str_eq_iff k j).0 t in
        let q : some w ≡ some v = rw t at e in rw (p, ← some-injective _ _ q) a.0
    | inr f ↦ All-lookup P d a.1 (rw f at e)
  ]

  lookup-remove_other :
      (k j : String) (d : Dict V) → lookup j d ≡ none → lookup j (remove k d) ≡ none
  unfolding remove
  lookup-remove_other k j [] n = n
  lookup-remove_other k j ((i, w) ∷ d) n = ground (arith, n, lookup-remove_other k j d)

  pub lookup-remove : (k : String) (d : Dict V) → IsUnique d → lookup k (remove k d) ≡ none
  unfolding remove
  lookup-remove k [] u = refl
  lookup-remove k ((j, w) ∷ d) u = ground (arith, str_eq_iff k j, lookup-remove k d u.1)

  pub remove-IsUnique : (k : String) (d : Dict V) → IsUnique d → IsUnique (remove k d)
  unfolding remove
  remove-IsUnique k [] u = tt
  remove-IsUnique k ((j, w) ∷ d) u =
      ground (arith, lookup-remove_other k j d, remove-IsUnique k d u.1)

  pub All-remove {κ} :
      (P : String × V → Type κ) (k : String) (d : Dict V) → All P d → All P (remove k d)
  unfolding remove
  All-remove P k [] a = tt
  All-remove P k ((j, w) ∷ d) a =
      if-elim (λ x. All P x) (str_eq k j) a.1 (a.0, All-remove P k d a.1)

  pub All-insert {κ} :
      (P : String × V → Type κ) (k : String) (v : V) (d : Dict V)
      → P (k, v)
      → ((j : String) → P (j, v))
      → All P d
      → All P (insert k v d)
  All-insert P k v [] p q a = (p, tt)
  All-insert P k v ((j, w) ∷ d) p q a =
      if-elim (λ x. All P x) (str_eq k j) (q j, a.1) (a.0, All-insert P k v d p q a.1)

  -- What the rest of a dict holds is not hidden by its first entry.
  lookup-cons :
      (k j : String) (w v : V) (d : Dict V)
      → lookup j d ≡ none
      → lookup k d ≡ some v
      → lookup k ((j, w) ∷ d) ≡ some v
  lookup-cons k j w v d n e = ground (arith, str_eq_iff k j)

  pub All-of_lookup {κ} :
      (P : String × V → Type κ) (d : Dict V)
      → IsUnique d
      → ((k : String) (v : V) → lookup k d ≡ some v → P (k, v))
      → All P d
  All-of_lookup P [] u h = tt
  All-of_lookup P ((j, w) ∷ d) u h = (
    h j w (rw (str_eq_refl j) refl),
    All-of_lookup P d u.1 (λ k v e. h k v (lookup-cons k j w v d u.0 e)),
  )
