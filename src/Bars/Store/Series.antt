-- ===== src/Bars/Store/Series.antt =====
-- A series, newest first, as a map from the starts of buckets to bars.
use kotsin_nse.Prelude.{
  ℕ, ◌≤◌, ◌<◌, ◌≡◌, refl, Bool, true, false, Option, none, some, List, [], ◌∷◌, ◌⊎◌, inl, inr,
  Bool-cases, Option-cases, All, All-take, length, take, ltb, ◌==◌, arith, if◌then◌else◌, zero, suc,
}
use kotsin_nse.Domain.{Time}
use kotsin_nse.Bars.Bar.{UnifiedBar}

-- The first of two, where there is one.
abbrev pub or_else {ℓ} : {A : Type ℓ} → Option A → Option A → Option A
or_else none b = b
or_else (some a) b = some a

module _ {W : Type 0} where
  -- The loop of `replace_closed`, from the newest bar down; whether a bar was replaced.
  unfoldable pub install : UnifiedBar W → List (UnifiedBar W) → Bool × List (UnifiedBar W)
  install bar [] = (false, bar ∷ [])
  install bar (b ∷ bs) =
      let (replaced, rest) = install bar bs in
      if b.ts == bar.ts
      then (true, bar ∷ bs)
      else if ltb b.ts bar.ts
      then (false, bar ∷ b ∷ bs)
      else (replaced, b ∷ rest)

  unfoldable pub at : Time → List (UnifiedBar W) → Option (UnifiedBar W)
  at t [] = none
  at t (b ∷ bs) = if b.ts == t then some b else at t bs

  -- `{b.ts: b for b in bars}` over the entries that are there, read in order of time.
  unfoldable pub merge_all : List (UnifiedBar W) → List (UnifiedBar W) → List (UnifiedBar W)
  unfolding install
  merge_all [] d = d
  merge_all (b ∷ bs) d = merge_all bs (install b d).1

  -- `merged.setdefault(b.ts, b)`
  unfoldable pub setdefault : UnifiedBar W → List (UnifiedBar W) → List (UnifiedBar W)
  unfolding install at
  setdefault b d = elim (at b.ts d) [ none ↦ (install b d).1 | some _ ↦ d ]

  unfoldable pub setdefault_all : List (UnifiedBar W) → List (UnifiedBar W) → List (UnifiedBar W)
  unfolding setdefault
  setdefault_all [] d = d
  setdefault_all (b ∷ bs) d = setdefault_all bs (setdefault b d)

  -- Newest first, and no bucket twice.
  abbrev pub IsSorted : List (UnifiedBar W) → Type 0
  IsSorted [] = Unit
  IsSorted (b ∷ bs) = All (λ c. c.ts < b.ts) bs × IsSorted bs

  at-below : (t : Time) (s : List (UnifiedBar W)) → All (λ c. c.ts < t) s → at t s ≡ none
  unfolding at
  at-below t [] h = refl
  at-below t (b ∷ bs) h = ground (arith, h.0, at-below t bs h.1)

  All-weaken :
      (t u : Time) (s : List (UnifiedBar W)) → t ≤ u → All (λ c. c.ts < t) s → All (λ c. c.ts < u) s
  All-weaken t u [] le h = tt
  All-weaken t u (b ∷ bs) le h = (omega (arith, h.0), All-weaken t u bs le h.1)

  All-install :
      (t : Time) (bar : UnifiedBar W) (s : List (UnifiedBar W))
      → bar.ts < t
      → All (λ c. c.ts < t) s
      → All (λ c. c.ts < t) (install bar s).1
  unfolding install
  All-install t bar [] lt h = (lt, tt)
  All-install t bar (b ∷ bs) lt h = ground (arith, h, All-install t bar bs lt h.1)

  pub install-IsSorted :
      (bar : UnifiedBar W) (s : List (UnifiedBar W)) → IsSorted s → IsSorted (install bar s).1
  unfolding install
  install-IsSorted bar [] h = (tt, tt)
  install-IsSorted bar (b ∷ bs) h = ground (
    arith,
    h,
    install-IsSorted bar bs h.1,
    λ (le : bar.ts < b.ts). All-install b.ts bar bs le h.0,
    λ (le : b.ts ≤ bar.ts). All-weaken b.ts bar.ts bs le h.0,
  )

  pub at-install :
      (bar : UnifiedBar W) (s : List (UnifiedBar W)) (t : Time)
      → IsSorted s
      → at t (install bar s).1 ≡ (if bar.ts == t then some bar else at t s)
  unfolding install at
  at-install bar [] t h = refl
  at-install bar (b ∷ bs) t h = ground (arith, h, at-install bar bs t h.1, at-below bar.ts bs)

  pub merge_all-IsSorted : (bars d : List (UnifiedBar W)) → IsSorted d → IsSorted (merge_all bars d)
  unfolding merge_all
  merge_all-IsSorted [] d h = h
  merge_all-IsSorted (b ∷ bs) d h = merge_all-IsSorted bs (install b d).1 (install-IsSorted b d h)

  -- The last of the bars with this start.
  unfoldable pub latest : Time → List (UnifiedBar W) → Option (UnifiedBar W)
  latest t [] = none
  latest t (b ∷ bs) = elim (latest t bs) [
    | none ↦ (if b.ts == t then some b else none)
    | some c ↦ some c
  ]

  pub at-merge_all :
      (bars d : List (UnifiedBar W)) (t : Time)
      → IsSorted d
      → at t (merge_all bars d) ≡ or_else (latest t bars) (at t d)
  unfolding merge_all latest at
  at-merge_all [] d t h = refl
  at-merge_all (b ∷ bs) d t h =
      ground (arith, at-merge_all bs (install b d).1 t (install-IsSorted b d h), at-install b d t h)

  setdefault-IsSorted :
      (b : UnifiedBar W) (d : List (UnifiedBar W)) → IsSorted d → IsSorted (setdefault b d)
  unfolding setdefault
  setdefault-IsSorted b d h = ground (arith, install-IsSorted b d h)

  at-setdefault :
      (b : UnifiedBar W) (d : List (UnifiedBar W)) (t : Time)
      → IsSorted d
      → at t (setdefault b d) ≡ or_else (at t d) (if b.ts == t then some b else none)
  unfolding setdefault
  at-setdefault b d t h = ground (arith, at-install b d t h)

  pub setdefault_all-IsSorted :
      (bars d : List (UnifiedBar W)) → IsSorted d → IsSorted (setdefault_all bars d)
  unfolding setdefault_all
  setdefault_all-IsSorted [] d h = h
  setdefault_all-IsSorted (b ∷ bs) d h =
      setdefault_all-IsSorted bs (setdefault b d) (setdefault-IsSorted b d h)

  pub at-setdefault_all :
      (bars d : List (UnifiedBar W)) (t : Time)
      → IsSorted d
      → at t (setdefault_all bars d) ≡ or_else (at t d) (at t bars)
  unfolding setdefault_all at
  at-setdefault_all [] d t h = ground arith
  at-setdefault_all (b ∷ bs) d t h = ground (
    arith,
    at-setdefault_all bs (setdefault b d) t (setdefault-IsSorted b d h),
    at-setdefault b d t h,
  )

  pub take-IsSorted : (n : ℕ) (s : List (UnifiedBar W)) → IsSorted s → IsSorted (take n s)
  take-IsSorted zero s h = tt
  take-IsSorted (suc n) [] h = tt
  take-IsSorted (suc n) (b ∷ bs) h = (All-take (λ c. c.ts < b.ts) n bs h.0, take-IsSorted n bs h.1)

  at-lt :
      (t u : Time) (s : List (UnifiedBar W)) (c : UnifiedBar W)
      → at t s ≡ some c
      → All (λ b. b.ts < u) s
      → t < u
  unfolding at
  at-lt t u [] c e h = cc
  at-lt t u (b ∷ bs) c e h = ground (arith, at-lt t u bs c, h)

  -- What `take` leaves out is older than all that it keeps, and it leaves out something only if full.
  pub at-take :
      (n : ℕ) (s : List (UnifiedBar W)) (t : Time)
      → IsSorted s
      → (at t (take n s) ≡ at t s)
        ⊎ ((at t (take n s) ≡ none) × (length (take n s) ≡ n) × All (λ c. t < c.ts) (take n s))
  unfolding at
  at-take zero s t h = inr (refl, refl, tt)
  at-take (suc n) [] t h = inl refl
  at-take (suc n) (b ∷ bs) t h = elim (Bool-cases (b.ts == t)) [
    | inl e ↦ rw e (inl refl)
    | inr e ↦ elim (at-take n bs t h.1) [
      | inl same ↦ rw (e, same) (inl refl)
      | inr (gone, full, newer) ↦ elim (Option-cases (at t bs)) [
        | inl absent ↦ rw (e, gone, absent) (inl refl)
        | inr (c, there) ↦
            rw (e, gone, full) (inr (refl, refl, (at-lt t b.ts bs c there h.0, newer)))
      ]
    ]
  ]
