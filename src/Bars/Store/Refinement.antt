-- ===== src/Bars/Store/Refinement.antt =====
-- The store as a map from a symbol, a timeframe and the start of a bucket to a bar.
use mathlib.Core.Path.{fun_ext}
use kotsin_nse.Prelude.{
  and_true, ℕ, ◌<◌, ◌≡◌, ◌⊎◌, inl, inr, refl, String, Bool, true, ◌&&◌, Option, none, some, List,
  [], All, length, ◌==◌, arith, Bool-cases, if◌then◌else◌,
}
use kotsin_nse.Prelude.Strings.{str_eq, str_eq_iff}
use kotsin_nse.Domain.{Time}
use kotsin_nse.Market.Session.{Frame, same_frame}
use kotsin_nse.Bars.Bar.{UnifiedBar}
use kotsin_nse.Bars.Store.{BarStore, set_at, replace_closed, seed}
use kotsin_nse.Bars.Store.Series.{
  at, latest, or_else, IsSorted, install-IsSorted, at-install, merge_all, merge_all-IsSorted,
  at-merge_all, setdefault_all, setdefault_all-IsSorted, at-setdefault_all, take-IsSorted, at-take,
}

-- The test of the store's key.
abbrev pub same_key : String → Frame → String → Frame → Bool
same_key symbol tf s t = str_eq symbol s && same_frame tf t

-- The abstract store: what it holds for each bucket.
abbrev pub BarMap : Type 0 → Type 0
BarMap W = String → Frame → Time → Option (UnifiedBar W)

same_frame-eq : (a b : Frame) → same_frame a b ≡ true → a ≡ b
same_frame-eq a b h = ground (arith, h)

-- What stands in a dict after one entry has been set.
pub set_at-elim {ℓ} :
    {V : Type 0} (P : V → Type ℓ) (symbol : String) (tf : Frame) (v : V) (d : String → Frame → V)
    (s : String) (t : Frame)
    → P v
    → P (d s t)
    → P (set_at symbol tf v d s t)
unfolding set_at
set_at-elim P symbol tf v d s t h k = elim (Bool-cases (same_key symbol tf s t)) [
  | inl e ↦ rw e h
  | inr e ↦ rw e k
]

same_key-same :
    {V : Type 0} (d : String → Frame → V) (symbol : String) (tf : Frame) (s : String) (t : Frame)
    → same_key symbol tf s t ≡ true
    → d symbol tf ≡ d s t
same_key-same d symbol tf s t e =
    let key = and_true e in
    let same : symbol ≡ s = (str_eq_iff symbol s).0 key.0 in
    let frame : tf ≡ t = same_frame-eq tf t key.1 in rw (same, frame)

module _ {W : Type 0} where
  unfoldable pub view : BarStore W → BarMap W
  unfolding at
  view s symbol tf ts = at ts (s.closed symbol tf)

  -- Every series is sorted, with one bar for each bucket.
  abbrev pub IsStore : BarStore W → Type 0
  IsStore s = (symbol : String) (tf : Frame) → IsSorted (s.closed symbol tf)

  -- The abstract operation: one bucket of one series changed.
  unfoldable pub put : UnifiedBar W → BarMap W → BarMap W
  put bar m symbol tf ts =
      if same_key bar.symbol bar.tf symbol tf && (bar.ts == ts) then some bar else m symbol tf ts

  replace_closed_lem :
      (bar : UnifiedBar W) (s : BarStore W) (symbol : String) (tf : Frame) (ts : Time)
      → IsStore s
      → IsSorted ((replace_closed bar s).1.closed symbol tf)
        × (view (replace_closed bar s).1 symbol tf ts
            ≡ put (record bar { complete = true }) (view s) symbol tf ts)
  unfolding replace_closed set_at view put
  replace_closed_lem bar s symbol tf ts h =
      let done : UnifiedBar W = record bar { complete = true } in
      let old = s.closed bar.symbol bar.tf in
      let sorted = install-IsSorted done old (h bar.symbol bar.tf) in
      let there = at-install done old ts (h bar.symbol bar.tf) in
      elim (Bool-cases (same_key bar.symbol bar.tf symbol tf)) [
        | inl e ↦
            let same = same_key-same s.closed bar.symbol bar.tf symbol tf e in
            rw (e) (sorted, rw (← same) there)
        | inr e ↦ rw e (h symbol tf, refl)
      ]

  -- The abstract `seed`: one series overwritten, bucket by bucket, by the latest of the new bars.
  unfoldable pub reseed : String → Frame → List (UnifiedBar W) → BarMap W → BarMap W
  reseed symbol tf bars m s t ts =
      if same_key symbol tf s t then or_else (latest ts bars) (m symbol tf ts) else m s t ts

  -- A bucket that a full series has lost: all that is left is newer.
  abbrev pub IsTrimmed : ℕ → Time → List (UnifiedBar W) → Type 0
  IsTrimmed cap ts series =
      (at ts series ≡ none) × (length series ≡ cap) × All (λ c. ts < c.ts) series

  seed_lem :
      (symbol : String) (tf : Frame) (bars : List (UnifiedBar W)) (s : BarStore W) (sym : String)
      (t : Frame) (ts : Time)
      → IsStore s
      → IsSorted ((seed symbol tf bars s).1.closed sym t)
        × ((view (seed symbol tf bars s).1 sym t ts ≡ reseed symbol tf bars (view s) sym t ts)
            ⊎ IsTrimmed s.max_bars ts ((seed symbol tf bars s).1.closed sym t))
  unfolding seed set_at view reseed
  seed_lem symbol tf bars s sym t ts h =
      let old = s.closed symbol tf in
      let fresh = merge_all bars [] in
      let ordered = merge_all-IsSorted bars [] tt in
      let merged = setdefault_all-IsSorted old fresh ordered in
      let there : at ts (setdefault_all old fresh) ≡ or_else (latest ts bars) (at ts old) =
        ground (arith, at-setdefault_all old fresh ts ordered, at-merge_all bars [] ts tt) in
      let sorted = take-IsSorted s.max_bars (setdefault_all old fresh) merged in
      let kept = at-take s.max_bars (setdefault_all old fresh) ts merged in
      elim (Bool-cases (same_key symbol tf sym t)) [
        | inl e ↦ rw (e, ← there) (sorted, kept)
        | inr e ↦ rw e (h sym t, inl refl)
      ]

  -- A store whose series are sorted and hold no bucket twice refines a map from buckets to bars:
  -- `replace_closed` keeps it so and changes the map at the bar's own bucket and nowhere else; `seed`
  -- keeps it so and overwrites the map by the latest new bar of each bucket, except that a series
  -- that has reached the cap may lack a bucket older than all that it holds.
  pub buckets_refine_map :
      (s : BarStore W) (bar : UnifiedBar W) (symbol : String) (tf : Frame)
      (bars : List (UnifiedBar W))
      → IsStore s
      → IsStore (replace_closed bar s).1
        × (view (replace_closed bar s).1 ≡ put (record bar { complete = true }) (view s))
        × IsStore (seed symbol tf bars s).1
        × ((sym : String) (t : Frame) (ts : Time)
            → (view (seed symbol tf bars s).1 sym t ts ≡ reseed symbol tf bars (view s) sym t ts)
              ⊎ IsTrimmed s.max_bars ts ((seed symbol tf bars s).1.closed sym t))
  buckets_refine_map s bar symbol tf bars h = (
    λ sym t. (replace_closed_lem bar s sym t 0 h).0,
    fun_ext λ sym. fun_ext λ t. fun_ext λ ts. (replace_closed_lem bar s sym t ts h).1,
    λ sym t. (seed_lem symbol tf bars s sym t 0 h).0,
    λ sym t ts. (seed_lem symbol tf bars s sym t ts h).1,
  )
