-- ===== src/Strategy/Fukaa/Batch.antt =====
-- The caps of `select` over one batch of FUKAA's signals.
use kotsin_nse.Prelude.{
  ℕ, ◌+◌, ◌≤◌, ◌≡◌, Bool, true, not, Option, none, some, List, [], ◌∷◌, length, select, arith,
}
use kotsin_nse.Prelude.Sort.{sort_by}
use kotsin_nse.Prelude.Counts.{count, count-sort_by}
use kotsin_nse.Num.{Num}
use kotsin_nse.Strategy.Signals.{Signal}
use kotsin_nse.Strategy.Fukaa.{FukaaConfig}
use kotsin_nse.Strategy.Fukaa.Watch.{admit_from, select_signals, goes_up, ranks_before, below}

-- `n` keeps to a cap that is on.
abbrev pub IsWithin : Option ℕ → ℕ → Type 0
IsWithin none n = Unit
IsWithin (some cap) n = n ≤ cap

start_IsWithin : (cap : Option ℕ) → IsWithin cap 0
start_IsWithin none = tt
start_IsWithin (some c) = omega arith

step_IsWithin : (cap : Option ℕ) (n : ℕ) → below cap n ≡ true → IsWithin cap (n + 1)
step_IsWithin none n b = tt
step_IsWithin (some c) n b = ground (arith, b)

module _ {W : Type 0} ⦃f : Num W⦄ where
  unfoldable pub bullish_in : List (Signal W) → ℕ
  bullish_in xs = length (select (λ s. goes_up s.direction) xs)

  unfoldable pub bearish_in : List (Signal W) → ℕ
  bearish_in xs = length (select (λ s. not (goes_up s.direction)) xs)

  -- The loop, from counts within the caps.
  admit_from_lem :
      (cfg : FukaaConfig W) (n up down : ℕ) (xs : List (Signal W))
      → IsWithin cfg.top_n n
      → IsWithin cfg.max_same_direction up
      → IsWithin cfg.max_same_direction down
      → let r = admit_from cfg n up down xs in
        IsWithin cfg.top_n (n + length r.0)
        × IsWithin cfg.max_same_direction (up + bullish_in r.0)
        × IsWithin cfg.max_same_direction (down + bearish_in r.0)
  unfolding admit_from bullish_in bearish_in
  admit_from_lem cfg n up down [] a b c = ground (arith, a, b, c)
  admit_from_lem cfg n up down (s ∷ rest) a b c = ground (
    arith,
    step_IsWithin cfg.top_n n,
    step_IsWithin cfg.max_same_direction up,
    step_IsWithin cfg.max_same_direction down,
    admit_from_lem cfg n up down rest a b c,
    admit_from_lem cfg (n + 1) (up + 1) down rest,
    admit_from_lem cfg (n + 1) up (down + 1) rest,
  )

  -- The loop puts each signal into one of the lists, as it is.
  admit_from_splits :
      (t : Signal W → Bool) (cfg : FukaaConfig W) (n up down : ℕ) (xs : List (Signal W))
      → count t (admit_from cfg n up down xs).0 + count t (admit_from cfg n up down xs).1
        ≡ count t xs
  unfolding admit_from count
  admit_from_splits t cfg n up down [] = ground arith
  admit_from_splits t cfg n up down (s ∷ rest) = ground (
    arith,
    admit_from_splits t cfg n up down rest,
    admit_from_splits t cfg (n + 1) (up + 1) down rest,
    admit_from_splits t cfg (n + 1) up (down + 1) rest,
  )

  -- `select` splits a batch into admitted and dropped signals without losing, adding or changing one:
  -- whatever test is put to the signals, as many of the two lists together pass it as of the batch. It
  -- admits no more than the cap on the batch and no more of either direction than the cap on directions,
  -- where these caps are on.
  pub select_keeps_caps :
      (t : Signal W → Bool) (cfg : FukaaConfig W) (signals : List (Signal W))
      → let r = select_signals cfg signals in
        (count t r.0 + count t r.1 ≡ count t signals)
        × IsWithin cfg.top_n (length r.0)
        × IsWithin cfg.max_same_direction (bullish_in r.0)
        × IsWithin cfg.max_same_direction (bearish_in r.0)
  unfolding select_signals count
  select_keeps_caps t cfg signals =
      let ranked = sort_by ranks_before signals in
      ground (
        arith,
        admit_from_splits t cfg 0 0 0 ranked,
        count-sort_by t ranks_before signals,
        admit_from_lem cfg 0 0 0 ranked (start_IsWithin cfg.top_n)
            (start_IsWithin cfg.max_same_direction) (start_IsWithin cfg.max_same_direction),
      )
