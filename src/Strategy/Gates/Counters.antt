-- ===== src/Strategy/Gates/Counters.antt =====
-- What the gates' counters hold after one row, after the rows of a candidate, and after its verdict.
use kotsin_nse.Prelude.{
  ℕ, ◌+◌, ◌&&◌, ◌++◌, ◌≤◌, ◌≡◌, refl, String, Bool, true, false, Option, none, some, List, [], ◌∷◌,
  arith, if◌then◌else◌,
}
use kotsin_nse.Prelude.Dict.{insert, lookup-insert}
use kotsin_nse.Prelude.Strings.{str_eq, str_eq_iff}
use kotsin_nse.Strategy.Gates.{
  Counter, count_of, bump, bump_if, GateStats, GateResult, is_failure, record_row, record_rows,
  record_verdict,
}

-- The sum of a counter.
unfoldable pub total : Counter → ℕ
total [] = 0
total ((k, n) ∷ c) = n + total c

count_of-bump :
    (k j : String) (c : Counter)
    → count_of j (bump k c) ≡ (if str_eq j k then count_of k c + 1 else count_of j c)
unfolding bump
count_of-bump k j c = ground (arith, lookup-insert k j (count_of k c + 1) c)

total-insert :
    (k : String) (n : ℕ) (c : Counter) → total (insert k n c) + count_of k c ≡ total c + n
unfolding total count_of
total-insert k n [] = omega arith
total-insert k n ((j, m) ∷ c) = ground (arith, total-insert k n c)

pub total-bump : (k : String) (c : Counter) → total (bump k c) ≡ total c + 1
unfolding bump
total-bump k c = omega (arith, total-insert k (count_of k c + 1) c)

pub count_of-bump_if :
    (b : Bool) (k j : String) (c : Counter)
    → count_of j (bump_if b k c) ≡ count_of j c + (if b && str_eq j k then 1 else 0)
count_of-bump_if b k j c = ground (arith, count_of-bump k j c, str_eq_iff j k)

-- Whether a gate is the one that a candidate failed first.
abbrev pub is_bound : String → Option String → ℕ
is_bound j none = 0
is_bound j (some who) = if str_eq j who then 1 else 0

abbrev pub is_none : Option String → Bool
is_none none = true
is_none (some who) = false

pub record_verdict_lem :
    (who : Option String) (s : GateStats) (j : String)
    → (count_of j (record_verdict who s).binding ≡ count_of j s.binding + is_bound j who)
      × (total (record_verdict who s).binding ≡ total s.binding + (if is_none who then 0 else 1))
      × ((record_verdict who s).passed ≡ s.passed + (if is_none who then 1 else 0))
      × ((record_verdict who s).evaluated ≡ s.evaluated)
      × ((record_verdict who s).missing ≡ s.missing)
      × ((record_verdict who s).rejected ≡ s.rejected)
      × ((record_verdict who s).candidates ≡ s.candidates)
unfolding record_verdict
record_verdict_lem none s j = (omega arith, omega arith, omega arith, refl, refl, refl, refl)
record_verdict_lem (some who) s j = (
  omega (arith, count_of-bump_if true who j s.binding),
  omega (arith, total-bump who s.binding),
  omega arith,
  refl,
  refl,
  refl,
  refl,
)

module _ {W : Type 0} where
  -- How many of the rows are of one gate and pass a test.
  unfoldable pub tally : (GateResult W → Bool) → String → List (GateResult W) → ℕ
  tally p j [] = 0
  tally p j (r ∷ rs) = (if p r && str_eq j r.name then 1 else 0) + tally p j rs

  abbrev pub every_row : GateResult W → Bool
  every_row r = true

  abbrev pub was_missing : GateResult W → Bool
  was_missing r = r.missing

  pub tally-append :
      (p : GateResult W → Bool) (j : String) (rs qs : List (GateResult W))
      → tally p j (rs ++ qs) ≡ tally p j rs + tally p j qs
  unfolding tally
  tally-append p j [] qs = omega arith
  tally-append p j (r ∷ rs) qs = omega (arith, tally-append p j rs qs)

  pub tally_mono :
      (p q : GateResult W → Bool) (j : String) (rs : List (GateResult W))
      → ((r : GateResult W) → p r ≡ true → q r ≡ true)
      → tally p j rs ≤ tally q j rs
  unfolding tally
  tally_mono p q j [] h = omega arith
  tally_mono p q j (r ∷ rs) h = ground (arith, h r, tally_mono p q j rs h)

  -- The rows of one candidate, gate by gate.
  pub record_rows_lem :
      (rs : List (GateResult W)) (s : GateStats) (j : String)
      → (count_of j (record_rows rs s).evaluated ≡ count_of j s.evaluated + tally every_row j rs)
        × (count_of j (record_rows rs s).missing ≡ count_of j s.missing + tally was_missing j rs)
        × (count_of j (record_rows rs s).rejected ≡ count_of j s.rejected + tally is_failure j rs)
        × ((record_rows rs s).binding ≡ s.binding)
        × ((record_rows rs s).candidates ≡ s.candidates)
        × ((record_rows rs s).passed ≡ s.passed)
  unfolding record_rows tally
  record_rows_lem [] s j = (omega arith, omega arith, omega arith, refl, refl, refl)
  record_rows_lem (r ∷ rs) s j =
      let ih = record_rows_lem rs (record_row r s) j in
      (
        omega (arith, ih.0, count_of-bump_if true r.name j s.evaluated),
        omega (arith, ih.1, count_of-bump_if r.missing r.name j s.missing),
        omega (arith, ih.2, count_of-bump_if (is_failure r) r.name j s.rejected),
        ih.3,
        ih.4,
        ih.5,
      )
