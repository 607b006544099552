-- ===== src/Ops/Health/Streaks.antt =====
-- A check is reported exactly when it has failed often enough in a row.
use kotsin_nse.Prelude.{
  ℕ, ◌+◌, ◌≡◌, refl, ◌∙◌, sym, ap, String, Bool, true, false, not, ◌&&◌, Bool-cases, inl, inr, List,
  [], ◌∷◌, ◌++◌, All, select, map, arith, leb, if◌then◌else◌,
}
use mathlib.Core.List.{append-nil, append_assoc}
use kotsin_nse.Prelude.Dict.{lookup-insert}
use kotsin_nse.Prelude.Strings.{str_eq, str_eq_iff}
use kotsin_nse.Ops.Health.{
  Check, HealthMonitor, streak_of, set_streak, observe, observe_all, evaluate_checks,
}

-- The failures of a check at the end of a run, after `n` failures before it.
unfoldable pub trailing : String → ℕ → List Check → ℕ
trailing name n [] = n
trailing name n (c ∷ checks) =
    trailing name (if str_eq name c.name then (if c.ok then 0 else n + 1) else n) checks

-- Evaluations one after the other.
unfoldable pub evaluate_all : List (List Check) → HealthMonitor → HealthMonitor
unfolding evaluate_checks
evaluate_all [] m = m
evaluate_all (checks ∷ more) m = evaluate_all more (evaluate_checks checks m).1

unfoldable pub all_checks : List (List Check) → List Check
all_checks [] = []
all_checks (checks ∷ more) = checks ++ all_checks more

-- No name stands twice in one evaluation.
abbrev pub HasOwnNames : List Check → Type 0
HasOwnNames [] = Unit
HasOwnNames (c ∷ checks) = All (λ d. str_eq d.name c.name ≡ false) checks × HasOwnNames checks

streak_of-set :
    (name k : String) (n : ℕ) (m : HealthMonitor)
    → streak_of name (set_streak k n m) ≡ (if str_eq name k then n else streak_of name m)
unfolding streak_of
streak_of-set name k n m = ground (arith, lookup-insert k name n m.streak)

observe-streak :
    (name : String) (c : Check) (ds : List String) (m : HealthMonitor)
    → streak_of name (observe c (ds, m)).1 ≡ (
        if str_eq name c.name then (if c.ok then 0 else streak_of name m + 1) else streak_of name m)
unfolding observe
observe-streak name c ds m =
    let same : str_eq name c.name ≡ true → streak_of name m ≡ streak_of c.name m =
      λ e. ap (λ k. streak_of k m) ((str_eq_iff name c.name).0 e) in
    ground (
      arith,
      same,
      streak_of-set name c.name 0 m,
      streak_of-set name c.name (streak_of c.name m + 1) m,
    )

observe-required :
    (c : Check) (ds : List String) (m : HealthMonitor)
    → (observe c (ds, m)).1.consecutive_required ≡ m.consecutive_required
unfolding observe
observe-required c ds m = ground arith

observe_all-streak :
    (name : String) (checks : List Check) (ds : List String) (m : HealthMonitor)
    → (streak_of name (observe_all checks (ds, m)).1 ≡ trailing name (streak_of name m) checks)
      × ((observe_all checks (ds, m)).1.consecutive_required ≡ m.consecutive_required)
unfolding observe_all trailing
observe_all-streak name [] ds m = (refl, refl)
observe_all-streak name (c ∷ checks) ds m =
    let next = observe c (ds, m) in
    let (streak, required) = observe_all-streak name checks next.0 next.1 in
    (
      streak ∙ ap (λ (n : ℕ). trailing name n checks) (observe-streak name c ds m),
      required ∙ observe-required c ds m,
    )

trailing-append :
    (name : String) (n : ℕ) (xs ys : List Check)
    → trailing name n (xs ++ ys) ≡ trailing name (trailing name n xs) ys
unfolding trailing
trailing-append name n [] ys = refl
trailing-append name n (c ∷ xs) ys =
    trailing-append name (if str_eq name c.name then (if c.ok then 0 else n + 1) else n) xs ys

evaluate_all-streak :
    (name : String) (history : List (List Check)) (m : HealthMonitor)
    → (streak_of name (evaluate_all history m)
        ≡ trailing name (streak_of name m) (all_checks history))
      × ((evaluate_all history m).consecutive_required ≡ m.consecutive_required)
unfolding evaluate_all all_checks evaluate_checks trailing
evaluate_all-streak name [] m = (refl, refl)
evaluate_all-streak name (checks ∷ history) m =
    let (one, required) = observe_all-streak name checks [] m in
    let (more, kept) = evaluate_all-streak name history (evaluate_checks checks m).1 in
    (
      more
          ∙ ap (λ (n : ℕ). trailing name n (all_checks history)) one
          ∙ sym (trailing-append name (streak_of name m) checks (all_checks history)),
      kept ∙ required,
    )

-- Whether a check is red after a streak of earlier failures.
abbrev pub is_red : ℕ → (String → ℕ) → Check → Bool
is_red required failures c = not c.ok && leb required (failures c.name + 1)

abbrev pub name_of : Check → String
name_of c = c.name

observe-degraded :
    (c : Check) (ds : List String) (m : HealthMonitor)
    → (observe c (ds, m)).0
      ≡ (if is_red m.consecutive_required (λ k. streak_of k m) c then ds ++ c.name ∷ [] else ds)
unfolding observe
observe-degraded c ds m = ground arith

-- The other checks of an evaluation keep their streaks.
others_keep :
    (c : Check) (checks : List Check) (ds : List String) (m : HealthMonitor) (failures : String → ℕ)
    → All (λ d. str_eq d.name c.name ≡ false) checks
    → All (λ d. streak_of d.name m ≡ failures d.name) checks
    → All (λ d. streak_of d.name (observe c (ds, m)).1 ≡ failures d.name) checks
others_keep c [] ds m failures p q = tt
others_keep c (d ∷ checks) ds m failures p q =
    let e : streak_of d.name (observe c (ds, m)).1 ≡ failures d.name =
      rw p.0 at (observe-streak d.name c ds m) ∙ q.0 in
    (e, others_keep c checks ds m failures p.1 q.1)

red-cons :
    (b : Bool) (ds rest : List String) (name : String)
    → (if b then ds ++ name ∷ [] else ds) ++ rest ≡ ds ++ (if b then name ∷ rest else rest)
red-cons true ds rest name = append_assoc ds (name ∷ []) rest
red-cons false ds rest name = refl

map-select-cons :
    (p : Check → Bool) (c : Check) (checks : List Check)
    → map name_of (select p (c ∷ checks))
      ≡ (if p c then c.name ∷ map name_of (select p checks) else map name_of (select p checks))
map-select-cons p c checks = elim (Bool-cases (p c)) [ inl e ↦ rw e refl | inr e ↦ rw e refl ]

observe_all-degraded :
    (checks : List Check) (ds : List String) (m : HealthMonitor) (required : ℕ)
    (failures : String → ℕ)
    → HasOwnNames checks
    → m.consecutive_required ≡ required
    → All (λ d. streak_of d.name m ≡ failures d.name) checks
    → (observe_all checks (ds, m)).0 ≡ ds ++ map name_of (select (is_red required failures) checks)
unfolding observe_all
observe_all-degraded [] ds m required failures own r q = sym (append-nil ds)
observe_all-degraded (c ∷ checks) ds m required failures own r q =
    let next = observe c (ds, m) in
    let red = is_red required failures in
    let rest = map name_of (select red checks) in
    let ih =
      observe_all-degraded checks next.0 next.1 required failures own.1
        (observe-required c ds m ∙ r) (others_keep c checks ds m failures own.0 q.1) in
    let first : next.0 ≡ (if red c then ds ++ c.name ∷ [] else ds) =
      observe-degraded c ds m ∙ rw (q.0, r) refl in
    ih
    ∙ ap (λ (xs : List String). xs ++ rest) first
    ∙ red-cons (red c) ds rest c.name
    ∙ ap (λ (xs : List String). ds ++ xs) (sym (map-select-cons red c checks))

All-refl : (P : Check → Type 0) (checks : List Check) → ((c : Check) → P c) → All P checks
All-refl P [] h = tt
All-refl P (c ∷ checks) h = (h c, All-refl P checks h)

-- After any earlier evaluations, an evaluation in which no name stands twice reports, in their order,
-- exactly the checks that fail now and whose failures in a row, over all the evaluations, have
-- reached the required number.
pub degraded_exact :
    (required : ℕ) (history : List (List Check)) (checks : List Check)
    → HasOwnNames checks
    → let fresh : HealthMonitor = record { consecutive_required = required; streak = [] } in
      (evaluate_checks checks (evaluate_all history fresh)).0
      ≡ map name_of (select (is_red required (λ k. trailing k 0 (all_checks history))) checks)
unfolding evaluate_checks streak_of
degraded_exact required history checks own =
    let fresh : HealthMonitor = record { consecutive_required = required; streak = [] } in
    let m = evaluate_all history fresh in
    let failures : String → ℕ = λ k. trailing k 0 (all_checks history) in
    observe_all-degraded checks [] m required failures own (evaluate_all-streak "" history fresh).1
      (All-refl (λ d. streak_of d.name m ≡ failures d.name) checks
        (λ c. (evaluate_all-streak c.name history fresh).0))
