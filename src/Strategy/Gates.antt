-- ===== src/Strategy/Gates.antt =====
-- backend/kotsin_nse/strategy/gates.py: gates with a policy for missing data, and the counters of what
-- they reject. A `Counter` is a dict of counts; the notes and the JSON are left out.
pub mod Counters
pub mod Balance
use kotsin_nse.Prelude.{
  ℕ, ◌+◌, String, Bool, true, false, not, ◌&&◌, ◌||◌, Option, none, some, List, [], ◌∷◌,
  if◌then◌else◌,
}
use kotsin_nse.Prelude.Dict.{Dict, lookup, insert}

pub data OnMissing : Type 0 where
  fail_open fail_closed : OnMissing

pub record GateResult (W : Type 0) : Type 0 where
  pub name : String
  pub passed : Bool
  pub required : Bool
  pub value : Option W
  pub threshold : Option W
  pub missing : Bool

pub record Gate : Type 0 where
  pub name : String
  pub on_missing : OnMissing
  pub required : Bool

abbrev pub is_fail_open : OnMissing → Bool
is_fail_open fail_open = true
is_fail_open fail_closed = false

abbrev pub Counter : Type 0
Counter = Dict ℕ

-- `counter[k]`, with 0 for a missing key
unfoldable pub count_of : String → Counter → ℕ
count_of k c = elim (lookup k c) [ none ↦ 0 | some n ↦ n ]

-- `counter[k] += 1`
unfoldable pub bump : String → Counter → Counter
unfolding count_of
bump k c = insert k (count_of k c + 1) c

abbrev pub bump_if : Bool → String → Counter → Counter
bump_if b k c = if b then bump k c else c

pub record GateStats : Type 0 where
  pub evaluated : Counter
  pub rejected : Counter
  pub missing : Counter
  pub binding : Counter
  pub candidates : ℕ
  pub passed : ℕ

abbrev pub new_stats : GateStats
new_stats = record {
  evaluated = [];
  rejected = [];
  missing = [];
  binding = [];
  candidates = 0;
  passed = 0;
}

-- The end of `record`.
unfoldable pub record_verdict : Option String → GateStats → GateStats
record_verdict none s = record s { passed = s.passed + 1 }
record_verdict (some who) s = record s { binding = bump who s.binding }

module _ {W : Type 0} where
  -- `Gate.evaluate`
  unfoldable pub evaluate : Gate → Option W → (W → Bool) → Option W → GateResult W
  evaluate g none predicate threshold = record {
    name = g.name;
    passed = is_fail_open g.on_missing;
    required = g.required;
    value = none;
    threshold = threshold;
    missing = true;
  }
  evaluate g (some value) predicate threshold = record {
    name = g.name;
    passed = predicate value;
    required = g.required;
    value = some value;
    threshold = threshold;
    missing = false;
  }

  -- `Gate.verdict`
  unfoldable pub verdict : Gate → Bool → Option W → GateResult W
  verdict g passed value = record {
    name = g.name;
    passed = passed;
    required = g.required;
    value = value;
    threshold = none;
    missing = false;
  }

  -- `r.required and not r.passed`
  abbrev pub is_failure : GateResult W → Bool
  is_failure r = r.required && not r.passed

  unfoldable pub chain_passed : List (GateResult W) → Bool
  chain_passed [] = true
  chain_passed (r ∷ rs) = (r.passed || not r.required) && chain_passed rs

  unfoldable pub failed_gates : List (GateResult W) → List String
  failed_gates [] = []
  failed_gates (r ∷ rs) = let rest = failed_gates rs in if is_failure r then r.name ∷ rest else rest

  -- The first required gate that failed.
  unfoldable pub binding_gate : List (GateResult W) → Option String
  unfolding failed_gates
  binding_gate rs = elim (failed_gates rs) [ [] ↦ none | name ∷ _ ↦ some name ]

  -- The body of the loop of `record`.
  unfoldable pub record_row : GateResult W → GateStats → GateStats
  record_row r s = record s {
    evaluated = bump r.name s.evaluated;
    missing = bump_if r.missing r.name s.missing;
    rejected = bump_if (is_failure r) r.name s.rejected;
  }

  unfoldable pub record_rows : List (GateResult W) → GateStats → GateStats
  unfolding record_row
  record_rows [] s = s
  record_rows (r ∷ rs) s = record_rows rs (record_row r s)

  -- `GateStats.record`
  unfoldable pub record_chain : List (GateResult W) → GateStats → GateStats
  unfolding record_rows record_verdict binding_gate
  record_chain rs s =
      record_verdict (binding_gate rs) (record_rows rs (record s { candidates = s.candidates + 1 }))

  -- A run of candidates, one after the other.
  unfoldable pub record_all : List (List (GateResult W)) → GateStats → GateStats
  unfolding record_chain
  record_all [] s = s
  record_all (rs ∷ chains) s = record_all chains (record_chain rs s)
