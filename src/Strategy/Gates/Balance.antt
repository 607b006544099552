-- ===== src/Strategy/Gates/Balance.antt =====
-- The counters of the gates add up.
use kotsin_nse.Prelude.{
  ℕ, ◌+◌, ◌++◌, length, ◌≤◌, ◌≡◌, ◌∙◌, ap, refl, String, Bool, true, false, List, [], ◌∷◌, arith,
  if◌then◌else◌,
}
use kotsin_nse.Strategy.Gates.{
  Counter, count_of, GateStats, new_stats, GateResult, is_failure, chain_passed, binding_gate,
  record_rows, record_chain, record_all,
}
use kotsin_nse.Strategy.Gates.Counters.{
  total, tally, every_row, was_missing, tally-append, tally_mono, record_rows_lem,
  record_verdict_lem, is_bound, is_none,
}

balance :
    (b : Bool) {t t' t'' p p' p'' : ℕ}
    → t'' ≡ t' + (if b then 0 else 1)
    → p'' ≡ p' + (if b then 1 else 0)
    → t' ≡ t
    → p' ≡ p
    → p'' + t'' ≡ p + t + 1
balance true h k e d = omega arith
balance false h k e d = omega arith

module _ {W : Type 0} where
  -- How many of the candidates a gate was the first to reject.
  unfoldable pub first_rejections : String → List (List (GateResult W)) → ℕ
  first_rejections j [] = 0
  first_rejections j (rs ∷ chains) = is_bound j (binding_gate rs) + first_rejections j chains

  -- How many of the candidates passed.
  unfoldable pub passing : List (List (GateResult W)) → ℕ
  passing [] = 0
  passing (rs ∷ chains) = (if chain_passed rs then 1 else 0) + passing chains

  unfoldable pub all_rows : List (List (GateResult W)) → List (GateResult W)
  all_rows [] = []
  all_rows (rs ∷ chains) = rs ++ all_rows chains

  chain_passed-eq-binding : (rs : List (GateResult W)) → chain_passed rs ≡ is_none (binding_gate rs)
  unfolding chain_passed binding_gate
  chain_passed-eq-binding [] = refl
  chain_passed-eq-binding (r ∷ rs) = ground (arith, chain_passed-eq-binding rs)

  -- The gate that a candidate failed first is among those that it failed.
  binding-le-failures :
      (j : String) (rs : List (GateResult W)) → is_bound j (binding_gate rs) ≤ tally is_failure j rs
  unfolding binding_gate tally
  binding-le-failures j [] = omega arith
  binding-le-failures j (r ∷ rs) = ground (arith, binding-le-failures j rs)

  -- What one candidate adds to the counters.
  record_chain_lem :
      (rs : List (GateResult W)) (s : GateStats) (j : String)
      → let s' = record_chain rs s in
        (count_of j s'.evaluated ≡ count_of j s.evaluated + tally every_row j rs)
        × (count_of j s'.missing ≡ count_of j s.missing + tally was_missing j rs)
        × (count_of j s'.rejected ≡ count_of j s.rejected + tally is_failure j rs)
        × (count_of j s'.binding ≡ count_of j s.binding + is_bound j (binding_gate rs))
        × (s'.passed ≡ s.passed + (if chain_passed rs then 1 else 0))
        × (s'.candidates ≡ s.candidates + 1)
        × (s'.passed + total s'.binding ≡ s.passed + total s.binding + 1)
  unfolding record_chain
  record_chain_lem rs s j =
      let begun = record s { candidates = s.candidates + 1 } in
      let rows = record_rows_lem rs begun j in
      let end = record_verdict_lem (binding_gate rs) (record_rows rs begun) j in
      (
        ap (count_of j) end.3 ∙ rows.0,
        ap (count_of j) end.4 ∙ rows.1,
        ap (count_of j) end.5 ∙ rows.2,
        end.0 ∙ ap (λ (c : Counter). count_of j c + is_bound j (binding_gate rs)) rows.3,
        end.2 ∙ rw (rows.5, chain_passed-eq-binding rs) refl,
        end.6 ∙ rows.4,
        balance (is_none (binding_gate rs)) end.1 end.2 (ap total rows.3) rows.5,
      )

  -- What a run of candidates adds to the counters.
  record_all_lem :
      (chains : List (List (GateResult W))) (s : GateStats) (j : String)
      → let s' = record_all chains s in
        (count_of j s'.evaluated ≡ count_of j s.evaluated + tally every_row j (all_rows chains))
        × (count_of j s'.missing ≡ count_of j s.missing + tally was_missing j (all_rows chains))
        × (count_of j s'.rejected ≡ count_of j s.rejected + tally is_failure j (all_rows chains))
        × (count_of j s'.binding ≡ count_of j s.binding + first_rejections j chains)
        × (s'.passed ≡ s.passed + passing chains)
        × (s'.candidates ≡ s.candidates + length chains)
        × (s'.passed + total s'.binding ≡ s.passed + total s.binding + length chains)
  unfolding record_all all_rows first_rejections passing tally
  record_all_lem [] s j = omega arith
  record_all_lem (rs ∷ chains) s j =
      let one = record_chain_lem rs s j in
      let more = record_all_lem chains (record_chain rs s) j in
      let rows = all_rows chains in
      (
        omega (arith, one.0, more.0, tally-append every_row j rs rows),
        omega (arith, one.1, more.1, tally-append was_missing j rs rows),
        omega (arith, one.2, more.2, tally-append is_failure j rs rows),
        omega (arith, one.3, more.3),
        omega (arith, one.4, more.4),
        omega (arith, one.5, more.5),
        omega (arith, one.6, more.6),
      )

  first_rejections-le :
      (j : String) (chains : List (List (GateResult W)))
      → first_rejections j chains ≤ tally is_failure j (all_rows chains)
  unfolding first_rejections all_rows tally
  first_rejections-le j [] = omega arith
  first_rejections-le j (rs ∷ chains) = omega (
    arith,
    tally-append is_failure j rs (all_rows chains),
    binding-le-failures j rs,
    first_rejections-le j chains,
  )

  -- After any run of candidates the counters are exact: for each gate, how often it was evaluated, was
  -- missing its input, rejected, and was the first to reject; every candidate either passed all its
  -- required gates or is booked on one binding gate; and no gate is binding more often than it
  -- rejected, nor rejected more often than it was evaluated.
  pub gate_stats_balance :
      (chains : List (List (GateResult W))) (j : String)
      → let s = record_all chains new_stats in
        (count_of j s.evaluated ≡ tally every_row j (all_rows chains))
        × (count_of j s.missing ≡ tally was_missing j (all_rows chains))
        × (count_of j s.rejected ≡ tally is_failure j (all_rows chains))
        × (count_of j s.binding ≡ first_rejections j chains)
        × (s.passed ≡ passing chains)
        × (s.candidates ≡ length chains)
        × (s.passed + total s.binding ≡ s.candidates)
        × (count_of j s.binding ≤ count_of j s.rejected)
        × (count_of j s.rejected ≤ count_of j s.evaluated)
  unfolding count_of total
  gate_stats_balance chains j =
      let all = record_all_lem chains new_stats j in
      let rows = all_rows chains in
      let first = first_rejections-le j chains in
      let some_rows = tally_mono is_failure every_row j rows (λ r h. refl) in
      (
        omega (arith, all.0),
        omega (arith, all.1),
        omega (arith, all.2),
        omega (arith, all.3),
        omega (arith, all.4),
        omega (arith, all.5),
        omega (arith, all.5, all.6),
        omega (arith, all.2, all.3, first),
        omega (arith, all.0, all.2, some_rows),
      )
