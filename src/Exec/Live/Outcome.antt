-- ===== src/Exec/Live/Outcome.antt =====
-- What an order comes to, against what the venue answers.
use kotsin_nse.Prelude.{
  ℕ, zero, suc, ◌+◌, ◌<◌, ◌≡◌, ◌⊎◌, ◌∙◌, sym, refl, inl, inr, String, ap, subst, ◌==◌, true, false,
  Bool-cases, none, some, [], arith, ltb→lt,
}
use mathlib.Core.Option.{some-injective}
use kotsin_nse.Prelude.Ascii.{Text, one_of}
use kotsin_nse.Num.{Num}
use kotsin_nse.Domain.{OrderIntent, Purpose, entry, exit}
use kotsin_nse.Exec.Live.{
  LiveExecutor, LiveResult, LiveError, no_error, place_failed, not_terminal, refused, or_text, Row,
  Venue, Placement, returned, raised, settled, waiting, gave, venue_error, refusal, fail_loudly,
  terminal_ok, terminal_bad, status_of, fill_of, judge_row, poll_round, poll_from, await_fill,
  place,
}
use kotsin_nse.Exec.Live.Deadline.{
  Call-cases, Round-cases, in_time, poll_from-over, poll_from-settled, poll_from-waiting, sent,
  unsent, place-sent, place-unsent,
}

Purpose-cases : (p : Purpose) → (p ≡ entry) ⊎ (p ≡ exit)
Purpose-cases entry = inl refl
Purpose-cases exit = inr refl

settled-injective :
    {W : Type 0} {a b : Placement W × LiveExecutor W} → settled a ≡ settled b → a ≡ b
settled-injective h = cc

module _ {W : Type 0} ⦃f : Num W⦄ where
  -- No poll of the round shows the order in a terminal state.
  abbrev pub IsPending : OrderIntent W → Venue W → String → ℕ → Type 0
  IsPending intent v id n =
      (row : Row W)
      → v.order_status intent.instrument id n ≡ gave row
      → (one_of (status_of row) terminal_ok ≡ false) × (one_of (status_of row) terminal_bad ≡ false)

  -- The round in which the venue reported the order as filled, and the fill that was made of its row.
  pub record IsFilledAt (intent : OrderIntent W) (v : Venue W) (e : LiveExecutor W) (id : String)
      (n : ℕ) (r : LiveResult W) : Type 0 where
    pub row : Row W
    pub seen : v.order_status intent.instrument id n ≡ gave row
    pub good : one_of (status_of row) terminal_ok ≡ true
    pub filled : r.fill ≡ some (fill_of intent row (v.fill_clock n) e)
    pub named : r.order_id ≡ id

  -- A fill is the venue's own, from a round before the deadline and after none that was terminal.
  abbrev pub IsFill : OrderIntent W → Venue W → LiveExecutor W → String → Placement W → Type 0
  IsFill intent v e id raised = ⊥
  IsFill intent v e id (returned r) =
      (r.ok ≡ true)
      × ((n : ℕ) × IsFilledAt intent v e id n r
          × (v.test_clock n < v.started + e.poll_timeout)
          × ((m : ℕ) → m < n → IsPending intent v id m))

  -- A failure has no fill; it is returned for an entry and raised for an exit.
  abbrev pub IsRefusal : OrderIntent W → Placement W → Type 0
  IsRefusal intent raised = intent.purpose ≡ exit
  IsRefusal intent (returned r) = (r.ok ≡ false) × (r.fill ≡ none) × (intent.purpose ≡ entry)

  fail_loudly-IsRefusal :
      (intent : OrderIntent W) (id : String) (error : LiveError) (status : Text)
      → IsRefusal intent (fail_loudly intent (refusal id error status))
  fail_loudly-IsRefusal intent id error status = elim (Purpose-cases intent.purpose) [
    | inl p ↦ rw p (refl, refl, refl)
    | inr p ↦ rw p refl
  ]

  judge_row-waiting :
      (intent : OrderIntent W) (id : String) (row : Row W) (now : ℕ) (last last' : Text)
      (e : LiveExecutor W)
      → judge_row intent id row now last e ≡ waiting last'
      → (one_of (status_of row) terminal_ok ≡ false) × (one_of (status_of row) terminal_bad ≡ false)
  unfolding judge_row
  judge_row-waiting intent id row now last last' e h =
      elim (Bool-cases (one_of (status_of row) terminal_ok)) [
        | inl g ↦ absurd (cc (rw (g, judge_row) at h))
        | inr g ↦ elim (Bool-cases (one_of (status_of row) terminal_bad)) [
          | inl b ↦ absurd (cc (rw (g, b, judge_row) at h))
          | inr b ↦ (g, b)
        ]
      ]

  poll_round-waiting :
      (intent : OrderIntent W) (id : String) (v : Venue W) (n : ℕ) (last last' : Text)
      (e : LiveExecutor W)
      → poll_round intent id v n last e ≡ waiting last'
      → IsPending intent v id n
  unfolding poll_round
  poll_round-waiting intent id v n last last' e h row seen =
      judge_row-waiting intent id row (v.fill_clock n) last last' e (rw (seen, poll_round) at h)

  full : OrderIntent W → String → Row W → ℕ → LiveExecutor W → LiveResult W
  full intent id row now e = record {
    ok = true;
    order_id = id;
    fill = some (fill_of intent row now e);
    error = no_error;
    status = status_of row;
  }

  judge_row-settled :
      (intent : OrderIntent W) (id : String) (v : Venue W) (row : Row W) (n : ℕ) (last : Text)
      (e : LiveExecutor W) {p : Placement W} {e' : LiveExecutor W}
      → v.order_status intent.instrument id n ≡ gave row
      → v.test_clock n < v.started + e.poll_timeout
      → ((m : ℕ) → m < n → IsPending intent v id m)
      → judge_row intent id row (v.fill_clock n) last e ≡ settled (p, e')
      → IsFill intent v e id p ⊎ IsRefusal intent p
  unfolding judge_row full
  judge_row-settled intent id v row n last e {p} {e'} seen early before h =
      let status = status_of row in
      elim (Bool-cases (one_of status terminal_ok)) [
        | inl g ↦
            let res = full intent id row (v.fill_clock n) e in
            let q : returned res ≡ p = cc (settled-injective (rw (g, judge_row) at h)) in
            let at : IsFilledAt intent v e id n res = record {
              row = row;
              seen = seen;
              good = g;
              filled = refl;
              named = refl;
            } in
            inl (rw (← q) (refl, (n, at, early, before)))
        | inr g ↦ elim (Bool-cases (one_of status terminal_bad)) [
          | inl b ↦
              let reason = refused (or_text row.reason (or_text row.message status)) in
              let q : fail_loudly intent (refusal id reason status) ≡ p =
                cc (settled-injective (rw (g, b, judge_row) at h)) in
              inr (rw (← q) (fail_loudly-IsRefusal intent id reason status))
          | inr b ↦ absurd (cc (rw (g, b, judge_row) at h))
        ]
      ]

  poll_round-settled :
      (intent : OrderIntent W) (id : String) (v : Venue W) (n : ℕ) (last : Text)
      (e : LiveExecutor W) {p : Placement W} {e' : LiveExecutor W}
      → v.test_clock n < v.started + e.poll_timeout
      → ((m : ℕ) → m < n → IsPending intent v id m)
      → poll_round intent id v n last e ≡ settled (p, e')
      → IsFill intent v e id p ⊎ IsRefusal intent p
  unfolding poll_round
  poll_round-settled intent id v n last e early before h =
      elim (Call-cases (v.order_status intent.instrument id n)) [
        | inl (row, seen) ↦
            judge_row-settled intent id v row n last e seen early before
              (rw (seen, poll_round) at h)
        | inr (text, seen) ↦ absurd (cc (rw (seen, poll_round) at h))
      ]

  IsPending-suc :
      (intent : OrderIntent W) (id : String) (v : Venue W) (n : ℕ)
      → ((m : ℕ) → m < n → IsPending intent v id m)
      → IsPending intent v id n
      → (m : ℕ) → m < n + 1
      → IsPending intent v id m
  IsPending-suc intent id v n before now m h = elim (Bool-cases (m == n)) [
    | inl e ↦ let same : n ≡ m = ground arith in subst (IsPending intent v id) (same) now
    | inr e ↦ before m (ground arith)
  ]

  poll_from-answers :
      (fuel : ℕ) (intent : OrderIntent W) (id : String) (v : Venue W) (n : ℕ) (last : Text)
      (e : LiveExecutor W) {p : Placement W} {e' : LiveExecutor W}
      → ((m : ℕ) → m < n → IsPending intent v id m)
      → poll_from fuel intent id v n last e ≡ some (p, e')
      → IsFill intent v e id p ⊎ IsRefusal intent p
  unfolding poll_from
  poll_from-answers zero intent id v n last e before h = absurd (cc h)
  poll_from-answers (suc fuel) intent id v n last e {p} {e'} before h =
      elim (Bool-cases (in_time intent id v e n)) [
        | inr late ↦
            let q : fail_loudly intent (refusal id (not_terminal last) last) ≡ p =
              cc (some-injective _ _ (sym (poll_from-over intent id v e fuel n last late) ∙ h)) in
            inr (rw (← q) (fail_loudly-IsRefusal intent id (not_terminal last) last))
        | inl early ↦ elim (Round-cases intent id v e (poll_round intent id v n last e)) [
          | inl (out, r) ↦
              let q : out ≡ (p, e') =
                some-injective _ _
                  (sym (poll_from-settled intent id v e fuel n last out early r) ∙ h) in
              poll_round-settled intent id v n last e (ltb→lt _ _ early) before (r ∙ ap settled q)
          | inr (last', r) ↦
              poll_from-answers fuel intent id v (n + 1) last' e
                (IsPending-suc intent id v n before
                  (poll_round-waiting intent id v n last last' e r))
                (sym (poll_from-waiting intent id v e fuel n last last' early r) ∙ h)
        ]
      ]

  -- Whatever `place` comes to is the venue's doing: a result that is ok is the fill of an order that
  -- the venue took, made of the first terminal row of its polls, seen before the deadline and with a
  -- status of a completed order; any other outcome has no fill, and is an exception if the order is
  -- an exit and a returned failure if it is an entry, as is an order that the venue refused.
  pub place_answers :
      (fuel : ℕ) (intent : OrderIntent W) (v : Venue W) (e e' : LiveExecutor W) (p : Placement W)
      → place fuel intent v e ≡ some (p, e')
      → ((id : String) × (sent intent v e ≡ gave id)
          × (IsFill intent v (record e { placed = e.placed + 1 }) id p ⊎ IsRefusal intent p))
        ⊎ ((text : String) × (sent intent v e ≡ venue_error text) × IsRefusal intent p)
  unfolding await_fill
  place_answers fuel intent v e e' p h = elim (Call-cases (sent intent v e)) [
    | inl (id, s) ↦
        let began : LiveExecutor W = record e { placed = e.placed + 1 } in
        inl (
          id,
          s,
          poll_from-answers fuel intent id v 0 [] began (λ m l. absurd (omega arith))
              (sym (place-sent fuel intent v e s) ∙ h),
        )
    | inr (text, s) ↦
        let q : (unsent intent text e).0 ≡ p =
          cc (some-injective _ _ (sym (place-unsent fuel intent v e s) ∙ h)) in
        inr (text, s, rw (← q) (fail_loudly-IsRefusal intent "" (place_failed text) []))
  ]
