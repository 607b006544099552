-- ===== src/Exec/Live/Deadline.antt =====
-- The poll loop ends: each round sleeps, and the clock runs up to the deadline.
use kotsin_nse.Prelude.{
  ℕ, zero, suc, ◌+◌, ◌*◌, ◌≤◌, ◌<◌, ◌≡◌, ◌⊎◌, true, false, refl, inl, inr, ◌∙◌, String, Bool,
  Bool-cases, ltb, some, [], arith,
}
use kotsin_nse.Prelude.Ascii.{Text}
use kotsin_nse.Num.{Num, nought}
use kotsin_nse.Domain.{OrderIntent}
use kotsin_nse.Exec.Live.{
  LiveExecutor, Venue, Placement, Round, settled, waiting, Call, gave, venue_error, poll_round,
  fail_loudly, refusal, or_num, place_failed, not_terminal, poll_from, await_fill, place,
}

-- What a sleep promises: between two readings of the test the poll interval has passed.
abbrev pub IsTicking : {W : Type 0} → ℕ → Venue W → Type 0
IsTicking interval v = (n : ℕ) → v.test_clock n + interval ≤ v.test_clock (n + 1)

pub Call-cases :
    {A : Type 0} (c : Call A)
    → ((a : A) × (c ≡ gave a)) ⊎ ((text : String) × (c ≡ venue_error text))
Call-cases (gave a) = inl (a, refl)
Call-cases (venue_error text) = inr (text, refl)

module _ {W : Type 0} ⦃f : Num W⦄ (intent : OrderIntent W) (id : String) (v : Venue W)
    (e : LiveExecutor W) where
  abbrev pub over : Text → Placement W × LiveExecutor W
  over last = (fail_loudly intent (refusal id (not_terminal last) last), e)

  abbrev pub in_time : ℕ → Bool
  in_time n = ltb (v.test_clock n) (v.started + e.poll_timeout)

  pub Round-cases :
      (r : Round W)
      → ((out : Placement W × LiveExecutor W) × (r ≡ settled out))
        ⊎ ((last : Text) × (r ≡ waiting last))
  Round-cases (settled out) = inl (out, refl)
  Round-cases (waiting last) = inr (last, refl)

  -- One round of the loop, by how it ends.
  pub poll_from-over :
      (fuel n : ℕ) (last : Text)
      → in_time n ≡ false
      → poll_from (suc fuel) intent id v n last e ≡ some (over last)
  unfolding poll_from
  poll_from-over fuel n last late = rw (late, poll_from) refl

  pub poll_from-settled :
      (fuel n : ℕ) (last : Text) (out : Placement W × LiveExecutor W)
      → in_time n ≡ true
      → poll_round intent id v n last e ≡ settled out
      → poll_from (suc fuel) intent id v n last e ≡ some out
  unfolding poll_from
  poll_from-settled fuel n last out early r = rw (early, r, poll_from) refl

  pub poll_from-waiting :
      (fuel n : ℕ) (last last' : Text)
      → in_time n ≡ true
      → poll_round intent id v n last e ≡ waiting last'
      → poll_from (suc fuel) intent id v n last e ≡ poll_from fuel intent id v (n + 1) last' e
  unfolding poll_from
  poll_from-waiting fuel n last last' early r = rw (early, r, poll_from) refl

  left :
      (rounds n : ℕ)
      → v.test_clock n + e.poll_interval ≤ v.test_clock (n + 1)
      → v.started + e.poll_timeout ≤ v.test_clock n + suc rounds * e.poll_interval
      → v.started + e.poll_timeout ≤ v.test_clock (n + 1) + rounds * e.poll_interval
  left rounds n t h = grind arith

  poll_from-next :
      (rounds k n : ℕ) (last last' : Text) (out : Placement W × LiveExecutor W)
      → in_time n ≡ true
      → poll_round intent id v n last e ≡ waiting last'
      → suc rounds ≤ k
      → ((j : ℕ) → rounds ≤ j → poll_from (suc j) intent id v (n + 1) last' e ≡ some out)
      → poll_from (suc k) intent id v n last e ≡ some out
  poll_from-next rounds zero n last last' out early r m run = absurd (omega arith)
  poll_from-next rounds (suc k) n last last' out early r m run =
      poll_from-waiting (suc k) n last last' early r ∙ run k (omega arith)

  late :
      (n : ℕ)
      → v.started + e.poll_timeout ≤ v.test_clock n + 0 * e.poll_interval
      → in_time n ≡ false
  late n h = ground arith

  poll_from_ends :
      (rounds n : ℕ) (last : Text)
      → IsTicking e.poll_interval v
      → v.started + e.poll_timeout ≤ v.test_clock n + rounds * e.poll_interval
      → (out : Placement W × LiveExecutor W) × ((k : ℕ)
          → rounds ≤ k
          → poll_from (suc k) intent id v n last e ≡ some out)
  poll_from_ends zero n last tick h = (over last, λ k m. poll_from-over k n last (late n h))
  poll_from_ends (suc rounds) n last tick h = elim (Bool-cases (in_time n)) [
    | inr late ↦ (over last, λ k m. poll_from-over k n last late)
    | inl early ↦ elim (Round-cases (poll_round intent id v n last e)) [
      | inl (out, r) ↦ (out, λ k m. poll_from-settled k n last out early r)
      | inr (last', r) ↦
          let (out, run) = poll_from_ends rounds (n + 1) last' tick (left rounds n (tick n) h) in
          (out, λ k m. poll_from-next rounds k n last last' out early r m run)
    ]
  ]

above {ℓ} :
    (P : ℕ → Type ℓ) (n : ℕ) → ((k : ℕ) → n ≤ k → P (suc k)) → (fuel : ℕ) → n < fuel → P fuel
above P n h zero m = absurd (omega arith)
above P n h (suc k) m = h k (omega arith)

module _ {W : Type 0} ⦃f : Num W⦄ where
  await_fill_ends :
      (rounds : ℕ) (intent : OrderIntent W) (id : String) (v : Venue W) (e : LiveExecutor W)
      → IsTicking e.poll_interval v
      → v.started ≤ v.test_clock 0
      → e.poll_timeout ≤ rounds * e.poll_interval
      → (out : Placement W × LiveExecutor W) × ((fuel : ℕ)
          → rounds < fuel
          → await_fill fuel intent id v e ≡ some out)
  unfolding await_fill
  await_fill_ends rounds intent id v e tick start h =
      let (out, run) = poll_from_ends intent id v e rounds 0 [] tick (omega arith) in
      (out, above (λ fuel. poll_from fuel intent id v 0 [] e ≡ some out) rounds run)

  -- The call of `place_order` that `place` makes.
  abbrev pub sent : OrderIntent W → Venue W → LiveExecutor W → Call String
  sent intent v e =
      v.place_order intent.instrument intent.side intent.qty (or_num intent.limit_price nought)
        e.intraday intent.client_order_id

  abbrev pub unsent : OrderIntent W → String → LiveExecutor W → Placement W × LiveExecutor W
  unsent intent text e = (
    fail_loudly intent (refusal "" (place_failed text) []),
    record e { rejected = e.rejected + 1 },
  )

  pub place-sent :
      (fuel : ℕ) (intent : OrderIntent W) (v : Venue W) (e : LiveExecutor W) {id : String}
      → sent intent v e ≡ gave id
      → place fuel intent v e ≡ await_fill fuel intent id v (record e { placed = e.placed + 1 })
  unfolding place
  place-sent fuel intent v e s = rw (s, place) refl

  pub place-unsent :
      (fuel : ℕ) (intent : OrderIntent W) (v : Venue W) (e : LiveExecutor W) {text : String}
      → sent intent v e ≡ venue_error text
      → place fuel intent v e ≡ some (unsent intent text e)
  unfolding place
  place-unsent fuel intent v e s = rw (s, place) refl

  -- `place` ends, whatever the venue answers, if each sleep lasts at least the poll interval and the
  -- clock does not run back before the first test: where `rounds` poll intervals make up the timeout,
  -- more rounds of fuel than that all give one and the same outcome.
  pub place_terminates :
      (rounds : ℕ) (intent : OrderIntent W) (v : Venue W) (e : LiveExecutor W)
      → IsTicking e.poll_interval v
      → v.started ≤ v.test_clock 0
      → e.poll_timeout ≤ rounds * e.poll_interval
      → (out : Placement W × LiveExecutor W) × ((fuel : ℕ)
          → rounds < fuel
          → place fuel intent v e ≡ some out)
  place_terminates rounds intent v e tick start h = elim (Call-cases (sent intent v e)) [
    | inl (id, s) ↦
        let e' : LiveExecutor W = record e { placed = e.placed + 1 } in
        let (out, run) = await_fill_ends rounds intent id v e' tick start h in
        (out, λ fuel m. place-sent fuel intent v e s ∙ run fuel m)
    | inr (text, s) ↦ (unsent intent text e, λ fuel m. place-unsent fuel intent v e s)
  ]
