-- ===== src/Exec/Gateway/Breaker.antt =====
-- The circuit breaker trips at the set number of rejections in a row, and at no other time.
use kotsin_nse.Prelude.{
  Bool-cases, inl, inr, ℕ, suc, ◌+◌, ◌≤◌, ◌<◌, max, ◌≡◌, true, false, ◌||◌, ◌&&◌, List, [], ◌∷◌,
  arith, ap, ◌∙◌, refl, ◌==◌, leb, if◌then◌else◌,
}
use kotsin_nse.Num.{Num}
use kotsin_nse.Domain.{OrderIntent, Time}
use kotsin_nse.Prelude.Strings.{member}
use kotsin_nse.Market.Session.{ist_day}
use kotsin_nse.Exec.Paper
use kotsin_nse.Exec.Paper.{Filled, filled, Matcher}
use kotsin_nse.Exec.Gateway.{
  Decision, dup_blocked, rejected_halt, rejected_book, rejected_broker, paper_filled, shadow_ok,
  Mode, shadow, paper, LiveCaps, Order, Gateway, Inputs, is_entry, reject, paper_result, by_mode,
  precheck, after_precheck, rollover, order_for, submit,
}
use kotsin_nse.Exec.Gateway.Calls.{is_placed}

-- The rejections in a row after one more decision: a placement ends the row, a duplicate is none.
abbrev pub in_a_row : Decision → ℕ → ℕ
in_a_row dup_blocked n = n
in_a_row d n = if is_placed d then 0 else n + 1

-- The longest row, with `n` rejections before the first decision.
unfoldable pub longest_row : ℕ → List Decision → ℕ
longest_row n [] = n
longest_row n (d ∷ ds) = max n (longest_row (in_a_row d n) ds)

le-longest_row : (n : ℕ) (ds : List Decision) → n ≤ longest_row n ds
unfolding longest_row
le-longest_row n [] = omega arith
le-longest_row n (d ∷ ds) = omega arith

module _ {W : Type 0} ⦃f : Num W⦄ where
  unfoldable pub submit_all : List (OrderIntent W × Inputs W) → Gateway W → Gateway W
  submit_all [] g = g
  submit_all ((intent, i) ∷ rest) g = submit_all rest (submit intent i g).1

  unfoldable pub decisions : List (OrderIntent W × Inputs W) → Gateway W → List Decision
  decisions [] g = []
  decisions ((intent, i) ∷ rest) g =
      (submit intent i g).0.decision ∷ decisions rest (submit intent i g).1

  abbrev limit : Gateway W → ℕ
  limit g = g.caps.breaker_consecutive_rejects

  record Counted (g : Gateway W) (d : Decision) (g' : Gateway W) : Type 0 where
    count : g'.consecutive_rejects ≡ in_a_row d g.consecutive_rejects
    trip : g'.breaker_tripped ≡ (
        g.breaker_tripped
        || (leb (limit g) (in_a_row d g.consecutive_rejects)
            && leb (suc g.consecutive_rejects) (in_a_row d g.consecutive_rejects)))
    same : limit g' ≡ limit g

  -- The counts do not read the other fields.
  Counted-same :
      (g h : Gateway W) (d : Decision) (g' : Gateway W)
      → h.consecutive_rejects ≡ g.consecutive_rejects
      → h.breaker_tripped ≡ g.breaker_tripped
      → h.caps ≡ g.caps
      → Counted h d g'
      → Counted g d g'
  Counted-same g h d g' n t c k =
      let l : limit h ≡ limit g = ap (λ (x : LiveCaps W). x.breaker_consecutive_rejects) c in
      record { count = rw (← n) k.count; trip = rw (← n, ← t, ← l) k.trip; same = k.same ∙ l }

  reject-Counted :
      (order : Order W) (d : Decision) (g : Gateway W)
      → is_placed d ≡ false
      → Counted g d (reject order d g).1
  unfolding reject
  reject-Counted order d g e = record {
    count = ground arith;
    trip = ground arith;
    same = ground arith;
  }

  placed-Counted :
      (d : Decision) (g g' : Gateway W)
      → is_placed d ≡ true
      → g'.consecutive_rejects ≡ 0
      → g'.breaker_tripped ≡ g.breaker_tripped
      → g'.caps ≡ g.caps
      → Counted g d g'
  placed-Counted d g g' p n t c = record {
    count = ground arith;
    trip = ground arith;
    same = ap (λ (x : LiveCaps W). x.breaker_consecutive_rejects) c;
  }

  paper_result-Counted :
      (order : Order W) (x : Filled W) (m : Matcher W) (g : Gateway W)
      → Counted g (paper_result order (x, m) g).0.decision (paper_result order (x, m) g).1
  unfolding paper_result
  paper_result-Counted order (filled x) m g = placed-Counted paper_filled g _ refl refl refl refl
  paper_result-Counted order _ m g =
      Counted-same g (record g { matcher = m }) rejected_book _ refl refl refl
        (reject-Counted order rejected_book (record g { matcher = m }) refl)

  by_mode-Counted :
      (mode : Mode) (intent : OrderIntent W) (order : Order W) (i : Inputs W) (g : Gateway W)
      → Counted g (by_mode mode intent order i g).0.decision (by_mode mode intent order i g).1
  unfolding by_mode
  by_mode-Counted shadow intent order i g = placed-Counted shadow_ok g _ refl refl refl refl
  by_mode-Counted paper intent order i g =
      let out = Paper.fill g.matcher intent i.book i.ltp i.now in
      paper_result-Counted order out.0 out.1 g
  by_mode-Counted _ intent order i g = reject-Counted order rejected_broker g refl

  checked-Counted :
      (intent : OrderIntent W) (order : Order W) (i : Inputs W) (g : Gateway W)
      → let out = after_precheck (precheck intent order i.halted g) intent order i in
        Counted g out.0.decision out.1
  unfolding precheck after_precheck
  checked-Counted intent order i g =
      let marked : Gateway W = record g { seen = intent.client_order_id ∷ g.seen } in
      elim (Bool-cases (member intent.client_order_id g.seen)) [
        | inl e ↦ rw e (reject-Counted order dup_blocked g refl)
        | inr e ↦ elim (Bool-cases (i.halted && is_entry intent.purpose)) [
          | inl h ↦
              rw (e, h)
                (Counted-same g marked rejected_halt _ refl refl refl
                  (reject-Counted order rejected_halt marked refl))
          | inr h ↦
              rw (e, h)
                (Counted-same g marked _ _ refl refl refl
                  (by_mode-Counted i.mode intent order i marked))
        ]
      ]

  rollover_keeps :
      (now : Time) (g : Gateway W)
      → ((rollover now g).consecutive_rejects ≡ g.consecutive_rejects)
        × ((rollover now g).breaker_tripped ≡ g.breaker_tripped)
        × ((rollover now g).caps ≡ g.caps)
  unfolding rollover
  rollover_keeps now g = elim (Bool-cases (ist_day now == g.day)) [
    | inl e ↦ rw e (refl, refl, refl)
    | inr e ↦ rw e (refl, refl, refl)
  ]

  submit-Counted :
      (intent : OrderIntent W) (i : Inputs W) (g : Gateway W)
      → Counted g (submit intent i g).0.decision (submit intent i g).1
  unfolding submit
  submit-Counted intent i g =
      let (n, t, c) = rollover_keeps i.now g in
      Counted-same g (rollover i.now g) _ _ n t c
        (checked-Counted intent (order_for intent i.mode) i (rollover i.now g))

  stays_tripped :
      (orders : List (OrderIntent W × Inputs W)) (g : Gateway W)
      → g.breaker_tripped ≡ true
      → (submit_all orders g).breaker_tripped ≡ true
  unfolding submit_all
  stays_tripped [] g h = h
  stays_tripped ((intent, i) ∷ rest) g h =
      let c = submit-Counted intent i g in
      stays_tripped rest (submit intent i g).1 (ground (arith, c.trip))

  -- From fewer rejections than the limit and an untripped breaker, a sequence of submissions
  -- leaves the breaker tripped exactly if the rejections in a row reach the limit somewhere in it,
  -- counting no duplicates and starting again at each placed order.
  pub breaker_exact :
      (orders : List (OrderIntent W × Inputs W)) (g : Gateway W)
      → g.consecutive_rejects < limit g
      → g.breaker_tripped ≡ false
      → (submit_all orders g).breaker_tripped
        ≡ leb (limit g) (longest_row g.consecutive_rejects (decisions orders g))
  unfolding submit_all decisions longest_row
  breaker_exact [] g h b = ground arith
  breaker_exact ((intent, i) ∷ rest) g h b =
      let c = submit-Counted intent i g in
      let (r, g') = submit intent i g in
      elim (Bool-cases g'.breaker_tripped) [
        | inl tripped ↦ rw (stays_tripped rest g' tripped) (
            ground
              (arith, c.trip, c.count, le-longest_row g'.consecutive_rejects (decisions rest g')))
        | inr running ↦ ground (arith, c.trip, c.count, c.same, breaker_exact rest g')
      ]
