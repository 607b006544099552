-- ===== src/Exec/Gateway/Idempotency.antt =====
-- No client order id is placed twice, whatever calls are made.
use kotsin_nse.Prelude.{
  ℕ, ◌+◌, ◌≤◌, String, ◌≡◌, refl, ap, ◌&&◌, Bool-cases, inl, inr, true, Option, none, some, List,
  [], ◌∷◌, arith, if◌then◌else◌,
}
use kotsin_nse.Prelude.Strings.{member, str_eq_iff}
use kotsin_nse.Num.{Num}
use kotsin_nse.Domain.{OrderIntent, Time}
use kotsin_nse.Exec.Paper
use kotsin_nse.Exec.Paper.{Filled, filled, Matcher}
use kotsin_nse.Exec.Gateway.{
  Decision, Mode, shadow, paper, Order, OrderResult, is_entry, reject, precheck, after_precheck,
  by_mode, paper_result, order_for, rollover, LiveContext, Gateway, Inputs, Placement, returned,
  raised, remember, submit, submit_live, reset_breaker, dup_blocked,
}
use kotsin_nse.Exec.Gateway.Calls.{
  Call, paper_call, live_call, reset_call, remember_call, placed, live_placed, call, call_places,
  tries, run, placements,
}

module _ {W : Type 0} ⦃f : Num W⦄ where
  -- 1 if the id can no longer be placed.
  abbrev spent : String → Gateway W → ℕ
  spent k g = if member k g.seen then 1 else 0

  rollover-seen : (now : Time) (g : Gateway W) → (rollover now g).seen ≡ g.seen
  unfolding rollover
  rollover-seen now g = ground arith

  paper_result_lem :
      (order : Order W) (x : Filled W) (m : Matcher W) (g : Gateway W)
      → ((paper_result order (x, m) g).1.seen ≡ g.seen)
        × ((paper_result order (x, m) g).0.order.client_order_id ≡ order.client_order_id)
  unfolding paper_result
  paper_result_lem order (filled x) m g = (refl, refl)
  paper_result_lem order _ m g = (refl, refl)

  -- The mode's part of `submit` marks no id, and answers for the order that it is given.
  by_mode_lem :
      (mode : Mode) (intent : OrderIntent W) (order : Order W) (i : Inputs W) (g : Gateway W)
      → ((by_mode mode intent order i g).1.seen ≡ g.seen)
        × ((by_mode mode intent order i g).0.order.client_order_id ≡ order.client_order_id)
  unfolding by_mode
  by_mode_lem shadow intent order i g = (refl, refl)
  by_mode_lem paper intent order i g =
      let out = Paper.fill g.matcher intent i.book i.ltp i.now in
      paper_result_lem order out.0 out.1 g
  by_mode_lem _ intent order i g = (refl, refl)

  abbrev Spends : String → Gateway W → OrderResult W × Gateway W → Type 0
  Spends k g out = placed k out.0 + spent k g ≤ spent k out.1

  checked-Spends :
      (k : String) (intent : OrderIntent W) (i : Inputs W) (g : Gateway W)
      → let order = order_for intent i.mode in
        Spends k g (after_precheck (precheck intent order i.halted g) intent order i)
  unfolding precheck after_precheck order_for reject
  checked-Spends k intent i g =
      let order : Order W = order_for intent i.mode in
      let marked : Gateway W = record g { seen = intent.client_order_id ∷ g.seen } in
      let same = by_mode_lem i.mode intent order i marked in
      elim (Bool-cases (member intent.client_order_id g.seen)) [
        | inl e ↦ rw e (omega arith)
        | inr e ↦ elim (Bool-cases (i.halted && is_entry intent.purpose)) [
          | inl h ↦ rw (e, h) (ground arith)
          | inr h ↦ rw (e, h) (ground (arith, str_eq_iff k intent.client_order_id, same))
        ]
      ]

  submit-Spends :
      (k : String) (intent : OrderIntent W) (i : Inputs W) (g : Gateway W)
      → Spends k g (submit intent i g)
  unfolding submit
  submit-Spends k intent i g =
      let checked : Spends k (rollover i.now g) (submit intent i g) =
        checked-Spends k intent i (rollover i.now g) in
      let same : spent k (rollover i.now g) ≡ spent k g =
        ap (λ (ids : List String). if member k ids then 1 else 0) (rollover-seen i.now g) in
      omega (arith, checked, same)

  submit_live_spends :
      (k : String) (intent : OrderIntent W) (ctx : LiveContext W) (i : Inputs W)
      (place : Option (Placement W)) (g : Gateway W)
      → live_placed k intent i.mode place (submit_live intent ctx i place g).0 + spent k g
        ≤ spent k (submit_live intent ctx i place g).1
  unfolding submit_live
  submit_live_spends k intent ctx i none g = ground (arith, str_eq_iff k intent.client_order_id)
  submit_live_spends k intent ctx i (some raised) g =
      ground (arith, str_eq_iff k intent.client_order_id)
  submit_live_spends k intent ctx i (some (returned res)) g =
      ground (arith, str_eq_iff k intent.client_order_id)

  call_spends :
      (k : String) (c : Call W) (g : Gateway W)
      → call_places k c g + spent k g ≤ spent k (call c g).1
  unfolding call call_places remember reset_breaker
  call_spends k (paper_call intent i) g = submit-Spends k intent i g
  call_spends k (live_call intent ctx i place) g = submit_live_spends k intent ctx i place g
  call_spends k reset_call g = omega arith
  call_spends k (remember_call j) g = ground arith

  placements-le :
      (k : String) (cs : List (Call W)) (g : Gateway W)
      → placements k cs g + spent k g ≤ spent k (run cs g)
  unfolding placements run
  placements-le k [] g = omega arith
  placements-le k (c ∷ cs) g = omega (arith, call_spends k c g, placements-le k cs (call c g).1)

  -- Whatever sequence of paper orders, live orders, resets and restored ids the gateway is given, at
  -- most one order goes out under an id, and none if the gateway has seen the id before. A live order
  -- counts as soon as the executor has had it: also one that the broker refused, and one whose
  -- placement raised, which may be at the broker.
  pub placed_once :
      (k : String) (cs : List (Call W)) (g : Gateway W)
      → placements k cs g ≤ (if member k g.seen then 0 else 1)
  placed_once k cs g = ground (arith, placements-le k cs g)

  -- What became of a call that answered.
  abbrev pub refusal : Option (OrderResult W) → Option Decision
  refusal none = none
  refusal (some r) = some r.decision

  -- A restart that restores the ids of the ledger re-sends none of them.
  seen_is_blocked :
      (k : String) (c : Call W) (g : Gateway W)
      → tries k c ≡ true
      → member k g.seen ≡ true
      → refusal (call c g).0 ≡ some dup_blocked
  unfolding call tries submit submit_live
  seen_is_blocked k (paper_call intent i) g t h =
      ground (arith, str_eq_iff k intent.client_order_id, t, h)
  seen_is_blocked k (live_call intent ctx i none) g t h = absurd (ground (arith, t))
  seen_is_blocked k (live_call intent ctx i (some place)) g t h =
      ground (arith, str_eq_iff k intent.client_order_id, t, h)
  seen_is_blocked k reset_call g t h = absurd (ground (arith, t))
  seen_is_blocked k (remember_call j) g t h = absurd (ground (arith, t))

  call_marks :
      (k : String) (c : Call W) (g : Gateway W)
      → tries k c ≡ true
      → member k (call c g).1.seen ≡ true
  unfolding call tries submit submit_live
  call_marks k (paper_call intent i) g t = ground (arith, str_eq_iff k intent.client_order_id, t)
  call_marks k (live_call intent ctx i none) g t = absurd (ground (arith, t))
  call_marks k (live_call intent ctx i (some raised)) g t =
      ground (arith, str_eq_iff k intent.client_order_id, t)
  call_marks k (live_call intent ctx i (some (returned res))) g t =
      ground (arith, str_eq_iff k intent.client_order_id, t)
  call_marks k reset_call g t = absurd (ground (arith, t))
  call_marks k (remember_call j) g t = absurd (ground (arith, t))

  seen-run :
      (k : String) (cs : List (Call W)) (g : Gateway W)
      → member k g.seen ≡ true
      → member k (run cs g).seen ≡ true
  seen-run k cs g h = ground (arith, placements-le k cs g)

  -- An id is used up by the attempt, not by the fill: once an order has been tried under it, by a paper
  -- submission, or by a live one in a live mode with an executor, filled, rejected for want of a book,
  -- refused by a cap or the broker, or raised, every later such attempt under the id is refused as a
  -- duplicate, whatever calls come between.
  pub attempt_uses_id :
      (k : String) (attempt retry : Call W) (cs : List (Call W)) (g : Gateway W)
      → tries k attempt ≡ true
      → tries k retry ≡ true
      → refusal (call retry (run cs (call attempt g).1)).0 ≡ some dup_blocked
  attempt_uses_id k attempt retry cs g first again =
      seen_is_blocked k retry (run cs (call attempt g).1) again
        (seen-run k cs (call attempt g).1 (call_marks k attempt g first))
