-- ===== src/Exec/Gateway/Calls.antt =====
-- Sequences of calls on one gateway, as the engine makes them in any order.
use kotsin_nse.Prelude.{
  ℕ, ◌+◌, String, Bool, true, false, ◌&&◌, Option, none, some, List, [], ◌∷◌, if◌then◌else◌,
}
use kotsin_nse.Prelude.Strings.{str_eq}
use kotsin_nse.Num.{Num}
use kotsin_nse.Domain.{OrderIntent}
use kotsin_nse.Exec.Gateway.{
  Decision, submitted, paper_filled, shadow_ok, LiveContext, OrderResult, Gateway, Inputs,
  Placement, Reply, answered, failed, Mode, is_live_mode, rejected_broker, remember, submit,
  submit_live, reset_breaker,
}

pub data Call (W : Type 0) : Type 0 where
  paper_call : OrderIntent W → Inputs W → Call W
  live_call : OrderIntent W → LiveContext W → Inputs W → Option (Placement W) → Call W
  reset_call : Call W
  remember_call : String → Call W

-- The decisions under which an order went out.
abbrev pub is_placed : Decision → Bool
is_placed submitted = true
is_placed paper_filled = true
is_placed shadow_ok = true
is_placed _ = false

-- The replies after which the executor has had the order: a fill, the broker's refusal, or an
-- exception, after which the order may be at the broker. A refusal by the pipeline is none of them.
abbrev pub is_handed_over : {W : Type 0} → Reply W → Bool
is_handed_over failed = true
is_handed_over (answered r) = elim r.decision [
  | submitted ↦ true
  | rejected_broker ↦ true
  | _ ↦ false
]

-- 1 if a paper or shadow order under the id `k` went out.
abbrev pub placed : {W : Type 0} → String → OrderResult W → ℕ
placed k r = if is_placed r.decision && str_eq k r.order.client_order_id then 1 else 0

-- 1 if a live order under the id `k` was handed to the executor, whatever came of it.
abbrev pub live_placed :
    {W : Type 0} → String → OrderIntent W → Mode → Option (Placement W) → Reply W → ℕ
live_placed k intent mode none r = 0
live_placed k intent mode (some place) r =
    if is_live_mode mode && is_handed_over r && str_eq k intent.client_order_id then 1 else 0

abbrev pub reply_result : {W : Type 0} → Reply W → Option (OrderResult W)
reply_result (answered r) = some r
reply_result failed = none

module _ {W : Type 0} ⦃f : Num W⦄ where
  unfoldable pub call : Call W → Gateway W → Option (OrderResult W) × Gateway W
  call (paper_call intent i) g = let (r, g') = submit intent i g in (some r, g')
  call (live_call intent ctx i place) g =
      let (r, g') = submit_live intent ctx i place g in (reply_result r, g')
  call reset_call g = (none, reset_breaker g)
  call (remember_call k) g = (none, remember k g)

  -- How many orders, 0 or 1, the call places under the id `k`.
  unfoldable pub call_places : String → Call W → Gateway W → ℕ
  call_places k (paper_call intent i) g = placed k (submit intent i g).0
  call_places k (live_call intent ctx i place) g =
      live_placed k intent i.mode place (submit_live intent ctx i place g).0
  call_places k reset_call g = 0
  call_places k (remember_call j) g = 0

  -- Whether the call tries an order under the id `k`: a paper submission, or a live one in a live
  -- mode with an executor configured.
  unfoldable pub tries : String → Call W → Bool
  tries k (paper_call intent i) = str_eq k intent.client_order_id
  tries k (live_call intent ctx i none) = false
  tries k (live_call intent ctx i (some place)) =
      is_live_mode i.mode && str_eq k intent.client_order_id
  tries k _ = false

  unfoldable pub run : List (Call W) → Gateway W → Gateway W
  unfolding call
  run [] g = g
  run (c ∷ cs) g = run cs (call c g).1

  -- How many orders the calls place under the id `k`.
  unfoldable pub placements : String → List (Call W) → Gateway W → ℕ
  unfolding call call_places
  placements k [] g = 0
  placements k (c ∷ cs) g = call_places k c g + placements k cs (call c g).1
