-- ===== src/Bus.antt =====
-- backend/kotsin_nse/bus.py: typed topics over bounded queues. `asyncio.Queue` is a list, oldest
-- first; `put` on a full queue waits, which shows as the outcome `blocked` with the event that waits.
pub mod Conservation
use kotsin_nse.Prelude.{
  ℕ, ◌+◌, Bool, true, false, not, ◌&&◌, Option, none, some, List, [], ◌∷◌, ◌++◌, length, leb, ◌==◌,
  if◌then◌else◌,
}

pub data Topic : Type 0 where
  tick depth oi bar boundary signal order_intent order_event fill position_event control : Topic

pub data Policy : Type 0 where
  drop_oldest block : Policy

-- `topic in NEVER_DROP`
unfoldable pub never_drop : Topic → Bool
never_drop tick = false
never_drop depth = false
never_drop oi = false
never_drop bar = false
never_drop _ = true

pub record Subscription (A : Type 0) : Type 0 where
  pub topic : Topic
  pub queue : List A
  pub maxsize : ℕ
  pub policy : Policy
  pub dropped : ℕ

-- `Queue.full`: a queue of size 0 has no bound.
unfoldable pub full : {A : Type 0} → Subscription A → Bool
full s = not (s.maxsize == 0) && leb s.maxsize (length s.queue)

module _ {A : Type 0} where
  -- `subscribe`
  unfoldable pub subscribe : Topic → ℕ → Option Policy → Subscription A
  unfolding never_drop
  subscribe topic maxsize policy = record {
    topic = topic;
    queue = [];
    maxsize = maxsize;
    policy = elim policy [ none ↦ if never_drop topic then block else drop_oldest | some p ↦ p ];
    dropped = 0;
  }

  -- `put_nowait`, where there is room.
  put : A → Subscription A → Subscription A
  put event s = record s { queue = s.queue ++ event ∷ [] }

  tail : List A → List A
  tail [] = []
  tail (x ∷ xs) = xs

  -- `publish` on one subscription: the new subscription, and whether the publisher has to wait.
  offer_by : Policy → A → Subscription A → Subscription A × Bool
  unfolding put full tail
  offer_by block event s = if full s then (s, true) else (put event s, false)
  offer_by drop_oldest event s =
      if full s
      then (put event (record s { queue = tail s.queue; dropped = s.dropped + 1 }), false)
      else (put event s, false)

  unfoldable pub offer : A → Subscription A → Subscription A × Bool
  unfolding offer_by
  offer event s = offer_by s.policy event s

  -- `publish` over the subscriptions of a topic. A publisher that waits has served those before,
  -- and those after it have to wait with it.
  unfoldable pub publish : A → List (Subscription A) → List (Subscription A) × Bool
  unfolding offer
  publish event [] = ([], false)
  publish event (s ∷ rest) =
      let (s', waits) = offer event s in
      let (rest', later) = publish event rest in
      if waits then (s' ∷ rest, true) else (s' ∷ rest', later)

  -- A consumer's `get`: the oldest event, if there is one.
  take_from : List A → Subscription A → Option A × Subscription A
  take_from [] s = (none, s)
  take_from (x ∷ xs) s = (some x, record s { queue = xs })

  unfoldable pub consume : Subscription A → Option A × Subscription A
  unfolding take_from
  consume s = take_from s.queue s
