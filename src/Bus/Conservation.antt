-- ===== src/Bus/Conservation.antt =====
-- What becomes of each event that is offered to a subscription.
use kotsin_nse.Prelude.{
  ℕ, ◌+◌, ◌≤◌, ◌<◌, ◌≡◌, refl, Bool, true, false, Option, none, some, List, [], ◌∷◌, ◌++◌, length,
  length-append, arith, sym, ◌∙◌, Bool-cases, inl, inr, ◌-◌, if◌then◌else◌,
}
use mathlib.Core.List.{append_assoc}
use kotsin_nse.Bus.{
  Topic, Policy, drop_oldest, block, Subscription, offer, consume, full, subscribe, never_drop,
  offer_by, take_from, tail,
}

-- The two ends of a subscription, in any order: the publisher offers, the consumer takes.
pub data Event (A : Type 0) : Type 0 where
  offered : A → Event A
  taken : Event A

-- What has happened to the events so far.
pub record History (A : Type 0) : Type 0 where
  pub sub : Subscription A
  pub accepted : List A
  pub delivered : List A

module _ {A : Type 0} where
  abbrev accept : A → List A → Bool → List A
  accept x xs waits = if waits then xs else xs ++ x ∷ []

  abbrev deliver : Option A → List A → List A
  deliver none xs = xs
  deliver (some x) xs = xs ++ x ∷ []

  unfoldable pub step : Event A → History A → History A
  step (offered x) h =
      let (s, waits) = offer x h.sub in record h { sub = s; accepted = accept x h.accepted waits }
  step taken h =
      let (o, s) = consume h.sub in record h { sub = s; delivered = deliver o h.delivered }

  unfoldable pub run : List (Event A) → History A → History A
  unfolding step
  run [] h = h
  run (e ∷ es) h = run es (step e h)

  abbrev pub start : Subscription A → History A
  start s = record { sub = s; accepted = []; delivered = [] }

  -- `IsPart xs ys`: `xs` is `ys` with some elements left out.
  pub data IsPart : List A → List A → Type 0 where
    done : IsPart [] []
    keep : {x : A} {xs ys : List A} → IsPart xs ys → IsPart (x ∷ xs) (x ∷ ys)
    skip : {y : A} {xs ys : List A} → IsPart xs ys → IsPart xs (y ∷ ys)

  IsPart-snoc : {xs ys : List A} (z : A) → IsPart xs ys → IsPart (xs ++ z ∷ []) (ys ++ z ∷ [])
  IsPart-snoc z done = keep done
  IsPart-snoc z (keep p) = keep (IsPart-snoc z p)
  IsPart-snoc z (skip p) = skip (IsPart-snoc z p)

  IsPart-trans : {ys zs : List A} → IsPart ys zs → {xs : List A} → IsPart xs ys → IsPart xs zs
  IsPart-trans done p = p
  IsPart-trans (keep q) (keep p) = keep (IsPart-trans q p)
  IsPart-trans (keep q) (skip p) = skip (IsPart-trans q p)
  IsPart-trans (skip q) p = skip (IsPart-trans q p)

  IsPart-refl : (xs : List A) → IsPart xs xs
  IsPart-refl [] = done
  IsPart-refl (x ∷ xs) = keep (IsPart-refl xs)

  IsPart-middle : (ds : List A) (x : A) (q : List A) → IsPart (ds ++ q) (ds ++ x ∷ q)
  IsPart-middle [] x q = skip (IsPart-refl q)
  IsPart-middle (d ∷ ds) x q = keep (IsPart-middle ds x q)

  IsPart-put :
      (ds q : List A) {ys : List A} (z : A)
      → IsPart (ds ++ q) ys
      → IsPart (ds ++ (q ++ z ∷ [])) (ys ++ z ∷ [])
  IsPart-put ds q z p = rw (← append_assoc) (IsPart-snoc z p)

  IsPart-drop :
      (ds q : List A) {ys : List A} (z : A)
      → IsPart (ds ++ q) ys
      → IsPart (ds ++ (tail q ++ z ∷ [])) (ys ++ z ∷ [])
  unfolding tail
  IsPart-drop ds [] z p = IsPart-put ds [] z p
  IsPart-drop ds (x ∷ q) z p = IsPart-put ds q z (IsPart-trans p (IsPart-middle ds x q))

  offer_by-IsPart :
      (policy : Policy) (x : A) (s : Subscription A) (ds : List A) {ys : List A}
      → IsPart (ds ++ s.queue) ys
      → let (s', waits) = offer_by policy x s in IsPart (ds ++ s'.queue) (accept x ys waits)
  unfolding offer_by
  offer_by-IsPart block x s ds p = elim (Bool-cases (full s)) [
    | inl e ↦ rw e p
    | inr e ↦ rw e (IsPart-put ds s.queue x p)
  ]
  offer_by-IsPart drop_oldest x s ds p = elim (Bool-cases (full s)) [
    | inl e ↦ rw e (IsPart-drop ds s.queue x p)
    | inr e ↦ rw e (IsPart-put ds s.queue x p)
  ]

  take_from-IsPart :
      (q : List A) (s : Subscription A) (ds : List A) {ys : List A}
      → s.queue ≡ q
      → IsPart (ds ++ q) ys
      → let (o, s') = take_from q s in IsPart (deliver o ds ++ s'.queue) ys
  unfolding take_from
  take_from-IsPart [] s ds e p = rw e p
  take_from-IsPart (x ∷ q) s ds e p = rw append_assoc p

  length-tail : (q : List A) → length (tail q) ≡ length q - 1
  unfolding tail
  length-tail [] = omega arith
  length-tail (x ∷ q) = omega arith

  pub record IsFifo (h : History A) : Type 0 where
    pub part : IsPart (h.delivered ++ h.sub.queue) h.accepted
    pub count : length h.accepted ≡ length h.delivered + length h.sub.queue + h.sub.dropped
    pub bound : 0 < h.sub.maxsize → length h.sub.queue ≤ h.sub.maxsize

  step-IsFifo : (e : Event A) (h : History A) → IsFifo h → IsFifo (step e h)
  unfolding step offer consume full
  step-IsFifo (offered x) h inv = record {
    part = offer_by-IsPart h.sub.policy x h.sub h.delivered inv.part;
    count = ground (
      arith,
      length-append h.accepted (x ∷ []),
      length-append h.sub.queue (x ∷ []),
      length-append (tail h.sub.queue) (x ∷ []),
      length-tail h.sub.queue,
    );
    bound = ground (
      arith,
      inv.bound,
      length-append h.sub.queue (x ∷ []),
      length-append (tail h.sub.queue) (x ∷ []),
      length-tail h.sub.queue,
    );
  }
  step-IsFifo taken h inv = record {
    part = take_from-IsPart h.sub.queue h.sub h.delivered refl inv.part;
    count = grind (arith, length-append);
    bound = ground arith;
  }

  run-IsFifo : (es : List (Event A)) (h : History A) → IsFifo h → IsFifo (run es h)
  unfolding run
  run-IsFifo [] h inv = inv
  run-IsFifo (e ∷ es) h inv = run-IsFifo es (step e h) (step-IsFifo e h inv)

  start-IsFifo :
      (topic : Topic) (maxsize : ℕ) (p : Option Policy) → IsFifo (start (subscribe topic maxsize p))
  unfolding subscribe
  start-IsFifo topic maxsize p = record {
    part = done;
    count = omega arith;
    bound = λ h. omega arith;
  }

  -- After any run of offers and deliveries on a new subscription: the delivered events and those
  -- in the queue are, in the order of publication, a part of the accepted ones; each accepted
  -- event is delivered, queued or counted as dropped; and a bounded queue keeps to its bound.
  pub subscription_conserves :
      (topic : Topic) (maxsize : ℕ) (policy : Option Policy) (es : List (Event A))
      → IsFifo (run es (start (subscribe topic maxsize policy)))
  subscription_conserves topic maxsize policy es =
      run-IsFifo es _ (start-IsFifo topic maxsize policy)

  record IsLossless (h : History A) : Type 0 where
    blocks : h.sub.policy ≡ block
    whole : h.accepted ≡ h.delivered ++ h.sub.queue
    none_dropped : h.sub.dropped ≡ 0

  deliver-whole :
      (q : List A) (s : Subscription A) (ds : List A)
      → s.queue ≡ q
      → let (o, s') = take_from q s in deliver o ds ++ s'.queue ≡ ds ++ q
  unfolding take_from
  deliver-whole [] s ds e = rw e
  deliver-whole (x ∷ q) s ds e = rw append_assoc

  offer_by-whole :
      (policy : Policy) (x : A) (s : Subscription A) (ds xs : List A)
      → policy ≡ block
      → xs ≡ ds ++ s.queue
      → let (s', waits) = offer_by policy x s in accept x xs waits ≡ ds ++ s'.queue
  unfolding offer_by
  offer_by-whole block x s ds xs b e = elim (Bool-cases (full s)) [
    | inl h ↦ rw h e
    | inr h ↦ rw (h, e) (append_assoc ds s.queue (x ∷ []))
  ]
  offer_by-whole drop_oldest x s ds xs b e = cc

  step-IsLossless : (e : Event A) (h : History A) → IsLossless h → IsLossless (step e h)
  unfolding step offer consume
  step-IsLossless (offered x) h inv = record {
    blocks = ground (arith, inv.blocks);
    whole = offer_by-whole h.sub.policy x h.sub h.delivered h.accepted inv.blocks inv.whole;
    none_dropped = ground (arith, inv.blocks, inv.none_dropped);
  }
  step-IsLossless taken h inv = record {
    blocks = ground (arith, inv.blocks);
    whole = inv.whole ∙ sym (deliver-whole h.sub.queue h.sub h.delivered refl);
    none_dropped = ground (arith, inv.none_dropped);
  }

  run-IsLossless : (es : List (Event A)) (h : History A) → IsLossless h → IsLossless (run es h)
  unfolding run
  run-IsLossless [] h inv = inv
  run-IsLossless (e ∷ es) h inv = run-IsLossless es (step e h) (step-IsLossless e h inv)

  start-IsLossless :
      (topic : Topic) (maxsize : ℕ)
      → never_drop topic ≡ true
      → IsLossless (start (subscribe topic maxsize none))
  unfolding subscribe
  start-IsLossless topic maxsize e = record { blocks = rw e; whole = refl; none_dropped = refl }

  -- On a topic that must not lose an event, with the default policy, the accepted events are
  -- exactly the delivered ones followed by the queued ones, and nothing is dropped.
  pub never_drop_loses_nothing :
      (topic : Topic) (maxsize : ℕ) (es : List (Event A))
      → never_drop topic ≡ true
      → let h = run es (start (subscribe topic maxsize none)) in
        (h.accepted ≡ h.delivered ++ h.sub.queue) × (h.sub.dropped ≡ 0)
  never_drop_loses_nothing topic maxsize es e =
      let s : Subscription A = subscribe topic maxsize none in
      let inv = run-IsLossless es (start s) (start-IsLossless topic maxsize e) in
      (inv.whole, inv.none_dropped)

  -- A market-data subscription never makes its publisher wait.
  pub drop_oldest_never_waits :
      (x : A) (s : Subscription A) → s.policy ≡ drop_oldest → (offer x s).1 ≡ false
  unfolding offer
  drop_oldest_never_waits x s e = ground arith
