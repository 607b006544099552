-- ===== src/Strategy/Fukaa/Promotion.antt =====
-- How a parked signal of FUKAA is promoted.
use kotsin_nse.Prelude.{
  ◌+◌, ◌*◌, ◌≤◌, ◌≡◌, ◌≢◌, refl, sym, String, true, not, none, some, List, [], ◌∷◌, All, arith, ltb,
  ◌==◌, Bool-cases, Option-cases, inl, inr, if-elim, ap,
}
use kotsin_nse.Prelude.Dict.{
  lookup, IsUnique, insert-IsUnique, remove-IsUnique, lookup-remove, All-lookup, All-insert,
  All-remove,
}
use kotsin_nse.Num.{Num}
use kotsin_nse.Market.Session.{minute}
use kotsin_nse.Bars.Bar.{UnifiedBar}
use kotsin_nse.Strategy.Gates.{GateResult, evaluate, chain_passed}
use kotsin_nse.Strategy.Signals.{Signal, Outcome, Context}
use kotsin_nse.Strategy.Fukaa.{
  FukaaConfig, FukaaState, Watching, Origin, from_base, from_watching, park, unpark, log_rejection,
  bar_history, history_gate, volume_gate, later_gates,
}
use kotsin_nse.Strategy.Fukaa.Watch.{
  on_bar, on_signal, judge, conclude, waits, wait_for_volume, expire, signal_of,
}

abbrev source_of : {W : Type 0} → List (Signal W) → String
source_of [] = ""
source_of (s ∷ ss) = s.source_signal_id

module _ {W : Type 0} ⦃f : Num W⦄ (cfg : FukaaConfig W) (ctx : Context W) (bar : UnifiedBar W) where
  -- The two gates before the parking.
  abbrev first : GateResult W
  first = history_gate cfg (bar_history cfg ctx bar)

  abbrev volume : GateResult W
  volume = volume_gate cfg ctx bar (bar_history cfg ctx bar)

  -- A symbol is parked once, and for the time that the configuration gives from its trigger.
  abbrev pub IsTimed : String × Watching W → Type 0
  IsTimed x = x.1.expires_ts ≡ x.1.ts + cfg.watching_ttl_minutes * minute

  abbrev pub IsKept : FukaaState W → Type 0
  IsKept st = IsUnique st.parked × All IsTimed st.parked

  pub record IsKeptAfter (o : Outcome W × FukaaState W) : Type 0 where
    pub kept : IsKept o.1

  unpark-IsKept : (src : Origin W) (st : FukaaState W) → IsKept st → IsKept (unpark src bar st)
  unfolding unpark
  unpark-IsKept (from_base s) st k = k
  unpark-IsKept (from_watching w) st k =
      (remove-IsUnique bar.symbol st.parked k.0, All-remove IsTimed bar.symbol st.parked k.1)

  park-IsKept : (s : Signal W) (st : FukaaState W) → IsKept st → IsKept (park cfg bar s st)
  unfolding park
  park-IsKept s st k = (
    insert-IsUnique bar.symbol _ st.parked k.0,
    All-insert IsTimed bar.symbol _ st.parked refl (λ j. refl) k.1,
  )

  conclude_keeps :
      (src : Origin W) (st : FukaaState W) → IsKept st → IsKeptAfter (conclude cfg ctx bar src st)
  unfolding conclude log_rejection
  conclude_keeps src st k =
      let gone = unpark-IsKept src st k in
      let hist = bar_history cfg ctx bar in
      let gates =
        history_gate cfg hist ∷ volume_gate cfg ctx bar hist ∷ later_gates cfg ctx bar src hist in
      if-elim IsKeptAfter (chain_passed gates) (record { kept = gone }) (record { kept = gone })

  wait_keeps :
      (src : Origin W) (gates : List (GateResult W)) (st : FukaaState W)
      → IsKept st
      → IsKeptAfter (wait_for_volume cfg bar src gates st)
  unfolding wait_for_volume log_rejection
  wait_keeps (from_base s) gates st k = record { kept = park-IsKept s st k }
  wait_keeps (from_watching w) gates st k = record { kept = k }

  judge_keeps :
      (src : Origin W) (st : FukaaState W) → IsKept st → IsKeptAfter (judge cfg ctx bar src st)
  unfolding judge
  judge_keeps src st k =
      if-elim IsKeptAfter (not (chain_passed (first ∷ []))) (record { kept = k })
        (if-elim IsKeptAfter (waits cfg volume src) (wait_keeps src (first ∷ volume ∷ []) st k)
          (conclude_keeps src st k))

  pub on_signal_keeps :
      (base : Signal W) (st : FukaaState W)
      → IsKept st
      → IsKeptAfter (on_signal cfg ctx bar base st)
  unfolding on_signal
  on_signal_keeps base st k = judge_keeps (from_base base) st k

  expire_keeps : (w : Watching W) (st : FukaaState W) → IsKept st → IsKeptAfter (expire bar w st)
  unfolding expire
  expire_keeps w st k = record {
    kept = (remove-IsUnique bar.symbol st.parked k.0, All-remove IsTimed bar.symbol st.parked k.1);
  }

  pub on_bar_keeps : (st : FukaaState W) → IsKept st → IsKeptAfter (on_bar cfg ctx bar st)
  unfolding on_bar
  on_bar_keeps st k = elim (Option-cases (lookup bar.symbol st.parked)) [
    | inl n ↦ rw (n, on_bar) (record { kept = k })
    | inr (w, h) ↦
        rw (h, on_bar)
          (if-elim IsKeptAfter (not cfg.promote_on_t_plus_1) (record { kept = k })
            (if-elim IsKeptAfter (ltb w.expires_ts bar.ts) (expire_keeps w st k) (
              if-elim IsKeptAfter (bar.ts == w.ts) (record { kept = k })
                (judge_keeps (from_watching w) st k))))
  ]

  -- What holds of the outcome for a parked signal if it has a signal: the volume gate has passed, the
  -- source is the parked one's, and nothing is parked for the symbol any more.
  pub record IsPromotion (w : Watching W) (o : Outcome W × FukaaState W) : Type 0 where
    pub promotes :
        (s : Signal W)
        → o.0.signals ≡ s ∷ []
        → ((volume_gate cfg ctx bar (bar_history cfg ctx bar)).passed ≡ true)
          × (s.source_signal_id ≡ w.base_signal_id)
          × (lookup bar.symbol o.1.parked ≡ none)

  log_rejection-IsPromotion :
      (w : Watching W) (gates : List (GateResult W)) (st : FukaaState W)
      → IsPromotion w (log_rejection bar w.direction gates st)
  unfolding log_rejection
  log_rejection-IsPromotion w gates st = record { promotes = λ s h. cc }

  volume_required : volume.required ≡ true
  unfolding volume_gate evaluate
  volume_required = ground arith

  volume_passed :
      (g v : GateResult W) (rest : List (GateResult W))
      → v.required ≡ true
      → chain_passed (g ∷ v ∷ rest) ≡ true
      → v.passed ≡ true
  unfolding chain_passed
  volume_passed g v rest r h = ground (arith, r, h)

  conclude-IsPromotion :
      (w : Watching W) (st : FukaaState W)
      → IsUnique st.parked
      → IsPromotion w (conclude cfg ctx bar (from_watching w) st)
  unfolding conclude unpark signal_of
  conclude-IsPromotion w st u =
      let later = later_gates cfg ctx bar (from_watching w) (bar_history cfg ctx bar) in
      let gates = first ∷ volume ∷ later in
      elim (Bool-cases (chain_passed gates)) [
        | inr b ↦
            rw (b, conclude) (log_rejection-IsPromotion w gates (unpark (from_watching w) bar st))
        | inl b ↦
            rw (b, conclude)
              (record {
                promotes = λ s h. (
                  volume_passed first volume later volume_required b,
                  ap source_of (sym h),
                  lookup-remove bar.symbol st.parked u,
                );
              })
      ]

  judge-IsPromotion :
      (w : Watching W) (st : FukaaState W)
      → IsUnique st.parked
      → IsPromotion w (judge cfg ctx bar (from_watching w) st)
  unfolding judge wait_for_volume
  judge-IsPromotion w st u =
      if-elim (IsPromotion w) (not (chain_passed (first ∷ [])))
        (log_rejection-IsPromotion w (first ∷ []) st)
        (if-elim (IsPromotion w) (waits cfg volume (from_watching w))
          (log_rejection-IsPromotion w (first ∷ volume ∷ []) st) (conclude-IsPromotion w st u))

  -- A state in which a symbol is parked once and for the configured time from its trigger stays so through
  -- `on_bar`; and a signal that `on_bar` gives is the promotion of the symbol's parked signal: on a bar
  -- of another instant than the trigger's, while the time lasts, with the volume gate passed, and with nothing parked for
  -- the symbol after it, so that a trigger is promoted at most once.
  pub promotion_sound :
      (st : FukaaState W)
      → IsKept st
      → IsKept (on_bar cfg ctx bar st).1
        × ((s : Signal W)
            → (on_bar cfg ctx bar st).0.signals ≡ s ∷ []
            → (w : Watching W) × (lookup bar.symbol st.parked ≡ some w)
              × (bar.ts ≢ w.ts)
              × (bar.ts ≤ w.ts + cfg.watching_ttl_minutes * minute)
              × ((volume_gate cfg ctx bar (bar_history cfg ctx bar)).passed ≡ true)
              × (s.source_signal_id ≡ w.base_signal_id)
              × (lookup bar.symbol (on_bar cfg ctx bar st).1.parked ≡ none))
  unfolding on_bar
  promotion_sound st k = (
    (on_bar_keeps st k).kept,
    λ s h. elim (Option-cases (lookup bar.symbol st.parked)) [
      | inl n ↦ let g : [] ≡ s ∷ [] = rw (n, on_bar) at h in cc
      | inr (w, e) ↦ elim (Bool-cases (not cfg.promote_on_t_plus_1)) [
        | inl b ↦ let g : [] ≡ s ∷ [] = rw (e, b, on_bar) at h in cc
        | inr b ↦ elim (Bool-cases (ltb w.expires_ts bar.ts)) [
          | inl c ↦ let g : [] ≡ s ∷ [] = rw (e, b, c, on_bar) at h in cc
          | inr c ↦ elim (Bool-cases (bar.ts == w.ts)) [
            | inl d ↦ let g : [] ≡ s ∷ [] = rw (e, b, c, d, on_bar) at h in cc
            | inr d ↦
                let p = (judge-IsPromotion w st k.0).promotes s (rw (e, b, c, d, on_bar) at h) in
                let timed = All-lookup IsTimed st.parked k.1 e in
                (
                  w,
                  e,
                  ground (arith, d),
                  ground (arith, c, timed),
                  p.0,
                  p.1,
                  rw (e, b, c, d, on_bar) p.2,
                )
          ]
        ]
      ]
    ],
  )
