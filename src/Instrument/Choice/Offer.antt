-- ===== src/Instrument/Choice/Offer.antt =====
-- What the loop of `select_option` takes of the contracts it tries.
use kotsin_nse.Prelude.{
  or_false, ◌+◌, ◌≤◌, ◌≡◌, ◌⊎◌, refl, String, false, Bool-cases, Option-cases, inl, inr, Option,
  none, some, List, [], ◌∷◌, All, arith, ltb, ◌||◌,
}
use mathlib.Core.Option.{some-injective}
use kotsin_nse.Prelude.Dict.{Dict, lookup}
use kotsin_nse.Prelude.Sort.{IsIn}
use kotsin_nse.Num.{Num, gt, lt}
use kotsin_nse.Domain.{Time, Instrument}
use kotsin_nse.Instrument.Quote.{SelectionPolicy, Quote, mid, spread_pct}
use kotsin_nse.Instrument.Choice.{
  Selection, tradeable, first_tradeable, over_max, tight_spread, accept,
}

module _ {W : Type 0} ⦃f : Num W⦄ where
  -- A quote that passes every filter of the policy.
  pub record IsOffer (pol : SelectionPolicy W) (now : Time) (quotes : Dict (Quote W))
      (code : String) (premium spread : W) : Type 0 where
    pub quote : Quote W
    pub quoted : lookup code quotes ≡ some quote
    pub fresh : now ≤ quote.ts + pol.max_quote_age
    pub priced : premium ≡ mid quote
    pub over_min : lt premium pol.min_premium ≡ false
    pub under_max : (top : W) → pol.max_premium ≡ some top → gt premium top ≡ false
    pub two_sided : spread_pct quote ≡ some spread
    pub tight : gt spread pol.max_spread_pct ≡ false

  tight_spread-some :
      (pol : SelectionPolicy W) (m : W) (o : Option W) (premium spread : W)
      → tight_spread pol m o ≡ some (premium, spread)
      → (premium ≡ m) × (o ≡ some spread) × (gt spread pol.max_spread_pct ≡ false)
  unfolding tight_spread
  tight_spread-some pol m none premium spread h = absurd (cc h)
  tight_spread-some pol m (some s) premium spread h = ground (arith, h)

  over_max-false :
      (o : Option W) (premium : W)
      → over_max o premium ≡ false
      → (top : W) → o ≡ some top
      → gt premium top ≡ false
  over_max-false none premium e top h = absurd (cc h)
  over_max-false (some t) premium e top h = rw (← some-injective _ _ h) e

  accept-some :
      (pol : SelectionPolicy W) (now : Time) (q : Quote W) (premium spread : W)
      → accept pol now q ≡ some (premium, spread)
      → (ltb (q.ts + pol.max_quote_age) now ≡ false)
        × (lt (mid q) pol.min_premium ≡ false)
        × (over_max pol.max_premium (mid q) ≡ false)
        × (tight_spread pol (mid q) (spread_pct q) ≡ some (premium, spread))
  unfolding accept
  accept-some pol now q premium spread h = elim (Bool-cases (ltb (q.ts + pol.max_quote_age) now)) [
    | inl stale ↦ absurd (cc (rw (stale, accept) at h))
    | inr timely ↦
        elim (Bool-cases (lt (mid q) pol.min_premium || over_max pol.max_premium (mid q))) [
          | inl out ↦ absurd (cc (rw (timely, out, accept) at h))
          | inr good ↦
              let (over_min, under) = or_false good in
              (timely, over_min, under, rw (timely, good, accept) at h)
        ]
  ]

  pub tradeable-IsOffer :
      (pol : SelectionPolicy W) (now : Time) (quotes : Dict (Quote W)) (code : String)
      (premium spread : W)
      → tradeable pol now quotes code ≡ some (premium, spread)
      → IsOffer pol now quotes code premium spread
  unfolding tradeable
  tradeable-IsOffer pol now quotes code premium spread h =
      elim (Option-cases (lookup code quotes)) [
        | inl e ↦ absurd (cc (rw (e, tradeable) at h))
        | inr (q, e) ↦
            let (timely, over_min, under, tight) =
              accept-some pol now q premium spread (rw (e, tradeable) at h) in
            let (priced, two_sided, narrow) =
              tight_spread-some pol (mid q) (spread_pct q) premium spread tight in
            record {
              quote = q;
              quoted = e;
              fresh = ground (arith, timely);
              priced = priced;
              over_min = rw priced over_min;
              under_max = over_max-false pol.max_premium premium (rw priced under);
              two_sided = two_sided;
              tight = narrow;
            }
      ]

  -- What the loop over the pool comes to.
  abbrev pub IsFirst :
      SelectionPolicy W → Time → Dict (Quote W) → List (Instrument W) → Selection W → Type 0
  IsFirst pol now quotes pool s =
      ((s.instrument ≡ none) × All (λ i. tradeable pol now quotes i.scrip_code ≡ none) pool)
      ⊎ ((i : Instrument W) × (spread : W) × (s.instrument ≡ some i)
          × (s.spread ≡ some spread)
          × IsIn i pool
          × (tradeable pol now quotes i.scrip_code ≡ some (s.premium, spread)))

  add_refused :
      (pol : SelectionPolicy W) (now : Time) (quotes : Dict (Quote W)) (i : Instrument W)
      (pool : List (Instrument W)) (s : Selection W)
      → tradeable pol now quotes i.scrip_code ≡ none
      → IsFirst pol now quotes pool s
      → IsFirst pol now quotes (i ∷ pool) s
  add_refused pol now quotes i pool s e (inl (a, b)) = inl (a, (e, b))
  add_refused pol now quotes i pool s e (inr (j, spread, a, b, m, t)) =
      inr (j, spread, a, b, inr m, t)

  first-refused :
      (pol : SelectionPolicy W) (now : Time) (quotes : Dict (Quote W)) (anchor : W)
      (i : Instrument W) (pool : List (Instrument W))
      → tradeable pol now quotes i.scrip_code ≡ none
      → first_tradeable pol now quotes anchor (i ∷ pool)
        ≡ first_tradeable pol now quotes anchor pool
  unfolding first_tradeable
  first-refused pol now quotes anchor i pool e = rw (e, first_tradeable) refl

  first-taken :
      (pol : SelectionPolicy W) (now : Time) (quotes : Dict (Quote W)) (anchor : W)
      (i : Instrument W) (pool : List (Instrument W)) {premium spread : W}
      → tradeable pol now quotes i.scrip_code ≡ some (premium, spread)
      → first_tradeable pol now quotes anchor (i ∷ pool)
        ≡ record { instrument = some i; premium = premium; anchor = anchor; spread = some spread }
  unfolding first_tradeable
  first-taken pol now quotes anchor i pool e = rw (e, first_tradeable) refl

  pub first_tradeable-IsFirst :
      (pol : SelectionPolicy W) (now : Time) (quotes : Dict (Quote W)) (anchor : W)
      (pool : List (Instrument W))
      → IsFirst pol now quotes pool (first_tradeable pol now quotes anchor pool)
  unfolding first_tradeable
  first_tradeable-IsFirst pol now quotes anchor [] = inl (refl, tt)
  first_tradeable-IsFirst pol now quotes anchor (i ∷ pool) =
      elim (Option-cases (tradeable pol now quotes i.scrip_code)) [
        | inl e ↦
            let rest = first_tradeable pol now quotes anchor pool in
            rw (first-refused pol now quotes anchor i pool e) (
              add_refused pol now quotes i pool rest e
                (first_tradeable-IsFirst pol now quotes anchor pool))
        | inr ((premium, spread), e) ↦
            rw (first-taken pol now quotes anchor i pool e)
              (inr (i, spread, refl, refl, inl refl, e))
      ]
