-- ===== src/Strategy/Conviction/Bounds.antt =====
-- How far a conviction goes on what is known.
use kotsin_nse.Prelude.{
  ℕ, ◌+◌, ◌*◌, ◌≤◌, ◌<◌, ◌≡◌, ◌∙◌, ◌++◌, length-append, Bool, false, Option, none, some, List,
  length, arith, leb,
}
use kotsin_nse.Num.{Num}
use kotsin_nse.Strategy.Conviction.{
  ConvictionInput, ExchangeThresholds, score, tier_of, is_tradeable, volume_score_of, oi_score_of,
  momentum_score_of, rr_score_of, thresholds_for, named_missing,
}

tier_of-tradeable : (n : ℕ) → is_tradeable (tier_of n) ≡ leb 50 n
unfolding tier_of is_tradeable
tier_of-tradeable n = ground arith

length-append_three :
    {A : Type 0} (xs ys zs : List A) → length (xs ++ (ys ++ zs)) ≡ length xs + length ys + length zs
length-append_three xs ys zs = omega (arith, length-append xs (ys ++ zs), length-append ys zs)

lt→leb : (n : ℕ) → n < 50 → leb 50 n ≡ false
lt→leb n h = ground arith

module _ {W : Type 0} ⦃f : Num W⦄ where
  -- Of an input that is missing nothing is scored.
  volume-le :
      (v : Option W) (t : ExchangeThresholds W) (o : Bool)
      → volume_score_of v t o + 30 * length (named_missing "volume_surge" v) ≤ 30
  unfolding volume_score_of
  volume-le none t o = omega arith
  volume-le (some v) t o = ground arith

  oi-le :
      (v b : Option W) (t : ExchangeThresholds W)
      → oi_score_of v b t + 30 * length (named_missing "oi_change_pct" v) ≤ 30
  unfolding oi_score_of
  oi-le none b t = omega arith
  oi-le (some v) b t = ground arith

  momentum-le :
      (v : Option W) (t : ExchangeThresholds W)
      → momentum_score_of v t + 25 * length (named_missing "price_change_over_atr" v) ≤ 25
  unfolding momentum_score_of
  momentum-le none t = omega arith
  momentum-le (some v) t = ground arith

  rr_score_bounds : (rr : W) → (3 ≤ rr_score_of rr) × (rr_score_of rr ≤ 15)
  unfolding rr_score_of
  rr_score_bounds rr = ground arith

  -- A conviction lies between 3 and 100, and at least 25 below that for each input that is missing; it
  -- is tradeable exactly from 50 on, and never with two of its three inputs missing.
  pub conviction_bounds :
      (inp : ConvictionInput W)
      → let c = score inp in
        (3 ≤ c.composite)
        × (c.composite + 25 * length c.missing ≤ 100)
        × (is_tradeable c.tier ≡ leb 50 c.composite)
        × (2 ≤ length c.missing → is_tradeable c.tier ≡ false)
  unfolding score
  conviction_bounds inp =
      let t = thresholds_for inp.exchange in
      let vol = volume-le inp.volume_surge t inp.is_option_volume in
      let oi = oi-le inp.oi_change_pct inp.oi_buildup_pct t in
      let mom = momentum-le inp.price_change_over_atr t in
      let rr = rr_score_bounds inp.rr in
      let count =
        length-append_three (named_missing "volume_surge" inp.volume_surge)
          (named_missing "oi_change_pct" inp.oi_change_pct)
          (named_missing "price_change_over_atr" inp.price_change_over_atr) in
      (
        omega (arith, rr),
        omega (arith, vol, oi, mom, rr, count),
        tier_of-tradeable (score inp).composite,
        λ two.
            tier_of-tradeable (score inp).composite
            ∙ lt→leb (score inp).composite (omega (arith, vol, oi, mom, rr, count)),
      )
