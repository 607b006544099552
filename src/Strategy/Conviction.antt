-- ===== src/Strategy/Conviction.antt =====
-- backend/kotsin_nse/strategy/conviction.py: five factors, one tier. The scores, whole numbers in the
-- code, are naturals, so the rounding of their sum changes nothing. The names of the missing inputs
-- are kept in the order of the code.
pub mod Bounds
use kotsin_nse.Prelude.{
  ℕ, ◌+◌, String, Bool, true, false, ◌&&◌, Option, none, some, List, [], ◌∷◌, ◌++◌, leb, min,
  if◌then◌else◌,
}
use kotsin_nse.Prelude.Ascii.{Text, codes, text_eq, upper}
use kotsin_nse.Num.{Num, ◌⊗◌, ge, gt, nought, of_nat}

pub data Tier : Type 0 where
  s1 s2 s3 s4 s5 s6 : Tier

-- `Tier.tradeable`
unfoldable pub is_tradeable : Tier → Bool
is_tradeable s5 = false
is_tradeable s6 = false
is_tradeable _ = true

pub record ExchangeThresholds (W : Type 0) : Type 0 where
  pub volume_strong : W
  pub volume_base : W
  pub volume_gate : W
  pub oi_very_high : W
  pub oi_high : W
  pub price_atr_stretched : W
  pub price_atr_extended : W
  pub ref_oi_floor : W

pub record ConvictionInput (W : Type 0) : Type 0 where
  pub exchange : Text
  pub volume_surge : Option W
  pub oi_change_pct : Option W
  pub oi_buildup_pct : Option W
  pub price_change_over_atr : Option W
  pub rr : W
  pub is_option_volume : Bool

pub record Conviction : Type 0 where
  pub composite : ℕ
  pub tier : Tier
  pub volume_score : ℕ
  pub oi_score : ℕ
  pub momentum_score : ℕ
  pub rr_score : ℕ
  pub missing : List String

-- The tier of a composite score.
unfoldable pub tier_of : ℕ → Tier
tier_of composite =
    if leb 80 composite
    then s1
    else if leb 70 composite
    then s2
    else if leb 60 composite
    then s3
    else if leb 50 composite
    then s4
    else if leb 35 composite
    then s5
    else s6

module _ {W : Type 0} ⦃f : Num W⦄ where
  abbrev pub nse_thresholds : ExchangeThresholds W
  nse_thresholds = record {
    volume_strong = f.lit 30 1;
    volume_base = f.lit 15 1;
    volume_gate = f.lit 9 1;
    oi_very_high = of_nat 300;
    oi_high = of_nat 150;
    price_atr_stretched = f.lit 8 1;
    price_atr_extended = f.lit 12 1;
    ref_oi_floor = of_nat 5;
  }

  abbrev pub mcx_thresholds : ExchangeThresholds W
  mcx_thresholds = record {
    volume_strong = f.lit 20 1;
    volume_base = f.lit 10 1;
    volume_gate = f.lit 9 1;
    oi_very_high = of_nat 200;
    oi_high = of_nat 100;
    price_atr_stretched = f.lit 12 1;
    price_atr_extended = f.lit 20 1;
    ref_oi_floor = of_nat 8;
  }

  abbrev pub cds_thresholds : ExchangeThresholds W
  cds_thresholds = record {
    volume_strong = f.lit 25 1;
    volume_base = f.lit 15 1;
    volume_gate = f.lit 9 1;
    oi_very_high = of_nat 200;
    oi_high = of_nat 100;
    price_atr_stretched = f.lit 10 1;
    price_atr_extended = f.lit 15 1;
    ref_oi_floor = of_nat 3;
  }

  unfoldable pub thresholds_for : Text → ExchangeThresholds W
  unfolding upper
  thresholds_for exchange =
      if text_eq (upper exchange) (codes "M")
      then mcx_thresholds
      else if text_eq (upper exchange) (codes "C")
      then cds_thresholds
      else nse_thresholds

  unfoldable pub volume_score_of : Option W → ExchangeThresholds W → Bool → ℕ
  volume_score_of none t is_option = 0
  volume_score_of (some surge) t is_option =
      let v = surge ⊗ (if is_option then f.lit 175 2 else of_nat 1) in
      if ge v t.volume_strong
      then 30
      else if ge v t.volume_base
      then 20
      else if ge v t.volume_gate
      then 10
      else 0

  abbrev builds_up : Option W → Bool
  builds_up none = false
  builds_up (some pct) = gt pct nought

  unfoldable pub oi_score_of : Option W → Option W → ExchangeThresholds W → ℕ
  oi_score_of none buildup t = 0
  oi_score_of (some change) buildup t =
      let magnitude = f.abs change in
      let score =
        if ge magnitude t.oi_very_high then 30 else if ge magnitude t.oi_high then 20 else 5 in
      min (if builds_up buildup then score + 5 else score) 30

  unfoldable pub momentum_score_of : Option W → ExchangeThresholds W → ℕ
  momentum_score_of none t = 0
  momentum_score_of (some x) t =
      let m = f.abs x in
      if ge m t.price_atr_extended then 10 else if ge m t.price_atr_stretched then 25 else 15

  unfoldable pub rr_score_of : W → ℕ
  rr_score_of rr =
      if ge rr (f.lit 25 1)
      then 15
      else if ge rr (f.lit 20 1)
      then 12
      else if ge rr (f.lit 15 1)
      then 9
      else if ge rr (f.lit 10 1)
      then 6
      else 3

  abbrev pub named_missing : String → Option W → List String
  named_missing name none = name ∷ []
  named_missing name (some x) = []

  -- `score`
  unfoldable pub score : ConvictionInput W → Conviction
  unfolding thresholds_for volume_score_of oi_score_of momentum_score_of rr_score_of tier_of
  score inp =
      let t = thresholds_for inp.exchange in
      let vol = volume_score_of inp.volume_surge t inp.is_option_volume in
      let oi = oi_score_of inp.oi_change_pct inp.oi_buildup_pct t in
      let mom = momentum_score_of inp.price_change_over_atr t in
      let rr = rr_score_of inp.rr in
      let composite = vol + oi + mom + rr in
      record {
        composite = composite;
        tier = tier_of composite;
        volume_score = vol;
        oi_score = oi;
        momentum_score = mom;
        rr_score = rr;
        missing =
            named_missing "volume_surge" inp.volume_surge
            ++ (named_missing "oi_change_pct" inp.oi_change_pct
                ++ named_missing "price_change_over_atr" inp.price_change_over_atr);
      }
