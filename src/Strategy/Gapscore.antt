-- ===== src/Strategy/Gapscore.antt =====
-- backend/kotsin_nse/strategy/gapscore.py: the two gap readings. The texts that explain a score are
-- left out.
use kotsin_nse.Prelude.{
  ℕ, ◌+◌, String, Bool, true, false, ◌&&◌, ◌||◌, Option, none, some, [], ◌∷◌, leb, ◌==◌,
  if◌then◌else◌,
}
use kotsin_nse.Prelude.Strings.{member}
use kotsin_nse.Num.{Num, ◌⊖◌, ◌⊗◌, ◌⊘◌, gt, lt, le, ge, nought, of_nat, max_of, min_of}

pub data GapLabel : Type 0 where
  unknown gap_up_r1 gap_down_s1 gap_fill_likely no_gap : GapLabel

pub record GapRead (W : Type 0) : Type 0 where
  pub label : GapLabel
  pub gap_pct : W
  pub gap_atr1d : W
  pub gap_fill_hidden : Bool

pub data Blocked : Type 0 where
  not_blocked crisis_vix high_quality_no_fortress : Blocked

pub record F14Read (W : Type 0) : Type 0 where
  pub score : ℕ
  pub would_flip : Bool
  pub blocked : Blocked
  pub tier : ℕ
  pub tier_points : ℕ
  pub gap_atr30 : W
  pub range_atr : W
  pub wick_ratio : W
  pub closed_opposite : Bool
  pub candle_anchored : Bool

pub data Verdict : Type 0 where
  skip counter in_trend : Verdict

-- The arguments of `f14_score`; `bar` is its four prices.
pub record F14Input (W : Type 0) : Type 0 where
  pub bullish : Bool
  pub grade : String
  pub rr : W
  pub fortress : W
  pub atr30 : W
  pub o : W
  pub h : W
  pub low : W
  pub c : W
  pub gap_pct : W
  pub phase : String
  pub vix : Option W
  pub tiers_enabled : Bool

-- `TIER_POINTS[tier]`
unfoldable pub points_of : ℕ → ℕ
points_of tier =
    if tier == 0
    then 0
    else if tier == 1
    then 5
    else if tier == 2
    then 10
    else if tier == 3
    then 15
    else if tier == 4
    then 20
    else 25

-- `F14Read.verdict`
unfoldable pub verdict_of : {W : Type 0} → F14Read W → Verdict
verdict_of r = elim r.blocked [
  | not_blocked ↦ if r.would_flip then counter else in_trend
  | _ ↦ skip
]

abbrev pub when : Bool → ℕ → ℕ
when b n = if b then n else 0

abbrev hides_fill : GapLabel → Bool
hides_fill gap_up_r1 = true
hides_fill gap_down_s1 = true
hides_fill _ = false

phase_points : String → ℕ
phase_points phase =
    if member phase ("OPEN" ∷ "OPENING_RANGE" ∷ "OPENING_AUCTION" ∷ [])
    then 10
    else if member phase ("EOD" ∷ "PRE_CLOSE" ∷ "CLOSE" ∷ [])
    then 8
    else 0

module _ {W : Type 0} ⦃f : Num W⦄ where
  abbrev label_of : Bool → W → W → W → GapLabel
  label_of fill open_px r1 s1 =
      if gt r1 nought && gt open_px r1
      then gap_up_r1
      else if gt s1 nought && lt open_px s1
      then gap_down_s1
      else if fill
      then gap_fill_likely
      else no_gap

  both_levels : Option W → Option W → Option (W × W)
  both_levels (some r1) (some s1) = some (r1, s1)
  both_levels _ _ = none

  unfoldable pub gap_open_class : W → W → W → Option W → Option W → GapRead W
  unfolding both_levels
  gap_open_class open_px prev_close atr1d r1 s1 =
      let pct =
        if gt prev_close nought then (open_px ⊖ prev_close) ⊘ prev_close ⊗ of_nat 100 else nought in
      let atr =
        if gt atr1d nought && gt prev_close nought
        then f.abs (open_px ⊖ prev_close) ⊘ atr1d
        else nought in
      let fill = gt atr (f.lit 8 1) in
      let label : GapLabel = elim (both_levels r1 s1) [
        | none ↦ unknown
        | some (r, s) ↦ if le open_px nought then unknown else label_of fill open_px r s
      ] in
      record {
        label = label;
        gap_pct = pct;
        gap_atr1d = atr;
        gap_fill_hidden = hides_fill label && fill;
      }

  unfoldable pub gap_atr_tier : W → ℕ
  gap_atr_tier gap =
      if lt gap (f.lit 8 1)
      then 0
      else if lt gap (f.lit 12 1)
      then 1
      else if lt gap (f.lit 15 1)
      then 2
      else if lt gap (f.lit 25 1)
      then 3
      else if lt gap (f.lit 40 1)
      then 4
      else 5

  abbrev pub vix_of : Option W → W
  vix_of none = of_nat 15
  vix_of (some v) = v

  abbrev pub block_of : W → String → W → Blocked
  block_of v grade fortress =
      if ge v (of_nat 30)
      then crisis_vix
      else if member grade ("A" ∷ "B" ∷ []) && lt fortress (of_nat 5)
      then high_quality_no_fortress
      else not_blocked

  -- The components that are anchored on the candle.
  abbrev pub is_rejection : F14Read W → Bool
  is_rejection r = ge r.wick_ratio (f.lit 4 1) && (r.closed_opposite && gt r.range_atr (f.lit 5 1))

  abbrev pub is_fade : F14Input W → Bool
  is_fade i =
      gt (f.abs i.gap_pct) (of_nat 1)
      && ((lt i.gap_pct nought && gt i.c i.o) || (gt i.gap_pct nought && lt i.c i.o))

  abbrev pub is_weak : F14Input W → Bool
  is_weak i =
      member i.grade ("C" ∷ "D" ∷ "F" ∷ [])
      && (le (f.lit 3 1) i.rr
          && (lt i.rr (of_nat 1) && (le (of_nat 5) i.fortress && lt i.fortress (of_nat 20))))

  vix_points : W → ℕ
  vix_points v =
      if le (of_nat 22) v && lt v (of_nat 25)
      then 10
      else if le (of_nat 25) v && lt v (of_nat 30)
      then 15
      else 0

  -- The components after the two blocks, from the read of the candle.
  unfoldable pub score_components : F14Input W → F14Read W → F14Read W
  unfolding vix_points phase_points
  score_components i r =
      let extreme = ge i.fortress (of_nat 20) in
      let anchored = is_rejection r || (extreme || is_fade i) in
      let score =
        when (is_rejection r) 30
        + when (is_weak i) 25
        + when extreme 30
        + when (is_fade i) 20
        + when (gt r.range_atr (f.lit 15 1)) 15
        + when i.tiers_enabled r.tier_points
        + vix_points (vix_of i.vix)
        + phase_points i.phase in
      record r { score = score; would_flip = leb 50 score && anchored; candle_anchored = anchored }

  -- What is read of the candle and the gap.
  unfoldable pub read_candle : F14Input W → F14Read W
  unfolding max_of min_of gap_atr_tier points_of
  read_candle i =
      let rng = if gt i.h i.low then i.h ⊖ i.low else nought in
      let wick =
        if i.bullish
        then max_of (min_of i.o i.c ⊖ i.low) nought
        else max_of (i.h ⊖ max_of i.o i.c) nought in
      let gap =
        if gt i.atr30 nought then f.abs (i.gap_pct ⊗ i.c ⊘ of_nat 100) ⊘ i.atr30 else nought in
      let tier = gap_atr_tier gap in
      record {
        score = 0;
        would_flip = false;
        blocked = not_blocked;
        tier = tier + 1;
        tier_points = points_of tier;
        gap_atr30 = gap;
        range_atr = if gt i.atr30 nought then rng ⊘ i.atr30 else nought;
        wick_ratio = if gt rng nought then wick ⊘ rng else nought;
        closed_opposite = if i.bullish then lt i.c i.o else gt i.c i.o;
        candle_anchored = false;
      }

  -- `f14_score`
  unfoldable pub f14_score : F14Input W → F14Read W
  unfolding read_candle score_components
  f14_score i =
      let r = read_candle i in
      elim (block_of (vix_of i.vix) i.grade i.fortress) [
        | not_blocked ↦ score_components i r
        | b ↦ record r { blocked = b }
      ]
