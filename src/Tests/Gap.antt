-- ===== src/Tests/Gap.antt =====
-- The gap readings at concrete candles.
use kotsin_nse.Prelude.{◌≡◌, refl, true, false, none, some}
use kotsin_nse.Prelude.Int.{pos, ◌+ℤ◌, ◌-ℤ◌, ◌*ℤ◌}
use kotsin_nse.Num.Cents.{Cents, cents_num}
use kotsin_nse.Strategy.Gapscore.{
  F14Input, counter, f14_score, gap_down_s1, gap_open_class, skip, verdict_of,
}

-- A gap below S1 of more than the day's range is labelled by S1, and the fill is hidden.
gap_below_s1 :
    let r =
      gap_open_class (pos 9_000) (pos 10_000) (pos 500) (some (pos 10_200)) (some (pos 9_800)) in
    (r.label ≡ gap_down_s1) × (r.gap_fill_hidden ≡ true)
unfolding gap_open_class ◌+ℤ◌ ◌-ℤ◌ ◌*ℤ◌
gap_below_s1 = (refl, refl)

-- A bullish trigger whose candle closed against it, with a fortress of 25.
abbrev input : F14Input Cents
input = record {
  bullish = true;
  grade = "C";
  rr = pos 50;
  fortress = pos 2_500;
  atr30 = pos 1_000;
  o = pos 10_800;
  h = pos 11_000;
  low = pos 9_000;
  c = pos 10_500;
  gap_pct = pos 0;
  phase = "OPEN";
  vix = none;
  tiers_enabled = false;
}

flips : verdict_of (f14_score input) ≡ counter
unfolding f14_score verdict_of ◌+ℤ◌ ◌-ℤ◌ ◌*ℤ◌
flips = refl

crisis : verdict_of (f14_score (record input { vix = some (pos 3_000) })) ≡ skip
unfolding f14_score verdict_of ◌+ℤ◌ ◌-ℤ◌ ◌*ℤ◌
crisis = refl
