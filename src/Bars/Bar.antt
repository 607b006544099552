-- ===== src/Bars/Bar.antt =====
-- backend/kotsin_nse/bars/unified.py: the bar; `extra` and JSON are left out.
use kotsin_nse.Prelude.{ℕ, ◌+◌, String, Bool, true, false, Option, if◌then◌else◌}
use kotsin_nse.Num.{Num, ◌⊕◌, ◌⊘◌, le, nought, of_nat, max_of, min_of}
use kotsin_nse.Domain.{Time}
use kotsin_nse.Market.Session.{Frame}

pub data BarSource : Type 0 where
  live rest partial : BarSource

abbrev pub is_partial : BarSource → Bool
is_partial partial = true
is_partial _ = false

-- `ts` is the start of the bucket.
pub record UnifiedBar (W : Type 0) : Type 0 where
  pub symbol : String
  pub scrip_code : String
  pub tf : Frame
  pub ts : Time
  pub open_price : W
  pub high : W
  pub low : W
  pub close_price : W
  pub volume : W
  pub trades : ℕ
  pub source : BarSource
  pub complete : Bool
  pub vwap : Option W
  pub prev_close : Option W
  pub oi : Option ℕ
  pub oi_change_pct : Option W
  pub fut_scrip_code : Option String

module _ {W : Type 0} ⦃f : Num W⦄ where
  unfoldable pub typical : UnifiedBar W → W
  typical b = (b.high ⊕ b.low ⊕ b.close_price) ⊘ of_nat 3

  unfoldable pub merge_tick : W → W → UnifiedBar W → UnifiedBar W
  unfolding max_of min_of
  merge_tick price qty b = if le price nought then b else record b {
    high = max_of b.high price;
    low = min_of b.low price;
    close_price = price;
    volume = b.volume ⊕ qty;
    trades = b.trades + 1;
  }
