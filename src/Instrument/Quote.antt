-- ===== src/Instrument/Quote.antt =====
-- The policy and the quotes of backend/kotsin_nse/instrument/select.py.
use kotsin_nse.Prelude.{ℕ, ◌&&◌, ◌||◌, Option, none, some, if◌then◌else◌}
use kotsin_nse.Num.{Num, ◌⊕◌, ◌⊖◌, ◌⊗◌, ◌⊘◌, gt, le, nought, of_nat}
use kotsin_nse.Domain.{Time}

-- An age is in microseconds.
pub record SelectionPolicy (W : Type 0) : Type 0 where
  pub min_days_to_expiry : ℕ
  pub expiry_index : ℕ
  pub min_premium : W
  pub max_premium : Option W
  pub max_spread_pct : W
  pub max_quote_age : ℕ
  pub min_delta : W
  pub oi_margin : W

pub record Quote (W : Type 0) : Type 0 where
  pub ltp : W
  pub bid : W
  pub ask : W
  pub ts : Time

module _ {W : Type 0} ⦃f : Num W⦄ where
  abbrev pub default_policy : SelectionPolicy W
  default_policy = record {
    min_days_to_expiry = 2;
    expiry_index = 0;
    min_premium = of_nat 5;
    max_premium = some (of_nat 400);
    max_spread_pct = of_nat 8;
    max_quote_age = 30_000_000;
    min_delta = f.lit 20 2;
    oi_margin = f.lit 15 1;
  }

  -- `Quote.mid`
  unfoldable pub mid : Quote W → W
  mid q = if gt q.bid nought && gt q.ask nought then (q.bid ⊕ q.ask) ⊘ of_nat 2 else q.ltp

  -- `Quote.spread_pct`
  unfoldable pub spread_pct : Quote W → Option W
  spread_pct q =
      let middle = (q.bid ⊕ q.ask) ⊘ of_nat 2 in
      if le q.bid nought || le q.ask nought
      then none
      else if gt middle nought
      then some ((q.ask ⊖ q.bid) ⊘ middle ⊗ of_nat 100)
      else none
