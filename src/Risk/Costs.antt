-- ===== src/Risk/Costs.antt =====
-- backend/kotsin_nse/risk/costs.py: what a trade costs. The rates are settings (config.py).
use kotsin_nse.Prelude.{ℕ, ◌||◌, ◌==◌, if◌then◌else◌}
use kotsin_nse.Domain.{Instrument, InstrumentKind, option, future, OrderSide, buy, sell}
use kotsin_nse.Num.{Num, ◌⊕◌, ◌⊗◌, ◌⊘◌, gt, le, nought, of_nat, min_of}

-- The fields of `Settings` that the model reads.
pub record CostSettings (W : Type 0) : Type 0 where
  pub brokerage_per_order : W
  pub brokerage_pct : W
  pub exchange_pct_option : W
  pub exchange_pct_future : W
  pub exchange_pct_equity : W
  pub stt_pct_option : W
  pub stt_pct_future : W
  pub stt_pct_equity : W
  pub sebi_pct : W
  pub stamp_pct_buy : W
  pub gst_pct : W
  pub slippage_bps_default : W

pub record Charges (W : Type 0) : Type 0 where
  pub brokerage : W
  pub stt : W
  pub exchange : W
  pub sebi : W
  pub stamp : W
  pub gst : W

module _ {W : Type 0} ⦃f : Num W⦄ where
  abbrev pub no_charges : Charges W
  no_charges = record {
    brokerage = nought;
    stt = nought;
    exchange = nought;
    sebi = nought;
    stamp = nought;
    gst = nought;
  }

  unfoldable pub total : Charges W → W
  total c = c.brokerage ⊕ c.stt ⊕ c.exchange ⊕ c.sebi ⊕ c.stamp ⊕ c.gst

  -- `Charges.__add__`
  unfoldable pub add_charges : Charges W → Charges W → Charges W
  add_charges a b = record {
    brokerage = a.brokerage ⊕ b.brokerage;
    stt = a.stt ⊕ b.stt;
    exchange = a.exchange ⊕ b.exchange;
    sebi = a.sebi ⊕ b.sebi;
    stamp = a.stamp ⊕ b.stamp;
    gst = a.gst ⊕ b.gst;
  }

  unfoldable pub turnover : Instrument W → W → ℕ → W
  turnover i price qty = price ⊗ of_nat qty ⊗ of_nat i.multiplier

  abbrev hundred : W
  hundred = of_nat 100

  exchange_pct : CostSettings W → InstrumentKind → W
  exchange_pct s option = s.exchange_pct_option
  exchange_pct s future = s.exchange_pct_future
  exchange_pct s _ = s.exchange_pct_equity

  stt_pct : CostSettings W → InstrumentKind → W
  stt_pct s option = s.stt_pct_option
  stt_pct s future = s.stt_pct_future
  stt_pct s _ = s.stt_pct_equity

  -- The transaction tax falls on the sell side, the stamp duty on the buy side.
  stt_of : CostSettings W → InstrumentKind → OrderSide → W → W
  unfolding stt_pct
  stt_of s kind sell t = t ⊗ stt_pct s kind ⊘ hundred
  stt_of s kind buy t = nought

  stamp_of : CostSettings W → OrderSide → W → W
  stamp_of s buy t = t ⊗ s.stamp_pct_buy ⊘ hundred
  stamp_of s sell t = nought

  -- The flat brokerage, or the percentage of the turnover where that is less.
  brokerage_of : CostSettings W → W → W
  brokerage_of s t =
      if gt s.brokerage_pct nought
      then min_of s.brokerage_per_order (t ⊗ s.brokerage_pct ⊘ hundred)
      else s.brokerage_per_order

  unfoldable pub leg : CostSettings W → Instrument W → OrderSide → W → ℕ → Charges W
  unfolding turnover exchange_pct stt_of stamp_of brokerage_of
  leg s i side price qty =
      let t = turnover i price qty in
      let brokerage = brokerage_of s t in
      let exchange = t ⊗ exchange_pct s i.kind ⊘ hundred in
      let sebi = t ⊗ s.sebi_pct ⊘ hundred in
      if le t nought || qty == 0 then no_charges else record {
        brokerage = brokerage;
        stt = stt_of s i.kind side t;
        exchange = exchange;
        sebi = sebi;
        stamp = stamp_of s side t;
        gst = (brokerage ⊕ exchange ⊕ sebi) ⊗ s.gst_pct ⊘ hundred;
      }

  unfoldable pub round_trip : CostSettings W → Instrument W → W → W → ℕ → Charges W
  unfolding leg add_charges
  round_trip s i entry exit_price qty =
      add_charges (leg s i buy entry qty) (leg s i sell exit_price qty)

  unfoldable pub round_trip_pct : CostSettings W → Instrument W → W → ℕ → W
  unfolding round_trip turnover total
  round_trip_pct s i price qty =
      let t = turnover i price qty in
      if le t nought then nought else total (round_trip s i price price qty) ⊘ t ⊗ hundred
