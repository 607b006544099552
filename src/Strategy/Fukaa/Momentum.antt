-- ===== src/Strategy/Fukaa/Momentum.antt =====
-- The momentum factor of FUKAA's conviction.
use kotsin_nse.Prelude.{◌+◌, ◌≤◌, ◌≡◌, none, List, length, arith}
use kotsin_nse.Num.{Num}
use kotsin_nse.Bars.Bar.{UnifiedBar}
use kotsin_nse.Strategy.Signals.{Context}
use kotsin_nse.Strategy.Conviction.{
  ConvictionInput, score, momentum_score_of, volume_score_of, oi_score_of, rr_score_of,
}
use kotsin_nse.Strategy.Fukaa.{
  FukaaConfig, Origin, bar_history, price_over_atr, conviction_input, conviction_of,
}

module _ {W : Type 0} ⦃f : Num W⦄ where
  atr_missing :
      (cfg : FukaaConfig W) (bar : UnifiedBar W) (hist : List (UnifiedBar W))
      → length hist ≤ cfg.atr_period
      → price_over_atr cfg hist bar ≡ none
  unfolding price_over_atr
  atr_missing cfg bar hist h = ground arith

  unmoved_conviction :
      (inp : ConvictionInput W)
      → inp.price_change_over_atr ≡ none
      → ((score inp).momentum_score ≡ 0) × ((score inp).composite ≤ 75)
  unfolding score momentum_score_of volume_score_of oi_score_of rr_score_of
  unmoved_conviction inp h = ground arith

  -- With an ATR over more bars than the history that is asked for, as in the default configuration, and
  -- a store that answers this request with no more bars than it asks for, the ratio of the move to the ATR is always missing:
  -- the momentum score is 0 and the composite is at most 75, whatever the bars are.
  pub momentum_never_scored :
      (cfg : FukaaConfig W) (ctx : Context W) (bar : UnifiedBar W) (src : Origin W)
      → length (ctx.bars bar.symbol bar.tf (cfg.avg_bars + 4)) ≤ cfg.avg_bars + 4
      → cfg.avg_bars + 4 ≤ cfg.atr_period
      → (price_over_atr cfg (bar_history cfg ctx bar) bar ≡ none)
        × ((conviction_of cfg ctx bar src (bar_history cfg ctx bar)).momentum_score ≡ 0)
        × ((conviction_of cfg ctx bar src (bar_history cfg ctx bar)).composite ≤ 75)
  unfolding conviction_of bar_history
  momentum_never_scored cfg ctx bar src few short =
      let hist = bar_history cfg ctx bar in
      let missing = atr_missing cfg bar hist (ground (arith, few)) in
      let capped = unmoved_conviction (conviction_input cfg ctx bar src hist) missing in
      (missing, capped.0, capped.1)
