-- ===== src/Strategy/Fukaa.antt =====
-- backend/kotsin_nse/strategy/fukaa.py: a FUDKII signal, confirmed by volume on its bar or on the next.
-- Evidence, notes and the values that gates report in texts are left out.
pub mod Watch
pub mod Promotion
pub mod Momentum
pub mod Batch
use kotsin_nse.Prelude.{
  ℕ, ◌+◌, ◌*◌, String, Bool, true, false, not, ◌&&◌, ◌||◌, Option, none, some, List, [], ◌∷◌, ◌++◌,
  map, length, ltb, leb, ◌==◌, if◌then◌else◌,
}
use kotsin_nse.Prelude.Ascii.{Text, text_eq, upper, codes}
use kotsin_nse.Prelude.Dict.{Dict, lookup, insert, remove}
use kotsin_nse.Num.{Num, ◌⊖◌, ◌⊘◌, ge, gt, nought, of_nat, truthy, max_of}
use kotsin_nse.Domain.{Time, Direction}
use kotsin_nse.Market.Session.{Frame, minute}
use kotsin_nse.Bars.Bar.{UnifiedBar}
use kotsin_nse.Bars.Indicators.{volume_surges, atr}
use kotsin_nse.Strategy.Gates.{
  Gate, GateResult, GateStats, fail_closed, evaluate, verdict, chain_passed, binding_gate,
  record_chain,
}
use kotsin_nse.Strategy.Signals.{Signal, Rejection, Outcome, Context, no_outcome, signal_id}
use kotsin_nse.Strategy.Conviction.{
  Conviction, ConvictionInput, ExchangeThresholds, thresholds_for, score, is_tradeable,
}

pub record FukaaConfig (W : Type 0) : Type 0 where
  pub volume_multiplier_nse : W
  pub volume_multiplier_mcx : W
  pub volume_multiplier_cds : W
  pub avg_bars : ℕ
  pub avg_volume_floor : W
  pub watching_ttl_minutes : ℕ
  pub composite_min : W
  pub rr_floor : W
  pub require_ref_oi : Bool
  pub top_n : Option ℕ
  pub max_same_direction : Option ℕ
  pub atr_period : ℕ
  pub promote_on_t_plus_1 : Bool

pub record Watching (W : Type 0) : Type 0 where
  pub direction : Direction
  pub ts : Time
  pub entry_price : W
  pub stop : W
  pub targets : List W
  pub rr : W
  pub expires_ts : Time
  pub base_signal_id : String

-- `ctx.state["watching"]` and `stats`
pub record FukaaState (W : Type 0) : Type 0 where
  pub parked : Dict (Watching W)
  pub stats : GateStats

-- `base or watching`
pub data Origin (W : Type 0) : Type 0 where
  from_base : Signal W → Origin W
  from_watching : Watching W → Origin W

abbrev closed_gate : String → Gate
closed_gate name = record { name = name; on_missing = fail_closed; required = true }

abbrev pub is_base : {W : Type 0} → Origin W → Bool
is_base (from_base s) = true
is_base (from_watching w) = false

abbrev or_unknown : Option String → String
or_unknown none = "unknown"
or_unknown (some name) = name

module _ {W : Type 0} ⦃f : Num W⦄ where
  -- The defaults of `FukaaConfig`.
  abbrev pub default_config : FukaaConfig W
  default_config = record {
    volume_multiplier_nse = of_nat 4;
    volume_multiplier_mcx = of_nat 2;
    volume_multiplier_cds = of_nat 2;
    avg_bars = 6;
    avg_volume_floor = of_nat 1000;
    watching_ttl_minutes = 35;
    composite_min = of_nat 60;
    rr_floor = f.lit 5 1;
    require_ref_oi = true;
    top_n = none;
    max_same_direction = none;
    atr_period = 14;
    promote_on_t_plus_1 = true;
  }

  -- `multiplier`
  unfoldable pub multiplier : FukaaConfig W → Text → W
  unfolding upper
  multiplier cfg exchange =
      if text_eq (upper exchange) (codes "M")
      then cfg.volume_multiplier_mcx
      else if text_eq (upper exchange) (codes "C")
      then cfg.volume_multiplier_cds
      else cfg.volume_multiplier_nse

  abbrev pub direction_of : Origin W → Direction
  direction_of (from_base s) = s.direction
  direction_of (from_watching w) = w.direction

  abbrev pub rr_of : Origin W → W
  rr_of (from_base s) = s.rr
  rr_of (from_watching w) = w.rr

  -- `max((s for s in (surge_t, surge_t1) if s is not None), default=None)`
  unfoldable pub best_of : Option W → Option W → Option W
  unfolding max_of
  best_of none b = b
  best_of (some a) none = some a
  best_of (some a) (some b) = some (max_of a b)

  -- `hist`, newest first
  unfoldable pub bar_history : FukaaConfig W → Context W → UnifiedBar W → List (UnifiedBar W)
  bar_history cfg ctx bar = ctx.bars bar.symbol bar.tf (cfg.avg_bars + 4)

  -- `price_over_atr`
  unfoldable pub price_over_atr : FukaaConfig W → List (UnifiedBar W) → UnifiedBar W → Option W
  unfolding atr
  price_over_atr cfg hist bar =
      let a : Option W =
        if ltb cfg.atr_period (length hist) then atr hist cfg.atr_period else none in
      elim a [
        | none ↦ none
        | some x ↦
            if truthy x && gt x nought
            then some (f.abs (bar.close_price ⊖ bar.open_price) ⊘ x)
            else none
      ]

  unfoldable pub best_surge : FukaaConfig W → List (UnifiedBar W) → Option W
  unfolding volume_surges best_of
  best_surge cfg hist =
      let s = volume_surges (map (λ b. b.volume) hist) cfg.avg_bars cfg.avg_volume_floor in
      best_of s.0 s.1

  unfoldable pub conviction_input :
      FukaaConfig W → Context W → UnifiedBar W → Origin W → List (UnifiedBar W) → ConvictionInput W
  unfolding best_surge price_over_atr
  conviction_input cfg ctx bar src hist = record {
    exchange = ctx.exchange bar.symbol;
    volume_surge = best_surge cfg hist;
    oi_change_pct = bar.oi_change_pct;
    oi_buildup_pct = bar.oi_change_pct;
    price_change_over_atr = price_over_atr cfg hist bar;
    rr = rr_of src;
    is_option_volume = false;
  }

  unfoldable pub conviction_of :
      FukaaConfig W → Context W → UnifiedBar W → Origin W → List (UnifiedBar W) → Conviction
  unfolding conviction_input score
  conviction_of cfg ctx bar src hist = score (conviction_input cfg ctx bar src hist)

  unfoldable pub history_gate : FukaaConfig W → List (UnifiedBar W) → GateResult W
  unfolding evaluate
  history_gate cfg hist =
      let need = of_nat (cfg.avg_bars + 2) in
      evaluate (closed_gate "history") (some (of_nat (length hist))) (λ v. ge v need) (some need)

  unfoldable pub volume_gate :
      FukaaConfig W → Context W → UnifiedBar W → List (UnifiedBar W) → GateResult W
  unfolding evaluate multiplier best_surge
  volume_gate cfg ctx bar hist =
      let mult = multiplier cfg (ctx.exchange bar.symbol) in
      evaluate (closed_gate "volume_surge") (best_surge cfg hist) (λ v. ge v mult) (some mult)

  abbrev magnitude : Option W → Option W
  magnitude none = none
  magnitude (some x) = some (f.abs x)

  -- The gates after the volume's.
  unfoldable pub later_gates :
      FukaaConfig W
      → Context W
      → UnifiedBar W
      → Origin W
      → List (UnifiedBar W)
      → List (GateResult W)
  unfolding evaluate verdict conviction_of thresholds_for is_tradeable
  later_gates cfg ctx bar src hist =
      let conv = conviction_of cfg ctx bar src hist in
      let composite = of_nat conv.composite in
      let th = thresholds_for (ctx.exchange bar.symbol) in
      evaluate (closed_gate "composite") (some composite) (λ v. ge v cfg.composite_min)
        (some cfg.composite_min)
      ∷ evaluate (closed_gate "rr") (some (rr_of src)) (λ v. ge v cfg.rr_floor) (some cfg.rr_floor)
      ∷ evaluate (record (closed_gate "ref_oi") { required = cfg.require_ref_oi })
          (magnitude bar.oi_change_pct) (λ v. ge v th.ref_oi_floor) (some th.ref_oi_floor)
      ∷ verdict (closed_gate "conviction_tier") (is_tradeable conv.tier) (some composite)
      ∷ []

  -- `_reject`
  unfoldable pub log_rejection :
      UnifiedBar W → Direction → List (GateResult W) → FukaaState W → Outcome W × FukaaState W
  unfolding binding_gate record_chain
  log_rejection bar direction gates st = (
    record {
      signals = [];
      rejections =
          record {
            strategy = "FUKAA";
            symbol = bar.symbol;
            ts = bar.ts;
            direction = direction;
            binding_gate = or_unknown (binding_gate gates);
            gates = gates;
          }
          ∷ [];
    },
    record st { stats = record_chain gates st.stats },
  )

  -- `_park`
  unfoldable pub park : FukaaConfig W → UnifiedBar W → Signal W → FukaaState W → FukaaState W
  unfolding signal_id
  park cfg bar base st = record st {
    parked =
        insert bar.symbol
          (record {
            direction = base.direction;
            ts = bar.ts;
            entry_price = base.entry_price;
            stop = base.stop;
            targets = base.targets;
            rr = base.rr;
            expires_ts = bar.ts + cfg.watching_ttl_minutes * minute;
            base_signal_id = signal_id base;
          })
          st.parked;
  }

  unfoldable pub unpark : Origin W → UnifiedBar W → FukaaState W → FukaaState W
  unfolding remove
  unpark (from_base s) bar st = st
  unpark (from_watching w) bar st = record st { parked = remove bar.symbol st.parked }
