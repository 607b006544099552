-- ===== src/Tests/Fukaa.antt =====
-- FUKAA at concrete bars: a trigger on thin volume, and the next bar with five times the baseline.
use kotsin_nse.Prelude.{
  ℕ, ◌+◌, ◌*◌, ◌≤◌, ◌≡◌, ◌≢◌, refl, true, none, some, List, [], ◌∷◌, length, arith, length-take,
}
use kotsin_nse.Prelude.Int.{pos, ◌+ℤ◌, ◌-ℤ◌, ◌*ℤ◌}
use kotsin_nse.Prelude.Ascii.{codes}
use kotsin_nse.Prelude.Dict.{lookup}
use kotsin_nse.Prelude.Sort.{sort_by}
use kotsin_nse.Prelude.Counts.{count}
use kotsin_nse.Prelude.Strings.{str_eq}
use kotsin_nse.Num.Cents.{Cents, cents_num}
use kotsin_nse.Domain.{Time, bullish}
use kotsin_nse.Market.Session.{intraday, m30, minute}
use kotsin_nse.Bars.Bar.{UnifiedBar, live}
use kotsin_nse.Bars.Store
use kotsin_nse.Bars.Store.{BarStore}
use kotsin_nse.Strategy.Gates.{new_stats}
use kotsin_nse.Strategy.Signals.{Signal, Context, Outcome}
use kotsin_nse.Strategy.Fukaa.{
  FukaaConfig, FukaaState, Watching, from_base, default_config, bar_history, volume_gate,
  price_over_atr, conviction_of,
}
use kotsin_nse.Strategy.Fukaa.Watch.{on_bar, on_signal, select_signals}
use kotsin_nse.Strategy.Fukaa.Promotion.{IsKept, promotion_sound}
use kotsin_nse.Strategy.Fukaa.Momentum.{momentum_never_scored}
use kotsin_nse.Strategy.Fukaa.Batch.{IsWithin, bullish_in, bearish_in, select_keeps_caps}
use kotsin_nse.Tests.Data.{ten}

-- A half-hour bar that opens at 100.00.
abbrev bar : Time → ℕ → ℕ → UnifiedBar Cents
bar ts close volume = record {
  symbol = "NIFTY";
  scrip_code = "1";
  tf = intraday m30;
  ts = ts;
  open_price = pos 10_000;
  high = pos close;
  low = pos 10_000;
  close_price = pos close;
  volume = pos volume;
  trades = 1;
  source = live;
  complete = true;
  vwap = none;
  prev_close = none;
  oi = none;
  oi_change_pct = some (pos 40_000);
  fut_scrip_code = none;
}

abbrev config : FukaaConfig Cents
config = default_config

-- The bar to judge, and nine older ones.
abbrev bars : UnifiedBar Cents → List (UnifiedBar Cents)
bars b =
    b
    ∷ bar ten 10_100 200_000
    ∷ bar ten 10_100 200_000
    ∷ bar ten 10_100 200_000
    ∷ bar ten 10_100 200_000
    ∷ bar ten 10_100 200_000
    ∷ bar ten 10_100 200_000
    ∷ bar ten 10_100 200_000
    ∷ bar ten 10_100 200_000
    ∷ bar ten 10_100 200_000
    ∷ []

-- The store that a backfill has filled.
abbrev store_of : UnifiedBar Cents → BarStore Cents
store_of b = record { max_bars = 2_000; closed = λ symbol tf. bars b; forming = λ symbol tf. none }

abbrev context : UnifiedBar Cents → Context Cents
context b = record {
  bars = λ symbol tf n. Store.bars symbol tf n (store_of b);
  exchange = λ symbol. codes "N";
}

abbrev base : Signal Cents
base = record {
  strategy = "FUDKII";
  symbol = "NIFTY";
  direction = bullish;
  ts = ten;
  entry_price = pos 10_100;
  stop = pos 9_900;
  targets = pos 10_500 ∷ [];
  rr = pos 300;
  score = pos 0;
  gates = [];
  source_signal_id = "";
}

abbrev trigger : UnifiedBar Cents
trigger = bar ten 10_100 200_000

abbrev empty : FukaaState Cents
empty = record { parked = []; stats = new_stats }

abbrev watching : FukaaState Cents
watching = (on_signal config (context trigger) trigger base empty).1

abbrev next_bar : UnifiedBar Cents
next_bar = bar (ten + 30 * minute) 10_400 1_000_000

first_or : Signal Cents → List (Signal Cents) → Signal Cents
first_or s [] = s
first_or s (x ∷ xs) = x

parked_test : length watching.parked ≡ 1
unfolding on_signal Store.bars ◌+ℤ◌ ◌-ℤ◌ ◌*ℤ◌
parked_test = refl

promoted_test : length (on_bar config (context next_bar) next_bar watching).0.signals ≡ 1
unfolding on_signal Store.bars on_bar ◌+ℤ◌ ◌-ℤ◌ ◌*ℤ◌
promoted_test = refl

abbrev promoted : Outcome Cents × FukaaState Cents
promoted = on_bar config (context next_bar) next_bar watching

watching-IsKept : IsKept config (context next_bar) next_bar watching
unfolding on_signal Store.bars ◌+ℤ◌ ◌-ℤ◌ ◌*ℤ◌
watching-IsKept = ((refl, tt), (refl, tt))

promotion_sound_example :
    IsKept config (context next_bar) next_bar promoted.1
    × ((s : Signal Cents)
        → promoted.0.signals ≡ s ∷ []
        → (w : Watching Cents) × (lookup "NIFTY" watching.parked ≡ some w)
          × (next_bar.ts ≢ w.ts)
          × (next_bar.ts ≤ w.ts + 35 * minute)
          × ((volume_gate config
                (context next_bar)
                next_bar
                (bar_history config (context next_bar) next_bar)).passed
              ≡ true)
          × (s.source_signal_id ≡ w.base_signal_id)
          × (lookup "NIFTY" promoted.1.parked ≡ none))
promotion_sound_example =
    promotion_sound config (context next_bar) next_bar watching watching-IsKept

momentum_never_scored_example :
    (price_over_atr config (bar_history config (context next_bar) next_bar) next_bar ≡ none)
    × ((conviction_of config
          (context next_bar)
          next_bar
          (from_base base)
          (bar_history config (context next_bar) next_bar)).momentum_score
        ≡ 0)
    × ((conviction_of config
          (context next_bar)
          next_bar
          (from_base base)
          (bar_history config (context next_bar) next_bar)).composite
        ≤ 75)
unfolding Store.bars
momentum_never_scored_example =
    momentum_never_scored config (context next_bar) next_bar (from_base base)
      (length-take 10 (bars next_bar)) (omega arith)

-- One signal of each batch, and no second one of a direction.
abbrev capped : FukaaConfig Cents
capped = record config { top_n = some 2; max_same_direction = some 1 }

abbrev batch : List (Signal Cents)
batch = base ∷ record base { score = pos 9_000 } ∷ record base { score = pos 8_000 } ∷ []

admitted_test : length (select_signals capped batch).0 ≡ 1
unfolding select_signals sort_by ◌+ℤ◌ ◌-ℤ◌ ◌*ℤ◌
admitted_test = refl

select_keeps_caps_example :
    (count (λ s. str_eq s.strategy "FUDKII") (select_signals capped batch).0
        + count (λ s. str_eq s.strategy "FUDKII") (select_signals capped batch).1
      ≡ 3)
    × IsWithin (some 2) (length (select_signals capped batch).0)
    × IsWithin (some 1) (bullish_in (select_signals capped batch).0)
    × IsWithin (some 1) (bearish_in (select_signals capped batch).0)
unfolding count
select_keeps_caps_example = select_keeps_caps (λ s. str_eq s.strategy "FUDKII") capped batch
