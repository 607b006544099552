-- ===== src/Tests/Bars.antt =====
-- Bars at concrete ticks.
use kotsin_nse.Prelude.{
  ℕ, ◌+◌, ◌-◌, ◌*◌, ◌/◌, map, get_elem?, ◌≡◌, ◌⊎◌, refl, String, true, none, some, List, [], ◌∷◌,
  arith,
}
use kotsin_nse.Prelude.Sort.{sort_by, min_from}
use kotsin_nse.Prelude.Int.{pos, ◌+ℤ◌, ◌-ℤ◌, ◌*ℤ◌}
use kotsin_nse.Num.Cents.{Cents, cents_num, Cents-IsOrdered}
use kotsin_nse.Domain.{Time}
use kotsin_nse.Market.Session.{
  Frame, intraday, m1, minute, second, day_length, bucket_start, ist_day,
}
use kotsin_nse.Bars.Bar.{UnifiedBar, live}
use kotsin_nse.Bars.Periods.{KeyOf, PeriodOhlc, week, aggregate, previous_complete}
use kotsin_nse.Bars.Periods.Previous.{IsLastDone, previous_complete_exact}
use kotsin_nse.Bars.Store.{BarStore, replace_closed, seed}
use kotsin_nse.Bars.Store.Refinement.{IsStore, IsTrimmed, view, put, reseed, buckets_refine_map}
use kotsin_nse.Bars.Aggregator.{
  Aggregator, SymbolState, Tick, new_state, apply_tf, update_bar, flush_one, ends_at, on_tick,
  flush_stale,
}
use kotsin_nse.Bars.Aggregator.Late.{late_tick_replaces_bar}
use kotsin_nse.Bars.Aggregator.Volume.{booked, final_total, volume_conserved}
use kotsin_nse.Bars.Aggregator.Sanity.{bars_stay_sane}
use kotsin_nse.Bars.Aggregator.Sanity.Bars.{IsSane, IsClean}
use kotsin_nse.Tests.Data.{call_option, ten}

abbrev one_minute : Frame
one_minute = intraday m1

abbrev bar : Time → ℕ → UnifiedBar Cents
bar ts price = record {
  symbol = "NIFTY";
  scrip_code = "42";
  tf = one_minute;
  ts = ts;
  open_price = pos price;
  high = pos price;
  low = pos price;
  close_price = pos price;
  volume = pos 0;
  trades = 1;
  source = live;
  complete = true;
  vwap = none;
  prev_close = none;
  oi = none;
  oi_change_pct = none;
  fut_scrip_code = none;
}

bar-IsSane : (ts : Time) (price : ℕ) → IsSane (bar ts price)
bar-IsSane ts price =
    let same = Cents-IsOrdered.le_refl (pos price) in
    record { low_open = same; open_high = same; low_close = same; close_high = same }

-- Two bars in every series, and nothing forming.
abbrev store : BarStore Cents
store = record {
  max_bars = 3;
  closed = λ symbol tf. bar (ten + minute) 10_100 ∷ bar ten 10_000 ∷ [];
  forming = λ symbol tf. none;
}

store-IsStore : IsStore store
store-IsStore symbol tf = omega arith

abbrev newer : List (UnifiedBar Cents)
newer =
    bar (ten + 2 * minute) 10_200 ∷ bar (ten + minute) 10_300 ∷ bar (ten + 3 * minute) 10_400 ∷ []

-- The bar of the second minute is replaced, and the oldest goes.
seed-length : (seed "NIFTY" one_minute newer store).0 ≡ 3
unfolding seed
seed-length = refl

buckets_refine_map_example :
    IsStore (replace_closed (bar ten 9_900) store).1
    × (view (replace_closed (bar ten 9_900) store).1 ≡ put (bar ten 9_900) (view store))
    × IsStore (seed "NIFTY" one_minute newer store).1
    × ((sym : String) (t : Frame) (ts : Time)
        → (view (seed "NIFTY" one_minute newer store).1 sym t ts
            ≡ reseed "NIFTY" one_minute newer (view store) sym t ts)
          ⊎ IsTrimmed 3 ts ((seed "NIFTY" one_minute newer store).1.closed sym t))
buckets_refine_map_example =
    buckets_refine_map store (bar ten 9_900) "NIFTY" one_minute newer store-IsStore

abbrev tick : ℕ → ℕ → Tick Cents
tick total price = record {
  scrip_code = "42";
  ltp = pos price;
  ts = ten;
  prev_close = pos 9_900;
  high = pos 0;
  low = pos 0;
  total_qty = total;
  last_qty = 1;
}

abbrev state : SymbolState Cents
state = record (new_state call_option 0) { last_total_qty = some 100 }

-- The tick at 250 is lost in the second run.
volume_conserved_example :
    let full = booked (tick 150 10_000 ∷ tick 250 10_000 ∷ tick 300 10_000 ∷ []) state in
    let lossy = booked (tick 150 10_000 ∷ tick 300 10_000 ∷ []) state in
    (full.0 ≡ lossy.0) × (full.0 ≡ 300 - 100) × (full.1.last_total_qty ≡ lossy.1.last_total_qty)
unfolding final_total
volume_conserved_example =
    volume_conserved (tick 150 10_000 ∷ tick 250 10_000 ∷ tick 300 10_000 ∷ [])
      (tick 150 10_000 ∷ tick 300 10_000 ∷ []) state 100 refl (omega arith) (omega arith) refl

abbrev aggregator : Aggregator Cents
aggregator = record {
  store = store;
  timeframes = one_minute ∷ [];
  state = ("42", state) ∷ [];
  bars_closed = 0;
  partial_bars = 0;
  late_ticks = 0;
  out_of_session_ticks = 0;
  emitted = [];
}

aggregator-IsClean : IsClean aggregator
aggregator-IsClean = record {
  forming = λ symbol tf. tt;
  closed = λ symbol tf. (bar-IsSane (ten + minute) 10_100, (bar-IsSane ten 10_000, tt));
  emitted = tt;
}

bars_stay_sane_example :
    IsClean (on_tick (tick 150 10_000) ten aggregator) × IsClean (flush_stale ten aggregator).1
bars_stay_sane_example =
    bars_stay_sane Cents-IsOrdered (tick 150 10_000) ten aggregator aggregator-IsClean

-- The bar of ten o'clock has been closed, and a trade of 10:00:30 comes at 10:01.
abbrev after_flush : Aggregator Cents
after_flush = record aggregator {
  store = record store { closed = λ symbol tf. bar ten 10_000 ∷ [] };
}

late_tick_replaces_bar_example :
    let late =
      apply_tf state
        (update_bar state (pos 9_950) 5 none none (pos 9_950))
        (ten + 30 * second)
        (pos 9_950)
        one_minute
        after_flush in
    let flushed = (flush_one (ten + minute) call_option one_minute (0, late)).1 in
    (c : UnifiedBar Cents) × (flushed.store.closed "NIFTY" one_minute ≡ c ∷ [])
    × (c.ts ≡ ten)
    × (c.trades ≡ 1)
    × (c.open_price ≡ pos 9_950)
unfolding bucket_start ends_at ◌+ℤ◌ ◌-ℤ◌ ◌*ℤ◌
late_tick_replaces_bar_example =
    late_tick_replaces_bar state (pos 9_950) (pos 9_950) 5 0 (ten + 30 * second) (ten + minute)
      one_minute after_flush (bar ten 10_000) [] refl (omega arith) refl refl refl (omega arith)

-- Weeks that begin on a Monday, as the epoch's fourth day did, and months of thirty days.
abbrev calendar : KeyOf
calendar week d = (0, (d + 3) / 7)
calendar _ d = (1, d / 30)

abbrev weeks : List (PeriodOhlc Cents)
weeks = aggregate calendar week (
    bar (ten + 7 * day_length) 10_200
    ∷ bar (ten + 15 * day_length) 10_300
    ∷ bar (ten + 8 * day_length) 10_400
    ∷ bar ten 10_000
    ∷ [])

-- The running week is the third.
abbrev midweek : ℕ
midweek = ist_day ten + 16

abbrev outline : PeriodOhlc Cents → ℕ × ℕ × List Cents
outline p = (p.start, p.end, p.open_price ∷ p.close_price ∷ [])

-- Bars in any order: a day, two days in the second week and one in the third.
weeks_in_order :
    map outline weeks
    ≡ (20_000, 20_000, pos 10_000 ∷ pos 10_000 ∷ [])
      ∷ (20_007, 20_008, pos 10_200 ∷ pos 10_400 ∷ [])
      ∷ (20_015, 20_015, pos 10_300 ∷ pos 10_300 ∷ [])
      ∷ []
unfolding aggregate ist_day sort_by min_from
weeks_in_order = refl

last_week : previous_complete calendar weeks midweek ≡ get_elem? weeks 1
unfolding aggregate previous_complete ist_day sort_by min_from
last_week = refl

previous_complete_exact_example :
    IsLastDone calendar midweek weeks (previous_complete calendar weeks midweek)
previous_complete_exact_example = previous_complete_exact calendar midweek weeks
