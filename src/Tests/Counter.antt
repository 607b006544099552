-- ===== src/Tests/Counter.antt =====
-- Pivots, plans and the counter-trend route at concrete levels.
use kotsin_nse.Prelude.{
  ℕ, ◌≡◌, ◌⊎◌, ◌&&◌, ◌||◌, refl, String, true, false, some, List, [], ◌∷◌, All, select, length, map,
}
use kotsin_nse.Prelude.Int.{pos, ◌+ℤ◌, ◌-ℤ◌, ◌*ℤ◌}
use kotsin_nse.Prelude.Sort.{sort_by, min_from}
use kotsin_nse.Num.{ge, max_of, ◌⊗◌}
use kotsin_nse.Num.Laws.{◌≼◌}
use kotsin_nse.Num.Cents.{Cents, cents_num, Cents-IsOrdered}
use kotsin_nse.Domain.{bullish}
use kotsin_nse.Bars.Pivots.{
  PivotPoint, Zone, day, week, r1, r2, s1, starts_anew, live_points, cluster_zones,
  zone_tolerance_pct,
}
use kotsin_nse.Bars.Pivots.Clusters.{Cluster, zones_of, IsClustering, cluster_zones_exact}
use kotsin_nse.Bars.Confluence.{
  Confluence, default_grades, compute_confluence, plan_with, plan_from, is_refused, walls_ahead,
  first_stop, widened_stop, grade_of,
}
use kotsin_nse.Bars.Confluence.Plan.{IsPlan, compute_confluence-IsPlan}
use kotsin_nse.Bars.Confluence.Fortress.{fortress_never_counts}
use kotsin_nse.Strategy.Counter.{
  Leg, counter_wall_min, counter_score_min, cluster_atr, at_pivot_read,
}
use kotsin_nse.Strategy.Counter.Wall.{
  no_wall, strength_at, levels_in_way, is_in_way, scored, strongest, wall_of, evaluate_wall,
}
use kotsin_nse.Strategy.Counter.Wall.Strongest.{IsWall, evaluate_wall_exact}
use kotsin_nse.Strategy.Counter.Route.{is_live, leg_wall, reads_of, counter_route, decide}
use kotsin_nse.Strategy.Counter.Route.Exact.{IsDistinct, any_of, is_counter, counter_route_exact}
use kotsin_nse.Strategy.Counter.Fade.{fade_plan, faded, flipped_signal}
use kotsin_nse.Strategy.Signals.{Signal}
use kotsin_nse.Engine.CounterTrend.{tick_of, fade_by, handle_counter}
use kotsin_nse.Engine.CounterTrend.Entered.{IsFade, IsCalled, handle_counter_sound}
use kotsin_nse.Tests.Data.{ten, call_option}

-- A day's and a week's level 0.6 and 0.8 above a close of 100, and one far below.
abbrev points : List (PivotPoint Cents)
points =
    record { price = pos 10_080; label = record { frame = week; level = r1 }; weight = pos 320 }
    ∷ record { price = pos 10_060; label = record { frame = day; level = r2 }; weight = pos 400 }
    ∷ record { price = pos 9_500; label = record { frame = day; level = s1 }; weight = pos 400 }
    ∷ []

-- The strength and the number of levels of a zone.
abbrev outline : Zone Cents → Cents × ℕ
outline z = (z.strength, length z.members)

two_zones : map outline (cluster_zones zone_tolerance_pct points) ≡ (pos 400, 1) ∷ (pos 720, 2) ∷ []
unfolding cluster_zones starts_anew sort_by max_of ◌+ℤ◌ ◌-ℤ◌ ◌*ℤ◌
two_zones = refl

cluster_zones_exact_example :
    (gs : List (Cluster Cents)) × (cluster_zones zone_tolerance_pct points
      ≡ zones_of zone_tolerance_pct gs)
    × IsClustering zone_tolerance_pct (live_points points) gs
cluster_zones_exact_example = cluster_zones_exact zone_tolerance_pct points

-- A wall above and a wall below a close of 100.
abbrev zones : List (Zone Cents)
zones =
    record { price = pos 10_070; strength = pos 720; members = [] }
    ∷ record { price = pos 9_500; strength = pos 720; members = [] }
    ∷ record { price = pos 9_000; strength = pos 900; members = [] }
    ∷ []

abbrev short_plan : Confluence Cents
short_plan = compute_confluence false default_grades (pos 10_000) (pos 400) (pos 5) zones

compute_confluence-IsPlan_example :
    IsPlan Cents-IsOrdered false default_grades (pos 10_000) zones (pos 5) short_plan
unfolding compute_confluence plan_with plan_from is_refused walls_ahead first_stop widened_stop
    sort_by ◌+ℤ◌ ◌-ℤ◌ ◌*ℤ◌
compute_confluence-IsPlan_example =
    compute_confluence-IsPlan Cents-IsOrdered false default_grades (pos 10_000) zones (pos 400)
      (pos 5) refl

fortress_never_counts_example :
    grade_of default_grades (pos 200) (pos 0) (pos 100)
    ≡ grade_of default_grades (pos 200) (pos 9_000) (pos 100)
unfolding ◌+ℤ◌ ◌-ℤ◌ ◌*ℤ◌
fortress_never_counts_example =
    fortress_never_counts Cents-IsOrdered default_grades refl refl refl (pos 200) (pos 100) (pos 0)
      (pos 9_000)

-- An equity that closes under the two levels, and its future far from any.
abbrev leg : String → List (PivotPoint Cents) → Leg Cents
leg name points = record {
  name = name;
  open_price = pos 9_950;
  high = pos 10_050;
  low = pos 9_900;
  close_price = pos 10_000;
  atr = pos 400;
  points = points;
  surge_t = some (pos 100);
  surge_t1 = some (pos 90);
}

abbrev legs : List (Leg Cents)
legs = leg "equity" points ∷ leg "future" [] ∷ []

legs-IsDistinct : IsDistinct legs
legs-IsDistinct = ((refl, tt), (tt, tt))

evaluate_wall_exact_example :
    All
      (λ s. is_in_way true (pos 10_000) (pos 10_050) (pos 9_900) (pos 400) s.point ≡ true)
      (levels_in_way true (pos 10_000) (pos 10_050) (pos 9_900) (pos 400) points)
    × All
        (λ a.
          strength_at
            (cluster_atr ⊗ pos 400)
            (levels_in_way true (pos 10_000) (pos 10_050) (pos 9_900) (pos 400) points)
            a
          ≼ (evaluate_wall true (pos 10_000) (pos 10_050) (pos 9_900) (pos 400) points).strength)
        (levels_in_way true (pos 10_000) (pos 10_050) (pos 9_900) (pos 400) points)
    × ((evaluate_wall true (pos 10_000) (pos 10_050) (pos 9_900) (pos 400) points ≡ no_wall)
        ⊎ IsWall true
            (pos 10_000)
            (pos 10_050)
            (pos 9_900)
            (pos 400)
            points
            (evaluate_wall true (pos 10_000) (pos 10_050) (pos 9_900) (pos 400) points))
unfolding ◌+ℤ◌ ◌-ℤ◌ ◌*ℤ◌
evaluate_wall_exact_example =
    evaluate_wall_exact Cents-IsOrdered true (pos 10_000) (pos 10_050) (pos 9_900) (pos 400) points
      refl refl

strong_wall : (leg_wall true (leg "equity" points)).strength ≡ pos 656
unfolding evaluate_wall is_in_way scored strongest wall_of sort_by ◌+ℤ◌ ◌-ℤ◌ ◌*ℤ◌
strong_wall = refl

counter_route_exact_example : is_counter (counter_route true true counter_wall_min legs).route ≡ (
    (true && any_of (λ l. ge (leg_wall true l).strength counter_wall_min) (select is_live legs))
    || any_of (λ r. ge r.score counter_score_min) (reads_of true (select is_live legs)))
counter_route_exact_example =
    counter_route_exact Cents-IsOrdered true true counter_wall_min legs legs-IsDistinct

abbrev trigger : Signal Cents
trigger = record {
  strategy = "FUDKII";
  symbol = "NIFTY";
  direction = bullish;
  ts = ten;
  entry_price = pos 10_000;
  stop = pos 9_900;
  targets = pos 10_200 ∷ [];
  rr = pos 200;
  score = pos 100;
  gates = [];
  source_signal_id = "";
}

abbrev the_fade : Signal Cents
the_fade =
    faded trigger "FUDKII_CT_X" (fade_plan trigger zones (pos 400) (pos 5) (some default_grades))

handle_counter_sound_example :
    IsCalled trigger call_option legs true
    × IsFade Cents-IsOrdered trigger zones default_grades (tick_of call_option) the_fade
unfolding handle_counter counter_route decide fade_by flipped_signal evaluate_wall is_in_way scored
    strongest wall_of sort_by min_from reads_of at_pivot_read compute_confluence plan_with plan_from
    is_refused walls_ahead first_stop widened_stop ◌+ℤ◌ ◌-ℤ◌ ◌*ℤ◌
handle_counter_sound_example =
    handle_counter_sound Cents-IsOrdered trigger zones default_grades call_option legs true the_fade
      legs-IsDistinct refl
