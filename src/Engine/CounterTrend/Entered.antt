-- ===== src/Engine/CounterTrend/Entered.antt =====
-- What is known of a fade that is entered.
use kotsin_nse.Prelude.{
  ◌≡◌, refl, sym, subst, some_unless, or_false, ◌∙◌, Bool, true, false, not, ◌&&◌, ◌||◌, some, List,
  select, arith,
}
use mathlib.Core.Option.{some-injective}
use kotsin_nse.Prelude.Strings.{str_eq, str_eq_iff}
use kotsin_nse.Domain.{Instrument}
use kotsin_nse.Engine.Twin.{is_mcx}
use kotsin_nse.Instrument.Strikes.{is_bullish}
use kotsin_nse.Num.{Num, gt, ge, le, nought}
use kotsin_nse.Num.Laws.{IsOrdered}
use kotsin_nse.Bars.Pivots.{Zone}
use kotsin_nse.Bars.Confluence.{GradePolicy, Confluence, is_blocked}
use kotsin_nse.Bars.Confluence.Plan.{IsPlan, compute_confluence-IsPlan}
use kotsin_nse.Strategy.Counter.{
  Leg, RouteName, counter, in_trend, counter_wall_min, counter_score_min,
}
use kotsin_nse.Strategy.Counter.Fade.{
  opposite, has_none, has_no_plan, fade_plan, faded, flipped_signal,
}
use kotsin_nse.Strategy.Counter.Route.{is_live, leg_wall, reads_of, counter_route}
use kotsin_nse.Strategy.Counter.Route.Exact.{IsDistinct, any_of, is_counter, counter_route_exact}
use kotsin_nse.Strategy.Signals.{Signal, signal_id}
use kotsin_nse.Engine.CounterTrend.{first_atr, tick_of, fade_by, handle_counter}

module _ {W : Type 0} ⦃f : Num W⦄ where
  -- A trigger that may be faded, and the decision to do so.
  pub record IsCalled (sig : Signal W) (underlying : Instrument W) (legs : List (Leg W))
      (st_flipped : Bool) : Type 0 where
    pub base : sig.strategy ≡ "FUDKII"
    pub market : is_mcx underlying.segment ≡ false
    pub reason :
        ((st_flipped
            && any_of
                (λ l. ge (leg_wall (is_bullish sig.direction) l).strength counter_wall_min)
                (select is_live legs))
          || any_of
              (λ r. ge r.score counter_score_min)
              (reads_of (is_bullish sig.direction) (select is_live legs)))
        ≡ true

module _ {W : Type 0} ⦃f : Num W⦄ (laws : IsOrdered W) where
  open laws use {lt-eq-not-le}

  -- The same trigger on the other side, under a plan of that side, for the book CT-X.
  pub record IsFade (sig : Signal W) (zones : List (Zone W)) (policy : GradePolicy W)
      (tick_size : W) (fade : Signal W) : Type 0 where
    pub strategy : fade.strategy ≡ "FUDKII_CT_X"
    pub symbol : fade.symbol ≡ sig.symbol
    pub ts : fade.ts ≡ sig.ts
    pub entry : fade.entry_price ≡ sig.entry_price
    pub direction : fade.direction ≡ opposite sig.direction
    pub source : fade.source_signal_id ≡ signal_id sig
    pub positive : gt fade.stop nought ≡ true
    pub plan : Confluence W
    pub sound :
        IsPlan laws
          (is_bullish (opposite sig.direction))
          policy
          sig.entry_price
          zones
          tick_size
          plan
    pub stop : fade.stop ≡ plan.stop
    pub targets : fade.targets ≡ plan.targets

  module _ (sig : Signal W) (zones : List (Zone W)) (policy : GradePolicy W) where
    faded-IsFade :
        (atr tick_size : W)
        → has_no_plan (fade_plan sig zones atr tick_size (some policy)) ≡ false
        → IsFade sig zones policy tick_size
            (faded sig "FUDKII_CT_X" (fade_plan sig zones atr tick_size (some policy)))
    unfolding faded
    faded-IsFade atr tick_size free =
        let conf = fade_plan sig zones atr tick_size (some policy) in
        let checks =
          or_false {a = has_none conf.targets || le conf.stop nought} {b = is_blocked conf} free in
        let priced = or_false {a = has_none conf.targets} {b = le conf.stop nought} checks.0 in
        record {
          strategy = refl;
          symbol = refl;
          ts = refl;
          entry = refl;
          direction = refl;
          source = refl;
          positive = ground (arith, priced, lt-eq-not-le nought conf.stop);
          plan = conf;
          sound = compute_confluence-IsPlan laws _ policy _ zones atr tick_size checks.1;
          stop = refl;
          targets = refl;
        }

    flipped_signal-IsFade :
        (atr tick_size : W) (fade : Signal W)
        → flipped_signal sig "FUDKII_CT_X" zones atr tick_size (some policy) ≡ some fade
        → IsFade sig zones policy tick_size fade
    unfolding flipped_signal
    flipped_signal-IsFade atr tick_size fade e =
        let conf = fade_plan sig zones atr tick_size (some policy) in
        let made = some_unless (has_no_plan conf) e in
        subst (IsFade sig zones policy tick_size) (some-injective _ _ made.1)
          (faded-IsFade atr tick_size made.0)

    fade_by_lem :
        (route : RouteName) (underlying : Instrument W) (legs : List (Leg W)) (fade : Signal W)
        → fade_by route sig underlying legs zones policy ≡ some fade
        → (is_counter route ≡ true) × IsFade sig zones policy (tick_of underlying) fade
    unfolding fade_by
    fade_by_lem counter underlying legs fade e =
        (refl, flipped_signal-IsFade (first_atr legs) (tick_of underlying) fade e)
    fade_by_lem in_trend underlying legs fade e = ground (arith, e)

    -- A fade that is entered stems from a FUDKII trigger on no commodity that is a flip into a wall
    -- or sits on a pivot that scores enough. It is the trigger's opposite, at its price and for the
    -- book CT-X, with a positive stop and the targets of a sound plan of that side.
    pub handle_counter_sound :
        (underlying : Instrument W) (legs : List (Leg W)) (st_flipped : Bool) (fade : Signal W)
        → IsDistinct legs
        → handle_counter sig (some underlying) legs st_flipped zones policy ≡ some fade
        → IsCalled sig underlying legs st_flipped
          × IsFade sig zones policy (tick_of underlying) fade
    unfolding handle_counter
    handle_counter_sound underlying legs st_flipped fade k e =
        let made =
          some_unless (not (str_eq sig.strategy "FUDKII") || is_mcx underlying.segment) e in
        let checks =
          or_false {a = not (str_eq sig.strategy "FUDKII")} {b = is_mcx underlying.segment}
            made.0 in
        let route =
          (counter_route (is_bullish sig.direction) st_flipped counter_wall_min legs).route in
        let faded = fade_by_lem route underlying legs fade made.1 in
        let called : IsCalled sig underlying legs st_flipped = record {
          base = ground (arith, checks, str_eq_iff sig.strategy "FUDKII");
          market = checks.1;
          reason =
              sym (
                counter_route_exact laws (is_bullish sig.direction) st_flipped counter_wall_min legs
                  k)
              ∙ faded.0;
        } in
        (called, faded.1)
