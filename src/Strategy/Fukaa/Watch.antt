-- ===== src/Strategy/Fukaa/Watch.antt =====
-- The evaluation of a candidate and the two entry points of backend/kotsin_nse/strategy/fukaa.py, and
-- `select`, the caps over one batch.
use kotsin_nse.Prelude.{
  ℕ, ◌+◌, Bool, true, false, not, ◌&&◌, ◌||◌, Option, none, some, List, [], ◌∷◌, ltb, ◌==◌,
  if◌then◌else◌,
}
use kotsin_nse.Prelude.Dict.{lookup, remove}
use kotsin_nse.Prelude.Sort.{sort_by}
use kotsin_nse.Num.{Num, gt, of_nat}
use kotsin_nse.Domain.{Direction, bullish, bearish}
use kotsin_nse.Bars.Bar.{UnifiedBar}
use kotsin_nse.Strategy.Gates.{GateResult, chain_passed, record_chain}
use kotsin_nse.Strategy.Signals.{Signal, Outcome, Context, no_outcome, signal_id}
use kotsin_nse.Strategy.Conviction.{Conviction}
use kotsin_nse.Strategy.Fukaa.{
  FukaaConfig, Watching, FukaaState, Origin, from_base, from_watching, is_base, direction_of,
  bar_history, history_gate, volume_gate, later_gates, conviction_of, log_rejection, park, unpark,
}

abbrev pub goes_up : Direction → Bool
goes_up bullish = true
goes_up bearish = false

-- A cap that is off or not reached.
abbrev pub below : Option ℕ → ℕ → Bool
below none n = true
below (some cap) n = ltb n cap

abbrev is_off : Option ℕ → Bool
is_off none = true
is_off (some n) = false

module _ {W : Type 0} ⦃f : Num W⦄ where
  -- The signal of a source whose gates have passed.
  unfoldable pub signal_of : UnifiedBar W → Origin W → List (GateResult W) → Conviction → Signal W
  unfolding signal_id
  signal_of bar (from_base s) gates conv = record s {
    strategy = "FUKAA";
    symbol = bar.symbol;
    ts = bar.ts;
    score = of_nat conv.composite;
    gates = gates;
    source_signal_id = signal_id s;
  }
  signal_of bar (from_watching w) gates conv = record {
    strategy = "FUKAA";
    symbol = bar.symbol;
    direction = w.direction;
    ts = bar.ts;
    entry_price = bar.close_price;
    stop = w.stop;
    targets = w.targets;
    rr = w.rr;
    score = of_nat conv.composite;
    gates = gates;
    source_signal_id = w.base_signal_id;
  }

  -- `_evaluate` from the gates after the volume's.
  unfoldable pub conclude :
      FukaaConfig W → Context W → UnifiedBar W → Origin W → FukaaState W → Outcome W × FukaaState W
  unfolding bar_history volume_gate history_gate later_gates conviction_of chain_passed record_chain
  conclude cfg ctx bar src st =
      let hist = bar_history cfg ctx bar in
      let gates =
        history_gate cfg hist ∷ volume_gate cfg ctx bar hist ∷ later_gates cfg ctx bar src hist in
      let sig = signal_of bar src gates (conviction_of cfg ctx bar src hist) in
      let gone = unpark src bar st in
      if chain_passed gates
      then (
        record { signals = sig ∷ []; rejections = [] },
        record gone { stats = record_chain gates gone.stats },
      )
      else log_rejection bar (direction_of src) gates gone

  abbrev pub waits : FukaaConfig W → GateResult W → Origin W → Bool
  waits cfg volume src =
      not volume.passed && not volume.missing && is_base src && cfg.promote_on_t_plus_1

  -- The parking of a base signal, with its rejection.
  unfoldable pub wait_for_volume :
      FukaaConfig W
      → UnifiedBar W
      → Origin W
      → List (GateResult W)
      → FukaaState W
      → Outcome W × FukaaState W
  unfolding park log_rejection
  wait_for_volume cfg bar (from_base s) gates st =
      log_rejection bar s.direction gates (park cfg bar s st)
  wait_for_volume cfg bar (from_watching w) gates st = log_rejection bar w.direction gates st

  -- `_evaluate`
  unfoldable pub judge :
      FukaaConfig W → Context W → UnifiedBar W → Origin W → FukaaState W → Outcome W × FukaaState W
  unfolding conclude wait_for_volume bar_history history_gate volume_gate chain_passed log_rejection
  judge cfg ctx bar src st =
      let hist = bar_history cfg ctx bar in
      let first = history_gate cfg hist in
      let volume = volume_gate cfg ctx bar hist in
      if not (chain_passed (first ∷ []))
      then log_rejection bar (direction_of src) (first ∷ []) st
      else if waits cfg volume src
      then wait_for_volume cfg bar src (first ∷ volume ∷ []) st
      else conclude cfg ctx bar src st

  -- `on_signal`
  unfoldable pub on_signal :
      FukaaConfig W → Context W → UnifiedBar W → Signal W → FukaaState W → Outcome W × FukaaState W
  unfolding judge
  on_signal cfg ctx bar base st = judge cfg ctx bar (from_base base) st

  -- The rejection of a parked signal whose time is over.
  unfoldable pub expire : UnifiedBar W → Watching W → FukaaState W → Outcome W × FukaaState W
  unfolding remove
  expire bar w st = (
    record {
      signals = [];
      rejections =
          record {
            strategy = "FUKAA";
            symbol = bar.symbol;
            ts = bar.ts;
            direction = w.direction;
            binding_gate = "watching_expired";
            gates = [];
          }
          ∷ [];
    },
    record st { parked = remove bar.symbol st.parked },
  )

  -- `on_bar`
  unfoldable pub on_bar :
      FukaaConfig W → Context W → UnifiedBar W → FukaaState W → Outcome W × FukaaState W
  unfolding expire judge
  on_bar cfg ctx bar st = elim (lookup bar.symbol st.parked) [
    | none ↦ (no_outcome, st)
    | some w ↦
        if not cfg.promote_on_t_plus_1
        then (no_outcome, st)
        else if ltb w.expires_ts bar.ts
        then expire bar w st
        else if bar.ts == w.ts
        then (no_outcome, st)
        else judge cfg ctx bar (from_watching w) st
  ]

  -- The order of `sorted`: by the score and then by the reward, the highest first.
  unfoldable pub ranks_before : Signal W → Signal W → Bool
  ranks_before a b = gt a.score b.score || f.eq a.score b.score && gt a.rr b.rr

  -- The loop of `select`, with the numbers admitted so far: all, bullish and bearish.
  unfoldable pub admit_from :
      FukaaConfig W → ℕ → ℕ → ℕ → List (Signal W) → List (Signal W) × List (Signal W)
  admit_from cfg n up down [] = ([], [])
  admit_from cfg n up down (s ∷ rest) =
      let same = if goes_up s.direction then up else down in
      let without = admit_from cfg n up down rest in
      let with_s =
        admit_from cfg (n + 1) (if goes_up s.direction then up + 1 else up)
          (if goes_up s.direction then down else down + 1) rest in
      if below cfg.top_n n && below cfg.max_same_direction same
      then (s ∷ with_s.0, with_s.1)
      else (without.0, s ∷ without.1)

  -- `select`
  unfoldable pub select_signals :
      FukaaConfig W → List (Signal W) → List (Signal W) × List (Signal W)
  unfolding admit_from ranks_before
  select_signals cfg signals =
      let ranked = admit_from cfg 0 0 0 (sort_by ranks_before signals) in
      if is_off cfg.top_n && is_off cfg.max_same_direction then (signals, []) else ranked
