-- ===== src/Strategy/Signals.antt =====
-- backend/kotsin_nse/strategy/base.py: what a strategy reads and what it gives. Reasons, grades,
-- evidence and the context of a signal are left out.
use kotsin_nse.Prelude.{ℕ, ◌/◌, String, List, []}
use kotsin_nse.Prelude.Ascii.{Text}
use kotsin_nse.Prelude.Strings.{concat, decimal, prefix}
use kotsin_nse.Domain.{Time, Direction, bullish, bearish}
use kotsin_nse.Market.Session.{Frame, second}
use kotsin_nse.Bars.Bar.{UnifiedBar}
use kotsin_nse.Strategy.Gates.{GateResult}

pub record Signal (W : Type 0) : Type 0 where
  pub strategy : String
  pub symbol : String
  pub direction : Direction
  -- the start of the decision bar
  pub ts : Time
  pub entry_price : W
  pub stop : W
  pub targets : List W
  pub rr : W
  pub score : W
  pub gates : List (GateResult W)
  pub source_signal_id : String

pub record Rejection (W : Type 0) : Type 0 where
  pub strategy : String
  pub symbol : String
  pub ts : Time
  pub direction : Direction
  pub binding_gate : String
  pub gates : List (GateResult W)

pub record Outcome (W : Type 0) : Type 0 where
  pub signals : List (Signal W)
  pub rejections : List (Rejection W)

-- `Context`: the bars, newest first, and the exchange.
pub record Context (W : Type 0) : Type 0 where
  pub bars : String → Frame → ℕ → List (UnifiedBar W)
  pub exchange : String → Text

-- `direction.value[0]`
abbrev initial : Direction → String
initial bullish = "B"
initial bearish = "B"

module _ {W : Type 0} where
  -- `Signal.signal_id`, the first 38 characters
  unfoldable pub signal_id : Signal W → String
  unfolding decimal
  signal_id s = prefix 38 (
      concat s.strategy (
        concat "-" (
          concat s.symbol
            (concat "-" (concat (decimal (s.ts / second)) (concat "-" (initial s.direction)))))))

  abbrev pub no_outcome : Outcome W
  no_outcome = record { signals = []; rejections = [] }
