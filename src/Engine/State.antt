-- ===== src/Engine/State.antt =====
-- The state of the orchestrator that entries and exits read and change, its books and its order call
-- (`__init__`, `halted`, `book_trades` and `_submit` of backend/kotsin_nse/engine.py, and the keys of
-- backend/kotsin_nse/strategy/keys.py). A strategy key is its text.
use kotsin_nse.Prelude.{
  ℕ, String, Bool, not, Option, none, some, List, [], ◌∷◌, map, select, length, if◌then◌else◌, ◌==◌,
}
use kotsin_nse.Prelude.Dict.{Dict, lookup, values}
use kotsin_nse.Num.{Num}
use kotsin_nse.Domain.{Time, Segment, mcx_fo, Instrument, OrderIntent, Position, is_opened}
use kotsin_nse.Market.Session.{ist_minute}
use kotsin_nse.Risk.Limits.{
  RiskLimits, default_limits, rt_x_limits, rt_n_limits, rt_y_limits, ct_x_limits, ct_y_limits,
}
use kotsin_nse.Risk.Costs.{CostSettings}
use kotsin_nse.Risk.Wallet.{Wallet, day_pnl}
use kotsin_nse.Instrument.Quote.{Quote}
use kotsin_nse.Exec.Paper.{BookSnapshot}
use kotsin_nse.Exec.Gateway.{
  Gateway, Inputs, LiveContext, Placement, Reply, answered, failed, is_live_mode, segment_number,
  whitelisted, submit, submit_live,
}
use kotsin_nse.Engine.Control.{Control, effective_mode, halted}

-- `positions` in the order of the dict; the settings do not change.
pub record Engine (W : Type 0) : Type 0 where
  pub control : Control
  -- `reconciler_positions.frozen`
  pub frozen : Bool
  pub gateway : Gateway W
  pub wallets : Dict (Wallet W)
  pub positions : Dict (Position W)
  pub underlyings : Dict (Instrument W)
  pub ltps : Dict W
  pub quotes : Dict (Quote W)
  pub books : Dict (BookSnapshot W)
  pub costs : CostSettings W
  -- `position_quote_max_age_s`
  pub quote_max_age : ℕ

-- `SEGMENT_BOOKS`
abbrev segment_books : Dict Segment
segment_books = ("FUDKII_RT_MCX", mcx_fo) ∷ []

-- `book_trades`
unfoldable pub book_trades : String → Segment → Bool
unfolding whitelisted
book_trades book segment = elim (lookup book segment_books) [
  | none ↦ not (whitelisted segment (map (λ x. x.1) segment_books))
  | some want ↦ segment_number segment == segment_number want
]

-- `NO_PREMIUM_FLOOR`
abbrev pub no_premium_floor : List String
no_premium_floor =
    "FUDKII" ∷ "FUDKII_RT_X" ∷ "FUDKII_RT_N" ∷ "FUDKII_RT_Y" ∷ "FUDKII_CT_X" ∷ "FUDKII_CT_Y" ∷ []

module _ {W : Type 0} ⦃f : Num W⦄ where
  -- The limits of `_exits_by_strategy`, which `_exposure_by_strategy` shares.
  unfoldable pub own_limits : Dict (RiskLimits W)
  own_limits =
      ("FUDKII_RT_X", rt_x_limits)
      ∷ ("FUDKII_RT_MCX", rt_x_limits)
      ∷ ("FUDKII_RT_N", rt_n_limits)
      ∷ ("FUDKII_RT_Y", rt_y_limits)
      ∷ ("FUDKII_CT_X", ct_x_limits)
      ∷ ("FUDKII_CT_Y", ct_y_limits)
      ∷ []

  -- `self._exits_by_strategy.get(strategy, self.exits)`, by its limits
  unfoldable pub limits_of : String → RiskLimits W
  unfolding own_limits
  limits_of strategy = elim (lookup strategy own_limits) [ none ↦ default_limits | some l ↦ l ]

  unfoldable pub is_halted : Engine W → Bool
  unfolding halted
  is_halted e = halted e.control e.frozen e.gateway.breaker_tripped

  unfoldable pub count_open : List (Position W) → ℕ
  count_open ps = length (select (λ p. is_opened p.status) ps)

  -- What the gateway's callables return for an order at `now`.
  unfoldable pub inputs_of : OrderIntent W → Time → Engine W → Inputs W
  unfolding is_halted effective_mode
  inputs_of intent now e = record {
    mode = effective_mode now e.control;
    halted = is_halted e;
    book = lookup intent.instrument.scrip_code e.books;
    ltp = lookup intent.instrument.scrip_code e.ltps;
    now = now;
  }

  abbrev with_gateway : Reply W × Gateway W → Engine W → Reply W × Engine W
  with_gateway (r, g) e = (r, record e { gateway = g })

  -- `_submit`, which raises if the book has no wallet in a live mode; `place` is what the live executor
  -- comes to.
  unfoldable pub submit_order :
      OrderIntent W → Bool → Time → Option (Placement W) → Engine W → Reply W × Engine W
  unfolding inputs_of count_open day_pnl submit submit_live ist_minute
  submit_order intent verdict_ok now place e =
      let i = inputs_of intent now e in
      let on_paper = submit intent i e.gateway in
      if is_live_mode i.mode
      then elim (lookup intent.strategy e.wallets) [
        | none ↦ (failed, e)
        | some w ↦
            let ctx : LiveContext W = record {
              open_positions = count_open (values e.positions);
              day_pnl_inr = day_pnl w;
              now_minute = ist_minute now;
              segment = intent.instrument.segment;
              exposure_ok = verdict_ok;
            } in
            with_gateway (submit_live intent ctx i place e.gateway) e
      ]
      else (answered on_paper.0, record e { gateway = on_paper.1 })
