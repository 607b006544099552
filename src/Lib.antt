-- ===== src/Lib.antt =====
-- A model of the trading engine under backend/kotsin_nse, with its theorems.
--
-- The engine takes ticks from a venue, builds bars and signals, sizes an entry, sends every order
-- through one gateway, fills it on paper or at the broker, and evaluates each open position on every
-- tick until an exit closes it. The parts and the files that model them:
--
-- - Domain: the records of domain.py, and `Segment` of config.py.
-- - Market/Session: the session clock of market/session.py.
-- - Risk/Limits, Risk/Costs: risk/limits.py and risk/costs.py.
-- - Risk/Exits: risk/exits.py. `Rules` has the rules that all policies share and those of the base
--   book, `Ladder` the own-ladder policy, `Evaluate` the order of the rules, `apply_exit` and
--   `replay_gap`. A rule maps a position to a verdict and the changed position; `leave` is an exit,
--   `hold` is `return None`, `next` goes on.
-- - Risk/Wallet: risk/wallet.py. Risk/Exposure: risk/exposure.py.
-- - Risk/Sizing: risk/sizing.py, and `qty_for_budget` of instrument/select.py.
-- - Exec/Gateway: exec/gateway.py. `submit` and `submit_live` take the gateway and what its callables
--   return (`Inputs`), and give the result and the new gateway; `submit_live` also takes what the live
--   executor's `place` comes to, and Exec/Gateway/Orders puts the two together. The await of `place`
--   stands between the caps and the count of the day's orders, and is one step here: what holds of a day's
--   orders is said of orders none of which begins while the placement of another is awaited.
-- - Exec/Live: exec/live.py. `Venue` holds the calls of the venue's client, and the clock's readings by
--   the rounds of the poll loop.
-- - Exec/Paper: exec/paper.py. Exec/Reconcile: exec/reconcile.py, over the broker's reply.
-- - Bars/Bar, Bars/Store, Bars/Aggregator: bars/unified.py, bars/store.py and bars/aggregator.py. A
--   series is kept newest first; the dicts of the store are functions of symbol and timeframe.
-- - Strategy/Gates, Strategy/Conviction, Strategy/Gapscore: strategy/gates.py, strategy/conviction.py and
--   strategy/gapscore.py. Strategy/Signals: the records of strategy/base.py. Strategy/Fukaa:
--   strategy/fukaa.py, over the volume surges and the true range in Bars/Indicators
--   (bars/indicators.py). Bars/Periods: bars/periods.py, with the calendar of datetime as a parameter.
-- - Bars/Pivots, Bars/Confluence: bars/pivots.py, the levels with their zones and the plan of a signal.
--   Strategy/Counter: strategy/counter.py, the read and the wall of a leg, the route, and the fade.
--   Engine/CounterTrend joins them, as `_handle_counter` does (engine.py).
-- - Bus: bus.py.
-- - Ops/Health, Ops/Telegram: ops/health.py, and `send` of ops/telegram.py.
-- - Instrument: instrument/select.py. `Quote` has the policy and the quotes, `Strikes` the expiry, the
--   candidate strikes and the ranking, `Choice` the loop of `select_option` and what follows it.
-- - Risk/Exits/Lifecycle also has what engine.py (`_exit`) books for an exit: nothing without a fill, and
--   else the quantity of the decision, whatever quantity was filled.
-- - Engine: engine.py. `Control` has the mode and the halt with the row they are stored in, `State` the
--   state and `_submit`, `Entry` and `Settle` the two halves of `_handle_signal` around its awaits, `Twin`
--   `_open_rt_twin`, `Exit` `_manage_positions` and `_exit`, `Operator` the operator's calls. `Runs` has
--   the runs in which exits may come between the steps of an entry (over `Steps`, `TwinSteps` and
--   `Fewer`), `Overlap` two entries that interleave.
-- - Prelude: helpers on lists, options, texts, dicts and integers. Num: floats. Tests: the definitions
--   and the theorems at concrete data.
--
-- Numbers. A Python float is a type `W` with the operations of `Num`; formulas keep their shape, and
-- nothing is assumed of a result but, where a theorem says so, `IsOrdered`: comparisons of finite values
-- are a total preorder, and `round` keeps order and is idempotent. NaN and infinities are left out.
-- `Cents` (whole hundredths) meets these laws and runs the tests. Quantities and counts are naturals;
-- instants are whole microseconds since the epoch, and IST is UTC+05:30 without transitions. Native
-- naturals stand for Python's unbounded integers, so nothing wraps.
--
-- Bounds. `previous_trading_day` keeps the thirty rounds of its loop. The poll loop of `place` runs
-- on fuel, of which one round more than the timeout has poll intervals is enough. Every other loop
-- is recursion on a list.
--
-- Left out: texts and notes of decisions, random order ids, logging, JSON, and the tasks and
-- sockets of engine.py. What the entry path awaits on before it reads its state (the selected
-- contract, the volume surges), the legs that the counter-trend route fetches, and the ladder that
-- `_own_ladder_for` makes of stored pivots are arguments. A halt reason is kept by its kind, and a
-- share of a quantity that would be negative counts as none. The own-ladder touch under the
-- immediate policy raises on a position without rungs; the model exits with what is left. Statuses
-- of the broker are ASCII texts. Not modelled: FUDKII's own trigger, the other indicators,
-- volatility, the catalogue and the legs of contracts, the ledger, alerts, the API, the committee,
-- hot stocks, the venue client, archives, research and the front end. They compute signals from
-- floating-point series, or move data in and out.
pub mod Prelude
pub mod Num
pub mod Domain
pub mod Market
pub mod Risk
pub mod Exec
pub mod Bars
pub mod Strategy
pub mod Bus
pub mod Instrument
pub mod Ops
pub mod Engine
pub mod Tests
