-- ===== src/Engine.antt =====
-- backend/kotsin_nse/engine.py: the orchestrator, which joins the components. An asyncio task runs
-- without a break between two awaits; where the code awaits an order or a write and another task may
-- run, the model has two steps.
pub mod Control
pub mod State
pub mod Entry
pub mod Settle
pub mod Twin
pub mod Exit
pub mod Operator
pub mod Offer
pub mod Caps
pub mod Fewer
pub mod Steps
pub mod TwinSteps
pub mod Runs
pub mod Overlap
pub mod Forced
pub mod Mirror
pub mod CounterTrend
