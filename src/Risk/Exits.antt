-- ===== src/Risk/Exits.antt =====
-- backend/kotsin_nse/risk/exits.py: the rules that decide an exit. A rule reads the position and
-- changes it; `evaluate` runs them in order and stops at the first that ends the evaluation.
mod Rules
mod Ladder
mod Evaluate
pub mod Quantity
pub mod Stops
pub mod Lifecycle
pub mod Backstops
unfoldable pub use Rules.*
unfoldable pub use Ladder.*
unfoldable pub use Evaluate.*
