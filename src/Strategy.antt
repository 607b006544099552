-- ===== src/Strategy.antt =====
-- backend/kotsin_nse/strategy: the gates that a signal passes through, its conviction, and its fade.
pub mod Gates
pub mod Signals
pub mod Fukaa
pub mod Counter
pub mod Conviction
pub mod Gapscore
