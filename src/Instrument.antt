-- ===== src/Instrument.antt =====
-- The instrument package: which contract a signal is traded in.
pub mod Select
pub mod Quote
pub mod Strikes
pub mod Choice
