-- ===== src/Market.antt =====
-- The session calendar.
pub mod Session
