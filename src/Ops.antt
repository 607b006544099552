-- ===== src/Ops.antt =====
-- backend/kotsin_nse/ops: what turns the health record red, and what the alert channel lets through.
pub mod Health
pub mod Telegram
