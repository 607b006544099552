-- ===== src/Bars.antt =====
-- backend/kotsin_nse/bars: from ticks to the series of finished bars.
pub mod Bar
pub mod Store
pub mod Aggregator
pub mod Indicators
pub mod Periods
pub mod Pivots
pub mod Confluence
