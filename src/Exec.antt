-- ===== src/Exec.antt =====
-- The exec package: the order gateway, paper fills, real orders, reconciliation.
pub mod Paper
pub mod Live
pub mod Gateway
pub mod Reconcile
