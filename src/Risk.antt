-- ===== src/Risk.antt =====
-- The risk package: costs, limits, sizing, wallets, exits.
pub mod Costs
pub mod Limits
pub mod Exits
pub mod Wallet
pub mod Sizing
pub mod Exposure
