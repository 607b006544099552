-- ===== src/Tests.antt =====
-- The definitions at concrete inputs, with hundredths for the numbers.
mod Engine
mod Fukaa
mod Data
mod Gateway
mod Exec
mod Exits
mod Wallet
mod Sizing
mod Market
mod Bus
mod Bars
mod Counter
mod Live
mod Gates
mod Select
mod Ops
mod Gap
