-- ===== src/Readiness.antt =====
-- The readiness of a product in a market: app/modules/market_readiness and state_snapshot.
pub mod Model
pub mod Gate
pub mod Open
pub mod Snapshot
pub mod Market
pub mod Update
pub mod Worst
pub mod Links
pub mod Relinks
pub mod Writers
pub mod Currency
pub mod Carried
pub mod Severities
pub mod Blocking
pub mod Display
pub mod Tests
mod MarketTests
