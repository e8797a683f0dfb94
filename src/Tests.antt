-- ===== src/Tests.antt =====
-- Concrete instances of the parameters, and the theorems at concrete inputs.
pub mod Server
pub mod Figures
pub mod Proxies
pub mod Caching
pub mod Endpoints
pub mod Reports
pub mod Rounds
pub mod TradeLog
pub mod Pushes
pub mod Metrics
pub mod Starting
pub mod Curves
pub mod Loading
pub mod Documents
pub mod Running
pub mod Ingested
pub mod Configured
