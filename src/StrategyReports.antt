-- ===== src/StrategyReports.antt =====
-- services/strategy_report_service.py, its reads, with the validators of schemas/strategy_report.py
-- that they meet.
pub mod Dates
pub mod Rows
pub mod Items
pub mod Reads
pub mod Ordered
pub mod Trades
pub mod Walk
pub mod Each
pub mod Latest
pub mod Benchmark
