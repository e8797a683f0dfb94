-- ===== src/PortfolioService.antt =====
-- services/portfolio.py: the snapshots that are stored, the three metrics, and the merged curve.
pub mod Snapshots
pub mod Metrics
pub mod Moves
pub mod Curves
