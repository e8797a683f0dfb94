-- ===== src/PortfolioService/Metrics.antt =====
-- `build_metrics_response` of services/portfolio.py: the three items of the metric widget.
use quant_api_gateway.Prelude.{ℕ, String, false, Option, none, some, List, [], ◌∷◌, Result, ok}
use quant_api_gateway.Effects.{M, Exception, pure, lift, ◌>>=◌}
use quant_api_gateway.StrategyReports.Dates.{Datetime}
use quant_api_gateway.Formatting.{
  Decimal, minus, times_100, format_percentage, format_currency, format_delta_number,
}
use quant_api_gateway.PortfolioService.Snapshots.{PortfolioSnapshotResponse}

pub record MetricItem : Type 0 where
  pub label : String
  pub value : String
  pub delta : String

pub record PortfolioMetricsResponse : Type 0 where
  pub snapshot_date : ℕ
  pub metrics : List MetricItem
  pub computed_at : Datetime

abbrev points_between : Decimal → Decimal → Result Exception String
points_between current previous = format_delta_number (times_100 (minus current previous)) 2

-- The three deltas: empty without a previous snapshot, and for the drawdown where one of the two is
-- missing.
abbrev pub return_delta :
    PortfolioSnapshotResponse → Option PortfolioSnapshotResponse → Result Exception String
return_delta current none = ok ""
return_delta current (some previous) =
    points_between current.weighted_daily_return previous.weighted_daily_return

abbrev drawdown_between : Decimal → Option Decimal → Result Exception String
drawdown_between current none = ok ""
drawdown_between current (some previous) = points_between current previous

abbrev drawdown_since : Option Decimal → Option PortfolioSnapshotResponse → Result Exception String
drawdown_since none previous = ok ""
drawdown_since (some current) none = ok ""
drawdown_since (some current) (some previous) = drawdown_between current previous.combined_drawdown

abbrev pub drawdown_delta :
    PortfolioSnapshotResponse → Option PortfolioSnapshotResponse → Result Exception String
drawdown_delta current previous = drawdown_since current.combined_drawdown previous

abbrev pub drawdown_value : Option Decimal → Result Exception String
drawdown_value none = ok "N/A"
drawdown_value (some drawdown) = format_percentage drawdown 2 false

abbrev pub value_delta :
    PortfolioSnapshotResponse → Option PortfolioSnapshotResponse → Result Exception String
value_delta current none = ok ""
value_delta current (some previous) =
    format_delta_number (minus current.total_portfolio_value previous.total_portfolio_value) 2

abbrev pub item : String → String → String → MetricItem
item label value delta = record { label = label; value = value; delta = delta }

unfoldable pub build_metrics_response :
    {W : Type 0}
    → Datetime
    → PortfolioSnapshotResponse
    → Option PortfolioSnapshotResponse
    → M W PortfolioMetricsResponse
build_metrics_response now current previous = do
  return_moved ← lift (return_delta current previous)
  drawdown_shown ← lift (drawdown_value current.combined_drawdown)
  drawdown_moved ← lift (drawdown_delta current previous)
  value_moved ← lift (value_delta current previous)
  return_shown ← lift (format_percentage current.weighted_daily_return 2 false)
  value_shown ← lift (format_currency current.total_portfolio_value)
  pure (record {
    snapshot_date = current.snapshot_date;
    metrics =
        item "Daily Return" return_shown return_moved
        ∷ item "Portfolio Drawdown" drawdown_shown drawdown_moved
        ∷ item "Total Portfolio Value" value_shown value_moved
        ∷ [];
    computed_at = now;
  })
