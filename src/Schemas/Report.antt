-- ===== src/Schemas/Report.antt =====
-- schemas/strategy_report.py: the classes of a report, field by field.
pub mod Laws
pub mod Page
use quant_api_gateway.Prelude.{none, some, List, [], ◌∷◌, String}
use quant_api_gateway.Schemas.{
  none_default, empty_list, text_default, Shape, decimal, whole, utc_time, sized, literal, nullable,
  list_of, mapping, required, optional, class,
}

-- `PositionScope`
abbrev position_scope : List String
position_scope = "all" ∷ "long" ∷ "short" ∷ []

unfoldable headline : Shape
headline = class (
    required "total_pnl" decimal
    ∷ required "total_pnl_pct" decimal
    ∷ required "max_equity_drawdown" decimal
    ∷ required "max_equity_drawdown_pct" decimal
    ∷ required "total_trades" (whole 0 none)
    ∷ required "profitable_trades" (whole 0 none)
    ∷ required "profitable_pct" decimal
    ∷ required "profit_factor" decimal
    ∷ [])

unfoldable profit_structure : Shape
profit_structure = class (
    required "total_profit" decimal
    ∷ required "open_pnl" decimal
    ∷ required "total_loss" decimal
    ∷ required "commission" decimal
    ∷ required "net_pnl" decimal
    ∷ [])

unfoldable returns_row : Shape
returns_row = class (
    required "initial_capital" decimal
    ∷ required "open_pnl" decimal
    ∷ required "net_pnl" decimal
    ∷ required "gross_profit" decimal
    ∷ required "gross_loss" decimal
    ∷ required "profit_factor" decimal
    ∷ required "commission_paid" decimal
    ∷ required "expected_payoff" decimal
    ∷ [])

unfoldable returns : Shape
unfolding returns_row
returns =
    class
      (required "all" returns_row ∷ required "long" returns_row ∷ required "short" returns_row ∷ [])

unfoldable benchmark_comparison : Shape
benchmark_comparison = class (
    required "buy_and_hold_return" decimal
    ∷ required "buy_and_hold_pct" decimal
    ∷ required "strategy_outperformance" decimal
    ∷ [])

unfoldable risk_adjusted : Shape
risk_adjusted = class (required "sharpe_ratio" decimal ∷ required "sortino_ratio" decimal ∷ [])

unfoldable pnl_distribution_bucket : Shape
pnl_distribution_bucket = class (
    required "bucket_low_pct" decimal
    ∷ required "bucket_high_pct" decimal
    ∷ required "count" (whole 0 none)
    ∷ required "kind" (literal ("loss" ∷ "profit" ∷ "breakeven" ∷ []))
    ∷ [])

unfoldable win_loss_split : Shape
win_loss_split = class (
    required "wins" (whole 0 none)
    ∷ required "losses" (whole 0 none)
    ∷ required "breakeven" (whole 0 none)
    ∷ [])

unfoldable trades_analysis : Shape
unfolding pnl_distribution_bucket win_loss_split
trades_analysis = class (
    optional "pnl_distribution" (list_of pnl_distribution_bucket) empty_list
    ∷ required "win_loss_split" win_loss_split
    ∷ required "avg_loss_pct" decimal
    ∷ required "avg_profit_pct" decimal
    ∷ [])

unfoldable details_row : Shape
details_row = class (
    required "total_trades" (whole 0 none)
    ∷ required "total_open_trades" (whole 0 none)
    ∷ required "winning_trades" (whole 0 none)
    ∷ required "losing_trades" (whole 0 none)
    ∷ required "percent_profitable" decimal
    ∷ required "avg_pnl" decimal
    ∷ required "avg_winning_trade" decimal
    ∷ required "avg_losing_trade" decimal
    ∷ required "ratio_avg_win_avg_loss" decimal
    ∷ required "largest_winning_trade" decimal
    ∷ required "largest_winning_trade_pct" decimal
    ∷ required "largest_winner_pct_of_gross_profit" decimal
    ∷ required "largest_losing_trade" decimal
    ∷ required "largest_losing_trade_pct" decimal
    ∷ required "largest_loser_pct_of_gross_loss" decimal
    ∷ required "outliers_count" (whole 0 none)
    ∷ required "outliers_pnl" decimal
    ∷ required "avg_bars_in_trades" decimal
    ∷ required "avg_bars_in_winning_trades" decimal
    ∷ required "avg_bars_in_losing_trades" decimal
    ∷ [])

unfoldable details : Shape
unfolding details_row
details =
    class
      (required "all" details_row ∷ required "long" details_row ∷ required "short" details_row ∷ [])

unfoldable capital_usage_row : Shape
capital_usage_row = class (
    required "annualized_return_cagr" decimal
    ∷ required "return_on_initial_capital" decimal
    ∷ required "account_size_required" decimal
    ∷ required "return_on_account_size_required" decimal
    ∷ required "net_profit_pct_of_largest_loss" decimal
    ∷ [])

unfoldable margin_usage : Shape
margin_usage = class (
    optional "avg_margin_used" (nullable decimal) none_default
    ∷ optional "max_margin_used" (nullable decimal) none_default
    ∷ optional "margin_efficiency" (nullable decimal) none_default
    ∷ optional "margin_calls" (nullable (whole 0 none)) none_default
    ∷ [])

unfoldable capital_efficiency : Shape
unfolding capital_usage_row margin_usage
capital_efficiency = class (
    required "capital_usage" (mapping position_scope capital_usage_row)
    ∷ required "margin_usage" margin_usage
    ∷ [])

unfoldable run_up_row : Shape
run_up_row = class (
    required "avg_duration_days" decimal
    ∷ required "avg_runup" decimal
    ∷ required "max_runup_close_to_close" decimal
    ∷ optional "max_runup_intrabar" (nullable decimal) none_default
    ∷ optional "max_runup_pct_initial_capital_intrabar" (nullable decimal) none_default
    ∷ [])

unfoldable drawdown_row : Shape
drawdown_row = class (
    required "avg_duration_days" decimal
    ∷ required "avg_drawdown" decimal
    ∷ required "max_drawdown_close_to_close" decimal
    ∷ optional "max_drawdown_intrabar" (nullable decimal) none_default
    ∷ optional "max_drawdown_pct_initial_capital_intrabar" (nullable decimal) none_default
    ∷ required "return_of_max_drawdown" decimal
    ∷ [])

unfoldable run_ups_drawdowns : Shape
unfolding run_up_row drawdown_row
run_ups_drawdowns = class (required "runups" run_up_row ∷ required "drawdowns" drawdown_row ∷ [])

unfoldable pub trade_log_entry : Shape
trade_log_entry = class (
    required "entry_time" utc_time
    ∷ required "exit_time" utc_time
    ∷ required "symbol" (sized 1 none)
    ∷ required "side" (literal ("LONG" ∷ "SHORT" ∷ []))
    ∷ required "qty" decimal
    ∷ required "entry_price" decimal
    ∷ required "exit_price" decimal
    ∷ required "realized_pnl" decimal
    ∷ required "duration_bars" (whole 0 none)
    ∷ required "commission" decimal
    ∷ [])

unfoldable benchmark_point : Shape
benchmark_point = class (required "date" utc_time ∷ required "value" decimal ∷ [])

unfoldable pub strategy_report : Shape
unfolding headline profit_structure returns benchmark_comparison risk_adjusted trades_analysis
    details capital_efficiency run_ups_drawdowns trade_log_entry benchmark_point
strategy_report = class (
    required "as_of" utc_time
    ∷ optional "currency" (sized 3 (some 8)) (text_default "THB")
    ∷ required "initial_capital" decimal
    ∷ required "headline" headline
    ∷ required "profit_structure" profit_structure
    ∷ required "returns" returns
    ∷ optional "benchmark_comparison" (nullable benchmark_comparison) none_default
    ∷ required "risk_adjusted" risk_adjusted
    ∷ required "trades_analysis" trades_analysis
    ∷ required "details" details
    ∷ required "capital_efficiency" capital_efficiency
    ∷ required "runups_drawdowns" run_ups_drawdowns
    ∷ optional "trades" (list_of trade_log_entry) empty_list
    ∷ optional "benchmark_equity_curve" (list_of benchmark_point) empty_list
    ∷ [])

unfoldable pub strategy_report_response : Shape
unfolding strategy_report
strategy_report_response = class (
    required "strategy_id" (sized 1 none)
    ∷ required "as_of" utc_time
    ∷ required "report" strategy_report
    ∷ required "computed_at" utc_time
    ∷ [])

unfoldable pub trade_log_page : Shape
unfolding trade_log_entry
trade_log_page = class (
    required "items" (list_of trade_log_entry)
    ∷ required "total" (whole 0 none)
    ∷ required "limit" (whole 1 (some 1000))
    ∷ required "offset" (whole 0 none)
    ∷ [])

unfoldable pub benchmark_curve_response : Shape
unfolding benchmark_point
benchmark_curve_response = class (required "items" (list_of benchmark_point) ∷ [])

-- The four classes that a reader or the cache validates.
pub data TopClass : Type 0 where
  report response page curve : TopClass

unfoldable pub shape_of : TopClass → Shape
unfolding strategy_report strategy_report_response trade_log_page benchmark_curve_response
shape_of report = strategy_report
shape_of response = strategy_report_response
shape_of page = trade_log_page
shape_of curve = benchmark_curve_response
