-- ===== src/Tests/Metrics.antt =====
-- The texts of the metrics, and the performance of one strategy over rows in memory.
use quant_api_gateway.Prelude.{
  ℕ, suc, ◌+◌, ◌*◌, ◌^◌, ◌≤◌, String, ◌≡◌, refl, sym, ap, true, false, Option, none, some, List, [],
  ◌∷◌, arith, ltb, ok,
}
use quant_api_gateway.Registry.{active_strategies}
use quant_api_gateway.Aggregator.{
  EquityPoint, drawdown_of, calculate_weighted_return, calculate_combined_drawdown,
  merge_equity_curves, collect, scan,
}
use quant_api_gateway.Snapshot.{missing, extract_equity_curve}
use quant_api_gateway.StrategyReports.Dates.{utc}
use quant_api_gateway.Formatting.{Decimal, format_currency, format_percentage, format_delta_number}
use quant_api_gateway.Formatting.Digits.{digits_from}
use quant_api_gateway.Formatting.Currency.{cents, Says, starts_minus, format_currency-Says}
use quant_api_gateway.PortfolioService.Snapshots.{PortfolioSnapshotResponse}
use quant_api_gateway.PortfolioService.Metrics.{item, build_metrics_response}
use quant_api_gateway.PortfolioService.Moves.{distance, build_metrics_response-moves}
use quant_api_gateway.PortfolioService.Curves.{
  DayRow, build_equity_curve_from_rows, compute_portfolio_equity_curve,
}
use quant_api_gateway.PerformanceService.{
  Row, Decimals, Pool, OverallPerformanceResponse, connection, latest_curves,
  compute_overall_performance, row_to_strategy_performance,
}
use quant_api_gateway.PerformanceService.Laws.{Validates, overall-curve}
use quant_api_gateway.Tests.Figures.{figures, pandas}
use quant_api_gateway.Tests.Rounds.{parsing}
use quant_api_gateway.Tests.Caching.{known}

abbrev loss : Decimal
loss = record { negative = true; coefficient = 998142714; places = 3 }

format_currency-Says_example :
    (text : String) × (format_currency loss ≡ ok text)
    × Says true 99814271 text
    × (2 * (998142714 * 10 ^ 2) ≤ 2 * (99814271 * 10 ^ 3) + 10 ^ 3)
    × (2 * (99814271 * 10 ^ 3) ≤ 2 * (998142714 * 10 ^ 2) + 10 ^ 3)
format_currency-Says_example = format_currency-Says loss (omega arith)

abbrev day_of : ℕ → ℕ → PortfolioSnapshotResponse
day_of date total = record {
  snapshot_date = date;
  total_portfolio_value = cents false total;
  weighted_daily_return = record { negative = false; coefficient = 6300; places = 6 };
  combined_drawdown = none;
  active_strategies = 1;
  allocation = [];
  computed_at = utc 0;
}

build_metrics_response-moves_example :
    (value : String) × (delta : String) × (build_metrics_response
        (utc 9)
        (day_of 2 10025)
        (some (day_of 1 10050))
        tt
      ≡ (
        ok (record {
          snapshot_date = 2;
          metrics =
              item "Daily Return" "0.63%" "0.00"
              ∷ item "Portfolio Drawdown" "N/A" ""
              ∷ item "Total Portfolio Value" value delta
              ∷ [];
          computed_at = utc 9;
        }),
        tt,
      ))
    × Says false 10025 value
    × (digits_from 0 delta ≡ distance 10025 10050)
    × (starts_minus delta ≡ ltb 10025 10050)
unfolding format_delta_number format_percentage
build_metrics_response-moves_example =
    build_metrics_response-moves (utc 9) (day_of 2 10025) (day_of 1 10050) tt 10025 10050 "0.63%"
      "0.00" "N/A" "" refl refl (omega arith) (omega arith) refl refl refl refl

abbrev whole : Decimals figures
whole = record {
  of_json = λ v. none;
  of_float = λ x. x;
  quantize4 = λ d. ok d;
  quantize6 = λ d. ok d;
  add = λ x y. x + y;
  zero = 0;
  validate = λ r. ok r;
  validate_overall = λ r. ok r;
}

abbrev row_a : Row figures
row_a = record {
  strategy_id = "a";
  total_value = 110;
  daily_return = 1;
  max_drawdown = 0;
  sharpe_ratio = 1;
  time = utc 7;
  metadata = missing;
}

abbrev days : List (DayRow figures)
days =
    record { date = "2026-01-01"; total_value = 100 }
    ∷ record { date = "2026-01-02"; total_value = 110 }
    ∷ []

abbrev rows : Pool figures
rows = record {
  State = ℕ;
  select_latest = λ ids s. (ok (row_a ∷ []), suc s);
  select_days = λ id s. (ok days, suc s);
  select_single = λ id s. (ok (some row_a), suc s);
  select_range = λ id from_date to_date s. (ok (row_a ∷ []), suc s);
}

abbrev pub day_point : String → ℕ → Option (EquityPoint figures)
day_point date value = some (record { date = date; value = value })

abbrev whole-Validates : Validates figures parsing whole day_point rows
whole-Validates = record {
  keeps_id = λ x y h. let same : x ≡ y = cc in ap (λ r. r.strategy_id) (sym same);
  keeps_drawdown = λ x y h. let same : x ≡ y = cc in ap (λ r. r.combined_max_drawdown) (sym same);
}

abbrev overall : OverallPerformanceResponse figures
overall = record {
  total_portfolio_value = 110;
  weighted_daily_return = 0;
  combined_max_drawdown = 0;
  active_strategies = 1;
  allocation = ("a", 1) ∷ [];
  strategies =
      record {
        strategy_id = "a";
        daily_pnl = 0;
        total_value = 110;
        max_drawdown = 0;
        sharpe_ratio = 1;
        last_updated = utc 7;
      }
      ∷ [];
  computed_at = utc 9;
}

overall-curve_example :
    (curve : List (EquityPoint figures)) × (compute_portfolio_equity_curve figures day_point
        (connection figures parsing whole day_point rows
          (latest_curves figures parsing whole day_point rows))
        parsing
        pandas
        known
        true
        0
      ≡ (ok curve, 2))
    × (whole.quantize4 (drawdown_of figures pandas curve) ≡ ok 0)
unfolding compute_overall_performance active_strategies row_to_strategy_performance
    build_equity_curve_from_rows extract_equity_curve calculate_weighted_return
    calculate_combined_drawdown merge_equity_curves collect scan
overall-curve_example =
    overall-curve figures parsing whole day_point rows whole-Validates pandas (utc 9) known 0 2
      overall refl
