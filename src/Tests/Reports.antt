-- ===== src/Tests/Reports.antt =====
-- Ingestion and aggregation of small curves.
use quant_api_gateway.Prelude.{ok, ℕ, String, ◌≡◌, refl, some, List, [], ◌∷◌}
use quant_api_gateway.Json.{end}
use quant_api_gateway.Aggregator.{
  collect, EquityPoint, merge_equity_curves, calculate_combined_drawdown,
}
use quant_api_gateway.Aggregator.Drawdown.{all_drawdowns, Among, Below, combined_drawdown-least}
use quant_api_gateway.Ingestion.{StrategyPayload, persist_daily_report}
use quant_api_gateway.Ingestion.Upserts.{Tables}
use quant_api_gateway.Ingestion.Laws.{Atomic, persist_daily_report-Atomic}
use quant_api_gateway.Tests.Figures.{
  figures, figures-IsOrdered, pandas, no_text, database, database-IsAtomic,
}

abbrev point : String → ℕ → EquityPoint figures
point date value = record { date = date; value = value }

abbrev pub payload : StrategyPayload figures
payload = record {
  strategy_metadata = record { id = "a"; type_name = "momentum"; last_updated = 7 };
  performance_metrics = record {
    daily_pnl = 10;
    equity_curve = point "2026-01-01" 100 ∷ point "2026-01-02" 110 ∷ [];
    max_drawdown = 0;
    sharpe_ratio = 1;
  };
  current_exposure = record { total_value = 110; cash_balance = 20; positions_count = 3 };
  extended_data = end;
  parsed_report = some "{}";
}

abbrev pub empty : Tables figures
empty = ([], [])

persist_daily_report-Atomic_example :
    Atomic figures no_text no_text database database-IsAtomic payload empty
      (persist_daily_report figures no_text no_text database payload empty)
persist_daily_report-Atomic_example =
    persist_daily_report-Atomic figures no_text no_text database database-IsAtomic payload empty

abbrev tables_again : Tables figures
tables_again =
    (persist_daily_report figures no_text no_text database payload
      (persist_daily_report figures no_text no_text database payload empty).1).1

abbrev curve : List (EquityPoint figures)
curve = point "2026-01-01" 100 ∷ point "2026-01-02" 50 ∷ []

abbrev rebased : List (EquityPoint figures)
rebased = point "2026-01-01" 100 ∷ point "2026-01-02" 0 ∷ []

combined_drawdown-least_example :
    (least : ℕ) × (calculate_combined_drawdown figures pandas (("a", curve) ∷ []) (("a", 1) ∷ [])
      ≡ ok least)
    × Below figures pandas least (0 ∷ all_drawdowns figures pandas rebased)
    × Among figures pandas least (0 ∷ all_drawdowns figures pandas rebased)
unfolding merge_equity_curves collect
combined_drawdown-least_example =
    combined_drawdown-least figures pandas figures-IsOrdered (("a", curve) ∷ []) (("a", 1) ∷ [])
      rebased refl
