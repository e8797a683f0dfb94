-- ===== src/Tests/Endpoints.antt =====
-- The endpoints over a database that counts its reads.
use quant_api_gateway.Prelude.{ℕ, suc, String, ◌≡◌, refl, ◌↔◌, true, none, some, List, [], ◌∷◌, ok}
use quant_api_gateway.Http.{plain}
use quant_api_gateway.Effects.{M}
use quant_api_gateway.Cache.{Model, get_cached, set_cached}
use quant_api_gateway.Api.{World, cache_aside, remember}
use quant_api_gateway.Api.Laws.{asked, Served, cache_aside-again}
use quant_api_gateway.Api.Report.{
  Python, report_key, load_report, get_strategy_report, list_strategy_trades,
  get_strategy_benchmark_curve, trades_key, load_trades,
}
use quant_api_gateway.Api.Report
use quant_api_gateway.Api.Report.Laws.{Active, get_strategy_report_iff}
use quant_api_gateway.Api.Portfolio
use quant_api_gateway.Api.Portfolio.{
  get_latest_snapshot, get_snapshot_by_date, get_portfolio_equity_curve, get_overall_performance,
  get_strategy_performance, list_strategies, get_strategy,
}
use quant_api_gateway.Api.Engine.{
  get_latest_snapshot_v2, get_snapshot_by_date_v2, get_portfolio_equity_curve_v2,
  get_overall_performance_v2, get_strategy_performance_v2, list_strategies_v2, get_strategy_v2,
  engine_v2,
}
use quant_api_gateway.Tests.Server.{server, server-IsLawful}
use quant_api_gateway.Registry.{StrategyConfig}
use quant_api_gateway.Registry.Laws.{Has}
use quant_api_gateway.Api.Portfolio.Laws.{get_strategy-listed}
use quant_api_gateway.Tests.Caching.{csm, known, known-DistinctIds}

-- Every response is a text, which is its own JSON form.
abbrev texts : Model String
texts = record { dump = λ a. some a; parse = λ a. some a }

abbrev points : Model (List String)
points = record { dump = λ a. some ""; parse = λ a. some (a ∷ []) }

abbrev read_of : {A : Type 0} → A → M ℕ A
read_of a d = (ok a, suc d)

abbrev reports : Report.Service ℕ
reports = record {
  StrategyReportResponse = String;
  TradeLogPage = String;
  BenchmarkPoint = String;
  report_model = texts;
  page_model = texts;
  curve_model = points;
  get_pool = λ d. (ok tt, d);
  get_csm_set_pool = λ d. (ok tt, d);
  get_latest_report = λ id. read_of "report";
  get_report_for_date = λ id date. read_of date;
  list_trades = λ id from_date to_date limit offset. read_of "page";
  get_benchmark_curve = λ id from_date to_date normalize. read_of ("100" ∷ []);
  str = λ e. plain "no report";
}

abbrev pub python : Python
python = record {
  repr_date = λ d. "None";
  repr_nat = λ n. "100";
  repr_bool = λ b. "False";
  digest = λ s. s;
}

abbrev pub ttls : Report.Settings
ttls = record {
  strategy_report_ttl_seconds = 300;
  trade_log_ttl_seconds = 300;
  benchmark_curve_ttl_seconds = 300;
}

abbrev snapshots : Portfolio.Service ℕ
snapshots = record {
  PortfolioSnapshotResponse = String;
  PortfolioMetricsResponse = String;
  MetricItem = String;
  EquityPoint = String;
  OverallPerformanceResponse = String;
  StrategyPerformanceResponse = String;
  snapshot_model = texts;
  metrics_model = texts;
  overall_model = texts;
  performance_model = texts;
  snapshot_date = λ s. s;
  metrics = λ s. s ∷ [];
  get_pool = λ d. (ok tt, d);
  query_latest_snapshot = read_of (some "snapshot");
  query_snapshot_by_date = λ date. read_of none;
  query_previous_snapshot = λ date. read_of none;
  build_metrics_response = λ current previous. current;
  compute_portfolio_equity_curve = λ registry normalize. read_of ("100" ∷ []);
  compute_overall_performance = λ registry. read_of "overall";
  compute_strategy_performance = λ id. read_of "performance";
  compute_strategy_performance_range = λ id from_date to_date. read_of ("first" ∷ "second" ∷ []);
}

abbrev seconds : Portfolio.Settings
seconds = record {
  portfolio_snapshot_ttl_seconds = 60;
  overall_performance_ttl_seconds = 60;
  strategy_performance_ttl_seconds = 60;
}

abbrev fresh : M (World server ℕ) String
fresh (s, d, g) = (ok "fresh", (s, suc d, g))

abbrev cold : World server ℕ
cold = ([], 0, some known)

cache_aside-again_example :
    cache_aside server ℕ "k" texts 60
      (λ w. (ok "stale", w))
      (cache_aside server ℕ "k" texts 60 fresh cold).1
    ≡ (ok "fresh", asked server ℕ "k" texts 60 (cache_aside server ℕ "k" texts 60 fresh cold).1)
unfolding cache_aside get_cached set_cached remember
cache_aside-again_example =
    cache_aside-again server ℕ "k" texts 60 server-IsLawful fresh (λ w. (ok "stale", w)) cold
      "fresh" "fresh" (some "fresh") refl refl refl refl refl refl

get_strategy_report_iff_example :
    ((get_strategy_report server ℕ reports python ttls "a" none cold).0 ≡ ok "report") ↔ (
      Active "a" (some known)
      × Served server ℕ
          (report_key server ℕ reports python ttls "a" none)
          texts
          300
          (load_report server ℕ reports python ttls "a" none)
          cold
          "report")
get_strategy_report_iff_example =
    get_strategy_report_iff server ℕ reports python ttls "a" none cold "report"

engine_v2_example :
    ((get_latest_snapshot_v2 server ℕ snapshots seconds cold
        ≡ get_latest_snapshot server ℕ snapshots seconds cold)
      × (get_snapshot_by_date_v2 server ℕ snapshots seconds "2026-01-02" cold
          ≡ get_snapshot_by_date server ℕ snapshots seconds "2026-01-02" cold)
      × (get_portfolio_equity_curve_v2 server ℕ snapshots seconds true cold
          ≡ get_portfolio_equity_curve server ℕ snapshots seconds true cold)
      × (get_overall_performance_v2 server ℕ snapshots seconds cold
          ≡ get_overall_performance server ℕ snapshots seconds cold))
    × ((get_strategy_performance_v2 server ℕ snapshots seconds "a" none none cold
          ≡ get_strategy_performance server ℕ snapshots seconds "a" none none cold)
        × (list_strategies_v2 server ℕ snapshots seconds cold
            ≡ list_strategies server ℕ snapshots seconds cold)
        × (get_strategy_v2 server ℕ snapshots seconds "a" cold
            ≡ get_strategy server ℕ snapshots seconds "a" cold))
engine_v2_example = engine_v2 server ℕ snapshots seconds "a" "2026-01-02" none none true cold

get_strategy-listed_example : ((get_strategy server ℕ snapshots seconds "a" cold).0 ≡ ok csm) ↔ (
    ((listed : List StrategyConfig) × ((list_strategies server ℕ snapshots seconds cold).0
        ≡ ok listed)
      × Has csm listed)
    × (csm.id ≡ "a"))
get_strategy-listed_example =
    get_strategy-listed server ℕ snapshots seconds "a" csm known [] 0 known-DistinctIds
