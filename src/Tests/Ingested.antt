-- ===== src/Tests/Ingested.antt =====
-- A push of a report and the request after it, over the server and the tables in memory.
use quant_api_gateway.Prelude.{String, ◌≡◌, refl, Option, none, some, List, [], ok, arith}
use quant_api_gateway.Http.{plain}
use quant_api_gateway.Cache.{Model}
use quant_api_gateway.Cache.Pattern.{invalidate_pattern}
use quant_api_gateway.Ingestion.Upserts.{Tables, Report}
use quant_api_gateway.StrategyReports.Rows.{latest}
use quant_api_gateway.StrategyReports.Reads.{StrategyReportResponse}
use quant_api_gateway.StrategyReports.Latest.{Fetched, ReadsReports}
use quant_api_gateway.Schemas.Payload.{report_schema}
use quant_api_gateway.Api.Report.{Service}
use quant_api_gateway.Api.Ingest.{ingest_daily_report}
use quant_api_gateway.Api.Report.Ingested.{
  Statements, pools, Answers, PushedThenAnswered, get_strategy_report-pushed,
}
use quant_api_gateway.Tests.Server.{server, server-IsLawful, server-ScanEnds, find}
use quant_api_gateway.Tests.Figures.{figures, pandas, no_text, database, database-IsAtomic}
use quant_api_gateway.Tests.Caching.{known, cached, csm}
use quant_api_gateway.Tests.Rounds.{parsing}
use quant_api_gateway.Tests.Reports.{empty}
use quant_api_gateway.Tests.Pushes.{quiet, quiet-PoolKeeps, csm-known}
use quant_api_gateway.Tests.Endpoints.{python, ttls}
use quant_api_gateway.Tests.Documents.{
  scalars, pydantic, loads, dumps, with_report, validated_report, parsed, fetched,
}

abbrev statements : Statements figures (Tables figures)
statements = record {
  select_latest = λ id d. (ok (fetched (latest figures id d.1)), d);
  select_on_date = λ id date d. (ok none, d);
  count_trades = λ id lower upper d. (ok none, d);
  select_page = λ id lower upper limit offset d. (ok [], d);
  select_benchmark = λ id lower upper d. (ok [], d);
}

abbrev responses :
    Model (StrategyReportResponse figures (report_schema scalars pydantic loads dumps))
responses = record { dump = λ r. none; parse = λ s. none }

abbrev strings : Model String
strings = record { dump = λ s. some s; parse = λ s. some s }

abbrev curves : Model (List String)
curves = record { dump = λ r. none; parse = λ s. none }

abbrev others : Service (Tables figures)
others = record {
  StrategyReportResponse = String;
  TradeLogPage = String;
  BenchmarkPoint = String;
  report_model = strings;
  page_model = strings;
  curve_model = curves;
  get_pool = λ d. (ok tt, d);
  get_csm_set_pool = λ d. (ok tt, d);
  get_latest_report = λ id d. (ok "report", d);
  get_report_for_date = λ id date d. (ok date, d);
  list_trades = λ id from_date to_date limit offset d. (ok "page", d);
  get_benchmark_curve = λ id from_date to_date normalize d. (ok [], d);
  str = λ e. plain "no report";
}

fetched-Fetched :
    (o : Option (Report figures))
    → Fetched figures
        (report_schema scalars pydantic loads dumps)
        (pools figures
          (report_schema scalars pydantic loads dumps)
          (Tables figures)
          statements
          (λ n. ""))
        o
        (fetched o)
fetched-Fetched none = tt
fetched-Fetched (some r) = (refl, (r.report, refl, refl), refl)

abbrev statements-ReadsReports : ReadsReports figures (report_schema scalars pydantic loads dumps) (
    pools figures
      (report_schema scalars pydantic loads dumps)
      (Tables figures)
      statements
      (λ n. ""))
statements-ReadsReports = record {
  reports = λ d. d.1;
  selected = λ id d row h.
      let same : fetched (latest figures id d.1) ≡ row = cc in
      rw (← same) (fetched-Fetched (latest figures id d.1));
}

abbrev answers :
    Answers figures no_text no_text database quiet parsing pandas server scalars pydantic loads
      dumps statements
      (λ n. "")
      responses
      (λ s. 0)
      others
      python
      ttls
      database-IsAtomic
      statements-ReadsReports
      quiet-PoolKeeps
      server-IsLawful
      server-ScanEnds
answers = record {
  got = λ k s. (find s k, refl);
  there = λ d. refl;
  selected = λ id d. (fetched (latest figures id d.1), refl);
  same_table = λ d. refl;
}

get_strategy_report-pushed_example :
    PushedThenAnswered figures no_text no_text database quiet parsing pandas server scalars pydantic
      loads dumps statements
      (λ n. "")
      responses
      (λ s. 0)
      others
      python
      ttls
      database-IsAtomic
      statements-ReadsReports
      quiet-PoolKeeps
      server-IsLawful
      server-ScanEnds
      answers
      with_report
      known
      csm
      validated_report
      1
      7
      cached
      empty
      (ingest_daily_report figures no_text no_text database quiet parsing pandas server 1 7
        with_report
        (cached, empty, some known))
unfolding invalidate_pattern
get_strategy_report-pushed_example =
    get_strategy_report-pushed figures no_text no_text database quiet parsing pandas server scalars
      pydantic loads dumps statements (λ n. "") responses (λ s. 0) others python ttls
      database-IsAtomic statements-ReadsReports quiet-PoolKeeps server-IsLawful server-ScanEnds
      answers with_report known csm validated_report 1 7 cached empty _ _ csm-known refl refl
      (rw parsed refl) parsed tt refl (omega arith) refl refl refl refl refl
