-- ===== src/Api/Report/Ingested.antt =====
-- The report endpoint after a push: api/v1/ingest.py, services/ingestion.py, services/cache_invalidator.py
-- and services/strategy_report_service.py together. The two functions of the report service are those
-- of the model, on the pool that the push writes to.
use quant_api_gateway.Prelude.{
  ℕ, ◌<◌, String, ◌≡◌, ap, ◌∙◌, ◌⊎◌, inl, inr, true, false, Option, none, some, List, ok, err,
  str_eq, Result,
}
use quant_api_gateway.Json.{Json, get}
use quant_api_gateway.Effects.{M, Exception}
use quant_api_gateway.Numbers.{Numbers}
use quant_api_gateway.Registry.{StrategyConfig, StrategyRegistry, by_id}
use quant_api_gateway.Cache.{Redis, Model}
use quant_api_gateway.Cache.Laws.{IsLawful}
use quant_api_gateway.Cache.Ends.{ScanEnds}
use quant_api_gateway.Cache.Pattern.{invalidate_pattern}
use quant_api_gateway.Cache.Invalidator.{
  invalidate_strategy_report_bundle, strategy_report_pattern, strategy_trades_pattern,
  strategy_benchmark_pattern,
}
use quant_api_gateway.Aggregator.{Pandas}
use quant_api_gateway.Ingestion.{StrategyPayload, Postgres}
use quant_api_gateway.Ingestion.Upserts.{Report}
use quant_api_gateway.Ingestion.Laws.{IsAtomic, with_report-parsed, Written}
use quant_api_gateway.Snapshot.{Parsing}
use quant_api_gateway.StrategyReports.Dates.{utc}
use quant_api_gateway.StrategyReports.Items.{Schema, SnapshotRow, TradeRow, SampleRow}
use quant_api_gateway.StrategyReports.Reads.{
  StrategyReportResponse, Pools, get_latest_report, get_report_for_date,
}
use quant_api_gateway.StrategyReports.Latest.{NoneNewer, ReadsReports, get_latest_report-stored}
use quant_api_gateway.Schemas.{Scalars, Pydantic, map_option}
use quant_api_gateway.Schemas.Payload.{report_schema, parse_extended_report, parsed-again}
use quant_api_gateway.Api.{World}
use quant_api_gateway.Api.Report.{Service, Python, Settings, report_key, get_strategy_report}
use quant_api_gateway.Api.Report.Laws.{get_strategy_report-missed}
use quant_api_gateway.Api.Ingest.{IngestAck, Pool, ingest_daily_report}
use quant_api_gateway.Api.Ingest.Accepted.{failed_500}
use quant_api_gateway.Api.Ingest.Acknowledged.{PoolKeeps, Acknowledged, Spared, snapshot_on}
use quant_api_gateway.Api.Ingest.Laws.{Pushed, ingest_daily_report-fresh}

-- The statements of the report service, on the connections of a database.
pub record Statements (N : Numbers) (D : Type 0) : Type 0 where
  pub select_latest : String → M D (Option SnapshotRow)
  pub select_on_date : String → ℕ → M D (Option SnapshotRow)
  pub count_trades : String → Option ℕ → Option ℕ → M D (Option ℕ)
  pub select_page : String → Option ℕ → Option ℕ → ℕ → ℕ → M D (List (TradeRow N))
  pub select_benchmark : String → Option ℕ → Option ℕ → M D (List (SampleRow N))

module _ (N : Numbers) (J : Schema) (D : Type 0) (statements : Statements N D)
    (isoformat : ℕ → String) where
  abbrev pub pools : Pools N J
  pools = record {
    State = D;
    select_latest = statements.select_latest;
    select_on_date = statements.select_on_date;
    count_trades = statements.count_trades;
    select_page = statements.select_page;
    select_benchmark = statements.select_benchmark;
  }

  -- The service of the handlers: the pool and the two reads of a report, and the rest as it is. `day_of`
  -- is the date of an ISO text.
  abbrev pub with_reports :
      M D (Unit {0}) → Model (StrategyReportResponse N J) → (String → ℕ) → Service D → Service D
  with_reports get_pool model day_of rest = record {
    StrategyReportResponse = StrategyReportResponse N J;
    TradeLogPage = rest.TradeLogPage;
    BenchmarkPoint = rest.BenchmarkPoint;
    report_model = model;
    page_model = rest.page_model;
    curve_model = rest.curve_model;
    get_pool = get_pool;
    get_csm_set_pool = rest.get_csm_set_pool;
    get_latest_report = get_latest_report N J isoformat pools;
    get_report_for_date = λ id date. get_report_for_date N J isoformat pools id (day_of date);
    list_trades = rest.list_trades;
    get_benchmark_curve = rest.get_benchmark_curve;
    str = rest.str;
  }

module _ (N : Numbers) (str_decimal : N.Decimal → String) (str_nat : ℕ → String)
    (DB : Postgres N str_decimal str_nat) (pool : Pool N str_decimal str_nat DB) (J : Parsing N)
    (pandas : Pandas N) (R : Redis) (S : Scalars) (P : Pydantic S) (loads : String → Option Json)
    (dumps : Json → String) (statements : Statements N DB.State) (isoformat : ℕ → String)
    (model : Model (StrategyReportResponse N (report_schema S P loads dumps))) (day_of : String → ℕ)
    (rest : Service DB.State) (py : Python) (settings : Settings) where
  abbrev schema : Schema
  schema = report_schema S P loads dumps

  abbrev service : Service DB.State
  service = with_reports N schema DB.State statements isoformat pool.get_pool model day_of rest

  abbrev pub latest_key : String → String
  latest_key id = report_key R DB.State service py settings id none

  module _ (atomic : IsAtomic N str_decimal str_nat DB)
      (law : ReadsReports N schema (pools N schema DB.State statements isoformat))
      (keeps : PoolKeeps N str_decimal str_nat DB pool J pandas R atomic) (redis : IsLawful R)
      (ends : ScanEnds R) where
    open atomic use {tables}

    -- Redis and the pool of the database answer, and the statements of the report service read the
    -- table that the push writes.
    pub record Answers : Type 0 where
      pub got : (k : String) (s : R.State) → (v : Option String) × ((R.get k s).0 ≡ some v)
      pub there : (d : DB.State) → (pool.get_pool d).0 ≡ ok tt
      pub selected :
          (id : String) (d : DB.State)
          → (row : Option SnapshotRow) × ((statements.select_latest id d).0 ≡ ok row)
      pub same_table : (d : DB.State) → law.reports d ≡ (tables d).1

    -- The report endpoint answers the report `w`, with the time of the payload.
    abbrev pub Answered : StrategyPayload N → Json → World R DB.State → Type 0
    Answered payload w world =
        (t : ℕ) × ((get_strategy_report R DB.State service py settings payload.strategy_metadata.id
            none world).0
          ≡ ok (record {
            strategy_id = payload.strategy_metadata.id;
            as_of = utc payload.strategy_metadata.last_updated;
            report = w;
            computed_at = utc t;
          }))

    abbrev pub pushed_row : ℕ → StrategyPayload N → Json → Report N
    pushed_row now payload w = record {
      time = payload.strategy_metadata.last_updated;
      strategy_id = payload.strategy_metadata.id;
      report = dumps w;
      computed_at = now;
    }

    module _ (answers : Answers) (payload : StrategyPayload N) (registry : StrategyRegistry)
        (cfg : StrategyConfig) (w : Json) where
      stored-Answered :
          (d : DB.State) (s' : R.State) (d' : DB.State)
          → let id = payload.strategy_metadata.id in
            by_id registry id ≡ some cfg
            → cfg.active ≡ true
            → loads (dumps w) ≡ some w
            → payload.parsed_report
              ≡ map_option dumps (parse_extended_report S P payload.extended_data)
            → parse_extended_report S P payload.extended_data ≡ some w
            → NoneNewer N payload.strategy_metadata.last_updated id (tables d).1
            → str_eq id "" ≡ false
            → Written N str_decimal str_nat payload (tables d) (tables d')
            → redis.lookup s' (latest_key id) ≡ none
            → Answered payload w (s', d', some registry)
      unfolding parse_extended_report
      stored-Answered d s' d' known on again carried parsed oldest named (now, stored) missing =
          let id = payload.strategy_metadata.id in
          let d'' = (pool.get_pool d').1 in
          let (v, got) = answers.got (latest_key id) s' in
          let (row, selected) = answers.selected id d'' in
          let reports : law.reports d'' ≡ _ =
            answers.same_table d''
            ∙ ap (λ t. t.1) (keeps.get_pool_keeps d' ∙ stored)
            ∙ with_report-parsed N str_decimal str_nat now payload (dumps w) (tables d).1
                (carried ∙ ap (map_option dumps) parsed) in
          let (t, read) =
            get_latest_report-stored N schema (pools N schema DB.State statements isoformat)
              isoformat law (pushed_row now payload w) (tables d).1 d'' w w row reports oldest named
              again (parsed-again S P (get payload.extended_data "report") w parsed) selected in
          (
            t,
            get_strategy_report-missed R DB.State service py settings redis id s' d' registry cfg v
                _ known on got missing (answers.there d') read,
          )

      -- How a push ends, and what the report endpoint answers then: status 500, with tables and cache as
      -- they were; or the push is acknowledged, or ends in the exception that the snapshot writer raised, if
      -- that is no `ServiceError`, and either way the next request is answered the report that was pushed.
      abbrev pub PushedThenAnswered :
          ℕ
          → ℕ
          → R.State
          → DB.State
          → Option (Result Exception IngestAck × World R DB.State)
          → Type 0
      PushedThenAnswered fuel now s d o =
          (world : World R DB.State) × (((o ≡ some (err failed_500, world))
              × (tables world.1 ≡ tables d)
              × (world.0 ≡ s))
            ⊎ ((u : R.State) × (d' : DB.State) × (invalidate_strategy_report_bundle R fuel
                    payload.strategy_metadata.id s
                  ≡ some u)
                × (tables world.1 ≡ tables d')
                × Acknowledged N str_decimal str_nat DB pool J pandas R atomic keeps redis ends
                    payload
                    (snapshot_on N str_decimal str_nat DB pool J pandas R atomic keeps redis ends
                      registry now u d')
                    o world
                × Answered payload w (world.0, world.1, some registry)))

      after_push :
          (fuel now : ℕ) (s : R.State) (d : DB.State)
          (o : Option (Result Exception IngestAck × World R DB.State))
          → ((s' : R.State) (d' : DB.State)
              → Written N str_decimal str_nat payload (tables d) (tables d')
              → redis.lookup s' (latest_key payload.strategy_metadata.id) ≡ none
              → Answered payload w (s', d', some registry))
          → Pushed N str_decimal str_nat DB pool J pandas R atomic keeps redis ends fuel now payload
              s d registry
              (λ v. redis.lookup v (latest_key payload.strategy_metadata.id) ≡ none)
              o
          → PushedThenAnswered fuel now s d o
      after_push fuel now s d o then_read (world, inl failed) = (world, inl failed)
      after_push fuel now s d o then_read
            (world, inr (u, d', settled, same, ended, stored, missing)) =
          (world, inr (u, d', settled, same, ended, then_read world.0 world.1 stored missing))

      -- With a database, a Redis and a text form of JSON that do what they document, a pool that is
      -- there, statements that succeed, fuel above the rank of cursor 0 and a pass over the report keys
      -- that returns: the push of a payload of an active strategy, with a report that validates and with
      -- no stored report of a later time, either answers 500 and changes nothing, or the next request for
      -- the latest report of that strategy is answered the report of the payload as it was parsed, with
      -- the payload's time, not one that was cached before. The key of the latest report is one that the
      -- pattern of the reports matches, and those of trades and benchmark do not.
      pub get_strategy_report-pushed :
          (fuel now : ℕ) (s : R.State) (d : DB.State) (n : ℕ) (u : R.State)
          → let id = payload.strategy_metadata.id in
            let k = latest_key id in
            by_id registry id ≡ some cfg
            → cfg.active ≡ true
            → loads (dumps w) ≡ some w
            → payload.parsed_report
              ≡ map_option dumps (parse_extended_report S P payload.extended_data)
            → parse_extended_report S P payload.extended_data ≡ some w
            → NoneNewer N payload.strategy_metadata.last_updated id (tables d).1
            → str_eq id "" ≡ false
            → ends.rank 0 < fuel
            → invalidate_pattern R (strategy_report_pattern id) fuel s ≡ some (ok n, u)
            → redis.matches (strategy_report_pattern id) k ≡ true
            → redis.matches (strategy_trades_pattern id) k ≡ false
            → redis.matches (strategy_benchmark_pattern id) k ≡ false
            → Spared N str_decimal str_nat DB pool J pandas R atomic keeps redis ends k
            → PushedThenAnswered fuel now s d (
                ingest_daily_report N str_decimal str_nat DB pool J pandas R fuel now payload
                  (s, d, some registry))
      get_strategy_report-pushed fuel now s d n u known on again carried parsed oldest named enough
            returned report no_trades no_benchmark spared =
          after_push fuel now s d _
            (λ s' d'. stored-Answered d s' d' known on again carried parsed oldest named)
            (ingest_daily_report-fresh N str_decimal str_nat DB pool J pandas R atomic keeps redis
              ends fuel now payload s d registry cfg (latest_key payload.strategy_metadata.id) n u
              enough known (answers.there d) returned report no_trades no_benchmark spared)
