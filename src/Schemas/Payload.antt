-- ===== src/Schemas/Payload.antt =====
-- The report in a payload: `_parse_extended_report` of schemas/strategy.py, and what becomes of it
-- once the payload is persisted.
use quant_api_gateway.Prelude.{ℕ, String, ◌≡◌, ap, ◌∙◌, false, Option, none, some, ok, str_eq}
use quant_api_gateway.Json.{Json, null, Fields, get}
use quant_api_gateway.Numbers.{Numbers}
use quant_api_gateway.Ingestion.{StrategyPayload, Postgres, persist_daily_report}
use quant_api_gateway.Ingestion.Laws.{IsAtomic}
use quant_api_gateway.StrategyReports.Dates.{utc}
use quant_api_gateway.StrategyReports.Items.{Schema, SnapshotRow}
use quant_api_gateway.StrategyReports.Reads.{Pools, get_latest_report}
use quant_api_gateway.StrategyReports.Latest.{NoneNewer, ReadsReports, get_latest_report-persisted}
use quant_api_gateway.Schemas.{Scalars, Pydantic, map_option}
use quant_api_gateway.Schemas.Report.{report, shape_of}
use quant_api_gateway.Schemas.Report.Laws.{model_validate-again}

module _ (S : Scalars) (P : Pydantic S) where
  -- The value under `report`; `null` is Python's `None`, and a failed validation leaves `None`.
  unfoldable pub validated_if_any : Option Json → Option Json
  validated_if_any none = none
  validated_if_any (some null) = none
  validated_if_any (some raw) = P.model_validate (shape_of report) raw

  unfoldable pub parse_extended_report : Fields → Option Json
  unfolding validated_if_any
  parse_extended_report extended_data = validated_if_any (get extended_data "report")

  -- Whatever the payload carries, a report that is parsed from it validates again as itself.
  pub parsed-again :
      (o : Option Json) (w : Json)
      → validated_if_any o ≡ some w
      → P.model_validate (shape_of report) w ≡ some w
  unfolding validated_if_any
  parsed-again none w h = cc
  parsed-again (some null) w h = cc
  parsed-again (some raw) w h = model_validate-again S P report raw w h

  module _ (loads : String → Option Json) (dumps : Json → String) where
    -- What the reads of the service validate with.
    abbrev pub report_schema : Schema
    report_schema = record {
      StrategyReport = Json;
      loads = loads;
      model_validate = P.model_validate (shape_of report);
    }

    module _ (N : Numbers) (DB : Pools N report_schema) (isoformat : ℕ → String)
        (law : ReadsReports N report_schema DB) (str_decimal : N.Decimal → String)
        (str_nat : ℕ → String) (PG : Postgres N str_decimal str_nat)
        (atomic : IsAtomic N str_decimal str_nat PG) where
      open atomic use {tables}

      -- With a database that does what it documents, and a text form of JSON that reads back: when a
      -- payload has been persisted whose extended data hold a report that validates, and no stored
      -- report of the strategy was of a later time, then `get_latest_report` on those tables, where
      -- its statement succeeds, answers the report as the payload's validation parsed it, with the
      -- time of the payload.
      pub get_latest_report-parsed :
          (payload : StrategyPayload N) (s : PG.State) (s' : DB.State) (w : Json)
          (row : Option SnapshotRow)
          → let id = payload.strategy_metadata.id in
            loads (dumps w) ≡ some w
            → payload.parsed_report ≡ map_option dumps (parse_extended_report payload.extended_data)
            → parse_extended_report payload.extended_data ≡ some w
            → (persist_daily_report N str_decimal str_nat PG payload s).0 ≡ ok tt
            → law.reports s'
              ≡ (tables (persist_daily_report N str_decimal str_nat PG payload s).1).1
            → NoneNewer N payload.strategy_metadata.last_updated id (tables s).1
            → str_eq id "" ≡ false
            → (DB.select_latest id s').0 ≡ ok row
            → (t : ℕ) × ((get_latest_report N report_schema isoformat DB id s').0
                ≡ ok (record {
                  strategy_id = id;
                  as_of = utc payload.strategy_metadata.last_updated;
                  report = w;
                  computed_at = utc t;
                }))
      unfolding parse_extended_report
      get_latest_report-parsed payload s s' w row again carried parsed done read oldest named
            answered =
          get_latest_report-persisted N report_schema DB isoformat law str_decimal str_nat PG atomic
            payload s s' (dumps w) w w row (carried ∙ ap (map_option dumps) parsed) done read oldest
            named again (parsed-again (get payload.extended_data "report") w parsed) answered
