-- ===== src/StrategyReports/Reads.antt =====
-- The read functions of services/strategy_report_service.py. asyncpg is a parameter, and so are
-- `json.loads` and the model of a report.
use quant_api_gateway.Prelude.{
  ℕ, String, Bool, not, ◌&&◌, Option, none, some, List, [], ◌∷◌, str_eq, if◌then◌else◌, Result, ok,
  err,
}
use quant_api_gateway.Json.{Json, object}
use quant_api_gateway.Effects.{
  M, Exception, service, report_not_found_error, is_postgres_error, pure, raise, lift, catch, ◌>>=◌,
}
use quant_api_gateway.Numbers.{Numbers}
use quant_api_gateway.StrategyReports.Dates.{
  Datetime, as_utc, require_utc, date_to_utc, upper_bound,
}
use quant_api_gateway.StrategyReports.Rows.{ℤ}
use quant_api_gateway.StrategyReports.Items.{
  Column, json_text, type_name, dict, Schema, SnapshotRow, corrupt, when, each, TradeRow,
  TradeLogEntry, TradeLogPage, SampleRow, BenchmarkPoint, is_natural, is_utc, row_to_trade,
  point_at, limit_ok, absolute, total_or_zero,
}

module _ (N : Numbers) where
  module _ (J : Schema) where
    pub record StrategyReportResponse : Type 0 where
      pub strategy_id : String
      pub as_of : Datetime
      pub report : J.StrategyReport
      pub computed_at : Datetime

    -- asyncpg: each statement on a connection of its pool.
    pub record Pools : Type 1 where
      pub State : Type 0
      pub select_latest : String → M State (Option SnapshotRow)
      pub select_on_date : String → ℕ → M State (Option SnapshotRow)
      pub count_trades : String → Option ℕ → Option ℕ → M State (Option ℕ)
      pub select_page : String → Option ℕ → Option ℕ → ℕ → ℕ → M State (List (TradeRow N))
      pub select_benchmark : String → Option ℕ → Option ℕ → M State (List (SampleRow N))

    abbrev validated : String → Option J.StrategyReport → Result Exception J.StrategyReport
    validated id none =
        err (corrupt "strategy_report_snapshot row for {!r} failed validation" (id ∷ []))
    validated id (some report) = ok report

    abbrev decode_text : String → Option Json → Result Exception J.StrategyReport
    decode_text id none =
        err (corrupt "corrupt strategy_report_snapshot row for {!r}: invalid JSON" (id ∷ []))
    decode_text id (some payload) = validated id (J.model_validate payload)

    abbrev decode_report : Column → String → Result Exception J.StrategyReport
    decode_report (dict fields) id = validated id (J.model_validate (object fields))
    decode_report (json_text raw) id = decode_text id (J.loads raw)
    decode_report (type_name t) id =
        err (corrupt "unexpected report column type for {!r}: {}" (id ∷ t ∷ []))

    -- The validation of `StrategyReportResponse`.
    abbrev is_response : StrategyReportResponse → Bool
    is_response r =
        not (str_eq r.strategy_id "")
        && is_utc N (require_utc r.as_of)
        && is_utc N (require_utc r.computed_at)

    abbrev response : StrategyReportResponse → Result Exception StrategyReportResponse
    response r = when (is_response r) r

    abbrev with_decoded :
        SnapshotRow
        → String
        → Result Exception J.StrategyReport
        → Result Exception StrategyReportResponse
    with_decoded row id (err e) = err e
    with_decoded row id (ok report) = response (record {
      strategy_id = id;
      as_of = as_utc row.time;
      report = report;
      computed_at = as_utc row.computed_at;
    })

    abbrev row_to_response : SnapshotRow → String → Result Exception StrategyReportResponse
    row_to_response row id = with_decoded row id (decode_report row.report id)

    module _ (isoformat : ℕ → String) (DB : Pools) where
      -- `except asyncpg.PostgresError` around a statement.
      abbrev pub reading : {A : Type 0} → Exception → M DB.State A → M DB.State A
      reading failure m = catch m (λ e. if is_postgres_error e then some (raise failure) else none)

      -- `StrategyReportNotFoundError(strategy_id, date=…)`
      abbrev not_found : String → Exception
      not_found id =
          service report_not_found_error
            (record { template = "no strategy_report_snapshot for {!r}"; args = id ∷ [] })

      abbrev not_found_on : String → ℕ → Exception
      not_found_on id target_date = service report_not_found_error (record {
        template = "no strategy_report_snapshot for {!r} on {}";
        args = id ∷ isoformat target_date ∷ [];
      })

      abbrev pub respond :
          Exception → String → Option SnapshotRow → M DB.State StrategyReportResponse
      respond missing id none = raise missing
      respond missing id (some row) = lift (row_to_response row id)

      unfoldable pub get_latest_report : String → M DB.State StrategyReportResponse
      get_latest_report id = do
        row ←
            reading (corrupt "failed to read strategy_report_snapshot for {!r}" (id ∷ []))
              (DB.select_latest id)
        respond (not_found id) id row

      pub get_report_for_date : String → ℕ → M DB.State StrategyReportResponse
      get_report_for_date id target_date = do
        row ←
            reading
              (corrupt "failed to read strategy_report_snapshot for {!r} on {}"
                (id ∷ isoformat target_date ∷ []))
              (DB.select_on_date id target_date)
        respond (not_found_on id target_date) id row

      abbrev pub trades_statements :
          String → Option ℕ → Option ℕ → ℕ → ℕ → M DB.State (Option ℕ × List (TradeRow N))
      trades_statements id lower upper limit offset = do
        total ← DB.count_trades id lower upper
        rows ← DB.select_page id lower upper limit offset
        pure (total, rows)

      abbrev pub page_of : ℤ → ℤ → Option ℕ → List (TradeLogEntry N) → TradeLogPage N
      page_of limit offset total items = record {
        items = items;
        total = total_or_zero N total;
        limit = limit;
        offset = offset;
      }

      abbrev pub read_trades : String → Option ℕ → Option ℕ → ℤ → ℤ → M DB.State (TradeLogPage N)
      read_trades id lower upper limit offset = do
        (total, rows) ←
            reading (corrupt "failed to read trade_history for {!r}" (id ∷ []))
              (trades_statements id lower upper (absolute N limit) (absolute N offset))
        items ← lift (each (row_to_trade N) rows)
        pure (page_of limit offset total items)

      unfoldable pub list_trades :
          (str_int : ℤ → String)
          → String
          → Option ℕ
          → Option ℕ
          → ℤ
          → ℤ
          → M DB.State (TradeLogPage N)
      list_trades str_int id from_date to_date limit offset =
          if not (limit_ok N limit)
          then raise (corrupt "limit out of range: {}" (str_int limit ∷ []))
          else if not (is_natural N offset)
          then raise (corrupt "offset out of range: {}" (str_int offset ∷ []))
          else (do
            upper ← lift (upper_bound to_date)
            read_trades id (date_to_utc from_date) upper limit offset)

      abbrev pub sample_of : SampleRow N → Result Exception (BenchmarkPoint N)
      sample_of row = point_at N (as_utc row.time) (N.decimal_of row.equity)

      abbrev pub scaled : N.Decimal → BenchmarkPoint N → Result Exception (BenchmarkPoint N)
      scaled base p =
          point_at N p.date (N.mul_decimal (N.div_decimal p.value base) (N.decimal_of_nat 100))

      abbrev pub normalized :
          Bool → List (BenchmarkPoint N) → Result Exception (List (BenchmarkPoint N))
      normalized normalize [] = ok []
      normalized normalize (p ∷ points) =
          if normalize && not (N.is_zero p.value)
          then each (scaled p.value) (p ∷ points)
          else ok (p ∷ points)

      unfoldable pub get_benchmark_curve :
          String → Option ℕ → Option ℕ → Bool → M DB.State (List (BenchmarkPoint N))
      get_benchmark_curve id from_date to_date normalize = do
        upper ← lift (upper_bound to_date)
        rows ←
            reading (corrupt "failed to read benchmark_equity_curve for {!r}" (id ∷ []))
              (DB.select_benchmark id (date_to_utc from_date) upper)
        points ← lift (each sample_of rows)
        lift (normalized normalize points)
