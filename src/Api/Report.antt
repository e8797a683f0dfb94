-- ===== src/Api/Report.antt =====
-- api/v1/strategy_report.py: the report, the trades and the benchmark curve of one strategy.
pub mod Laws
pub mod Ingested
use quant_api_gateway.Prelude.{
  ℕ, zero, suc, ◌+◌, ◌-◌, ◌*◌, ◌/◌, ◌%◌, ◌^◌, ◌≤◌, ◌<◌, String, ◌<>◌, ◌≡◌, refl, sym, ap, ◌∙◌,
  fun_ext, ◌≢◌, ◌↔◌, ◌⊎◌, inl, inr, Bool, true, false, not, ◌&&◌, ◌||◌, Option, none, some, List,
  [], ◌∷◌, ◌++◌, map, arith, str_eq, eq_iff, eq_refl, ltb, leb, ◌==◌, if◌then◌else◌, ltb→lt, lt→ltb,
  leb→le, Bool-cases, Option-cases, is_none, one_of, length, Result, ok, err,
}
use quant_api_gateway.Http.{Message, HttpException, plain}
use quant_api_gateway.Effects.{M, Exception, pure, raise, catch, ◌>>=◌, ◌>>◌}
use quant_api_gateway.Cache.{Redis, Model}
use quant_api_gateway.Api.{World, on_db, ensure_active, or_500, or_404, cache_aside}

-- services/strategy_report_service.py and the pools as these handlers use them: calls on the state
-- `D` of the two databases. Dates are their ISO texts; `parse` and `dump` of the responses are
-- Pydantic's. `str` is `str(exc)`.
pub record Service (D : Type 0) : Type 1 where
  pub StrategyReportResponse : Type 0
  pub TradeLogPage : Type 0
  pub BenchmarkPoint : Type 0
  pub report_model : Model StrategyReportResponse
  pub page_model : Model TradeLogPage
  pub curve_model : Model (List BenchmarkPoint)
  pub get_pool : M D (Unit {0})
  pub get_csm_set_pool : M D (Unit {0})
  pub get_latest_report : String → M D StrategyReportResponse
  pub get_report_for_date : String → String → M D StrategyReportResponse
  pub list_trades : String → Option String → Option String → ℕ → ℕ → M D TradeLogPage
  pub get_benchmark_curve :
      String → Option String → Option String → Bool → M D (List BenchmarkPoint)
  pub str : Exception → Message

-- `repr` of an optional date, a number and a Boolean, and `hashlib.sha1(…).hexdigest()[:16]`.
pub record Python : Type 0 where
  pub repr_date : Option String → String
  pub repr_nat : ℕ → String
  pub repr_bool : Bool → String
  pub digest : String → String

-- The fields of `Settings` that the handlers read.
pub record Settings : Type 0 where
  pub strategy_report_ttl_seconds : ℕ
  pub trade_log_ttl_seconds : ℕ
  pub benchmark_curve_ttl_seconds : ℕ

-- `"|".join(f"{k}={parts[k]!r}" for k in sorted(parts))`, of parts in the order of their keys.
abbrev pub joined : List (String × String) → String
joined [] = ""
joined ((k, v) ∷ []) = k <> "=" <> v
joined ((k, v) ∷ part ∷ parts) = k <> "=" <> v <> "|" <> joined (part ∷ parts)

-- `target_date.isoformat() if target_date else 'latest'`
abbrev pub date_or_latest : Option String → String
date_or_latest none = "latest"
date_or_latest (some date) = date

module _ (R : Redis) (D : Type 0) (S : Service D) (py : Python) (settings : Settings) where
  abbrev params_hash : List (String × String) → String
  params_hash parts = py.digest (joined parts)

  abbrev pub report_key : String → Option String → String
  report_key strategy_id target_date =
      "gateway:strategy:" <> strategy_id <> ":report:" <> date_or_latest target_date

  abbrev pub trades_key : String → Option String → Option String → ℕ → ℕ → String
  trades_key strategy_id from_date to_date limit offset =
      let parts =
        ("from_date", py.repr_date from_date)
        ∷ ("limit", py.repr_nat limit)
        ∷ ("offset", py.repr_nat offset)
        ∷ ("to_date", py.repr_date to_date)
        ∷ [] in
      "gateway:strategy:" <> strategy_id <> ":trades:" <> params_hash parts

  abbrev benchmark_key : String → Option String → Option String → Bool → String
  benchmark_key strategy_id from_date to_date normalize =
      let parts =
        ("from_date", py.repr_date from_date)
        ∷ ("normalize", py.repr_bool normalize)
        ∷ ("to_date", py.repr_date to_date)
        ∷ [] in
      "gateway:strategy:" <> strategy_id <> ":benchmark:" <> params_hash parts

  abbrev read_report : String → Option String → M D S.StrategyReportResponse
  read_report strategy_id none = S.get_latest_report strategy_id
  read_report strategy_id (some target_date) = S.get_report_for_date strategy_id target_date

  abbrev pub load_report : String → Option String → M (World R D) S.StrategyReportResponse
  load_report strategy_id target_date = do
    on_db R D S.get_pool
    or_500 R D "failed to load report for {!r}" (strategy_id ∷ [])
        (or_404 R D S.str (on_db R D (read_report strategy_id target_date)))

  unfoldable pub get_strategy_report :
      String → Option String → M (World R D) S.StrategyReportResponse
  get_strategy_report strategy_id target_date = do
    ensure_active R D strategy_id
    cache_aside R D (report_key strategy_id target_date) S.report_model
        settings.strategy_report_ttl_seconds (load_report strategy_id target_date)

  abbrev pub load_trades :
      String → Option String → Option String → ℕ → ℕ → M (World R D) S.TradeLogPage
  load_trades strategy_id from_date to_date limit offset = do
    on_db R D S.get_csm_set_pool
    or_500 R D "failed to load trade log for {!r}" (strategy_id ∷ [])
        (on_db R D (S.list_trades strategy_id from_date to_date limit offset))

  unfoldable pub list_strategy_trades :
      String → Option String → Option String → ℕ → ℕ → M (World R D) S.TradeLogPage
  list_strategy_trades strategy_id from_date to_date limit offset = do
    ensure_active R D strategy_id
    cache_aside R D (trades_key strategy_id from_date to_date limit offset) S.page_model
        settings.trade_log_ttl_seconds (load_trades strategy_id from_date to_date limit offset)

  abbrev load_benchmark :
      String → Option String → Option String → Bool → M (World R D) (List S.BenchmarkPoint)
  load_benchmark strategy_id from_date to_date normalize = do
    on_db R D S.get_csm_set_pool
    or_500 R D "failed to load benchmark curve for {!r}" (strategy_id ∷ [])
        (on_db R D (S.get_benchmark_curve strategy_id from_date to_date normalize))

  unfoldable pub get_strategy_benchmark_curve :
      String → Option String → Option String → Bool → M (World R D) (List S.BenchmarkPoint)
  get_strategy_benchmark_curve strategy_id from_date to_date normalize = do
    ensure_active R D strategy_id
    cache_aside R D (benchmark_key strategy_id from_date to_date normalize) S.curve_model
        settings.benchmark_curve_ttl_seconds
        (load_benchmark strategy_id from_date to_date normalize)
