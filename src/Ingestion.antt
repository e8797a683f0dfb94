-- ===== src/Ingestion.antt =====
-- services/ingestion.py and the write of services/strategy_report_service.py: one report of a
-- strategy becomes a row, and is written in one transaction. asyncpg is a parameter.
pub mod Upserts
pub mod Laws
pub mod Returns
use quant_api_gateway.Prelude.{
  ℕ, zero, suc, ◌+◌, ◌-◌, ◌*◌, ◌/◌, ◌%◌, ◌^◌, ◌≤◌, ◌<◌, String, ◌<>◌, ◌≡◌, refl, sym, ap, ◌∙◌,
  fun_ext, ◌≢◌, ◌↔◌, ◌⊎◌, inl, inr, Bool, true, false, not, ◌&&◌, ◌||◌, Option, none, some, List,
  [], ◌∷◌, ◌++◌, map, arith, str_eq, eq_iff, eq_refl, ltb, leb, ◌==◌, if◌then◌else◌, ltb→lt, lt→ltb,
  leb→le, Bool-cases, Option-cases, is_none, one_of, length, Result, ok, err,
}
use quant_api_gateway.Json.{
  Json, null, bool, number, text, array, object, Items, nil, cons, Fields, end, field,
}
use quant_api_gateway.Http.{Message}
use quant_api_gateway.Effects.{
  M, Exception, service, service_error, ingestion_persist_error, is_postgres_error,
  is_persist_error, pure, raise, catch, ◌>>=◌, ◌>>◌,
}
use quant_api_gateway.Numbers.{Numbers}
use quant_api_gateway.Aggregator.{EquityPoint}

module _ (N : Numbers) where
  -- The payload of schemas/strategy.py, validated; `parsed_report` is `model_dump_json()` of the
  -- report. The time is in microseconds.
  pub record StrategyMetadata : Type 0 where
    pub id : String
    pub type_name : String
    pub last_updated : ℕ

  pub record PerformanceMetrics : Type 0 where
    pub daily_pnl : N.Decimal
    pub equity_curve : List (EquityPoint N)
    pub max_drawdown : N.Decimal
    pub sharpe_ratio : N.Decimal

  pub record CurrentExposure : Type 0 where
    pub total_value : N.Decimal
    pub cash_balance : N.Decimal
    pub positions_count : ℕ

  pub record StrategyPayload : Type 0 where
    pub strategy_metadata : StrategyMetadata
    pub performance_metrics : PerformanceMetrics
    pub current_exposure : CurrentExposure
    pub extended_data : Fields
    pub parsed_report : Option String

  -- A row of `daily_performance`.
  pub record Row : Type 0 where
    pub time : ℕ
    pub strategy_id : String
    pub daily_return : N.Float
    pub cumulative_return : Option N.Float
    pub total_value : N.Float
    pub cash_balance : N.Float
    pub max_drawdown : N.Float
    pub sharpe_ratio : N.Float
    pub metadata : Json

  -- `equity_curve[-1]` and `equity_curve[-2]`
  pub last_of : List (EquityPoint N) → Option (EquityPoint N)
  last_of [] = none
  last_of (p ∷ []) = some p
  last_of (_ ∷ q ∷ curve) = last_of (q ∷ curve)

  pub prior_of : List (EquityPoint N) → Option (EquityPoint N)
  prior_of [] = none
  prior_of (p ∷ []) = none
  prior_of (p ∷ _ ∷ []) = some p
  prior_of (_ ∷ q ∷ r ∷ curve) = prior_of (q ∷ r ∷ curve)

  abbrev is_over_zero : N.Float → Bool
  is_over_zero x = N.lt N.zero x

  abbrev legacy_return : N.Float → N.Float → N.Float
  legacy_return daily_pnl total_value =
      if is_over_zero total_value then N.div daily_pnl total_value else N.zero

  abbrev return_over : N.Float → N.Float → Option (EquityPoint N) → N.Float
  return_over daily_pnl total_value none = legacy_return daily_pnl total_value
  return_over daily_pnl total_value (some prior) =
      let prior_value = N.of_decimal prior.value in
      if is_over_zero prior_value
      then N.div daily_pnl prior_value
      else legacy_return daily_pnl total_value

  pub daily_return : N.Float → N.Float → List (EquityPoint N) → N.Float
  unfolding prior_of
  daily_return daily_pnl total_value equity_curve =
      return_over daily_pnl total_value (prior_of equity_curve)

  abbrev cumulative_over : EquityPoint N → Option (EquityPoint N) → Option N.Float
  cumulative_over first none = none
  cumulative_over first (some last) =
      if N.is_positive first.value
      then some (N.sub (N.of_decimal (N.div_decimal last.value first.value)) N.one)
      else none

  -- `none` on fewer than two points.
  pub cumulative_return : List (EquityPoint N) → Option N.Float
  unfolding last_of
  cumulative_return [] = none
  cumulative_return (p ∷ []) = none
  cumulative_return (first ∷ q ∷ curve) = cumulative_over first (last_of (q ∷ curve))

  -- `str` of a decimal and of an `int`.
  module _ (str_decimal : N.Decimal → String) (str_nat : ℕ → String) where
    abbrev points_blob : List (EquityPoint N) → Items
    points_blob [] = nil
    points_blob (p ∷ curve) =
        cons (object (field "date" (text p.date) (field "value" (text (str_decimal p.value)) end)))
          (points_blob curve)

    pub payload_to_row : StrategyPayload → Row
    unfolding daily_return cumulative_return
    payload_to_row payload =
        let metrics = payload.performance_metrics in
        let exposure = payload.current_exposure in
        let meta = payload.strategy_metadata in
        let total = N.of_decimal exposure.total_value in
        record {
          time = meta.last_updated;
          strategy_id = meta.id;
          daily_return = daily_return (N.of_decimal metrics.daily_pnl) total metrics.equity_curve;
          cumulative_return = cumulative_return metrics.equity_curve;
          total_value = total;
          cash_balance = N.of_decimal exposure.cash_balance;
          max_drawdown = N.of_decimal metrics.max_drawdown;
          sharpe_ratio = N.of_decimal metrics.sharpe_ratio;
          metadata = object (
              field "type" (text meta.type_name) (
                field "positions_count" (number (str_nat exposure.positions_count)) (
                  field "daily_pnl" (text (str_decimal metrics.daily_pnl)) (
                    field "equity_curve" (array (points_blob metrics.equity_curve))
                      (field "extended_data" (object payload.extended_data) end)))));
        }

    -- asyncpg: an `INSERT … ON CONFLICT` of each of the two tables, and the two context managers
    -- `pool.acquire()` and `conn.transaction()` around a block.
    pub record Postgres : Type 1 where
      pub State : Type 0
      pub insert_performance : Row → M State (Unit {0})
      pub insert_report : ℕ → String → String → M State (Unit {0})
      pub transaction : M State (Unit {0}) → M State (Unit {0})

    module _ (DB : Postgres) where
      pub persist_report : String → String → ℕ → M DB.State (Unit {0})
      persist_report strategy_id report time =
          catch (DB.insert_report time strategy_id report) (λ e.
            if is_postgres_error e
            then some (
                raise (
                  service service_error (record {
                    template = "failed to persist strategy_report_snapshot for {!r}";
                    args = strategy_id ∷ [];
                  })))
            else none)

      abbrev pub report_if_any : Row → Option String → M DB.State (Unit {0})
      report_if_any row none = pure tt
      report_if_any row (some report) = persist_report row.strategy_id report row.time

      abbrev persist_failed : String → String → Exception
      persist_failed template strategy_id =
          service ingestion_persist_error (record { template = template; args = strategy_id ∷ [] })

      -- The three `except` clauses.
      abbrev pub on_failure : String → Exception → Option (M DB.State (Unit {0}))
      on_failure strategy_id e =
          if is_postgres_error e
          then some
              (raise (persist_failed "failed to persist daily_performance for {}" strategy_id))
          else if is_persist_error e
          then some (raise e)
          else some (raise (persist_failed "failed to persist strategy_report for {}" strategy_id))

      unfoldable pub persist_daily_report : StrategyPayload → M DB.State (Unit {0})
      unfolding payload_to_row persist_report
      persist_daily_report payload =
          let row = payload_to_row payload in
          catch
            (DB.transaction (DB.insert_performance row >> report_if_any row payload.parsed_report))
            (on_failure row.strategy_id)
