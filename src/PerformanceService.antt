-- ===== src/PerformanceService.antt =====
-- services/performance.py: the performance of one strategy and of all of them. asyncpg, `json.loads` and
-- `Decimal(str(…))` are parameters; responses of values that do not fit their fields, which Pydantic
-- refuses, are raised as such.
pub mod Laws
use quant_api_gateway.Prelude.{
  ℕ, zero, suc, ◌+◌, ◌-◌, ◌*◌, ◌/◌, ◌%◌, ◌^◌, ◌≤◌, ◌<◌, String, ◌<>◌, ◌≡◌, refl, sym, ap, ◌∙◌,
  fun_ext, ◌≢◌, ◌↔◌, ◌⊎◌, inl, inr, Bool, true, false, not, ◌&&◌, ◌||◌, Option, none, some, List,
  [], ◌∷◌, ◌++◌, map, arith, str_eq, eq_iff, eq_refl, ltb, leb, ◌==◌, if◌then◌else◌, ltb→lt, lt→ltb,
  leb→le, le→leb, Bool-cases, Option-cases, is_none, one_of, length, Result, ok, err,
}
use quant_api_gateway.Http.{plain}
use quant_api_gateway.Json.{Json, text, Fields, get, as_object}
use quant_api_gateway.Effects.{
  M, Exception, service, other, service_error, is_postgres_error, pure, raise, lift, catch, ◌>>=◌,
  ◌>>◌,
}
use quant_api_gateway.Numbers.{Numbers, sum}
use quant_api_gateway.Registry.{StrategyConfig, StrategyRegistry, active_strategies}
use quant_api_gateway.Aggregator.{
  Dict, values, EquityPoint, Pandas, Performance, calculate_weighted_return,
  calculate_combined_drawdown,
}
use quant_api_gateway.Snapshot.{Parsing, Metadata, missing, odd, raw, parsed, extract_equity_curve}
use quant_api_gateway.StrategyReports.Dates.{Datetime, as_utc}
use quant_api_gateway.StrategyReports.Items.{each, prepend}
use quant_api_gateway.PortfolioService.Curves.{
  Connection, CurveRow, DayRow, ids_of, weights_from, put_if_any, curve_or_days,
  build_equity_curve_from_rows,
}

module _ (N : Numbers) where
  -- A row of `daily_performance` as the three statements select it.
  pub record Row : Type 0 where
    pub strategy_id : String
    pub total_value : N.Float
    pub daily_return : N.Float
    pub max_drawdown : N.Float
    pub sharpe_ratio : N.Float
    pub time : Datetime
    pub metadata : Metadata N

  pub record StrategyPerformanceResponse : Type 0 where
    pub strategy_id : String
    pub daily_pnl : N.Decimal
    pub total_value : N.Decimal
    pub max_drawdown : N.Decimal
    pub sharpe_ratio : N.Decimal
    pub last_updated : Datetime

  pub record OverallPerformanceResponse : Type 0 where
    pub total_portfolio_value : N.Decimal
    pub weighted_daily_return : N.Decimal
    pub combined_max_drawdown : N.Decimal
    pub active_strategies : ℕ
    pub allocation : Dict N.Decimal
    pub strategies : List StrategyPerformanceResponse
    pub computed_at : Datetime

  -- Decimals: `Decimal(str(v))` of a JSON value (`none`: `ArithmeticError`) and of a float, `quantize`
  -- to four and to six places (`err`: it raises), `+` and `Decimal("0")`; and the validation of the
  -- two responses.
  pub record Decimals : Type 0 where
    pub of_json : Json → Option N.Decimal
    pub of_float : N.Float → N.Decimal
    pub quantize4 : N.Decimal → Result Exception N.Decimal
    pub quantize6 : N.Decimal → Result Exception N.Decimal
    pub add : N.Decimal → N.Decimal → N.Decimal
    pub zero : N.Decimal
    pub validate : StrategyPerformanceResponse → Result Exception StrategyPerformanceResponse
    pub validate_overall : OverallPerformanceResponse → Result Exception OverallPerformanceResponse

  pub record Pool : Type 1 where
    pub State : Type 0
    pub select_latest : List String → M State (List Row)
    pub select_days : String → M State (List (DayRow N))
    pub select_single : String → M State (Option Row)
    pub select_range : String → ℕ → ℕ → M State (List Row)

  module _ (J : Parsing N) (D : Decimals) where
    abbrev object_or_empty : Option Json → Option Fields
    object_or_empty none = none
    object_or_empty (some payload) = as_object payload

    -- `json.loads` of a text, and `{}` of what is no dict.
    abbrev fields_of : Metadata N → Option Fields
    fields_of missing = none
    fields_of odd = none
    fields_of (raw s) = object_or_empty (J.loads s)
    fields_of (parsed fields) = some fields

    abbrev or_zero : Option N.Decimal → N.Decimal
    or_zero none = D.zero
    or_zero (some d) = d

    -- `metadata.get("daily_pnl", "0")`
    abbrev daily_pnl_in : Option Json → N.Decimal
    daily_pnl_in none = or_zero (D.of_json (text "0"))
    daily_pnl_in (some v) = or_zero (D.of_json v)

    abbrev daily_pnl_of : Option Fields → N.Decimal
    daily_pnl_of none = daily_pnl_in none
    daily_pnl_of (some fields) = daily_pnl_in (get fields "daily_pnl")

    unfoldable pub row_to_strategy_performance :
        {W : Type 0} → Row → M W StrategyPerformanceResponse
    row_to_strategy_performance row = do
      total_value ← lift (D.quantize4 (D.of_float row.total_value))
      max_drawdown ← lift (D.quantize4 (D.of_float row.max_drawdown))
      sharpe_ratio ← lift (D.quantize4 (D.of_float row.sharpe_ratio))
      lift (
          D.validate (record {
            strategy_id = row.strategy_id;
            daily_pnl = daily_pnl_of (fields_of row.metadata);
            total_value = total_value;
            max_drawdown = max_drawdown;
            sharpe_ratio = sharpe_ratio;
            last_updated = as_utc row.time;
          }))

    module _ (point : String → N.Float → Option (EquityPoint N)) (DB : Pool) where
      abbrev pub connection : (List String → M DB.State (List (CurveRow N))) → Connection N
      connection select_latest = record {
        State = DB.State;
        select_latest = select_latest;
        select_days = DB.select_days;
      }

      -- The statement of the other service on this table: the same rows, with two columns.
      abbrev pub curve_row : Row → CurveRow N
      curve_row row = record { strategy_id = row.strategy_id; metadata = row.metadata }

      abbrev pub latest_curves : List String → M DB.State (List (CurveRow N))
      latest_curves ids = DB.select_latest ids >>= λ rows. pure (map curve_row rows)

      abbrev pub Gathered : Type 0
      Gathered = List StrategyPerformanceResponse × Dict (List (EquityPoint N))

      abbrev pub with_response : StrategyPerformanceResponse → Gathered → M DB.State Gathered
      with_response sp (strategies, curves) = pure (sp ∷ strategies, curves)

      -- The loop over the rows: a response and, where there is one, a curve of each.
      abbrev pub gather_performance : List Row → Dict (List (EquityPoint N)) → M DB.State Gathered
      gather_performance [] curves = pure ([], curves)
      gather_performance (row ∷ rows) curves = row_to_strategy_performance row >>= λ sp.
          curve_or_days N point (connection latest_curves) J sp.strategy_id
            (extract_equity_curve N J row.metadata)
          >>= λ curve.
              gather_performance rows
                (put_if_any N point (connection latest_curves) sp.strategy_id curve curves)
              >>= with_response sp

      abbrev pub failing : {A : Type 0} → String → List String → M DB.State A → M DB.State A
      failing template args m = catch m (λ e.
          if is_postgres_error e
          then some (raise (service service_error (record { template = template; args = args })))
          else none)

      abbrev pub read_active : List StrategyConfig → M DB.State Gathered
      read_active [] = pure ([], [])
      read_active (cfg ∷ active) =
          failing "failed to query daily_performance for overall aggregation" []
            (DB.select_latest (ids_of N (cfg ∷ active)) >>= λ rows. gather_performance rows [])

      abbrev total_value_of : N.Decimal → List StrategyPerformanceResponse → N.Decimal
      total_value_of acc [] = acc
      total_value_of acc (s ∷ strategies) = total_value_of (D.add acc s.total_value) strategies

      abbrev summary : StrategyPerformanceResponse → Performance N
      summary s = record {
        strategy_id = s.strategy_id;
        daily_pnl = s.daily_pnl;
        total_value = s.total_value;
      }

      abbrev weighted_of : List StrategyPerformanceResponse → Dict N.Float → N.Decimal
      weighted_of [] weights = D.zero
      weighted_of (s ∷ strategies) weights =
          D.of_float (calculate_weighted_return N (map summary (s ∷ strategies)) weights)

      abbrev shares : N.Float → Dict N.Float → Dict N.Decimal
      shares total [] = []
      shares total ((sid, w) ∷ weights) =
          (sid, if N.lt N.zero total then D.of_float (N.div w total) else D.zero)
          ∷ shares total weights

      module _ (pandas : Pandas N) where
        abbrev pub drawdown_if_any :
            Dict (List (EquityPoint N)) → Dict N.Float → Result Exception N.Float
        drawdown_if_any [] weights = ok N.zero
        drawdown_if_any (c ∷ curves) weights =
            calculate_combined_drawdown N pandas (c ∷ curves) weights

        abbrev pub respond :
            Datetime → List StrategyConfig → Gathered → M DB.State OverallPerformanceResponse
        respond now active (strategies, curves) = do
          let weights = weights_from N active []
          fall ← lift (drawdown_if_any curves weights)
          weighted ← lift (D.quantize6 (weighted_of strategies weights))
          drawdown ← lift (D.quantize4 (D.of_float fall))
          lift (
              D.validate_overall (record {
                total_portfolio_value = total_value_of D.zero strategies;
                weighted_daily_return = weighted;
                combined_max_drawdown = drawdown;
                active_strategies = length active;
                allocation = shares (sum N (values weights)) weights;
                strategies = strategies;
                computed_at = now;
              }))

        unfoldable pub compute_overall_performance :
            Datetime → StrategyRegistry → M DB.State OverallPerformanceResponse
        compute_overall_performance now registry =
            read_active (active_strategies registry) >>= respond now (active_strategies registry)

      abbrev found_row : String → Option Row → M DB.State StrategyPerformanceResponse
      found_row strategy_id none = raise (
          service service_error
            (record { template = "no performance data for strategy {}"; args = strategy_id ∷ [] }))
      found_row strategy_id (some row) = row_to_strategy_performance row

      pub compute_strategy_performance : String → M DB.State StrategyPerformanceResponse
      compute_strategy_performance strategy_id = do
        row ←
            failing "failed to query daily_performance for strategy {}" (strategy_id ∷ [])
              (DB.select_single strategy_id)
        found_row strategy_id row

      abbrev respond_all : List Row → M DB.State (List StrategyPerformanceResponse)
      respond_all [] = pure []
      respond_all (row ∷ rows) = do
        sp ← row_to_strategy_performance row
        rest ← respond_all rows
        pure (sp ∷ rest)

      pub compute_strategy_performance_range :
          String → ℕ → ℕ → M DB.State (List StrategyPerformanceResponse)
      compute_strategy_performance_range strategy_id from_date to_date = do
        rows ←
            failing "failed to query daily_performance for strategy {} in range" (strategy_id ∷ [])
              (DB.select_range strategy_id from_date to_date)
        respond_all rows
