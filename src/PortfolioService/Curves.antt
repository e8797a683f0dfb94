-- ===== src/PortfolioService/Curves.antt =====
-- `compute_portfolio_equity_curve` of services/portfolio.py, with `build_equity_curve_from_rows` of
-- services/snapshot_writer.py. The two statements are a parameter.
use quant_api_gateway.Prelude.{
  Result, ok, String, Bool, Option, none, some, List, [], ◌∷◌, if◌then◌else◌,
}
use quant_api_gateway.Http.{plain}
use quant_api_gateway.Effects.{
  lift, Exception, M, service, service_error, is_postgres_error, pure, raise, catch, ◌>>=◌,
}
use quant_api_gateway.Numbers.{Numbers}
use quant_api_gateway.Registry.{StrategyConfig, StrategyRegistry, active_strategies}
use quant_api_gateway.Aggregator.{Dict, put, EquityPoint, Pandas, merge_equity_curves}
use quant_api_gateway.Snapshot.{Parsing, Metadata, extract_equity_curve}

module _ (N : Numbers) where
  -- A row of the daily values of a strategy; `point` is `EquityPoint(date=…, value=…)` of it, `none`
  -- where that raises `ValueError` or `ArithmeticError`.
  pub record DayRow : Type 0 where
    pub date : String
    pub total_value : N.Float

  pub record CurveRow : Type 0 where
    pub strategy_id : String
    pub metadata : Metadata N

  -- On one connection of the pool: the latest row of each of the strategies, and all days of one.
  pub record Connection : Type 1 where
    pub State : Type 0
    pub select_latest : List String → M State (List CurveRow)
    pub select_days : String → M State (List DayRow)

  abbrev pub ids_of : List StrategyConfig → List String
  ids_of [] = []
  ids_of (cfg ∷ active) = cfg.id ∷ ids_of active

  -- `{sid: float(cfg.capital_weight) …}`
  abbrev pub weights_from : List StrategyConfig → Dict N.Float → Dict N.Float
  weights_from [] d = d
  weights_from (cfg ∷ active) d = weights_from active (put cfg.id (N.of_units cfg.capital_weight) d)

  module _ (point : String → N.Float → Option (EquityPoint N)) (DB : Connection) where
    abbrev pub points_of : List DayRow → List (EquityPoint N)
    points_of [] = []
    points_of (row ∷ rows) =
        let points = points_of rows in
        elim (point row.date row.total_value) [ none ↦ points | some p ↦ p ∷ points ]

    unfoldable pub build_equity_curve_from_rows : String → M DB.State (List (EquityPoint N))
    build_equity_curve_from_rows strategy_id = do
      rows ← DB.select_days strategy_id
      pure (points_of rows)

    -- `if curve: curves[sid] = curve`
    abbrev pub put_if_any :
        String → List (EquityPoint N) → Dict (List (EquityPoint N)) → Dict (List (EquityPoint N))
    put_if_any sid [] curves = curves
    put_if_any sid (p ∷ curve) curves = put sid (p ∷ curve) curves

    module _ (J : Parsing N) where
      -- The curve of a row, or the one rebuilt from the days of its strategy.
      abbrev pub curve_or_days : String → List (EquityPoint N) → M DB.State (List (EquityPoint N))
      curve_or_days sid [] = build_equity_curve_from_rows sid
      curve_or_days sid (p ∷ curve) = pure (p ∷ curve)

      -- The loop over the rows.
      abbrev pub gather :
          List CurveRow → Dict (List (EquityPoint N)) → M DB.State (Dict (List (EquityPoint N)))
      gather [] curves = pure curves
      gather (row ∷ rows) curves =
          curve_or_days row.strategy_id (extract_equity_curve N J row.metadata) >>= λ curve.
          gather rows (put_if_any row.strategy_id curve curves)

      abbrev pub reading : {A : Type 0} → String → M DB.State A → M DB.State A
      reading message m = catch m (λ e.
          if is_postgres_error e
          then some (raise (service service_error (plain message)))
          else none)

      module _ (pandas : Pandas N) where
        abbrev pub merged :
            Dict (List (EquityPoint N))
            → Dict N.Float
            → Bool
            → Result Exception (List (EquityPoint N))
        merged [] weights normalize = ok []
        merged (c ∷ curves) weights normalize =
            merge_equity_curves N pandas (c ∷ curves) weights normalize

        abbrev pub curve_of_active : List StrategyConfig → Bool → M DB.State (List (EquityPoint N))
        curve_of_active [] normalize = pure []
        curve_of_active (cfg ∷ active) normalize = do
          curves ←
              reading "failed to query daily_performance for equity curves"
                (DB.select_latest (ids_of (cfg ∷ active)) >>= λ rows. gather rows [])
          lift (merged curves (weights_from (cfg ∷ active) []) normalize)

        unfoldable pub compute_portfolio_equity_curve :
            StrategyRegistry → Bool → M DB.State (List (EquityPoint N))
        compute_portfolio_equity_curve registry normalize =
            curve_of_active (active_strategies registry) normalize
