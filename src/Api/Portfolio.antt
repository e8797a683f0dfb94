-- ===== src/Api/Portfolio.antt =====
-- api/v1/portfolio.py, api/v1/performance.py and the registry endpoints of api/v1/strategies.py.
pub mod Laws
use quant_api_gateway.Prelude.{
  ℕ, zero, suc, ◌+◌, ◌-◌, ◌*◌, ◌/◌, ◌%◌, ◌^◌, ◌≤◌, ◌<◌, String, ◌<>◌, ◌≡◌, refl, sym, ap, ◌∙◌,
  fun_ext, ◌≢◌, ◌↔◌, ◌⊎◌, inl, inr, Bool, true, false, not, ◌&&◌, ◌||◌, Option, none, some, List,
  [], ◌∷◌, ◌++◌, map, arith, str_eq, eq_iff, eq_refl, ltb, leb, ◌==◌, if◌then◌else◌, ltb→lt, lt→ltb,
  leb→le, Bool-cases, Option-cases, is_none, one_of, length, Result, ok, err,
}
use quant_api_gateway.Effects.{M, Exception, pure, raise, catch, ◌>>=◌, ◌>>◌}
use quant_api_gateway.Registry.{
  StrategyConfig, StrategyRegistry, Global, get_registry, by_id, active_strategies,
}
use quant_api_gateway.Cache.{Redis, Model}
use quant_api_gateway.Api.{
  World, abort, is_inactive, on_db, on_registry, or_500, found, require_active, cache_aside,
}

-- services/portfolio.py and services/performance.py as the handlers use them: calls on the state `D`
-- of the database. Dates are their ISO texts.
pub record Service (D : Type 0) : Type 1 where
  pub PortfolioSnapshotResponse : Type 0
  pub PortfolioMetricsResponse : Type 0
  pub MetricItem : Type 0
  pub EquityPoint : Type 0
  pub OverallPerformanceResponse : Type 0
  pub StrategyPerformanceResponse : Type 0
  pub snapshot_model : Model PortfolioSnapshotResponse
  pub metrics_model : Model PortfolioMetricsResponse
  pub overall_model : Model OverallPerformanceResponse
  pub performance_model : Model StrategyPerformanceResponse
  pub snapshot_date : PortfolioSnapshotResponse → String
  pub metrics : PortfolioMetricsResponse → List MetricItem
  pub get_pool : M D (Unit {0})
  pub query_latest_snapshot : M D (Option PortfolioSnapshotResponse)
  pub query_snapshot_by_date : String → M D (Option PortfolioSnapshotResponse)
  pub query_previous_snapshot : String → M D (Option PortfolioSnapshotResponse)
  pub build_metrics_response :
      PortfolioSnapshotResponse → Option PortfolioSnapshotResponse → PortfolioMetricsResponse
  pub compute_portfolio_equity_curve : StrategyRegistry → Bool → M D (List EquityPoint)
  pub compute_overall_performance : StrategyRegistry → M D OverallPerformanceResponse
  pub compute_strategy_performance : String → M D StrategyPerformanceResponse
  pub compute_strategy_performance_range :
      String → String → String → M D (List StrategyPerformanceResponse)

-- The fields of `Settings` that the handlers read.
pub record Settings : Type 0 where
  pub portfolio_snapshot_ttl_seconds : ℕ
  pub overall_performance_ttl_seconds : ℕ
  pub strategy_performance_ttl_seconds : ℕ

module _ (R : Redis) (D : Type 0) (S : Service D) (settings : Settings) where
  unfoldable pub get_latest_snapshot : M (World R D) S.PortfolioSnapshotResponse
  get_latest_snapshot =
      cache_aside R D "portfolio_snapshot:latest" S.snapshot_model
        settings.portfolio_snapshot_ttl_seconds
        (do
          on_db R D S.get_pool
          result ←
              or_500 R D "Failed to query portfolio snapshot" [] (on_db R D S.query_latest_snapshot)
          found R D "No portfolio snapshots available" [] result)

  unfoldable pub get_snapshot_by_date : String → M (World R D) S.PortfolioSnapshotResponse
  get_snapshot_by_date date =
      cache_aside R D ("portfolio_snapshot:" <> date) S.snapshot_model
        settings.portfolio_snapshot_ttl_seconds
        (do
          on_db R D S.get_pool
          result ←
              or_500 R D "Failed to query portfolio snapshot for {}" (date ∷ [])
                (on_db R D (S.query_snapshot_by_date date))
          found R D "No portfolio snapshot for {}" (date ∷ []) result)

  unfoldable pub get_portfolio_equity_curve : Bool → M (World R D) (List S.EquityPoint)
  get_portfolio_equity_curve normalize = do
    registry ← on_registry R D get_registry
    on_db R D S.get_pool
    or_500 R D "Failed to compute portfolio equity curve" []
        (on_db R D (S.compute_portfolio_equity_curve registry normalize))

  unfoldable pub get_overall_performance : M (World R D) S.OverallPerformanceResponse
  get_overall_performance = do
    registry ← on_registry R D get_registry
    cache_aside R D "overall_performance" S.overall_model settings.overall_performance_ttl_seconds (
        on_db R D S.get_pool
        >> or_500 R D "Failed to compute overall performance" []
            (on_db R D (S.compute_overall_performance registry)))

  abbrev performance_key : String → String
  performance_key strategy_id = "strategy:" <> strategy_id <> ":performance"

  -- The three cases of the two optional dates, behind the 404 and before the pool.
  abbrev latest_performance : String → M (World R D) S.StrategyPerformanceResponse
  latest_performance strategy_id =
      cache_aside R D (performance_key strategy_id) S.performance_model
        settings.strategy_performance_ttl_seconds
        (or_500 R D "Failed to compute performance for strategy {!r}" (strategy_id ∷ [])
          (on_db R D (S.compute_strategy_performance strategy_id)))

  abbrev pub performance_range :
      String → String → String → M (World R D) (List S.StrategyPerformanceResponse)
  performance_range strategy_id from_date to_date =
      or_500 R D "Failed to compute performance range for strategy {!r}" (strategy_id ∷ [])
        (on_db R D (S.compute_strategy_performance_range strategy_id from_date to_date))

  abbrev pub performance_between :
      String
      → Option String
      → Option String
      → M (World R D) (S.StrategyPerformanceResponse ⊎ List S.StrategyPerformanceResponse)
  performance_between strategy_id (some from_date) (some to_date) = do
    on_db R D S.get_pool
    rows ← performance_range strategy_id from_date to_date
    pure (inr rows)
  performance_between strategy_id none none = do
    on_db R D S.get_pool
    row ← latest_performance strategy_id
    pure (inl row)
  performance_between strategy_id _ _ =
      raise (abort 422 "Both from_date and to_date are required for range queries" [])

  unfoldable pub get_strategy_performance :
      String
      → Option String
      → Option String
      → M (World R D) (S.StrategyPerformanceResponse ⊎ List S.StrategyPerformanceResponse)
  get_strategy_performance strategy_id from_date to_date = do
    registry ← on_registry R D get_registry
    require_active R D strategy_id (by_id registry strategy_id)
    performance_between strategy_id from_date to_date

  unfoldable pub list_strategies : M (World R D) (List StrategyConfig)
  list_strategies = do registry ← on_registry R D get_registry; pure (active_strategies registry)

  abbrev pub active_config : String → Option StrategyConfig → M (World R D) StrategyConfig
  active_config strategy_id none = raise (abort 404 "Strategy {!r} not found" (strategy_id ∷ []))
  active_config strategy_id (some cfg) =
      if cfg.active
      then pure cfg
      else raise (abort 404 "Strategy {!r} not found" (strategy_id ∷ []))

  unfoldable pub get_strategy : String → M (World R D) StrategyConfig
  get_strategy strategy_id = do
    registry ← on_registry R D get_registry
    active_config strategy_id (by_id registry strategy_id)
