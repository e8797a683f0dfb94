-- ===== src/Api/Engine.antt =====
-- api/v2/engines/portfolio.py: the second version's portfolio endpoints, beside those of the first.
use quant_api_gateway.Prelude.{
  String, ◌<>◌, ◌≡◌, refl, ◌⊎◌, inl, inr, Bool, Option, none, some, List, [], ◌∷◌, if◌then◌else◌,
}
use quant_api_gateway.Effects.{M, pure, raise, catch, is_service_error, ◌>>=◌, ◌>>◌}
use quant_api_gateway.Registry.{StrategyConfig, get_registry, by_id, active_strategies}
use quant_api_gateway.Cache.{Redis}
use quant_api_gateway.Api.{World, abort, is_inactive, on_db, on_registry, cache_aside}
use quant_api_gateway.Api.Portfolio.{
  Service, Settings, get_latest_snapshot, get_snapshot_by_date, get_portfolio_equity_curve,
  get_overall_performance, get_strategy_performance, list_strategies, get_strategy,
}

module _ (R : Redis) (D : Type 0) (S : Service D) (settings : Settings) where
  abbrev service_500 : {A : Type 0} → String → List String → M D A → M (World R D) A
  service_500 template args read =
      catch (on_db R D read)
        (λ exc. if is_service_error exc then some (raise (abort 500 template args)) else none)

  abbrev or_missing : {A : Type 0} → String → List String → Option A → M (World R D) A
  or_missing template args none = raise (abort 404 template args)
  or_missing template args (some result) = pure result

  pub get_latest_snapshot_v2 : M (World R D) S.PortfolioSnapshotResponse
  get_latest_snapshot_v2 =
      cache_aside R D "portfolio_snapshot:latest" S.snapshot_model
        settings.portfolio_snapshot_ttl_seconds
        (do
          on_db R D S.get_pool
          result ← service_500 "Failed to query portfolio snapshot" [] S.query_latest_snapshot
          or_missing "No portfolio snapshots available" [] result)

  pub get_snapshot_by_date_v2 : String → M (World R D) S.PortfolioSnapshotResponse
  get_snapshot_by_date_v2 snapshot_date =
      cache_aside R D ("portfolio_snapshot:" <> snapshot_date) S.snapshot_model
        settings.portfolio_snapshot_ttl_seconds
        (do
          on_db R D S.get_pool
          result ←
              service_500 "Failed to query portfolio snapshot for {}" (snapshot_date ∷ [])
                (S.query_snapshot_by_date snapshot_date)
          or_missing "No portfolio snapshot for {}" (snapshot_date ∷ []) result)

  -- `metrics` of the snapshot and of the one before it.
  get_metrics_by_date_v2 : String → M (World R D) (List S.MetricItem)
  get_metrics_by_date_v2 snapshot_date = do
    result ←
        cache_aside R D ("portfolio_metrics:" <> snapshot_date) S.metrics_model
          settings.portfolio_snapshot_ttl_seconds
          (do
            on_db R D S.get_pool
            read ←
                service_500 "Failed to query portfolio snapshot for {}" (snapshot_date ∷ [])
                  (S.query_snapshot_by_date snapshot_date)
            current ← or_missing "No portfolio snapshot for {}" (snapshot_date ∷ []) read
            previous ←
                service_500 "Failed to query previous portfolio snapshot" []
                  (S.query_previous_snapshot (S.snapshot_date current))
            pure (S.build_metrics_response current previous))
    pure (S.metrics result)

  get_latest_metrics_v2 : Option String → M (World R D) (List S.MetricItem)
  unfolding get_metrics_by_date_v2
  get_latest_metrics_v2 (some snapshot_date) = get_metrics_by_date_v2 snapshot_date
  get_latest_metrics_v2 none = do
    result ←
        cache_aside R D "portfolio_metrics:latest" S.metrics_model
          settings.portfolio_snapshot_ttl_seconds
          (do
            on_db R D S.get_pool
            read ← service_500 "Failed to query portfolio snapshot" [] S.query_latest_snapshot
            current ← or_missing "No portfolio snapshots available" [] read
            previous ←
                service_500 "Failed to query previous portfolio snapshot" []
                  (S.query_previous_snapshot (S.snapshot_date current))
            pure (S.build_metrics_response current previous))
    pure (S.metrics result)

  pub get_portfolio_equity_curve_v2 : Bool → M (World R D) (List S.EquityPoint)
  get_portfolio_equity_curve_v2 normalize = do
    registry ← on_registry R D get_registry
    on_db R D S.get_pool
    service_500 "Failed to compute portfolio equity curve" []
        (S.compute_portfolio_equity_curve registry normalize)

  pub get_overall_performance_v2 : M (World R D) S.OverallPerformanceResponse
  get_overall_performance_v2 = do
    registry ← on_registry R D get_registry
    cache_aside R D "overall_performance" S.overall_model settings.overall_performance_ttl_seconds
        (do
          on_db R D S.get_pool
          service_500 "Failed to compute overall performance" []
              (S.compute_overall_performance registry))

  -- What follows the 404 in `get_strategy_performance_v2`.
  abbrev dated :
      String
      → Option String
      → Option String
      → M (World R D) (S.StrategyPerformanceResponse ⊎ List S.StrategyPerformanceResponse)
  dated strategy_id (some from_date) (some to_date) = do
    on_db R D S.get_pool
    rows ←
        service_500 "Failed to compute performance range for strategy {!r}" (strategy_id ∷ [])
          (S.compute_strategy_performance_range strategy_id from_date to_date)
    pure (inr rows)
  dated strategy_id none none = do
    on_db R D S.get_pool
    row ←
        cache_aside R D ("strategy:" <> strategy_id <> ":performance") S.performance_model
          settings.strategy_performance_ttl_seconds
          (service_500 "Failed to compute performance for strategy {!r}" (strategy_id ∷ [])
            (S.compute_strategy_performance strategy_id))
    pure (inl row)
  dated strategy_id _ _ =
      raise (abort 422 "Both from_date and to_date are required for range queries" [])

  pub get_strategy_performance_v2 :
      String
      → Option String
      → Option String
      → M (World R D) (S.StrategyPerformanceResponse ⊎ List S.StrategyPerformanceResponse)
  get_strategy_performance_v2 strategy_id from_date to_date = do
    registry ← on_registry R D get_registry
    (if is_inactive (by_id registry strategy_id)
        then raise (abort 404 "Strategy {!r} not found" (strategy_id ∷ []))
        else pure tt)
    dated strategy_id from_date to_date

  pub list_strategies_v2 : M (World R D) (List StrategyConfig)
  list_strategies_v2 = do registry ← on_registry R D get_registry; pure (active_strategies registry)

  pub get_strategy_v2 : String → M (World R D) StrategyConfig
  get_strategy_v2 strategy_id = do
    registry ← on_registry R D get_registry
    elim (by_id registry strategy_id) [
      | none ↦ raise (abort 404 "Strategy {!r} not found" (strategy_id ∷ []))
      | some cfg ↦
          if cfg.active
          then pure cfg
          else raise (abort 404 "Strategy {!r} not found" (strategy_id ∷ []))
    ]

  -- The snapshot, equity-curve and overall-performance endpoints of version 2 answer and act as those
  -- of version 1.
  portfolio_v2 :
      (date : String) (normalize : Bool) (w : World R D)
      → (get_latest_snapshot_v2 w ≡ get_latest_snapshot R D S settings w)
        × (get_snapshot_by_date_v2 date w ≡ get_snapshot_by_date R D S settings date w)
        × (get_portfolio_equity_curve_v2 normalize w
            ≡ get_portfolio_equity_curve R D S settings normalize w)
        × (get_overall_performance_v2 w ≡ get_overall_performance R D S settings w)
  unfolding get_latest_snapshot_v2 get_latest_snapshot get_snapshot_by_date_v2 get_snapshot_by_date
      get_portfolio_equity_curve_v2 get_portfolio_equity_curve get_overall_performance_v2
      get_overall_performance
  portfolio_v2 date normalize w = (refl, refl, refl, refl)

  -- The performance endpoint of one strategy and the registry endpoints of version 2 answer and act
  -- as those of version 1, on every combination of the two dates.
  strategies_v2 :
      (id : String) (from_date to_date : Option String) (w : World R D)
      → (get_strategy_performance_v2 id from_date to_date w
          ≡ get_strategy_performance R D S settings id from_date to_date w)
        × (list_strategies_v2 w ≡ list_strategies R D S settings w)
        × (get_strategy_v2 id w ≡ get_strategy R D S settings id w)
  unfolding get_strategy_performance_v2 get_strategy_performance list_strategies_v2 list_strategies
      get_strategy_v2 get_strategy
  strategies_v2 id (some from_date) (some to_date) w = (refl, refl, refl)
  strategies_v2 id none none w = (refl, refl, refl)
  strategies_v2 id none (some to_date) w = (refl, refl, refl)
  strategies_v2 id (some from_date) none w = (refl, refl, refl)

  -- The endpoints of snapshots, curves, performance and the registry of version 2 answer and act as
  -- those of version 1.
  pub engine_v2 :
      (id date : String) (from_date to_date : Option String) (normalize : Bool) (w : World R D)
      → ((get_latest_snapshot_v2 w ≡ get_latest_snapshot R D S settings w)
          × (get_snapshot_by_date_v2 date w ≡ get_snapshot_by_date R D S settings date w)
          × (get_portfolio_equity_curve_v2 normalize w
              ≡ get_portfolio_equity_curve R D S settings normalize w)
          × (get_overall_performance_v2 w ≡ get_overall_performance R D S settings w))
        × ((get_strategy_performance_v2 id from_date to_date w
              ≡ get_strategy_performance R D S settings id from_date to_date w)
            × (list_strategies_v2 w ≡ list_strategies R D S settings w)
            × (get_strategy_v2 id w ≡ get_strategy R D S settings id w))
  engine_v2 id date from_date to_date normalize w =
      (portfolio_v2 date normalize w, strategies_v2 id from_date to_date w)
