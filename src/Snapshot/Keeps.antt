-- ===== src/Snapshot/Keeps.antt =====
-- What the snapshot writer leaves as it was.
use quant_api_gateway.Prelude.{
  ℕ, String, inl, inr, true, Option, none, some, List, [], ◌∷◌, ltb, Bool-cases, length,
}
use quant_api_gateway.Effects.{M, service, service_error, pure, catch, is_postgres_error, ◌>>◌}
use quant_api_gateway.Http.{plain}
use quant_api_gateway.Effects.Laws.{Keeps, raise-Keeps, then-Keeps, catch-Keeps, if-HandlerKeeps}
use quant_api_gateway.Numbers.{Numbers}
use quant_api_gateway.Registry.{StrategyConfig, StrategyRegistry, active_strategies}
use quant_api_gateway.Cache.{Redis}
use quant_api_gateway.Cache.Invalidator.{invalidate_overall_cache, invalidate_strategy_cache}
use quant_api_gateway.Aggregator.{Pandas}
use quant_api_gateway.Snapshot.{
  TodayRow, SnapshotAggregates, Parsing, Postgres, World, on_db, on_cache, invalidate_all,
  write_snapshot, if_complete, maybe_write, maybe_write_snapshot, ids_of, day_of, bucket_of,
  compute_aggregates,
}

module _ (N : Numbers) (J : Parsing N) (pandas : Pandas N) (R : Redis) (DB : Postgres N)
    (P : R.State × DB.State → Type 0) where
  -- The calls of the writer keep `P`.
  pub record CallsKeep : Type 0 where
    pub select_keeps :
        (day : ℕ) (ids : List String) (s : R.State) (d : DB.State)
        → P (s, d)
        → P (s, (DB.select_today day ids d).1)
    pub upsert_keeps :
        (bucket : ℕ) (agg : SnapshotAggregates N) (s : R.State) (d : DB.State)
        → P (s, d)
        → P (s, (DB.upsert bucket agg d).1)
    pub overall_keeps :
        (s : R.State) (d : DB.State) → P (s, d) → P ((invalidate_overall_cache R s).1, d)
    pub strategy_keeps :
        (id : String) (s : R.State) (d : DB.State)
        → P (s, d)
        → P ((invalidate_strategy_cache R id s).1, d)

  module _ (calls : CallsKeep) where
    on_db-Keeps :
        {A : Type 0} (message : String) (m : M DB.State A)
        → ((s : R.State) (d : DB.State) → P (s, d) → P (s, (m d).1))
        → Keeps P (on_db N J pandas R DB message m)
    on_db-Keeps {A} message m k =
        catch-Keeps P (λ (s, d). let (r, d') = m d in (r, (s, d'))) _ (λ (s, d) p. k s d p)
          (λ e.
            if-HandlerKeeps P (is_postgres_error e) _
              (raise-Keeps P A (service service_error (plain message))))

    invalidate_all-Keeps :
        (active : List StrategyConfig) → Keeps P (invalidate_all N J pandas R DB active)
    invalidate_all-Keeps [] = λ w p. p
    invalidate_all-Keeps (cfg ∷ active) =
        then-Keeps P (on_cache N J pandas R DB (invalidate_strategy_cache R cfg.id))
          (λ _. invalidate_all N J pandas R DB active)
          (λ (s, d) p. calls.strategy_keeps cfg.id s d p) (λ _. invalidate_all-Keeps active)

    invalidations-Keeps :
        (active : List StrategyConfig)
        → Keeps P (
            on_cache N J pandas R DB (invalidate_overall_cache R)
            >> invalidate_all N J pandas R DB active)
    invalidations-Keeps active =
        then-Keeps P (on_cache N J pandas R DB (invalidate_overall_cache R))
          (λ _. invalidate_all N J pandas R DB active) (λ (s, d) p. calls.overall_keeps s d p)
          (λ _. invalidate_all-Keeps active)

    write_snapshot-Keeps :
        (bucket : ℕ) (active : List StrategyConfig) (agg : Option (SnapshotAggregates N))
        → Keeps P (write_snapshot N J pandas R DB bucket active agg)
    write_snapshot-Keeps bucket active none = λ w p. p
    write_snapshot-Keeps bucket active (some agg) =
        let upsert =
          on_db N J pandas R DB "failed to upsert portfolio_snapshot" (DB.upsert bucket agg) in
        let invalidate : M (World N J pandas R DB) (Unit {0}) =
          catch
            (on_cache N J pandas R DB (invalidate_overall_cache R)
              >> invalidate_all N J pandas R DB active)
            (λ e. some (pure tt)) in
        then-Keeps P upsert (λ _. invalidate >> pure true)
          (on_db-Keeps "failed to upsert portfolio_snapshot" (DB.upsert bucket agg)
            (calls.upsert_keeps bucket agg))
          (λ _.
            then-Keeps P invalidate (λ _. pure true)
              (catch-Keeps P
                (on_cache N J pandas R DB (invalidate_overall_cache R)
                  >> invalidate_all N J pandas R DB active)
                (λ e. some (pure tt)) (invalidations-Keeps active) (λ e w p. p))
              (λ _ w p. p))

    if_complete-Keeps :
        (now : ℕ) (active : List StrategyConfig) (rows : List (TodayRow N))
        → Keeps P (if_complete N J pandas R DB now active rows)
    if_complete-Keeps now active rows w p = elim (Bool-cases (ltb (length rows) (length active))) [
      | inl e ↦ rw e p
      | inr e ↦ rw e (
          write_snapshot-Keeps (bucket_of N J pandas R DB (day_of N J pandas R DB now)) active
            (compute_aggregates N J pandas rows active) w p)
    ]

    maybe_write-Keeps :
        (now : ℕ) (active : List StrategyConfig) → Keeps P (maybe_write N J pandas R DB now active)
    unfolding maybe_write
    maybe_write-Keeps now [] = λ w p. p
    maybe_write-Keeps now (cfg ∷ active) =
        let day = day_of N J pandas R DB now in
        let ids = ids_of N J pandas R DB (cfg ∷ active) in
        then-Keeps P
          (on_db N J pandas R DB "failed to read daily_performance for snapshot"
            (DB.select_today day ids))
          (λ rows. if_complete N J pandas R DB now (cfg ∷ active) rows)
          (on_db-Keeps "failed to read daily_performance for snapshot" (DB.select_today day ids)
            (calls.select_keeps day ids))
          (λ rows. if_complete-Keeps now (cfg ∷ active) rows)

    -- What the calls of the writer keep, the writer keeps.
    pub maybe_write_snapshot-Keeps :
        (registry : StrategyRegistry) (now : ℕ)
        → Keeps P (maybe_write_snapshot N J pandas R DB registry now)
    unfolding maybe_write_snapshot
    maybe_write_snapshot-Keeps registry now = maybe_write-Keeps now (active_strategies registry)
