-- ===== src/Snapshot/Laws.antt =====
-- When a snapshot is written, and what is left alone when it is not.
use quant_api_gateway.Prelude.{
  ℕ, suc, String, ◌≡◌, refl, ap, ◌∙◌, ◌≢◌, ◌↔◌, inl, inr, Bool, true, false, not, Option, none,
  some, List, [], ◌∷◌, arith, eq_iff, ltb, Bool-cases, one_of, length, Result, ok, err,
}
use quant_api_gateway.Effects.{M, Exception, pure, catch, continue, ◌>>◌}
use quant_api_gateway.Numbers.{Numbers}
use quant_api_gateway.Registry.{StrategyConfig, StrategyRegistry, active_strategies}
use quant_api_gateway.Registry.Laws.{Fresh, DistinctIds, DistinctIds-active_strategies}
use quant_api_gateway.Cache.{Redis}
use quant_api_gateway.Cache.Invalidator.{invalidate_overall_cache}
use quant_api_gateway.Aggregator.{Pandas}
use quant_api_gateway.Snapshot.{
  TodayRow, SnapshotAggregates, Parsing, Postgres, World, on_db, on_cache, invalidate_all, ids_of,
  write_snapshot, day_of, bucket_of, if_complete, compute_aggregates, maybe_write,
  maybe_write_snapshot,
}
use quant_api_gateway.Snapshot.Rounds.{Entry, reported, all_reported, reported_le}

module _ (N : Numbers) (J : Parsing N) (pandas : Pandas N) (R : Redis) (DB : Postgres N) where
  Fresh-one_of :
      (id : String) (active : List StrategyConfig)
      → Fresh id active
      → one_of id (ids_of N J pandas R DB active) ≡ false
  Fresh-one_of id [] f = refl
  Fresh-one_of id (cfg ∷ active) f =
      ground (arith, eq_iff cfg.id id, f.0, Fresh-one_of id active f.1)

  pub length-ids :
      (active : List StrategyConfig) → length (ids_of N J pandas R DB active) ≡ length active
  length-ids [] = refl
  length-ids (cfg ∷ active) = ap suc (length-ids active)

  pub all_reported-count :
      (day : ℕ) (active : List StrategyConfig) (rows : List Entry)
      → DistinctIds active
      → ltb (reported day (ids_of N J pandas R DB active) rows) (length active)
        ≡ not (all_reported day (ids_of N J pandas R DB active) rows)
  all_reported-count day [] rows d = refl
  all_reported-count day (cfg ∷ active) rows d = ground (
    arith,
    Fresh-one_of cfg.id active d.0,
    all_reported-count day active rows d.1,
    reported_le day (ids_of N J pandas R DB active) rows,
    length-ids active,
  )

  -- What PostgreSQL documents of the query: one row for each of the given strategies with a row on
  -- that day.
  pub record IsQuery : Type 0 where
    pub history : DB.State → List Entry
    pub distinct_on :
        (day : ℕ) (ids : List String) (d : DB.State) (rows : List (TodayRow N))
        → (DB.select_today day ids d).0 ≡ ok rows
        → length rows ≡ reported day ids (history d)

  ends_true :
      (x : Result Exception (Unit {0}) × World N J pandas R DB)
      → (continue x.0 (λ _. pure true) x.1).0 ≢ ok false
  ends_true (ok _, w) h = cc
  ends_true (err e, w) h = cc

  then_ends_true :
      (x : Result Exception (Unit {0}) × World N J pandas R DB)
      (k : M (World N J pandas R DB) (Unit {0}))
      → (continue x.0 (λ _. k >> pure true) x.1).0 ≢ ok false
  then_ends_true (ok _, w) k h = ends_true (k w) h
  then_ends_true (err e, w) k h = cc

  write_snapshot-true :
      (bucket : ℕ) (active : List StrategyConfig) (agg : Option (SnapshotAggregates N))
      (w : World N J pandas R DB)
      → (write_snapshot N J pandas R DB bucket active agg w).0 ≢ ok false
  write_snapshot-true bucket active none w h = cc
  write_snapshot-true bucket active (some agg) w h =
      then_ends_true
        (on_db N J pandas R DB "failed to upsert portfolio_snapshot" (DB.upsert bucket agg) w)
        (catch
          (on_cache N J pandas R DB (invalidate_overall_cache R)
            >> invalidate_all N J pandas R DB active)
          (λ e. some (pure tt)))
        h

  module _ (query : IsQuery) (registry : StrategyRegistry) (now : ℕ) (s : R.State)
      (d : DB.State) where
    -- The ids that the writer waits for, and whether each has a row of the day of `now`.
    abbrev pub active_ids : List String
    active_ids = ids_of N J pandas R DB (active_strategies registry)

    abbrev pub complete : Bool
    complete = all_reported (day_of N J pandas R DB now) active_ids (query.history d)

    incomplete :
        (rows : List (TodayRow N)) (active : List StrategyConfig) (w : World N J pandas R DB)
        → length rows
          ≡ reported (day_of N J pandas R DB now) (ids_of N J pandas R DB active) (query.history d)
        → DistinctIds active
        → all_reported
            (day_of N J pandas R DB now)
            (ids_of N J pandas R DB active)
            (query.history d)
          ≡ false
        → if_complete N J pandas R DB now active rows w ≡ (ok false, w)
    incomplete rows active w count distinct missing =
        let short : ltb (length rows) (length active) ≡ true = rw count (
          all_reported-count (day_of N J pandas R DB now) active (query.history d) distinct
          ∙ rw missing refl) in
        rw short refl

    completed :
        (rows : List (TodayRow N)) (active : List StrategyConfig) (w : World N J pandas R DB)
        → length rows
          ≡ reported (day_of N J pandas R DB now) (ids_of N J pandas R DB active) (query.history d)
        → DistinctIds active
        → all_reported
            (day_of N J pandas R DB now)
            (ids_of N J pandas R DB active)
            (query.history d)
          ≡ true
        → (if_complete N J pandas R DB now active rows w).0 ≢ ok false
    completed rows active w count distinct there =
        let enough : ltb (length rows) (length active) ≡ false = rw count (
          all_reported-count (day_of N J pandas R DB now) active (query.history d) distinct
          ∙ rw there refl) in
        rw enough (
          write_snapshot-true (bucket_of N J pandas R DB (day_of N J pandas R DB now)) active
            (compute_aggregates N J pandas rows active) w)

    read_by : List StrategyConfig → Result Exception (List (TodayRow N)) × DB.State
    read_by active = DB.select_today (day_of N J pandas R DB now) (ids_of N J pandas R DB active) d

    list_skips :
        (active : List StrategyConfig) (rows : List (TodayRow N))
        → active ≢ []
        → DistinctIds active
        → (read_by active).0 ≡ ok rows
        → all_reported
            (day_of N J pandas R DB now)
            (ids_of N J pandas R DB active)
            (query.history d)
          ≡ false
        → maybe_write N J pandas R DB now active (s, d) ≡ (ok false, (s, (read_by active).1))
    unfolding maybe_write read_by
    list_skips [] rows some_active distinct read missing = absurd (some_active refl)
    list_skips (cfg ∷ active) rows some_active distinct read missing =
        rw read
          (incomplete rows (cfg ∷ active) _ (query.distinct_on _ _ d rows read) distinct missing)

    list_writes :
        (active : List StrategyConfig) (rows : List (TodayRow N))
        → active ≢ []
        → DistinctIds active
        → (read_by active).0 ≡ ok rows
        → all_reported
            (day_of N J pandas R DB now)
            (ids_of N J pandas R DB active)
            (query.history d)
          ≡ true
        → (maybe_write N J pandas R DB now active (s, d)).0 ≢ ok false
    unfolding maybe_write read_by
    list_writes [] rows some_active distinct read there = absurd (some_active refl)
    list_writes (cfg ∷ active) rows some_active distinct read there = rw read (
        completed rows (cfg ∷ active)
          (
            s,
            (DB.select_today (day_of N J pandas R DB now) (ids_of N J pandas R DB (cfg ∷ active))
                d).1,
          )
          (query.distinct_on _ _ d rows read) distinct there)

    -- With distinct registered ids, at least one active strategy and a query that succeeds, the writer
    -- answers `False` exactly if some active strategy has no row on the day of `now`.
    pub maybe_write_snapshot-skips_iff :
        (rows : List (TodayRow N))
        → DistinctIds registry.strategies
        → active_strategies registry ≢ []
        → (DB.select_today (day_of N J pandas R DB now) active_ids d).0 ≡ ok rows
        → ((maybe_write_snapshot N J pandas R DB registry now (s, d)).0 ≡ ok false)
          ↔ (complete ≡ false)
    unfolding maybe_write_snapshot read_by
    maybe_write_snapshot-skips_iff rows distinct some_active read =
        let active = active_strategies registry in
        let once = DistinctIds-active_strategies registry distinct in
        (
          λ h. elim (Bool-cases complete) [
            | inl e ↦ absurd (list_writes active rows some_active once read e h)
            | inr e ↦ e
          ],
          λ e. ap (λ x. x.0) (list_skips active rows some_active once read e),
        )

    -- With distinct registered ids, at least one active strategy, a query that succeeds and an active
    -- strategy without a row on the day of `now`, nothing is written and nothing invalidated: the
    -- database is as the query left it and the cache as it was.
    maybe_write_snapshot-skips :
        (rows : List (TodayRow N))
        → DistinctIds registry.strategies
        → active_strategies registry ≢ []
        → (DB.select_today (day_of N J pandas R DB now) active_ids d).0 ≡ ok rows
        → complete ≡ false
        → maybe_write_snapshot N J pandas R DB registry now (s, d)
          ≡ (ok false, (s, (DB.select_today (day_of N J pandas R DB now) active_ids d).1))
    unfolding maybe_write_snapshot read_by
    maybe_write_snapshot-skips rows distinct some_active read missing =
        list_skips (active_strategies registry) rows some_active
          (DistinctIds-active_strategies registry distinct) read missing
