-- ===== src/Snapshot/Writes.antt =====
-- What the snapshot writer does with a complete round: that it writes the bucket of the day.
use quant_api_gateway.Prelude.{
  ℕ, String, ◌≡◌, refl, ◌∙◌, ◌≢◌, Bool, true, false, some, List, [], ◌∷◌, arith, ltb, length,
  one_of, eq_refl, Result, ok, err,
}
use quant_api_gateway.Effects.{M, Exception, pure, handle, continue, ◌>>◌}
use quant_api_gateway.Effects.Laws.{Keeps, then-Keeps}
use quant_api_gateway.Numbers.{Numbers}
use quant_api_gateway.Registry.{StrategyConfig, StrategyRegistry, active_strategies}
use quant_api_gateway.Registry.Laws.{DistinctIds, DistinctIds-active_strategies}
use quant_api_gateway.Cache.{Redis}
use quant_api_gateway.Cache.Invalidator.{invalidate_overall_cache, invalidate_strategy_cache}
use quant_api_gateway.Aggregator.{Pandas}
use quant_api_gateway.Snapshot.{
  TodayRow, SnapshotAggregates, Parsing, Postgres, World, on_cache, invalidate_all, ids_of,
  write_snapshot, day_of, bucket_of, compute_aggregates, maybe_write, maybe_write_snapshot,
}
use quant_api_gateway.Snapshot.Rounds.{Entry, has_row, all_reported}
use quant_api_gateway.Snapshot.Laws.{IsQuery, all_reported-count, complete}
use quant_api_gateway.Snapshot.Totals.{in_rows, EachAmong, Mergeable, compute_aggregates-found}

module _ (N : Numbers) (J : Parsing N) (pandas : Pandas N) (R : Redis) (DB : Postgres N) where
  -- A step on the cache leaves the database alone.
  on_cache-database :
      {A : Type 0} (m : M R.State A) (d : DB.State)
      → Keeps (λ w. w.1 ≡ d) (on_cache N J pandas R DB m)
  on_cache-database m d w same = same

  invalidate_all-database :
      (active : List StrategyConfig) (d : DB.State)
      → Keeps (λ w. w.1 ≡ d) (invalidate_all N J pandas R DB active)
  invalidate_all-database [] d = λ w same. same
  invalidate_all-database (cfg ∷ active) d =
      then-Keeps (λ w. w.1 ≡ d) (on_cache N J pandas R DB (invalidate_strategy_cache R cfg.id))
        (λ _. invalidate_all N J pandas R DB active)
        (on_cache-database (invalidate_strategy_cache R cfg.id) d)
        (λ _. invalidate_all-database active d)

  -- Whatever the invalidation raises, the writer goes on to answer `True`.
  swallowed :
      (x : Result Exception (Unit {0}) × World N J pandas R DB)
      → (let y = handle x.0 (λ e. some (pure tt)) x.1 in continue y.0 (λ _. pure true) y.1)
        ≡ (ok true, x.1)
  swallowed (ok u, w) = refl
  swallowed (err e, w) = refl

  abbrev invalidations : List StrategyConfig → M (World N J pandas R DB) (Unit {0})
  invalidations active =
      on_cache N J pandas R DB (invalidate_overall_cache R) >> invalidate_all N J pandas R DB active

  invalidations-database :
      (active : List StrategyConfig) (w : World N J pandas R DB)
      → (invalidations active w).1.1 ≡ w.1
  invalidations-database active w =
      then-Keeps (λ v. v.1 ≡ w.1) (on_cache N J pandas R DB (invalidate_overall_cache R))
        (λ _. invalidate_all N J pandas R DB active)
        (on_cache-database (invalidate_overall_cache R) w.1)
        (λ _. invalidate_all-database active w.1) w refl

  -- The writer answers `True`, and leaves the database in that state.
  abbrev pub Writes : Result Exception Bool × World N J pandas R DB → DB.State → Type 0
  Writes (r, w) d = (r ≡ ok true) × (w.1 ≡ d)

  write_snapshot-Writes :
      (bucket : ℕ) (active : List StrategyConfig) (agg : SnapshotAggregates N) (s : R.State)
      (d : DB.State)
      → (DB.upsert bucket agg d).0 ≡ ok tt
      → Writes
          (write_snapshot N J pandas R DB bucket active (some agg) (s, d))
          (DB.upsert bucket agg d).1
  write_snapshot-Writes bucket active agg s d taken =
      let w : World N J pandas R DB = (s, (DB.upsert bucket agg d).1) in
      rw taken (rw (swallowed (invalidations active w)) (refl, invalidations-database active w))

  -- What PostgreSQL documents of the query besides: each of the given strategies with a row on that day
  -- is among the rows.
  pub record ReturnsAll (query : IsQuery N J pandas R DB) : Type 0 where
    pub returned :
        (day : ℕ) (ids : List String) (d : DB.State) (rows : List (TodayRow N))
        → (DB.select_today day ids d).0 ≡ ok rows
        → (id : String) → one_of id ids ≡ true
        → has_row day id (query.history d) ≡ true
        → in_rows N J id rows ≡ true

  all_reported-EachAmong :
      (day : ℕ) (history : List Entry) (rows : List (TodayRow N)) (active : List StrategyConfig)
      → ((id : String)
          → one_of id (ids_of N J pandas R DB active) ≡ true
          → has_row day id history ≡ true
          → in_rows N J id rows ≡ true)
      → all_reported day (ids_of N J pandas R DB active) history ≡ true
      → EachAmong N J rows active
  all_reported-EachAmong day history rows [] returned all = tt
  all_reported-EachAmong day history rows (cfg ∷ active) returned all =
      let first : has_row day cfg.id history ≡ true = ground (arith, all) in
      let others : all_reported day (ids_of N J pandas R DB active) history ≡ true =
        ground (arith, all) in
      (
        returned cfg.id (rw (eq_refl cfg.id) refl) first,
        all_reported-EachAmong day history rows active
            (λ id one row. returned id (ground (arith, one)) row) others,
      )

  module _ (query : IsQuery N J pandas R DB) (all_rows : ReturnsAll query) (now : ℕ) (s : R.State)
      (d : DB.State) (rows : List (TodayRow N)) where
    abbrev day : ℕ
    day = day_of N J pandas R DB now

    abbrev read_of : List StrategyConfig → Result Exception (List (TodayRow N)) × DB.State
    read_of active = DB.select_today day (ids_of N J pandas R DB active) d

    abbrev Written : List StrategyConfig → Type 0
    Written active =
        (agg : SnapshotAggregates N) × (compute_aggregates N J pandas rows active ≡ some agg)
        × Writes (maybe_write N J pandas R DB now active (s, d))
            (DB.upsert (bucket_of N J pandas R DB day) agg (read_of active).1).1

    list_Written :
        (active : List StrategyConfig)
        → active ≢ []
        → DistinctIds active
        → (read_of active).0 ≡ ok rows
        → all_reported day (ids_of N J pandas R DB active) (query.history d) ≡ true
        → Mergeable N J pandas rows active
        → ((agg : SnapshotAggregates N)
            → (DB.upsert (bucket_of N J pandas R DB day) agg (read_of active).1).0 ≡ ok tt)
        → Written active
    unfolding maybe_write
    list_Written [] some_active distinct read all merged taken = absurd (some_active refl)
    list_Written (cfg ∷ active) some_active distinct read all merged taken =
        let bucket = bucket_of N J pandas R DB day in
        let count = query.distinct_on _ _ d rows read in
        let enough : ltb (length rows) (length (cfg ∷ active)) ≡ false = rw count (
          all_reported-count N J pandas R DB day (cfg ∷ active) (query.history d) distinct
          ∙ rw all refl) in
        let (agg, found) =
          compute_aggregates-found N J pandas rows (cfg ∷ active)
            (all_reported-EachAmong day (query.history d) rows (cfg ∷ active)
              (all_rows.returned _ _ d rows read) all)
            merged in
        (
          agg,
          found,
          rw (read, enough, found)
              (write_snapshot-Writes bucket (cfg ∷ active) agg s (read_of (cfg ∷ active)).1
                (taken agg)),
        )

    -- With distinct registered ids, at least one active strategy, a query that returns a row for each
    -- active strategy with one on the day of `now`, every active strategy having such a row, curves in
    -- those rows that can be merged (or none), and a database that takes the upsert: the aggregates
    -- raise no `KeyError`, the writer answers `True` whatever the invalidation of the cache raises, and the database is as the upsert of those aggregates
    -- into the bucket of the day left it.
    pub maybe_write_snapshot-Writes :
        (registry : StrategyRegistry)
        → DistinctIds registry.strategies
        → active_strategies registry ≢ []
        → (read_of (active_strategies registry)).0 ≡ ok rows
        → complete N J pandas R DB query registry now s d ≡ true
        → Mergeable N J pandas rows (active_strategies registry)
        → ((agg : SnapshotAggregates N)
            → (DB.upsert
                (bucket_of N J pandas R DB day)
                agg
                (read_of (active_strategies registry)).1).0
              ≡ ok tt)
        → (agg : SnapshotAggregates N) × (compute_aggregates N J pandas rows
              (active_strategies registry)
            ≡ some agg)
          × Writes
              (maybe_write_snapshot N J pandas R DB registry now (s, d))
              (DB.upsert
                (bucket_of N J pandas R DB day)
                agg
                (read_of (active_strategies registry)).1).1
    unfolding maybe_write_snapshot
    maybe_write_snapshot-Writes registry distinct some_active read all merged taken =
        list_Written (active_strategies registry) some_active
          (DistinctIds-active_strategies registry distinct) read all merged taken
