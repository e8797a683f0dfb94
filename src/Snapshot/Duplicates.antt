-- ===== src/Snapshot/Duplicates.antt =====
-- What the snapshot writer does when two active entries of the registry have one id.
use quant_api_gateway.Prelude.{
  ℕ, ◌<◌, String, ◌≡◌, refl, inl, inr, Bool, true, false, ◌||◌, List, [], ◌∷◌, arith, ltb, lt→ltb,
  Bool-cases, one_of, length, ok,
}
use quant_api_gateway.Numbers.{Numbers}
use quant_api_gateway.Registry.{StrategyConfig, StrategyRegistry, active_strategies}
use quant_api_gateway.Cache.{Redis}
use quant_api_gateway.Aggregator.{Pandas}
use quant_api_gateway.Snapshot.{
  TodayRow, Parsing, Postgres, ids_of, day_of, maybe_write, maybe_write_snapshot,
}
use quant_api_gateway.Snapshot.Rounds.{Entry, reported, reported_le}
use quant_api_gateway.Snapshot.Laws.{IsQuery, length-ids}

-- Some id stands twice in the list.
abbrev pub repeats : List String → Bool
repeats [] = false
repeats (id ∷ ids) = one_of id ids || repeats ids

reported_lt :
    (day : ℕ) (ids : List String) (rows : List Entry)
    → repeats ids ≡ true
    → reported day ids rows < length ids
reported_lt day [] rows h = cc
reported_lt day (id ∷ ids) rows h = elim (Bool-cases (one_of id ids)) [
  | inl e ↦ rw e (let bound = reported_le day ids rows in omega arith)
  | inr e ↦ let rest = reported_lt day ids rows (rw e at h) in ground (arith, e, rest)
]

module _ (N : Numbers) (J : Parsing N) (pandas : Pandas N) (R : Redis) (DB : Postgres N)
    (query : IsQuery N J pandas R DB) (now : ℕ) (s : R.State) (d : DB.State) where
  list_skips :
      (active : List StrategyConfig) (rows : List (TodayRow N))
      → repeats (ids_of N J pandas R DB active) ≡ true
      → let read = DB.select_today (day_of N J pandas R DB now) (ids_of N J pandas R DB active) d in
        read.0 ≡ ok rows → maybe_write N J pandas R DB now active (s, d) ≡ (ok false, (s, read.1))
  unfolding maybe_write
  list_skips [] rows twice read = cc
  list_skips (cfg ∷ active) rows twice read =
      let ids = ids_of N J pandas R DB (cfg ∷ active) in
      let day = day_of N J pandas R DB now in
      let count = query.distinct_on day ids d rows read in
      let fewer = reported_lt day ids (query.history d) twice in
      let short : ltb (length rows) (length (cfg ∷ active)) ≡ true =
        rw (count, ← length-ids N J pandas R DB (cfg ∷ active)) (lt→ltb _ _ fewer) in
      rw (read, short) refl

  -- With a query that returns one row for each of its strategies that has one, and two active entries of
  -- one id in the registry, the writer answers `False` whatever has been reported, and writes and
  -- invalidates nothing: the database is as the query left it and the cache as it was.
  pub maybe_write_snapshot-repeats :
      (registry : StrategyRegistry) (rows : List (TodayRow N))
      → let ids = ids_of N J pandas R DB (active_strategies registry) in
        let read = DB.select_today (day_of N J pandas R DB now) ids d in
        repeats ids ≡ true
        → read.0 ≡ ok rows
        → maybe_write_snapshot N J pandas R DB registry now (s, d) ≡ (ok false, (s, read.1))
  unfolding maybe_write_snapshot
  maybe_write_snapshot-repeats registry rows twice read =
      list_skips (active_strategies registry) rows twice read
