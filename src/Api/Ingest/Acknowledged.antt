-- ===== src/Api/Ingest/Acknowledged.antt =====
-- The end of a push: the snapshot and its answer, and what they leave in the tables and in the cache.
use quant_api_gateway.Prelude.{
  ℕ, String, ◌≡◌, refl, ◌∙◌, ◌⊎◌, inl, inr, Bool, true, false, Option, none, some, List, [], ◌∷◌,
  if◌then◌else◌, Bool-cases, one_of, Result, ok, err,
}
use quant_api_gateway.Effects.{Exception, handle, continue, is_service_error, pure}
use quant_api_gateway.Numbers.{Numbers}
use quant_api_gateway.Registry.{StrategyRegistry}
use quant_api_gateway.Cache.{Redis}
use quant_api_gateway.Cache.Laws.{IsLawful}
use quant_api_gateway.Cache.Ends.{ScanEnds}
use quant_api_gateway.Cache.Invalidator.{invalidate_strategy_report_bundle}
use quant_api_gateway.Cache.Invalidator.Laws.{
  has_prefix, ResultKey, overall, strategy, ResultKey-differs, invalidate_caches-spare,
}
use quant_api_gateway.Aggregator.{Pandas}
use quant_api_gateway.Ingestion.{StrategyPayload, Postgres}
use quant_api_gateway.Ingestion.Upserts.{Tables}
use quant_api_gateway.Ingestion.Laws.{IsAtomic}
use quant_api_gateway.Snapshot.{SnapshotAggregates, Parsing, maybe_write_snapshot}
use quant_api_gateway.Snapshot.Keeps.{CallsKeep, maybe_write_snapshot-Keeps}
use quant_api_gateway.Api.{World}
use quant_api_gateway.Api.Ingest.{
  IngestAck, Pool, snapshots, ack_of, acknowledge, finish, settle_cache,
}

module _ (N : Numbers) (str_decimal : N.Decimal → String) (str_nat : ℕ → String)
    (DB : Postgres N str_decimal str_nat) (pool : Pool N str_decimal str_nat DB) (J : Parsing N)
    (pandas : Pandas N) (R : Redis) where
  module _ (law : IsAtomic N str_decimal str_nat DB) where
    open law use {tables}

    -- The other calls of the handler leave the two tables as they are.
    pub record PoolKeeps : Type 0 where
      pub get_pool_keeps : (d : DB.State) → tables (pool.get_pool d).1 ≡ tables d
      pub select_keeps :
          (day : ℕ) (ids : List String) (d : DB.State)
          → tables (pool.select_today day ids d).1 ≡ tables d
      pub upsert_keeps :
          (bucket : ℕ) (agg : SnapshotAggregates N) (d : DB.State)
          → tables (pool.upsert bucket agg d).1 ≡ tables d

    module _ (keeps : PoolKeeps) (redis : IsLawful R) (ends : ScanEnds R) where
      open redis use {lookup, matches}

      -- A key of the gateway's, under which the snapshot writer deletes nothing.
      abbrev pub Spared : String → Type 0
      Spared k = has_prefix "gateway:" k ≡ true

      abbrev Kept : Tables N → String → Option String → R.State × DB.State → Type 0
      Kept t k v (s, d) = (tables d ≡ t) × (lookup s k ≡ v)

      others_for :
          {i : String} (k : String)
          → Spared k
          → ResultKey R redis ends i
          → one_of k (i ∷ []) ≡ false
      others_for k spared key = rw (ResultKey-differs R redis ends k key spared) refl

      Kept-CallsKeep :
          (t : Tables N) (k : String) (v : Option String)
          → Spared k
          → CallsKeep N J pandas R (snapshots N str_decimal str_nat DB pool J pandas R) (Kept t k v)
      Kept-CallsKeep t k v spared = record {
        select_keeps = λ day ids s d (p, q). (keeps.select_keeps day ids d ∙ p, q);
        upsert_keeps = λ bucket agg s d (p, q). (keeps.upsert_keeps bucket agg d ∙ p, q);
        overall_keeps = λ s d (p, q). (
          p,
          (invalidate_caches-spare R redis "" k k s (others_for k spared overall)
                (others_for k spared (strategy ""))).0.1
              ∙ q,
        );
        strategy_keeps = λ id s d (p, q). (
          p,
          (invalidate_caches-spare R redis id k k s (others_for k spared overall)
                (others_for k spared (strategy id))).1.1
              ∙ q,
        );
      }

      abbrev Stored : Tables N → R.State × DB.State → Type 0
      Stored t (s, d) = tables d ≡ t

      Stored-CallsKeep :
          (t : Tables N)
          → CallsKeep N J pandas R (snapshots N str_decimal str_nat DB pool J pandas R) (Stored t)
      Stored-CallsKeep t = record {
        select_keeps = λ day ids s d p. keeps.select_keeps day ids d ∙ p;
        upsert_keeps = λ bucket agg s d p. keeps.upsert_keeps bucket agg d ∙ p;
        overall_keeps = λ s d p. p;
        strategy_keeps = λ id s d p. p;
      }

      -- What the snapshot writer raised, if anything, is a `ServiceError`.
      abbrev pub NoneOther : Result Exception Bool → Type 0
      NoneOther (ok wrote) = Unit
      NoneOther (err e) = is_service_error e ≡ true

      -- The answer of the snapshot step is dropped, with a `ServiceError` that it raised; an exception of
      -- another kind that it raised is the answer of the push.
      abbrev pub Acknowledged :
          StrategyPayload N
          → Result Exception Bool
          → Option (Result Exception IngestAck × World R DB.State)
          → World R DB.State
          → Type 0
      Acknowledged payload snapshot o w =
          (NoneOther snapshot
            × (o ≡ some (ok (ack_of N str_decimal str_nat DB pool J pandas R payload), w)))
          ⊎ ((e : Exception) × (snapshot ≡ err e)
              × (is_service_error e ≡ false)
              × (o ≡ some (err e, w)))

      -- What the snapshot writer answers on this cache and database.
      abbrev pub snapshot_on : StrategyRegistry → ℕ → R.State → DB.State → Result Exception Bool
      snapshot_on registry now s d =
          let db = snapshots N str_decimal str_nat DB pool J pandas R in
          (maybe_write_snapshot N J pandas R db registry now (s, d)).0

      abbrev handled :
          StrategyPayload N
          → Result Exception Bool × World R DB.State
          → Result Exception IngestAck × World R DB.State
      handled payload x =
          let y =
            handle x.0
              (λ e. if is_service_error e then some (pure {W = World R DB.State} false) else none)
              x.1 in
          continue y.0 (λ _. pure (ack_of N str_decimal str_nat DB pool J pandas R payload)) y.1

      handled-Acknowledged :
          (payload : StrategyPayload N) (x : Result Exception Bool × World R DB.State)
          → Acknowledged payload x.0 (some (handled payload x)) x.1
      handled-Acknowledged payload (ok b, w) = inl (tt, refl)
      handled-Acknowledged payload (err e, w) = elim (Bool-cases (is_service_error e)) [
        | inl f ↦ inl (f, rw (f, handled, handle) refl)
        | inr f ↦ inr (e, refl, f, rw (f, handled, handle) refl)
      ]

      -- After the cache: acknowledged, with the tables as they were, and what the cache holds under
      -- a spared key.
      acknowledge-Acknowledged :
          (payload : StrategyPayload N) (registry : StrategyRegistry) (now : ℕ) (s : R.State)
          (d : DB.State)
          → (w' : World R DB.State) × Acknowledged payload
              (snapshot_on registry now s d)
              (some (
                acknowledge N str_decimal str_nat DB pool J pandas R payload registry now
                  (s, d, some registry)))
              w'
            × (tables w'.1 ≡ tables d)
            × ((k : String) → Spared k → lookup w'.0 k ≡ lookup s k)
      acknowledge-Acknowledged payload registry now s d =
          let db = snapshots N str_decimal str_nat DB pool J pandas R in
          let x = maybe_write_snapshot N J pandas R db registry now (s, d) in
          let keep : (k : String) → Spared k → Kept (tables d) k (lookup s k) x.1 = λ k spared.
            maybe_write_snapshot-Keeps N J pandas R db (Kept (tables d) k (lookup s k))
              (Kept-CallsKeep (tables d) k (lookup s k) spared) registry now (s, d) (refl, refl) in
          (
            (x.1.0, x.1.1, some registry),
            handled-Acknowledged payload (x.0, (x.1.0, x.1.1, some registry)),
            maybe_write_snapshot-Keeps N J pandas R db (Stored (tables d))
                (Stored-CallsKeep (tables d)) registry now (s, d) refl,
            λ k spared. (keep k spared).1,
          )

      -- After the tables are written and the cache is left as `u` by the invalidation.
      pub finish-settled :
          (fuel now : ℕ) (payload : StrategyPayload N) (s u : R.State) (d : DB.State)
          (registry : StrategyRegistry) (y : Result Exception StrategyRegistry × World R DB.State)
          → y ≡ (ok registry, (s, d, some registry))
          → invalidate_strategy_report_bundle R fuel payload.strategy_metadata.id s ≡ some u
          → (w : World R DB.State) × Acknowledged payload
              (snapshot_on registry now u d)
              (finish N str_decimal str_nat DB pool J pandas R fuel now payload y)
              w
            × (tables w.1 ≡ tables d)
            × ((k : String) → Spared k → lookup w.0 k ≡ lookup u k)
      finish-settled fuel now payload s u d registry y e settled =
          let (w, ended, same, spared) = acknowledge-Acknowledged payload registry now u d in
          let reached : settle_cache N str_decimal str_nat DB pool J pandas R fuel
                payload.strategy_metadata.id (s, d, some registry)
              ≡ some (u, d, some registry) =
            rw (settled, settle_cache) refl in
          (w, rw (e, reached, finish) ended, same, spared)
