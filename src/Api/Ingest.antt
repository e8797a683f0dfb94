-- ===== src/Api/Ingest.antt =====
-- api/v1/ingest.py, the push of a report. The fuel is that of a SCAN loop.
pub mod Accepted
pub mod Acknowledged
pub mod Laws
use quant_api_gateway.Prelude.{
  ℕ, zero, suc, ◌+◌, ◌-◌, ◌*◌, ◌/◌, ◌%◌, ◌^◌, ◌≤◌, ◌<◌, String, ◌<>◌, ◌≡◌, refl, sym, ap, ◌∙◌,
  fun_ext, ◌≢◌, ◌↔◌, ◌⊎◌, inl, inr, Bool, true, false, not, ◌&&◌, ◌||◌, Option, none, some, List,
  [], ◌∷◌, ◌++◌, map, arith, str_eq, eq_iff, eq_refl, ltb, leb, ◌==◌, if◌then◌else◌, ltb→lt, lt→ltb,
  leb→le, le→leb, Bool-cases, Option-cases, is_none, one_of, length, Result, ok, err,
}
use quant_api_gateway.Http.{Message}
use quant_api_gateway.Effects.{
  M, Exception, is_cache_error, is_service_error, is_persist_error, pure, raise, lift, catch,
  handle, continue, ◌>>=◌, ◌>>◌,
}
use quant_api_gateway.Numbers.{Numbers}
use quant_api_gateway.Registry.{StrategyConfig, StrategyRegistry, Global, get_registry, by_id}
use quant_api_gateway.Cache.{Redis}
use quant_api_gateway.Cache.Pattern.{Pass}
use quant_api_gateway.Cache.Invalidator.{
  gateway_cache_pattern, invalidate_strategy_report_bundle, flush_all,
}
use quant_api_gateway.Aggregator.{Pandas}
use quant_api_gateway.Ingestion.{StrategyPayload, Postgres, persist_daily_report}
use quant_api_gateway.Snapshot.{TodayRow, SnapshotAggregates, Parsing, maybe_write_snapshot}
use quant_api_gateway.Snapshot
use quant_api_gateway.Api.{World, on_db, on_registry, abort}

-- The time is that of the payload; its text is `isoformat()`.
pub record IngestAck : Type 0 where
  pub status : String
  pub strategy_id : String
  pub time : ℕ

module _ (N : Numbers) (str_decimal : N.Decimal → String) (str_nat : ℕ → String)
    (DB : Postgres N str_decimal str_nat) where
  -- What else the handler does with its database: `get_pool`, and the two statements of the
  -- snapshot writer.
  pub record Pool : Type 0 where
    pub get_pool : M DB.State (Unit {0})
    pub select_today : ℕ → List String → M DB.State (List (TodayRow N))
    pub upsert : ℕ → SnapshotAggregates N → M DB.State (Unit {0})

  module _ (pool : Pool) (J : Parsing N) (pandas : Pandas N) (R : Redis) where
    abbrev pub snapshots : Snapshot.Postgres N
    snapshots = record { State = DB.State; select_today = pool.select_today; upsert = pool.upsert }

    abbrev known_or_404 : String → Option StrategyConfig → M (World R DB.State) (Unit {0})
    known_or_404 id none = raise (abort 404 "Unknown strategy_id: {}" (id ∷ []))
    known_or_404 id (some cfg) = pure tt

    abbrev pub persist_or_500 : StrategyPayload N → M (World R DB.State) (Unit {0})
    persist_or_500 payload =
        catch (on_db R DB.State (persist_daily_report N str_decimal str_nat DB payload)) (λ e.
          if is_persist_error e
          then some (raise (abort 500 "failed to persist daily report" []))
          else none)

    -- Up to the first of the two best-effort steps.
    abbrev pub accept : StrategyPayload N → M (World R DB.State) StrategyRegistry
    accept payload = do
      registry ← on_registry R DB.State get_registry
      known_or_404 payload.strategy_metadata.id (by_id registry payload.strategy_metadata.id)
      on_db R DB.State pool.get_pool
      persist_or_500 payload
      pure registry

    -- `maybe_write_snapshot` with `except ServiceError` around it.
    abbrev try_snapshot : StrategyRegistry → ℕ → M (World R DB.State) Bool
    try_snapshot registry now =
        catch
          (λ (s, d, g).
            let (r, w') = maybe_write_snapshot N J pandas R snapshots registry now (s, d) in
            (r, (w'.0, w'.1, g)))
          (λ e. if is_service_error e then some (pure false) else none)

    abbrev pub ack_of : StrategyPayload N → IngestAck
    ack_of payload = record {
      status = "accepted";
      strategy_id = payload.strategy_metadata.id;
      time = payload.strategy_metadata.last_updated;
    }

    abbrev pub acknowledge :
        StrategyPayload N → StrategyRegistry → ℕ → M (World R DB.State) IngestAck
    acknowledge payload registry now = try_snapshot registry now >> pure (ack_of payload)

    abbrev pub settle_cache : ℕ → String → World R DB.State → Option (World R DB.State)
    settle_cache fuel id (s, d, g) = elim (invalidate_strategy_report_bundle R fuel id s) [
      | none ↦ none
      | some t ↦ some (t, d, g)
    ]

    abbrev pub finish :
        ℕ
        → ℕ
        → StrategyPayload N
        → Result Exception StrategyRegistry × World R DB.State
        → Option (Result Exception IngestAck × World R DB.State)
    finish fuel now payload (err e, w) = some (err e, w)
    finish fuel now payload (ok registry, w) =
        elim (settle_cache fuel payload.strategy_metadata.id w) [
          | none ↦ none
          | some w' ↦ some (acknowledge payload registry now w')
        ]

    pub ingest_daily_report :
        ℕ
        → ℕ
        → StrategyPayload N
        → World R DB.State
        → Option (Result Exception IngestAck × World R DB.State)
    ingest_daily_report fuel now payload w = finish fuel now payload (accept payload w)
