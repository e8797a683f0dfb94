-- ===== src/Api/Ingest/Accepted.antt =====
-- How a push of a report gets to its best-effort steps, or does not.
use quant_api_gateway.Prelude.{
  ℕ, String, ◌≡◌, refl, ap, ◌∙◌, ◌⊎◌, inl, inr, none, some, [], ◌∷◌, Result, ok, err,
}
use quant_api_gateway.Effects.{Exception, service, ingestion_persist_error, pure, ◌>>=◌}
use quant_api_gateway.Numbers.{Numbers}
use quant_api_gateway.Registry.{StrategyConfig, StrategyRegistry, get_registry, by_id}
use quant_api_gateway.Cache.{Redis}
use quant_api_gateway.Aggregator.{Pandas}
use quant_api_gateway.Ingestion.{StrategyPayload, Postgres, persist_daily_report}
use quant_api_gateway.Ingestion.Laws.{
  IsAtomic, written, Written, Atomic, persist_daily_report-Atomic,
}
use quant_api_gateway.Snapshot.{Parsing}
use quant_api_gateway.Api.{World, abort}
use quant_api_gateway.Api.Ingest.{Pool, accept, ingest_daily_report, persist_or_500}

abbrev pub failed_500 : Exception
failed_500 = abort 500 "failed to persist daily report" []

module _ (N : Numbers) (str_decimal : N.Decimal → String) (str_nat : ℕ → String)
    (DB : Postgres N str_decimal str_nat) (pool : Pool N str_decimal str_nat DB) (J : Parsing N)
    (pandas : Pandas N) (R : Redis) where
  -- A payload of a strategy that is not registered is refused with status 404, and nothing at all is
  -- written, in the database or in the cache.
  ingest_daily_report-unknown :
      (fuel now : ℕ) (payload : StrategyPayload N) (s : R.State) (d : DB.State)
      (registry : StrategyRegistry)
      → let id = payload.strategy_metadata.id in
        by_id registry id ≡ none
        → ingest_daily_report N str_decimal str_nat DB pool J pandas R fuel now payload
            (s, d, some registry)
          ≡ some (err (abort 404 "Unknown strategy_id: {}" (id ∷ [])), (s, d, some registry))
  unfolding ingest_daily_report get_registry
  ingest_daily_report-unknown fuel now payload s d registry unknown = rw unknown refl

  module _ (law : IsAtomic N str_decimal str_nat DB) where
    open law use {tables}

    -- How the handler gets to its best-effort steps, or does not.
    abbrev pub Accepted :
        StrategyPayload N
        → R.State
        → DB.State
        → StrategyRegistry
        → Result Exception StrategyRegistry × World R DB.State
        → Type 0
    Accepted payload s d registry y =
        (d' : DB.State) × (((y ≡ (ok registry, (s, d', some registry)))
            × Written N str_decimal str_nat payload (tables d) (tables d'))
          ⊎ ((y ≡ (err failed_500, (s, d', some registry))) × (tables d' ≡ tables d)))

    persisted-Accepted :
        (payload : StrategyPayload N) (s : R.State) (d d1 : DB.State) (registry : StrategyRegistry)
        (x : Result Exception (Unit {0}) × DB.State)
        → persist_daily_report N str_decimal str_nat DB payload d1 ≡ x
        → tables d1 ≡ tables d
        → Atomic N str_decimal str_nat DB law payload d1 x
        → Accepted payload s d registry (
            (persist_or_500 N str_decimal str_nat DB pool J pandas R payload >>= λ _. pure registry)
              (s, d1, some registry))
    persisted-Accepted payload s d d1 registry (ok _, d2) e same (inl (done, (now, stored))) =
        (d2, inl (rw e refl, (now, stored ∙ ap (written N str_decimal str_nat now payload) same)))
    persisted-Accepted payload s d d1 registry (ok _, d2) e same (inr ((m, failed), kept)) = cc
    persisted-Accepted payload s d d1 registry (err x, d2) e same (inl (done, stored)) = cc
    persisted-Accepted payload s d d1 registry (err x, d2) e same (inr ((m, failed), kept)) =
        let raised : x ≡ service ingestion_persist_error m = cc in
        (d2, inr (rw e (rw raised refl), kept ∙ same))

    pub accept-Accepted :
        (payload : StrategyPayload N) (s : R.State) (d : DB.State) (registry : StrategyRegistry)
        (cfg : StrategyConfig)
        → by_id registry payload.strategy_metadata.id ≡ some cfg
        → (pool.get_pool d).0 ≡ ok tt
        → tables (pool.get_pool d).1 ≡ tables d
        → Accepted payload s d registry
            (accept N str_decimal str_nat DB pool J pandas R payload (s, d, some registry))
    unfolding get_registry
    accept-Accepted payload s d registry cfg known there same =
        rw (known, there)
          (persisted-Accepted payload s d (pool.get_pool d).1 registry
            (persist_daily_report N str_decimal str_nat DB payload (pool.get_pool d).1) refl same
            (persist_daily_report-Atomic N str_decimal str_nat DB law payload (pool.get_pool d).1))
