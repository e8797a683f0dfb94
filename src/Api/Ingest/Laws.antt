-- ===== src/Api/Ingest/Laws.antt =====
-- How a push of a report ends: what is stored, what is answered, and what the cache holds after.
use quant_api_gateway.Prelude.{
  ℕ, ◌<◌, String, ◌≡◌, refl, ◌∙◌, ◌⊎◌, inl, inr, true, false, Option, none, some, Result, ok, err,
}
use quant_api_gateway.Effects.{Exception}
use quant_api_gateway.Numbers.{Numbers}
use quant_api_gateway.Registry.{StrategyConfig, StrategyRegistry, by_id}
use quant_api_gateway.Cache.{Redis}
use quant_api_gateway.Cache.Laws.{IsLawful}
use quant_api_gateway.Cache.Ends.{ScanEnds}
use quant_api_gateway.Cache.Pattern.{invalidate_pattern}
use quant_api_gateway.Cache.Invalidator.{
  strategy_report_pattern, strategy_trades_pattern, strategy_benchmark_pattern,
  invalidate_strategy_report_bundle,
}
use quant_api_gateway.Cache.Invalidator.Laws.{report_bundle-ends, report_bundle-clears}
use quant_api_gateway.Aggregator.{Pandas}
use quant_api_gateway.Ingestion.{StrategyPayload, Postgres}
use quant_api_gateway.Ingestion.Laws.{IsAtomic, Written}
use quant_api_gateway.Snapshot.{Parsing}
use quant_api_gateway.Api.{World}
use quant_api_gateway.Api.Ingest.Accepted.{failed_500, Accepted, accept-Accepted}
use quant_api_gateway.Api.Ingest.{IngestAck, Pool, accept, finish, ingest_daily_report}
use quant_api_gateway.Api.Ingest.Acknowledged.{
  PoolKeeps, Spared, Acknowledged, snapshot_on, finish-settled,
}

module _ (N : Numbers) (str_decimal : N.Decimal → String) (str_nat : ℕ → String)
    (DB : Postgres N str_decimal str_nat) (pool : Pool N str_decimal str_nat DB) (J : Parsing N)
    (pandas : Pandas N) (R : Redis) where
  module _ (law : IsAtomic N str_decimal str_nat DB) where
    open law use {tables}

    module _ (keeps : PoolKeeps N str_decimal str_nat DB pool J pandas R law) (redis : IsLawful R)
        (ends : ScanEnds R) where
      open redis use {lookup, matches}

      module _ (fuel now : ℕ) (payload : StrategyPayload N) (s : R.State) (d : DB.State)
          (registry : StrategyRegistry) where
        abbrev pushed : Option (Result Exception IngestAck × World R DB.State)
        pushed =
            ingest_daily_report N str_decimal str_nat DB pool J pandas R fuel now payload
              (s, d, some registry)

        -- How a push ends whose payload is of a registered strategy. Either the write failed: status
        -- 500, tables and cache as they were. Or the tables hold the payload, the cache satisfies
        -- `after`, and the answer is the acknowledgement, unless the snapshot writer raised, on the
        -- cache that the invalidation left and the tables written, what is no `ServiceError`.
        abbrev pub Pushed :
            (R.State → Type 0) → Option (Result Exception IngestAck × World R DB.State) → Type 0
        Pushed after o =
            (w : World R DB.State) × (((o ≡ some (err failed_500, w))
                × (tables w.1 ≡ tables d)
                × (w.0 ≡ s))
              ⊎ ((u : R.State) × (d' : DB.State) × (invalidate_strategy_report_bundle R fuel
                      payload.strategy_metadata.id s
                    ≡ some u)
                  × (tables w.1 ≡ tables d')
                  × Acknowledged N str_decimal str_nat DB pool J pandas R law keeps redis ends
                      payload
                      (snapshot_on N str_decimal str_nat DB pool J pandas R law keeps redis ends
                        registry now u d')
                      o w
                  × Written N str_decimal str_nat payload (tables d) (tables w.1)
                  × after w.0))

        finish-Pushed :
            (after : R.State → Type 0) (u : R.State)
            (y : Result Exception StrategyRegistry × World R DB.State)
            → invalidate_strategy_report_bundle R fuel payload.strategy_metadata.id s ≡ some u
            → ((v : R.State)
                → ((k : String)
                    → Spared N str_decimal str_nat DB pool J pandas R law keeps redis ends k
                    → lookup v k ≡ lookup u k)
                → after v)
            → Accepted N str_decimal str_nat DB pool J pandas R law payload s d registry y
            → Pushed after (finish N str_decimal str_nat DB pool J pandas R fuel now payload y)
        finish-Pushed after u y settled then_after (d', inr (e, same)) =
            ((s, d', some registry), inl (rw e refl, same, refl))
        finish-Pushed after u y settled then_after (d', inl (e, (at, stored))) =
            let (w, ended, same, spared) =
              finish-settled N str_decimal str_nat DB pool J pandas R law keeps redis ends fuel now
                payload s u d' registry y e settled in
            (w, inr (u, d', settled, same, ended, (at, same ∙ stored), then_after w.0 spared))

        accepted :
            (cfg : StrategyConfig)
            → by_id registry payload.strategy_metadata.id ≡ some cfg
            → (pool.get_pool d).0 ≡ ok tt
            → Accepted N str_decimal str_nat DB pool J pandas R law payload s d registry
                (accept N str_decimal str_nat DB pool J pandas R payload (s, d, some registry))
        accepted cfg known there =
            accept-Accepted N str_decimal str_nat DB pool J pandas R law payload s d registry cfg
              known there (keeps.get_pool_keeps d)

        -- With an atomic database and a lawful Redis, a pool that is there and fuel above the rank of
        -- cursor 0, the push of a payload of a registered strategy ends, and it either stores the
        -- payload or answers 500 with tables and cache as they were; once stored, nothing that the
        -- invalidation or the snapshot does makes the answer other than the acknowledgement, but an
        -- exception of the snapshot that is no `ServiceError`.
        pub ingest_daily_report-Pushed :
            (cfg : StrategyConfig)
            → ends.rank 0 < fuel
            → by_id registry payload.strategy_metadata.id ≡ some cfg
            → (pool.get_pool d).0 ≡ ok tt
            → Pushed (λ v. Unit) pushed
        unfolding ingest_daily_report
        ingest_daily_report-Pushed cfg enough known there =
            let (u, settled) =
              report_bundle-ends R redis ends fuel payload.strategy_metadata.id s enough in
            finish-Pushed (λ v. Unit) u
              (accept N str_decimal str_nat DB pool J pandas R payload (s, d, some registry))
              settled (λ v spared. tt) (accepted cfg known there)

        -- And where moreover the pass of the invalidation over the strategy's report keys returns, no
        -- report is cached any more under a key `k` of that pattern that the two other patterns do
        -- not match and that begins with `gateway:`.
        pub ingest_daily_report-fresh :
            (cfg : StrategyConfig) (k : String) (n : ℕ) (t : R.State)
            → let id = payload.strategy_metadata.id in
              ends.rank 0 < fuel
              → by_id registry id ≡ some cfg
              → (pool.get_pool d).0 ≡ ok tt
              → invalidate_pattern R (strategy_report_pattern id) fuel s ≡ some (ok n, t)
              → matches (strategy_report_pattern id) k ≡ true
              → matches (strategy_trades_pattern id) k ≡ false
              → matches (strategy_benchmark_pattern id) k ≡ false
              → Spared N str_decimal str_nat DB pool J pandas R law keeps redis ends k
              → Pushed (λ v. lookup v k ≡ none) pushed
        unfolding ingest_daily_report
        ingest_daily_report-fresh cfg k n t enough known there returned report no_trades
              no_benchmark spared_k =
            let (u, settled, gone) =
              report_bundle-clears R redis ends fuel payload.strategy_metadata.id k s n t enough
                returned report no_trades no_benchmark in
            finish-Pushed (λ v. lookup v k ≡ none) u
              (accept N str_decimal str_nat DB pool J pandas R payload (s, d, some registry))
              settled (λ v spared. spared k spared_k ∙ gone) (accepted cfg known there)
