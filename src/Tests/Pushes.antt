-- ===== src/Tests/Pushes.antt =====
-- A push of a report, and the two guarded routes, over the server and the tables in memory.
use quant_api_gateway.Prelude.{
  String, ◌≡◌, refl, ◌≢◌, ◌⊎◌, inl, Bool, some, [], arith, str_eq, if◌then◌else◌, Result, ok, err,
}
use quant_api_gateway.Effects.{other, Exception}
use quant_api_gateway.Registry.{by_id}
use quant_api_gateway.Registry.Laws.{by_id_iff}
use quant_api_gateway.Api.Key.{CompareDigest, is_ascii, key_or_empty, forbidden}
use quant_api_gateway.Api.Admin.{flush_route, flush_route-guarded, Emptied}
use quant_api_gateway.Api.Ingest.{Pool, ingest_daily_report}
use quant_api_gateway.Api.Ingest.Acknowledged.{PoolKeeps}
use quant_api_gateway.Api.Ingest.Laws.{Pushed, ingest_daily_report-Pushed}
use quant_api_gateway.Tests.Server.{server, server-IsLawful, server-ScanEnds}
use quant_api_gateway.Tests.Figures.{figures, pandas, no_text, database, database-IsAtomic}
use quant_api_gateway.Tests.Caching.{known, known-DistinctIds, cached, csm}
use quant_api_gateway.Tests.Rounds.{parsing}
use quant_api_gateway.Tests.Reports.{payload, empty}

abbrev pub digest : String → String → Result Exception Bool
digest a b = if is_ascii a then (if is_ascii b then ok (str_eq a b) else err other) else err other

abbrev pub secrets : CompareDigest
secrets = record {
  compare_digest = digest;
  compares = λ a b h k. rw (h, k) refl;
  refuses = λ a b h. rw h refl;
  refuses_expected = λ a b h. ground (arith, h);
}

flush_route-guarded_example :
    ((key_or_empty (some "key") ≡ "key")
      × Emptied server server-IsLawful server-ScanEnds cached
          (flush_route server secrets "key" (some "key") 1 cached))
    ⊎ ((key_or_empty (some "key") ≢ "key")
        × (flush_route server secrets "key" (some "key") 1 cached ≡ some (err forbidden, cached)))
flush_route-guarded_example =
    flush_route-guarded server server-IsLawful server-ScanEnds secrets "key" (some "key") 1 cached
      refl refl (omega arith)

abbrev pub quiet : Pool figures no_text no_text database
quiet = record {
  get_pool = λ d. (ok tt, d);
  select_today = λ day ids d. (ok [], d);
  upsert = λ bucket agg d. (ok tt, d);
}

abbrev pub quiet-PoolKeeps :
    PoolKeeps figures no_text no_text database quiet parsing pandas server database-IsAtomic
quiet-PoolKeeps = record {
  get_pool_keeps = λ d. refl;
  select_keeps = λ day ids d. refl;
  upsert_keeps = λ bucket agg d. refl;
}

pub csm-known : by_id known "a" ≡ some csm
csm-known = (by_id_iff known "a" csm known-DistinctIds).1 (inl refl, refl)

ingest_daily_report-Pushed_example :
    Pushed figures no_text no_text database quiet parsing pandas server database-IsAtomic
      quiet-PoolKeeps server-IsLawful server-ScanEnds 1 7 payload cached empty known
      (λ v. Unit)
      (ingest_daily_report figures no_text no_text database quiet parsing pandas server 1 7 payload
        (cached, empty, some known))
ingest_daily_report-Pushed_example =
    ingest_daily_report-Pushed figures no_text no_text database quiet parsing pandas server
      database-IsAtomic quiet-PoolKeeps server-IsLawful server-ScanEnds 1 7 payload cached empty
      known csm (omega arith) csm-known refl
