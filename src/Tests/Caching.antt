-- ===== src/Tests/Caching.antt =====
-- The cache and the endpoints over it, on the server in memory.
use quant_api_gateway.Prelude.{
  ℕ, String, ◌≡◌, refl, ap, true, false, ◌&&◌, some, [], ◌∷◌, arith, eq_iff, ◌==◌, Result,
}
use Prim.Native.Char.{Char, code}
use quant_api_gateway.Effects.{Exception}
use quant_api_gateway.Registry.{StrategyConfig, StrategyRegistry}
use quant_api_gateway.Registry.Laws.{DistinctIds}
use quant_api_gateway.Cache.Pattern.{invalidate_pattern}
use quant_api_gateway.Cache.Ends.{Flushes, invalidate_pattern-Flushes}
use quant_api_gateway.Cache.Invalidator.{
  overall_performance_key, invalidate_strategy_report_bundle, flush_all,
}
use quant_api_gateway.Cache.Invalidator.Laws.{
  has_prefix, overall, report_bundle-spares, flush_all_misses,
}
use quant_api_gateway.Tests.Server.{server, server-IsLawful, server-ScanEnds, Store, find, glob}

abbrev pub cached : Store
cached = ("overall_performance", "{}") ∷ ("gateway:strategy:a:report:latest", "{}") ∷ []

abbrev pub csm : StrategyConfig
csm = record {
  id = "a";
  name = "CSM";
  type_name = "momentum";
  service_url = "http://a";
  capital_weight = 6000;
  active = true;
}

abbrev pub dormant : StrategyConfig
dormant = record {
  id = "b";
  name = "TFEX";
  type_name = "trend";
  service_url = "http://b";
  capital_weight = 4000;
  active = false;
}

abbrev pub known : StrategyRegistry
known = record { strategies = csm ∷ dormant ∷ [] }

pub known-DistinctIds : DistinctIds (csm ∷ dormant ∷ [])
known-DistinctIds = ((λ h. ground (arith, eq_iff "a" "b"), tt), (tt, tt))

invalidate_pattern-Flushes_example :
    Flushes server server-IsLawful server-ScanEnds "gateway:*" cached
      (invalidate_pattern server "gateway:*" 1 cached)
invalidate_pattern-Flushes_example =
    invalidate_pattern-Flushes server server-IsLawful server-ScanEnds "gateway:*" 1 cached
      (omega arith)

report_bundle-spares_example :
    (t : Store) × (invalidate_strategy_report_bundle server 1 "a" cached ≡ some t)
    × (find t "overall_performance" ≡ some "{}")
report_bundle-spares_example =
    report_bundle-spares server server-IsLawful server-ScanEnds 1 "a" "overall_performance" cached
      (omega arith) refl refl refl

star : (j : String) → glob "*" j ≡ true
star String.[] = refl
star (String.◌∷◌ d String.[]) = refl
star (String.◌∷◌ d (String.◌∷◌ e j)) = refl

step :
    (c b : Char) (p q j : String)
    → ((i : String) → glob (String.◌∷◌ b p) i ≡ has_prefix q i)
    → glob (String.◌∷◌ c (String.◌∷◌ b p)) j ≡ has_prefix (String.◌∷◌ c q) j
step c b p q String.[] h = refl
step c b p q (String.◌∷◌ d j) h = ap (λ x. code c == code d && x) (h j)

glob-prefix : (j : String) → glob "gateway:*" j ≡ has_prefix "gateway:" j
glob-prefix j = step "g" "a" "teway:*" "ateway:" j (λ j. step "a" "t" "eway:*" "teway:" j (λ j.
    step "t" "e" "way:*" "eway:" j (λ j. step "e" "w" "ay:*" "way:" j (λ j.
      step "w" "a" "y:*" "ay:" j (λ j.
        step "a" "y" ":*" "y:" j (λ j. step "y" ":" "*" ":" j (λ j. step ":" "*" "" "" j star)))))))

flush_all_misses_example :
    (e : Result Exception ℕ) × (t : Store) × (flush_all server 1 cached ≡ some (e, t))
    × (find t overall_performance_key ≡ some "{}")
flush_all_misses_example =
    flush_all_misses server server-IsLawful server-ScanEnds 1 cached overall_performance_key
      glob-prefix (omega arith) overall
