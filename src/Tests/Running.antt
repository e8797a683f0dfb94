-- ===== src/Tests/Running.antt =====
-- A server that starts, serves two requests and stops; its catalog without a table; and a request that
-- logs one line.
use quant_api_gateway.Prelude.{
  ℕ, String, ◌≡◌, refl, ◌++◌, ◌⊎◌, true, false, none, some, List, [], ◌∷◌, str_eq, eq_refl,
  if◌then◌else◌, ok, err,
}
use quant_api_gateway.Json.{Fields}
use quant_api_gateway.Effects.{Exception, other}
use quant_api_gateway.Registry.{set_registry}
use quant_api_gateway.Registry.Load.{contents, load_registry, startup}
use quant_api_gateway.Clients.{
  Resource, postgres, csm_set, mongo, execution, same, Outside, get_client, IsOwned, none_open,
}
use quant_api_gateway.Clients.Lifespan.{start, lifespan, lifespan-Closes, lifespan-leaks}
use quant_api_gateway.Catalog.{EngineEntry, Row, static_catalog, get_catalog}
use quant_api_gateway.Catalog.Laws.{Fits, get_catalog-answers}
use quant_api_gateway.RequestIds.{
  LogRecord, Responses, Logging, Handled, AllCarry, dispatch, dispatch-Tagged,
}
use quant_api_gateway.Tests.Caching.{known}
use quant_api_gateway.Tests.Loading.{as_text, as_known}

abbrev calm : Outside
calm = record { refuses = λ r c. false; breaks = λ r c. false }

abbrev no_csm_set : Outside
no_csm_set = record { refuses = λ r c. same r csm_set; breaks = λ r c. false }

none_open-IsOwned : IsOwned none_open
none_open-IsOwned r = refl

started_calmly :
    (start calm as_text as_known "strategies.json" (contents "[]") (none_open, none)).0 ≡ ok tt
unfolding start startup load_registry get_client set_registry
started_calmly = refl

lifespan-Closes_example :
    let ended =
      lifespan calm as_text as_known "strategies.json"
        (contents "[]")
        (execution ∷ mongo ∷ [])
        (none_open, none) in
    (ended.0 ≡ ok tt)
    × ((r : Resource) → same r mongo ≡ false → ended.1.0.opened r ≡ 0)
    × (ended.1.1 ≡ none)
lifespan-Closes_example =
    lifespan-Closes calm as_text as_known "strategies.json" (contents "[]") (execution ∷ mongo ∷ [])
      none_open none none_open-IsOwned (λ r c. refl) started_calmly

loaded : load_registry as_text as_known "strategies.json" (contents "[]") ≡ ok known
unfolding load_registry
loaded = refl

lifespan-leaks_example :
    let ended =
      lifespan no_csm_set as_text as_known "strategies.json" (contents "[]") [] (none_open, none) in
    (ended.0 ≡ err other)
    × (ended.1.0.held postgres ≡ true)
    × (ended.1.0.opened postgres ≡ 1)
    × (ended.1.1 ≡ some known)
lifespan-leaks_example =
    lifespan-leaks no_csm_set as_text as_known "strategies.json" (contents "[]") [] none_open none
      known loaded refl refl refl (λ c. refl)

abbrev broken_row : Row
broken_row = record {
  slug = some "execution";
  type_name = some "EXTERNAL";
  status = none;
  description = some "";
}

get_catalog-answers_example :
    (entries : List EngineEntry) × ((get_catalog ℕ
        (λ w. (ok tt, w))
        (λ w. (ok (broken_row ∷ []), w))
        0).0
      ≡ ok entries)
    × (Fits (ok (broken_row ∷ [])) entries
        ⊎ ((entries ≡ static_catalog) × ((e : List EngineEntry) → ¬ Fits (ok (broken_row ∷ [])) e)))
get_catalog-answers_example =
    get_catalog-answers ℕ (λ w. (ok tt, w)) (λ w. (ok (broken_row ∷ []), w)) 0

-- A response is its one header, and another of any name takes its place.
one_header : (key value : String) → (if str_eq key key then some value else none) ≡ some value
one_header key value = rw (eq_refl key) refl

abbrev responses : Responses
responses = record {
  Response = String × String;
  header = λ r key. if str_eq r.0 key then some r.1 else none;
  set_header = λ key value r. (key, value);
  set_header-reads = λ key value r. one_header key value;
}

abbrev one_line : LogRecord
one_line = record {
  timestamp = "2026-01-01T00:00:00+00:00";
  level_name = "INFO";
  name = "gateway";
  message = "request";
  exc_info = none;
}

abbrev crashed : Handled responses
crashed = record { records = one_line ∷ []; result = err other }

abbrev quiet : Logging
quiet = record { request_id_var = none; lines = [] }

dispatch-Tagged_example :
    let (answer, s') = dispatch responses "7f3a" crashed quiet in
    (s'.request_id_var ≡ none)
    × ((more : List Fields) × (s'.lines ≡ [] ++ more) × AllCarry "7f3a" more)
    × (((e : Exception) × (crashed.result ≡ err e) × (answer ≡ err e))
        ⊎ ((response : String × String) × (answer ≡ ok response)
            × (responses.header response "X-Request-ID" ≡ some "7f3a")))
dispatch-Tagged_example = dispatch-Tagged responses "7f3a" crashed quiet refl
