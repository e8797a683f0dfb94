-- ===== src/Proxy/Crypto.antt =====
-- api/v2/engines/crypto.py: the crypto engine, six read routes.
use quant_api_gateway.Prelude.{String, ◌<>◌, ◌≡◌, ◌∙◌, refl, some, List, [], ◌∷◌, Result}
use quant_api_gateway.Http.{HttpException, Request, JsonResponse, Call, Outcome}
use quant_api_gateway.Routing.{
  Route, fixed, one_param, path_param, dispatch, AllSound, dispatch-sound, slash, render,
  render-path,
}
use quant_api_gateway.Proxy.{Handler, json, Mirrors}
use quant_api_gateway.Proxy.Readonly.{get_json}
use quant_api_gateway.Proxy.Readonly.Laws.{Mirrors-get_json}

pub proxy : (Call → Outcome) → Request → String → Result HttpException JsonResponse
proxy = get_json "crypto"

pub crypto_health : Handler
crypto_health send request = json (proxy send request "/health")

pub crypto_status : Handler
crypto_status send request = json (proxy send request "/status")

pub crypto_symbols : Handler
crypto_symbols send request = json (proxy send request "/symbols")

pub crypto_premium : Handler
crypto_premium send request = json (proxy send request "/premium")

-- The symbol may hold slashes.
pub crypto_trades : String → Handler
crypto_trades symbol send request = json (proxy send request ("/trades/" <> symbol))

pub crypto_manifest : String → Handler
crypto_manifest day send request = json (proxy send request ("/manifest/" <> day))

unfoldable pub router : List (Route Handler)
router =
    fixed "GET" ("health" ∷ []) crypto_health
    ∷ fixed "GET" ("status" ∷ []) crypto_status
    ∷ fixed "GET" ("symbols" ∷ []) crypto_symbols
    ∷ fixed "GET" ("premium" ∷ []) crypto_premium
    ∷ path_param "GET" "trades" crypto_trades
    ∷ one_param "GET" "manifest" [] crypto_manifest
    ∷ []

mirrors :
    (p : String) (path : List String)
    → p ≡ render path
    → Mirrors "GET" path (λ send request. json (proxy send request p))
unfolding proxy
mirrors = Mirrors-get_json "crypto"

router-Mirrors : AllSound Mirrors router
unfolding router crypto_health crypto_status crypto_symbols crypto_premium crypto_trades
    crypto_manifest
router-Mirrors = (
  mirrors "/health" ("health" ∷ []) refl,
  (
    mirrors "/status" ("status" ∷ []) refl,
    (
      mirrors "/symbols" ("symbols" ∷ []) refl,
      (
        mirrors "/premium" ("premium" ∷ []) refl,
        (
          (λ x rest.
              mirrors _ ("trades" ∷ x ∷ rest) (slash "trades" _ ∙ render-path "trades" x rest)),
          ((λ x. mirrors _ ("manifest" ∷ x ∷ []) (slash "manifest" x)), tt),
        ),
      ),
    ),
  ),
)

-- Every request that the crypto router takes is a GET sent on to the engine at its own path, also
-- where a symbol holds slashes, and no other path of the engine is asked.
pub crypto-Mirrors :
    (method : String) (path : List String) (handler : Handler)
    → dispatch router method path ≡ some handler
    → Mirrors method path handler
crypto-Mirrors method path handler h =
    dispatch-sound Mirrors router method path handler router-Mirrors h
