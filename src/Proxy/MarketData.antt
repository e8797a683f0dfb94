-- ===== src/Proxy/MarketData.antt =====
-- api/v2/engines/market_data.py: the market-data engine. `/providers` is static and not modelled.
use quant_api_gateway.Prelude.{String, ◌<>◌, ◌≡◌, refl, some, List, [], ◌∷◌, Result}
use quant_api_gateway.Http.{HttpException, Request, JsonResponse, Call, Outcome}
use quant_api_gateway.Routing.{
  Route, fixed, one_param, dispatch, AllSound, dispatch-sound, slash, render,
}
use quant_api_gateway.Proxy.{Handler, json, Mirrors}
use quant_api_gateway.Proxy.Readonly.{get_json}
use quant_api_gateway.Proxy.Readonly.Laws.{Mirrors-get_json}

pub proxy : (Call → Outcome) → Request → String → Result HttpException JsonResponse
proxy = get_json "market-data"

pub market_data_health : Handler
market_data_health send request = json (proxy send request "/health")

pub market_data_ohlcv : Handler
market_data_ohlcv send request = json (proxy send request "/ohlcv")

pub market_data_ohlcv_adjusted : Handler
market_data_ohlcv_adjusted send request = json (proxy send request "/ohlcv/adjusted")

pub market_data_universe : Handler
market_data_universe send request = json (proxy send request "/universe")

pub market_data_settlements : String → Handler
market_data_settlements symbol send request = json (proxy send request ("/settlements/" <> symbol))

pub market_data_underlying_price : String → Handler
market_data_underlying_price symbol send request =
    json (proxy send request ("/underlying-price/" <> symbol))

unfoldable pub router : List (Route Handler)
router =
    fixed "GET" ("health" ∷ []) market_data_health
    ∷ fixed "GET" ("ohlcv" ∷ []) market_data_ohlcv
    ∷ fixed "GET" ("ohlcv" ∷ "adjusted" ∷ []) market_data_ohlcv_adjusted
    ∷ fixed "GET" ("universe" ∷ []) market_data_universe
    ∷ one_param "GET" "settlements" [] market_data_settlements
    ∷ one_param "GET" "underlying-price" [] market_data_underlying_price
    ∷ []

mirrors :
    (p : String) (path : List String)
    → p ≡ render path
    → Mirrors "GET" path (λ send request. json (proxy send request p))
unfolding proxy
mirrors = Mirrors-get_json "market-data"

router-Mirrors : AllSound Mirrors router
unfolding router market_data_health market_data_ohlcv market_data_ohlcv_adjusted
    market_data_universe market_data_settlements market_data_underlying_price
router-Mirrors = (
  mirrors "/health" ("health" ∷ []) refl,
  (
    mirrors "/ohlcv" ("ohlcv" ∷ []) refl,
    (
      mirrors "/ohlcv/adjusted" ("ohlcv" ∷ "adjusted" ∷ []) refl,
      (
        mirrors "/universe" ("universe" ∷ []) refl,
        (
          (λ x. mirrors _ ("settlements" ∷ x ∷ []) (slash "settlements" x)),
          ((λ x. mirrors _ ("underlying-price" ∷ x ∷ []) (slash "underlying-price" x)), tt),
        ),
      ),
    ),
  ),
)

-- Every request that the market-data router proxies is a GET sent on to the engine at its own path,
-- and no other path of the engine is asked.
pub market_data-Mirrors :
    (method : String) (path : List String) (handler : Handler)
    → dispatch router method path ≡ some handler
    → Mirrors method path handler
market_data-Mirrors method path handler h =
    dispatch-sound Mirrors router method path handler router-Mirrors h
