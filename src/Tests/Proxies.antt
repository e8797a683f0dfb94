-- ===== src/Tests/Proxies.antt =====
-- The proxies against an engine that refuses every order with a typed envelope at status 503.
use quant_api_gateway.Prelude.{
  String, ◌≡◌, refl, ◌↔◌, none, some, [], ◌∷◌, str_eq, if◌then◌else◌, ok, err, true,
}
use quant_api_gateway.Json.{Json, text, object, end, field}
use quant_api_gateway.Http.{Request, JsonResponse, Call, Upstream, Outcome, timeout, response}
use quant_api_gateway.Routing.{dispatch}
use quant_api_gateway.Proxy.{takes}
use quant_api_gateway.Proxy.Execution.{proxy, proxy_sse, timed_out}
use quant_api_gateway.Proxy.Execution.Laws.{Answers, proxy_iff}
use quant_api_gateway.Proxy.Execution.Failures.{Fails, proxy-err_iff}
use quant_api_gateway.Proxy.Execution.Sse.{Released, proxy_sse-Released}
use quant_api_gateway.Proxy.Execution.Routes.{router, execution_orders_stream}
use quant_api_gateway.Proxy.Readonly.{get_json}
use quant_api_gateway.Proxy.Readonly.Laws.{HandsOn, get_json_iff}
use quant_api_gateway.Proxy.Engines.{serve, serve-Isolated}

abbrev envelope : Json
envelope = object (field "error" (object (field "code" (text "RISK_LIMIT") end)) end)

abbrev refusing : Upstream
refusing = record { status_code = 503; json = some envelope; chunks = []; readable = true }

abbrev engine : Call → Outcome
engine call = response refusing

abbrev silent : Call → Outcome
silent call = timeout

abbrev request : Request
request = record {
  header = λ name. if str_eq name "X-API-Key" then some "secret" else none;
  query_params = [];
  body = "{}";
}

abbrev refused : JsonResponse
refused = record { status_code = 503; content = envelope }

proxy_iff_example :
    (proxy engine request "POST" "/orders" ≡ ok refused) ↔ Answers (response refusing) refused
proxy_iff_example = proxy_iff engine request "POST" "/orders" refused

proxy-err_iff_example :
    (proxy silent request "POST" "/orders" ≡ err timed_out) ↔ Fails timeout timed_out
proxy-err_iff_example = proxy-err_iff silent request "POST" "/orders" timed_out

proxy_sse-Released_example :
    Released (response refusing) (takes 2) (proxy_sse engine request "/orders/stream")
proxy_sse-Released_example = proxy_sse-Released engine request "/orders/stream" (takes 2)

stream_route : dispatch router "GET" ("orders" ∷ "stream" ∷ []) ≡ some execution_orders_stream
unfolding router dispatch
stream_route = refl

get_json_iff_example :
    (get_json "crypto" engine request "/health" ≡ ok refused) ↔ HandsOn (response refusing) refused
get_json_iff_example = get_json_iff "crypto" engine request "/health" refused

abbrev all_answer : String → Call → Outcome
all_answer name = engine

abbrev one_answers : String → Call → Outcome
one_answers name = if str_eq name "crypto" then engine else silent

serve-Isolated_example :
    serve all_answer "GET" ("crypto" ∷ "trades" ∷ "BTC" ∷ "USDT" ∷ []) request
    ≡ serve one_answers "GET" ("crypto" ∷ "trades" ∷ "BTC" ∷ "USDT" ∷ []) request
serve-Isolated_example =
    serve-Isolated all_answer one_answers "crypto" "GET" ("trades" ∷ "BTC" ∷ "USDT" ∷ []) request
      (λ call same_method same_path. refl)
