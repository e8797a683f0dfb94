-- ===== src/Proxy/Readonly/Laws.antt =====
-- What the read-only proxies answer, and what they send.
use quant_api_gateway.Prelude.{
  ℕ, String, ◌<◌, ◌≡◌, ◌↔◌, refl, none, some, Option, List, arith, str_eq, ok, eq_iff,
  if◌then◌else◌,
}
use quant_api_gateway.Json.{Json}
use quant_api_gateway.Http.{
  Request, Call, JsonResponse, Upstream, Outcome, timeout, request_error, response,
}
use quant_api_gateway.Proxy.Execution.Calls.{sent, nonempty, sent-forward}
use quant_api_gateway.Routing.{render}
use quant_api_gateway.Proxy.{Mirrors, json}
use quant_api_gateway.Proxy.Readonly.{get_call, get_answer, get_json, verbatim}

-- The engine's answer that is handed on as `r`.
pub record HandsOn (outcome : Outcome) (r : JsonResponse) : Type 0 where
  pub upstream : Upstream
  pub is_response : outcome ≡ response upstream
  pub is_json : upstream.json ≡ some r.content
  pub same_status : upstream.status_code ≡ r.status_code
  pub below_500 : r.status_code < 500

module _ (engine : String) where
  verbatim-eq_ok :
      (status : ℕ) (json : Option Json) (r : JsonResponse)
      → verbatim engine status json ≡ ok r
      → (json ≡ some r.content) × (status ≡ r.status_code)
  verbatim-eq_ok status none r h = cc
  verbatim-eq_ok status (some payload) r h = (ground arith, ground arith)

  answer-HandsOn : (o : Outcome) (r : JsonResponse) → get_answer engine o ≡ ok r → HandsOn o r
  unfolding get_answer
  answer-HandsOn timeout r h = cc
  answer-HandsOn request_error r h = cc
  answer-HandsOn (response u) r h =
      let (is_json, same) = verbatim-eq_ok u.status_code u.json r (ground arith) in
      record {
        upstream = u;
        is_response = refl;
        is_json = is_json;
        same_status = same;
        below_500 = ground arith;
      }

  answer-of_HandsOn : (o : Outcome) (r : JsonResponse) → HandsOn o r → get_answer engine o ≡ ok r
  unfolding get_answer
  answer-of_HandsOn o r h =
      rw h.is_response (rw h.is_json (ground (arith, h.same_status, h.below_500)))

  -- A read-only proxy answers with `r` exactly if the engine answered its call with the status and
  -- the JSON body of `r` and the status is below 500.
  pub get_json_iff :
      (send : Call → Outcome) (request : Request) (path : String) (r : JsonResponse)
      → (get_json engine send request path ≡ ok r) ↔ HandsOn (send (get_call request path)) r
  unfolding get_json
  get_json_iff send request path r = (
    answer-HandsOn (send (get_call request path)) r,
    answer-of_HandsOn (send (get_call request path)) r,
  )

-- The only header that a read-only proxy sends is the caller's own `X-API-Key`, if it is not empty.
get_call-sent :
    (request : Request) (path name : String)
    → sent name (get_call request path).headers
      ≡ (if str_eq "X-API-Key" name then nonempty (request.header name) else none)
unfolding get_call
get_call-sent request path name =
    ground
      (arith, sent-forward name "X-API-Key" (request.header "X-API-Key"), eq_iff "X-API-Key" name)

-- A read-only handler asks the engine at its own path only.
pub Mirrors-get_json :
    (engine p : String) (path : List String)
    → p ≡ render path
    → Mirrors "GET" path (λ send request. json (get_json engine send request p))
unfolding get_json
Mirrors-get_json engine p path e send send' request agree = rw (agree (get_call request p) refl e)
