-- ===== src/Proxy/Orderbook.antt =====
-- api/v2/engines/orderbook.py: the order-book engine, with one event stream.
use quant_api_gateway.Prelude.{
  String, ◌<>◌, ◌≡◌, refl, some, none, true, ◌==◌, if◌then◌else◌, ok, err, ◌++◌, List, [], ◌∷◌,
  Result,
}
use quant_api_gateway.Http.{
  HttpException, Request, JsonResponse, Call, Outcome, timeout, request_error, response,
}
use quant_api_gateway.Routing.{
  Route, fixed, one_param, dispatch, AllSound, dispatch-sound, slash, render,
}
use quant_api_gateway.Proxy.{
  Handler, json, sse, Mirrors, forward_header, SseError, http, read_to_memory, streaming, buffered,
  SseResponse, SseEnd,
}
use quant_api_gateway.Proxy.Readonly.{get_json, timed_out, unavailable, verbatim}
use quant_api_gateway.Proxy.Readonly.Laws.{Mirrors-get_json}

pub proxy : (Call → Outcome) → Request → String → Result HttpException JsonResponse
proxy = get_json "orderbook"

pub sse_call : Request → String → Call
sse_call request path = record {
  method = "GET";
  path = path;
  params = request.query_params;
  headers =
      forward_header "X-API-Key" (request.header "X-API-Key")
      ++ forward_header "Last-Event-ID" (request.header "Last-Event-ID");
  content = none;
  stream = true;
}

abbrev buffer : Result HttpException JsonResponse → Result SseError SseResponse
buffer (ok answer) = ok (buffered answer)
buffer (err e) = err (http e)

-- Any status other than 200 is handed on with its body, 500 and above included.
pub sse_answer : Outcome → SseEnd
sse_answer timeout = record { result = err (http (timed_out "orderbook")); events = [] }
sse_answer request_error = record { result = err (http (unavailable "orderbook")); events = [] }
sse_answer (response upstream) =
    if upstream.status_code == 200
    then record {
      result = ok (
          streaming upstream "text/event-stream"
            (("Cache-Control", "no-cache") ∷ ("X-Accel-Buffering", "no") ∷ []));
      events = [];
    }
    else read_to_memory upstream (buffer (verbatim "orderbook" upstream.status_code upstream.json))

pub proxy_sse : (Call → Outcome) → Request → String → SseEnd
unfolding sse_call sse_answer
proxy_sse send request path = sse_answer (send (sse_call request path))

pub orderbook_health : Handler
orderbook_health send request = json (proxy send request "/health")

pub orderbook_status : Handler
orderbook_status send request = json (proxy send request "/status")

pub orderbook_symbols : Handler
orderbook_symbols send request = json (proxy send request "/symbols")

pub orderbook_order_book : String → Handler
orderbook_order_book symbol send request = json (proxy send request ("/order-book/" <> symbol))

pub orderbook_order_book_stream : String → Handler
orderbook_order_book_stream symbol send request =
    sse (proxy_sse send request ("/order-book/" <> symbol <> "/stream"))

pub orderbook_trades : String → Handler
orderbook_trades symbol send request = json (proxy send request ("/trades/" <> symbol))

pub orderbook_settlements : String → Handler
orderbook_settlements series send request = json (proxy send request ("/settlements/" <> series))

pub orderbook_manifest : String → Handler
orderbook_manifest date send request = json (proxy send request ("/manifest/" <> date))

pub orderbook_greeks : Handler
orderbook_greeks send request = json (proxy send request "/greeks")

pub orderbook_greeks_symbol : String → Handler
orderbook_greeks_symbol symbol send request = json (proxy send request ("/greeks/" <> symbol))

pub orderbook_features : String → Handler
orderbook_features symbol send request = json (proxy send request ("/features/" <> symbol))

unfoldable pub router : List (Route Handler)
router =
    fixed "GET" ("health" ∷ []) orderbook_health
    ∷ fixed "GET" ("status" ∷ []) orderbook_status
    ∷ fixed "GET" ("symbols" ∷ []) orderbook_symbols
    ∷ one_param "GET" "order-book" [] orderbook_order_book
    ∷ one_param "GET" "order-book" ("stream" ∷ []) orderbook_order_book_stream
    ∷ one_param "GET" "trades" [] orderbook_trades
    ∷ one_param "GET" "settlements" [] orderbook_settlements
    ∷ one_param "GET" "manifest" [] orderbook_manifest
    ∷ fixed "GET" ("greeks" ∷ []) orderbook_greeks
    ∷ one_param "GET" "greeks" [] orderbook_greeks_symbol
    ∷ one_param "GET" "features" [] orderbook_features
    ∷ []

mirrors :
    (p : String) (path : List String)
    → p ≡ render path
    → Mirrors "GET" path (λ send request. json (proxy send request p))
unfolding proxy
mirrors = Mirrors-get_json "orderbook"

Mirrors-sse :
    (p : String) (path : List String)
    → p ≡ render path
    → Mirrors "GET" path (λ send request. sse (proxy_sse send request p))
unfolding proxy_sse
Mirrors-sse p path e send send' request agree = rw (agree (sse_call request p) refl e)

router-Mirrors : AllSound Mirrors router
unfolding router orderbook_health orderbook_status orderbook_symbols orderbook_order_book
    orderbook_order_book_stream orderbook_trades orderbook_settlements orderbook_manifest
    orderbook_greeks orderbook_greeks_symbol orderbook_features
router-Mirrors = (
  mirrors "/health" ("health" ∷ []) refl,
  (
    mirrors "/status" ("status" ∷ []) refl,
    (
      mirrors "/symbols" ("symbols" ∷ []) refl,
      (
        (λ x. mirrors _ ("order-book" ∷ x ∷ []) (slash "order-book" x)),
        (
          (λ x.
              Mirrors-sse _ ("order-book" ∷ x ∷ "stream" ∷ [])
                (slash "order-book" (x <> "/stream"))),
          (
            (λ x. mirrors _ ("trades" ∷ x ∷ []) (slash "trades" x)),
            (
              (λ x. mirrors _ ("settlements" ∷ x ∷ []) (slash "settlements" x)),
              (
                (λ x. mirrors _ ("manifest" ∷ x ∷ []) (slash "manifest" x)),
                (
                  mirrors "/greeks" ("greeks" ∷ []) refl,
                  (
                    (λ x. mirrors _ ("greeks" ∷ x ∷ []) (slash "greeks" x)),
                    ((λ x. mirrors _ ("features" ∷ x ∷ []) (slash "features" x)), tt),
                  ),
                ),
              ),
            ),
          ),
        ),
      ),
    ),
  ),
)

-- Every request that the order-book router takes is a GET sent on to the engine at its own path, and
-- no other path of the engine is asked.
pub orderbook-Mirrors :
    (method : String) (path : List String) (handler : Handler)
    → dispatch router method path ≡ some handler
    → Mirrors method path handler
orderbook-Mirrors method path handler h =
    dispatch-sound Mirrors router method path handler router-Mirrors h
