-- ===== src/Proxy/Execution/Routes/Laws.antt =====
-- Which handler a request to the execution proxy reaches, and which path of the engine it calls.
use quant_api_gateway.Prelude.{
  String, ◌<>◌, ◌≡◌, ◌≢◌, refl, none, some, List, [], ◌∷◌, arith, str_eq, eq_iff, if◌then◌else◌,
}
use quant_api_gateway.Routing.{dispatch, render, AllSound, dispatch-sound, slash}
use quant_api_gateway.Proxy.{Handler, json, sse, Mirrors}
use quant_api_gateway.Proxy.Execution.{proxy, proxy_sse, proxy_call, sse_call}
use quant_api_gateway.Proxy.Execution.Routes.{
  execution_health, execution_capabilities, execution_submit_order, execution_orders_stream,
  execution_get_order, execution_amend_order, execution_cancel_order, execution_order_book,
  execution_order_book_stream, execution_account_open_orders, execution_account_positions,
  execution_account, router,
}

Mirrors-proxy :
    (method p : String) (path : List String)
    → p ≡ render path
    → Mirrors method path (λ send request. json (proxy send request method p))
unfolding proxy
Mirrors-proxy method p path e send send' request agree =
    rw (agree (proxy_call request method p) refl e)

Mirrors-proxy_sse :
    (p : String) (path : List String)
    → p ≡ render path
    → Mirrors "GET" path (λ send request. sse (proxy_sse send request p))
unfolding proxy_sse
Mirrors-proxy_sse p path e send send' request agree = rw (agree (sse_call request p) refl e)

router-Mirrors : AllSound Mirrors router
unfolding router execution_health execution_capabilities execution_submit_order
    execution_orders_stream execution_get_order execution_amend_order execution_cancel_order
    execution_order_book execution_order_book_stream execution_account_open_orders
    execution_account_positions execution_account
router-Mirrors = (
  Mirrors-proxy "GET" "/health" ("health" ∷ []) refl,
  (
    Mirrors-proxy "GET" "/capabilities" ("capabilities" ∷ []) refl,
    (
      Mirrors-proxy "POST" "/orders" ("orders" ∷ []) refl,
      (
        Mirrors-proxy_sse "/orders/stream" ("orders" ∷ "stream" ∷ []) refl,
        (
          λ x. Mirrors-proxy "GET" _ ("orders" ∷ x ∷ []) (slash "orders" x),
          (
            λ x. Mirrors-proxy "PATCH" _ ("orders" ∷ x ∷ []) (slash "orders" x),
            (
              λ x. Mirrors-proxy "DELETE" _ ("orders" ∷ x ∷ []) (slash "orders" x),
              (
                λ x. Mirrors-proxy "GET" _ ("order-book" ∷ x ∷ []) (slash "order-book" x),
                (
                  λ x.
                      Mirrors-proxy_sse _ ("order-book" ∷ x ∷ "stream" ∷ [])
                        (slash "order-book" (x <> "/stream")),
                  (
                    λ x.
                        Mirrors-proxy "GET" _ ("accounts" ∷ x ∷ "open-orders" ∷ [])
                          (slash "accounts" (x <> "/open-orders")),
                    (
                      λ x.
                          Mirrors-proxy "GET" _ ("accounts" ∷ x ∷ "positions" ∷ [])
                            (slash "accounts" (x <> "/positions")),
                      (λ x. Mirrors-proxy "GET" _ ("accounts" ∷ x ∷ []) (slash "accounts" x), tt),
                    ),
                  ),
                ),
              ),
            ),
          ),
        ),
      ),
    ),
  ),
)

-- A request reaches a handler only to be sent on to the engine with its own method and at its own
-- path: whatever the method and the path, the handler that the router gives calls no other.
pub execution-Mirrors :
    (method : String) (path : List String) (handler : Handler)
    → dispatch router method path ≡ some handler
    → Mirrors method path handler
execution-Mirrors method path handler h =
    dispatch-sound Mirrors router method path handler router-Mirrors h

-- The literal route is reached although `/orders/{client_order_id}` would take the same path, and
-- every other identifier reaches the read of its order.
orders_stream_first :
    (id : String)
    → id ≢ ""
    → dispatch router "GET" ("orders" ∷ id ∷ [])
      ≡ some (if str_eq id "stream" then execution_orders_stream else execution_get_order id)
unfolding router dispatch
orders_stream_first id h = ground (arith, eq_iff id "", eq_iff "stream" id, eq_iff id "stream")

-- Nothing under `/admin` is proxied, whatever the method.
pub admin_not_proxied :
    (method : String) (path : List String) → dispatch router method ("admin" ∷ path) ≡ none
unfolding router dispatch
admin_not_proxied method [] = ground arith
admin_not_proxied method (x ∷ path) = ground arith
