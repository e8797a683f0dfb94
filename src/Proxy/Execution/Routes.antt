-- ===== src/Proxy/Execution/Routes.antt =====
-- The routes of api/v2/engines/execution.py, in the order in which they are declared.
pub mod Laws
use quant_api_gateway.Prelude.{String, ◌<>◌, List, [], ◌∷◌, Result}
use quant_api_gateway.Http.{HttpException, Request, JsonResponse, Call, Outcome}
use quant_api_gateway.Routing.{Route, fixed, one_param}
use quant_api_gateway.Proxy.{Handler, json, sse}
use quant_api_gateway.Proxy.Execution.{proxy, proxy_sse}

pub execution_health : Handler
execution_health send request = json (proxy send request "GET" "/health")

pub execution_capabilities : Handler
execution_capabilities send request = json (proxy send request "GET" "/capabilities")

pub execution_submit_order : Handler
execution_submit_order send request = json (proxy send request "POST" "/orders")

pub execution_orders_stream : Handler
execution_orders_stream send request = sse (proxy_sse send request "/orders/stream")

pub execution_get_order : String → Handler
execution_get_order client_order_id send request =
    json (proxy send request "GET" ("/orders/" <> client_order_id))

pub execution_amend_order : String → Handler
execution_amend_order client_order_id send request =
    json (proxy send request "PATCH" ("/orders/" <> client_order_id))

pub execution_cancel_order : String → Handler
execution_cancel_order client_order_id send request =
    json (proxy send request "DELETE" ("/orders/" <> client_order_id))

pub execution_order_book : String → Handler
execution_order_book symbol send request =
    json (proxy send request "GET" ("/order-book/" <> symbol))

pub execution_order_book_stream : String → Handler
execution_order_book_stream symbol send request =
    sse (proxy_sse send request ("/order-book/" <> symbol <> "/stream"))

pub execution_account_open_orders : String → Handler
execution_account_open_orders account send request =
    json (proxy send request "GET" ("/accounts/" <> account <> "/open-orders"))

pub execution_account_positions : String → Handler
execution_account_positions account send request =
    json (proxy send request "GET" ("/accounts/" <> account <> "/positions"))

pub execution_account : String → Handler
execution_account account send request = json (proxy send request "GET" ("/accounts/" <> account))

unfoldable pub router : List (Route Handler)
router =
    fixed "GET" ("health" ∷ []) execution_health
    ∷ fixed "GET" ("capabilities" ∷ []) execution_capabilities
    ∷ fixed "POST" ("orders" ∷ []) execution_submit_order
    ∷ fixed "GET" ("orders" ∷ "stream" ∷ []) execution_orders_stream
    ∷ one_param "GET" "orders" [] execution_get_order
    ∷ one_param "PATCH" "orders" [] execution_amend_order
    ∷ one_param "DELETE" "orders" [] execution_cancel_order
    ∷ one_param "GET" "order-book" [] execution_order_book
    ∷ one_param "GET" "order-book" ("stream" ∷ []) execution_order_book_stream
    ∷ one_param "GET" "accounts" ("open-orders" ∷ []) execution_account_open_orders
    ∷ one_param "GET" "accounts" ("positions" ∷ []) execution_account_positions
    ∷ one_param "GET" "accounts" [] execution_account
    ∷ []
