-- ===== src/Proxy/Engines.antt =====
-- The four proxied engines in api/v2/router.py: each engine's router under the engine's name. The
-- module of each engine has a client of its own.
use quant_api_gateway.Prelude.{
  String, ◌≡◌, refl, ap, Option, none, some, List, [], ◌∷◌, str_eq, eq_iff, if◌then◌else◌,
  Bool-cases, inl, inr,
}
use quant_api_gateway.Http.{Request, Call, Outcome}
use quant_api_gateway.Routing.{Route, dispatch, render}
use quant_api_gateway.Proxy.{Handler, Answer, Mirrors}
use quant_api_gateway.Proxy.Execution.Routes
use quant_api_gateway.Proxy.Execution.Routes.Laws.{execution-Mirrors}
use quant_api_gateway.Proxy.Orderbook
use quant_api_gateway.Proxy.Orderbook.{orderbook-Mirrors}
use quant_api_gateway.Proxy.Crypto
use quant_api_gateway.Proxy.Crypto.{crypto-Mirrors}
use quant_api_gateway.Proxy.MarketData
use quant_api_gateway.Proxy.MarketData.{market_data-Mirrors}

abbrev Mounts : Type 0
Mounts = List (String × List (Route Handler))

-- The `include_router` calls of the four proxied engines, in their order.
abbrev api_router : Mounts
api_router =
    ("market-data", MarketData.router)
    ∷ ("execution", Routes.router)
    ∷ ("orderbook", Orderbook.router)
    ∷ ("crypto", Crypto.router)
    ∷ []

abbrev answer_of : Option Handler → (Call → Outcome) → Request → Option Answer
answer_of none send request = none
answer_of (some handler) send request = some (handler send request)

abbrev or_next : Option Answer → Option Answer → Option Answer
or_next none next = next
or_next (some answer) next = some answer

-- `clients` are the shared clients of the modules, one for each engine.
mounted :
    Mounts → (String → Call → Outcome) → String → String → List String → Request → Option Answer
mounted [] clients engine method path request = none
mounted ((prefix, routes) ∷ mounts) clients engine method path request =
    let next = mounted mounts clients engine method path request in
    if str_eq prefix engine
    then or_next (answer_of (dispatch routes method path) (clients prefix) request) next
    else next

-- A request whose path follows `/api/v2/engines`; `none` where no route that proxies fits.
unfoldable pub serve : (String → Call → Outcome) → String → List String → Request → Option Answer
unfolding mounted
serve clients method [] request = none
serve clients method (engine ∷ path) request = mounted api_router clients engine method path request

abbrev AllMirror : Mounts → Type 0
AllMirror [] = Unit
AllMirror ((_, routes) ∷ mounts) =
    ((method : String) (path : List String) (handler : Handler)
      → dispatch routes method path ≡ some handler
      → Mirrors method path handler)
    × AllMirror mounts

module _ (clients clients' : String → Call → Outcome) (engine method : String) (path : List String)
    (request : Request) where
  abbrev Agree : Type 0
  Agree =
      (call : Call)
      → call.method ≡ method
      → call.path ≡ render path
      → clients engine call ≡ clients' engine call

  answer-agrees :
      (handler : Option Handler)
      → ((h : Handler) → handler ≡ some h → Mirrors method path h)
      → Agree
      → answer_of handler (clients engine) request ≡ answer_of handler (clients' engine) request
  answer-agrees none mirrors agree = refl
  answer-agrees (some h) mirrors agree =
      ap some (mirrors h refl (clients engine) (clients' engine) request agree)

  mounted-agrees :
      (mounts : Mounts)
      → AllMirror mounts
      → Agree
      → mounted mounts clients engine method path request
        ≡ mounted mounts clients' engine method path request
  unfolding mounted
  mounted-agrees [] all agree = refl
  mounted-agrees ((prefix, routes) ∷ mounts) (mirrors, all) agree =
      elim (Bool-cases (str_eq prefix engine)) [
        | inl on ↦
            let same : prefix ≡ engine = (eq_iff prefix engine).0 on in
            rw on (
              rw same (
                rw
                  (
                    answer-agrees (dispatch routes method path) (mirrors method path) agree,
                    mounted-agrees mounts all agree,
                  )
                  refl))
        | inr off ↦ rw off (mounted-agrees mounts all agree)
      ]

  -- The answer to a request under `/api/v2/engines` comes from the named engine's client alone, asked
  -- with the request's method and at the path behind the engine's name: two gateways whose clients
  -- agree on those calls answer alike, whatever their clients of the other engines do.
  pub serve-Isolated :
      ((call : Call)
        → call.method ≡ method
        → call.path ≡ render path
        → clients engine call ≡ clients' engine call)
      → serve clients method (engine ∷ path) request ≡ serve clients' method (engine ∷ path) request
  unfolding serve
  serve-Isolated agree =
      mounted-agrees api_router
        (market_data-Mirrors, (execution-Mirrors, (orderbook-Mirrors, (crypto-Mirrors, tt)))) agree
