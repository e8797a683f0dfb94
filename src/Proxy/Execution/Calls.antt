-- ===== src/Proxy/Execution/Calls.antt =====
-- What the execution proxy sends to the engine.
use quant_api_gateway.Prelude.{
  String, ◌≡◌, refl, Option, none, some, List, [], ◌∷◌, ◌++◌, arith, str_eq, eq_iff, if◌then◌else◌,
  ◌≢◌, one_of,
}
use quant_api_gateway.Http.{Request}
use quant_api_gateway.Proxy.{forward_header}
use quant_api_gateway.Proxy.Execution.{proxy_call, sse_call, caller_headers, body_headers}

-- `headers.get(name)` on what is sent.
abbrev pub sent : String → List (String × String) → Option String
sent name [] = none
sent name ((n, v) ∷ hs) = if str_eq n name then some v else sent name hs

-- A header's value, with an empty one taken for a missing one.
abbrev pub nonempty : Option String → Option String
nonempty none = none
nonempty (some v) = if str_eq v "" then none else some v

sent-append :
    (name : String) (hs js : List (String × String))
    → sent name (hs ++ js) ≡ elim (sent name hs) [ none ↦ sent name js | some v ↦ some v ]
sent-append name [] js = refl
sent-append name ((n, v) ∷ hs) js = ground (arith, sent-append name hs js)

pub sent-forward :
    (name n : String) (v : Option String)
    → sent name (forward_header n v) ≡ (if str_eq n name then nonempty v else none)
sent-forward name n none = ground arith
sent-forward name n (some v) = ground arith

sent-caller_headers :
    (name : String) (request : Request)
    → sent name (caller_headers request) ≡ (
        if one_of name ("X-API-Key" ∷ "X-Strategy-Id" ∷ [])
        then nonempty (request.header name)
        else none)
sent-caller_headers name request =
    let key = request.header "X-API-Key" in
    let strategy = request.header "X-Strategy-Id" in
    ground (
      arith,
      sent-append name (forward_header "X-API-Key" key) (forward_header "X-Strategy-Id" strategy),
      sent-forward name "X-API-Key" key,
      sent-forward name "X-Strategy-Id" strategy,
      eq_iff "X-API-Key" name,
      eq_iff "X-Strategy-Id" name,
    )

sent-body_headers :
    (name : String) (request : Request)
    → name ≢ "Content-Type"
    → sent name (body_headers request) ≡ none
sent-body_headers name request h = ground (arith, eq_iff "Content-Type" name)

-- Apart from `Content-Type`, the headers that `_proxy` sends are the caller's own `X-API-Key` and
-- `X-Strategy-Id`, unchanged, those that the caller left out or empty being left out: no other
-- header of the caller is sent on, and none that the caller did not give.
pub proxy_call-sent :
    (request : Request) (method path name : String)
    → name ≢ "Content-Type"
    → sent name (proxy_call request method path).headers ≡ (
        if one_of name ("X-API-Key" ∷ "X-Strategy-Id" ∷ [])
        then nonempty (request.header name)
        else none)
unfolding proxy_call
proxy_call-sent request method path name h = ground (
  arith,
  sent-append name (caller_headers request) (body_headers request),
  sent-body_headers name request h,
  sent-caller_headers name request,
)

-- The headers that `_proxy_sse` sends are the caller's own `X-API-Key`, `X-Strategy-Id` and
-- `Last-Event-ID`, unchanged, those that the caller left out or empty being left out.
sse_call-sent :
    (request : Request) (path name : String)
    → sent name (sse_call request path).headers ≡ (
        if one_of name ("X-API-Key" ∷ "X-Strategy-Id" ∷ "Last-Event-ID" ∷ [])
        then nonempty (request.header name)
        else none)
unfolding sse_call
sse_call-sent request path name =
    let event = request.header "Last-Event-ID" in
    ground (
      arith,
      sent-append name (caller_headers request) (forward_header "Last-Event-ID" event),
      sent-forward name "Last-Event-ID" event,
      sent-caller_headers name request,
      eq_iff "Last-Event-ID" name,
    )
