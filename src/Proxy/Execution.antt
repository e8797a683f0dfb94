-- ===== src/Proxy/Execution.antt =====
-- api/v2/engines/execution.py: the two proxy functions of the execution engine. What is only logged
-- is left out.
pub mod Laws
pub mod Failures
pub mod Sse
pub mod Calls
pub mod Routes
use quant_api_gateway.Prelude.{
  ℕ, String, Bool, false, true, not, ◌&&◌, Option, none, some, List, [], ◌∷◌, ◌++◌, str_eq, leb,
  ◌==◌, if◌then◌else◌, Result, ok, err, is_none,
}
use quant_api_gateway.Json.{Json, as_object, as_text, get}
use quant_api_gateway.Http.{
  HttpException, plain, Request, JsonResponse, Call, Upstream, Outcome, timeout, request_error,
  response,
}
use quant_api_gateway.Proxy.{
  forward_header, Event, SseError, http, read_to_memory, SseResponse, streaming, buffered, SseEnd,
}

-- `isinstance(value, dict)` and then a test on it; `None` is no dict.
abbrev is_text : Option Json → Bool
is_text none = false
is_text (some value) = not (is_none (as_text value))

abbrev has_code : Option Json → Bool
has_code none = false
has_code (some error) = elim (as_object error) [ none ↦ false | some e ↦ is_text (get e "code") ]

pub is_typed_envelope : Json → Bool
is_typed_envelope payload = elim (as_object payload) [
  | none ↦ false
  | some fields ↦ has_code (get fields "error")
]

abbrev pub bad_gateway : HttpException
bad_gateway = record { status_code = 502; detail = plain "execution engine error" }

abbrev pub invalid_response : HttpException
invalid_response = record { status_code = 502; detail = plain "invalid execution engine response" }

abbrev pub timed_out : HttpException
timed_out = record { status_code = 504; detail = plain "execution engine timed out" }

abbrev pub unavailable : HttpException
unavailable = record { status_code = 503; detail = plain "execution engine unavailable" }

pub passthrough_or_bad_gateway : ℕ → Json → Result HttpException JsonResponse
passthrough_or_bad_gateway status payload =
    if leb 500 status && not (is_typed_envelope payload)
    then err bad_gateway
    else ok (record { status_code = status; content = payload })

-- The headers that both functions take from the caller.
abbrev pub caller_headers : Request → List (String × String)
caller_headers request =
    forward_header "X-API-Key" (request.header "X-API-Key")
    ++ forward_header "X-Strategy-Id" (request.header "X-Strategy-Id")

-- `request.headers.get("Content-Type", "application/json")`
abbrev content_type : Option String → String
content_type none = "application/json"
content_type (some value) = value

-- `if body: headers["Content-Type"] = …`
abbrev pub body_headers : Request → List (String × String)
body_headers request =
    if str_eq request.body ""
    then []
    else ("Content-Type", content_type (request.header "Content-Type")) ∷ []

-- `content=body or None`
abbrev content_of : String → Option String
content_of body = if str_eq body "" then none else some body

-- The call that `_proxy` makes.
pub proxy_call : Request → String → String → Call
proxy_call request method path = record {
  method = method;
  path = path;
  params = request.query_params;
  headers = caller_headers request ++ body_headers request;
  content = content_of request.body;
  stream = false;
}

abbrev pub decoded : Upstream → Option Json → Result HttpException JsonResponse
decoded upstream none = err invalid_response
decoded upstream (some payload) = passthrough_or_bad_gateway upstream.status_code payload

pub proxy_answer : Outcome → Result HttpException JsonResponse
proxy_answer timeout = err timed_out
proxy_answer request_error = err unavailable
proxy_answer (response upstream) = decoded upstream upstream.json

-- `_proxy`, over what `client.request` answers.
pub proxy : (Call → Outcome) → Request → String → String → Result HttpException JsonResponse
unfolding proxy_call proxy_answer passthrough_or_bad_gateway
proxy send request method path = proxy_answer (send (proxy_call request method path))

-- The request that `_proxy_sse` builds and sends with `stream=True` and no read timeout.
pub sse_call : Request → String → Call
sse_call request path = record {
  method = "GET";
  path = path;
  params = request.query_params;
  headers =
      caller_headers request ++ forward_header "Last-Event-ID" (request.header "Last-Event-ID");
  content = none;
  stream = true;
}

abbrev sse_headers : List (String × String)
sse_headers = ("Cache-Control", "no-cache") ∷ ("X-Accel-Buffering", "no") ∷ []

abbrev pub buffer : Result HttpException JsonResponse → Result SseError SseResponse
buffer (ok answer) = ok (buffered answer)
buffer (err e) = err (http e)

-- A response other than 200 is read and closed before its body is looked at. The read stands
-- outside every `try`.
pub sse_answer : Outcome → SseEnd
sse_answer timeout = record { result = err (http timed_out); events = [] }
sse_answer request_error = record { result = err (http unavailable); events = [] }
sse_answer (response upstream) =
    if upstream.status_code == 200
    then record { result = ok (streaming upstream "text/event-stream" sse_headers); events = [] }
    else read_to_memory upstream (buffer (decoded upstream upstream.json))

-- `_proxy_sse`, over what `client.send` answers.
pub proxy_sse : (Call → Outcome) → Request → String → SseEnd
unfolding sse_call sse_answer passthrough_or_bad_gateway
proxy_sse send request path = sse_answer (send (sse_call request path))
