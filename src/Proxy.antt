-- ===== src/Proxy.antt =====
-- The reverse proxies of api/v2/engines: what the four engine modules share.
pub mod Execution
pub mod Readonly
pub mod Orderbook
pub mod Crypto
pub mod MarketData
pub mod Engines
use quant_api_gateway.Prelude.{
  ℕ, zero, suc, String, Option, none, some, List, [], ◌∷◌, ◌++◌, map, str_eq, if◌then◌else◌, Result,
  err, ◌≡◌,
}
use quant_api_gateway.Http.{Upstream, JsonResponse, HttpException, Request, Call, Outcome}
use quant_api_gateway.Routing.{render}

-- `value = request.headers.get(name)`, then `if value: headers[name] = value`: a missing header and
-- an empty one are both left out.
abbrev pub forward_header : String → Option String → List (String × String)
forward_header name none = []
forward_header name (some value) = if str_eq value "" then [] else (name, value) ∷ []

-- What happens to a streamed response: it is read to memory, a chunk is handed on, it is closed.
pub data Event : Type 0 where
  aread aclose : Event
  chunk : String → Event

abbrev pub take : ℕ → List String → List String
take zero chunks = []
take (suc n) [] = []
take (suc n) (c ∷ chunks) = c ∷ take n chunks

-- What the server does with the generator that a streamed response is made of: it may be cancelled
-- before the generator starts (the client has left already), or it starts it and takes at most so
-- many chunks before the client leaves.
pub data Consumer : Type 0 where
  never_started : Consumer
  takes : ℕ → Consumer

-- The generator `_iter` of the SSE proxies. Its `finally` clause closes the upstream response after
-- the last chunk, after an error and after a disconnect alike; of a generator that was never started
-- no code runs, the `finally` clause included.
pub iter : Upstream → Consumer → List Event
iter upstream never_started = []
iter upstream (takes n) = map chunk (take n upstream.chunks) ++ aclose ∷ []

-- What `_proxy_sse` raises: an `HTTPException` of its own, or the `httpx.RequestError` of a read
-- that no clause catches.
pub data SseError : Type 0 where
  http : HttpException → SseError
  read_error : SseError

-- `StreamingResponse` over `_iter`, with its media type and headers, or a buffered answer.
pub data SseResponse : Type 0 where
  streaming : Upstream → String → List (String × String) → SseResponse
  buffered : JsonResponse → SseResponse

-- How `_proxy_sse` ends, and what it has done with the upstream response by then.
pub record SseEnd : Type 0 where
  pub result : Result SseError SseResponse
  pub events : List Event

-- `await upstream.aread()`, then `await upstream.aclose()`, and then what is made of the body: an
-- error of the read leaves the function, and the close after it is not reached.
abbrev pub read_to_memory : Upstream → Result SseError SseResponse → SseEnd
read_to_memory upstream rest =
    if upstream.readable
    then record { result = rest; events = aread ∷ aclose ∷ [] }
    else record { result = err read_error; events = aread ∷ [] }

pub data Answer : Type 0 where
  json : Result HttpException JsonResponse → Answer
  sse : SseEnd → Answer

-- A handler, over what the engine answers to a call.
abbrev pub Handler : Type 0
Handler = (Call → Outcome) → Request → Answer

-- The handler asks the engine at this method and path only: two engines that agree there are
-- answered alike.
abbrev pub Mirrors : String → List String → Handler → Type 0
Mirrors method path handler =
    (send send' : Call → Outcome) (request : Request)
    → ((call : Call) → call.method ≡ method → call.path ≡ render path → send call ≡ send' call)
    → handler send request ≡ handler send' request
