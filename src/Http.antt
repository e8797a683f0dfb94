-- ===== src/Http.antt =====
-- Requests and responses as the handlers see them, and what `httpx` hands back from an engine.
use quant_api_gateway.Prelude.{ℕ, String, Bool, Option, List, []}
use quant_api_gateway.Json.{Json}

-- A formatted message: the text with `{}` where a value is put in (`{!r}` where its `repr` is), and
-- the values.
pub record Message : Type 0 where
  pub template : String
  pub args : List String

abbrev pub plain : String → Message
plain s = record { template = s; args = [] }

-- `fastapi.HTTPException`.
pub record HttpException : Type 0 where
  pub status_code : ℕ
  pub detail : Message

-- `fastapi.Request`: `request.headers.get`, `dict(request.query_params)` (which has each key once),
-- and `await request.body()`.
pub record Request : Type 0 where
  pub header : String → Option String
  pub query_params : List (String × String)
  pub body : String

-- `fastapi.responses.JSONResponse`.
pub record JsonResponse : Type 0 where
  pub status_code : ℕ
  pub content : Json

-- One call of the shared `httpx` client.
pub record Call : Type 0 where
  pub method : String
  pub path : String
  pub params : List (String × String)
  pub headers : List (String × String)
  pub content : Option String
  pub stream : Bool

-- `httpx.Response`: its status, what `.json()` returns (`none`: it raises `ValueError`), the chunks
-- of `.aiter_raw()`, and whether `.aread()` on a response that is still a stream comes to the end of
-- the body (`false`: it raises a `httpx.RequestError`, as on a read timeout or a lost connection).
pub record Upstream : Type 0 where
  pub status_code : ℕ
  pub json : Option Json
  pub chunks : List String
  pub readable : Bool

-- How a call of the client ends: `httpx.TimeoutException`, another `httpx.RequestError`, or a
-- response.
pub data Outcome : Type 0 where
  timeout request_error : Outcome
  response : Upstream → Outcome
