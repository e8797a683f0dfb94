-- ===== src/Proxy/Readonly.antt =====
-- The JSON proxy that api/v2/engines/orderbook.py, crypto.py and market_data.py each write out: a
-- GET with the caller's key, in the words of the engine's name.
pub mod Laws
use quant_api_gateway.Prelude.{
  ℕ, String, ◌<>◌, true, false, Option, none, some, List, leb, if◌then◌else◌, Result, ok, err,
}
use quant_api_gateway.Json.{Json}
use quant_api_gateway.Http.{
  HttpException, plain, Request, JsonResponse, Call, Upstream, Outcome, timeout, request_error,
  response,
}
use quant_api_gateway.Proxy.{forward_header}

-- `client.get(path, params=dict(request.query_params), headers=headers)`
pub get_call : Request → String → Call
get_call request path = record {
  method = "GET";
  path = path;
  params = request.query_params;
  headers = forward_header "X-API-Key" (request.header "X-API-Key");
  content = none;
  stream = false;
}

module _ (engine : String) where
  abbrev pub timed_out : HttpException
  timed_out = record { status_code = 504; detail = plain (engine <> " engine timed out") }

  abbrev pub unavailable : HttpException
  unavailable = record { status_code = 503; detail = plain (engine <> " engine unavailable") }

  abbrev pub engine_error : HttpException
  engine_error = record { status_code = 502; detail = plain (engine <> " engine error") }

  abbrev pub invalid_response : HttpException
  invalid_response = record {
    status_code = 502;
    detail = plain ("invalid " <> engine <> " engine response");
  }

  abbrev pub verbatim : ℕ → Option Json → Result HttpException JsonResponse
  verbatim status none = err invalid_response
  verbatim status (some payload) = ok (record { status_code = status; content = payload })

  -- The status is looked at before the body.
  pub get_answer : Outcome → Result HttpException JsonResponse
  get_answer timeout = err timed_out
  get_answer request_error = err unavailable
  get_answer (response upstream) =
      if leb 500 upstream.status_code
      then err engine_error
      else verbatim upstream.status_code upstream.json

  unfoldable pub get_json : (Call → Outcome) → Request → String → Result HttpException JsonResponse
  unfolding get_call get_answer
  get_json send request path = get_answer (send (get_call request path))
