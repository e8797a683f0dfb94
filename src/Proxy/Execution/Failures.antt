-- ===== src/Proxy/Execution/Failures.antt =====
-- When the execution proxy raises, and what.
use quant_api_gateway.Prelude.{
  ℕ, String, ◌≤◌, ◌≡◌, ◌↔◌, ◌⊎◌, inl, inr, refl, Option, none, some, arith, err, Bool-cases,
}
use quant_api_gateway.Json.{Json}
use quant_api_gateway.Http.{
  HttpException, Request, Call, Upstream, Outcome, timeout, request_error, response,
}
use quant_api_gateway.Proxy.Execution.{
  is_typed_envelope, passthrough_or_bad_gateway, proxy_call, proxy_answer, proxy, decoded,
  bad_gateway, invalid_response, timed_out, unavailable,
}
use quant_api_gateway.Proxy.Execution.Laws.{Refusal, test_of_Refusal, Refusal-of_test}

-- Each error of the proxy has one cause: no answer in time, no connection, a body that is no JSON,
-- and a status of 500 or more on a body that is no refusal of the engine.
abbrev pub Fails : Outcome → HttpException → Type 0
Fails timeout e = e ≡ timed_out
Fails request_error e = e ≡ unavailable
Fails (response u) e =
    ((u.json ≡ none) × (e ≡ invalid_response))
    ⊎ ((payload : Json) × (u.json ≡ some payload)
        × (500 ≤ u.status_code)
        × (¬ Refusal payload)
        × (e ≡ bad_gateway))

bad_gateway-elim :
    (status : ℕ) (payload : Json) (e : HttpException)
    → passthrough_or_bad_gateway status payload ≡ err e
    → (500 ≤ status) × (¬ Refusal payload) × (e ≡ bad_gateway)
unfolding passthrough_or_bad_gateway
bad_gateway-elim status payload e h =
    (ground arith, λ r. ground (arith, test_of_Refusal payload r), ground arith)

bad_gateway-intro :
    (status : ℕ) (payload : Json)
    → 500 ≤ status
    → ¬ Refusal payload
    → passthrough_or_bad_gateway status payload ≡ err bad_gateway
unfolding passthrough_or_bad_gateway
bad_gateway-intro status payload h n = elim (Bool-cases (is_typed_envelope payload)) [
  | inl t ↦ absurd (n (Refusal-of_test payload t))
  | inr f ↦ ground arith
]

Fails-of_decoded :
    (u : Upstream) (json : Option Json) (e : HttpException)
    → u.json ≡ json
    → decoded u json ≡ err e
    → Fails (response u) e
Fails-of_decoded u none e p h = inl (p, ground arith)
Fails-of_decoded u (some payload) e p h =
    let (big, bare, same) = bad_gateway-elim u.status_code payload e h in
    inr (payload, p, big, bare, same)

answer-Fails : (o : Outcome) (e : HttpException) → proxy_answer o ≡ err e → Fails o e
unfolding proxy_answer
answer-Fails timeout e h = ground arith
answer-Fails request_error e h = ground arith
answer-Fails (response u) e h = Fails-of_decoded u u.json e refl h

answer-of_Fails : (o : Outcome) (e : HttpException) → Fails o e → proxy_answer o ≡ err e
unfolding proxy_answer
answer-of_Fails timeout e h = rw h
answer-of_Fails request_error e h = rw h
answer-of_Fails (response u) e (inl (p, same)) = rw (p, same)
answer-of_Fails (response u) e (inr (payload, p, big, bare, same)) =
    rw (p, same) (bad_gateway-intro u.status_code payload big bare)

module _ (send : Call → Outcome) (request : Request) where
  -- `_proxy` raises `e` exactly in these cases: 504 when the call timed out, 503 when it could not be
  -- made, 502 when the body of the answer is no JSON, and 502 when the status is 500 or more and the
  -- body is no typed refusal.
  pub proxy-err_iff :
      (method path : String) (e : HttpException)
      → (proxy send request method path ≡ err e) ↔ Fails (send (proxy_call request method path)) e
  unfolding proxy
  proxy-err_iff method path e = (
    answer-Fails (send (proxy_call request method path)) e,
    answer-of_Fails (send (proxy_call request method path)) e,
  )
