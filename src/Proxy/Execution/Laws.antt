-- ===== src/Proxy/Execution/Laws.antt =====
-- What a caller of the execution proxy can rely on, whatever the engine answers.
use quant_api_gateway.Prelude.{
  ℕ, String, ◌<◌, ◌≡◌, ◌↔◌, ◌⊎◌, inl, inr, refl, true, Option, none, some, arith, ok, Bool-cases,
}
use quant_api_gateway.Json.{Json, null, bool, number, text, array, object, Fields, get}
use quant_api_gateway.Http.{
  Request, JsonResponse, Call, Upstream, Outcome, timeout, request_error, response,
}
use quant_api_gateway.Proxy.Execution.{
  is_typed_envelope, passthrough_or_bad_gateway, proxy_call, proxy_answer, proxy, decoded, has_code,
  is_text,
}

-- The engine's envelope for a deliberate refusal, `{"error": {"code": <text>, …}, …}`.
pub record Refusal (payload : Json) : Type 0 where
  pub fields : Fields
  pub error : Fields
  pub code : String
  pub is_fields : payload ≡ object fields
  pub is_error : get fields "error" ≡ some (object error)
  pub is_code : get error "code" ≡ some (text code)

is_text-elim : (o : Option Json) → is_text o ≡ true → (s : String) × (o ≡ some (text s))
is_text-elim (some (text s)) h = (s, refl)
is_text-elim none h = cc
is_text-elim (some null) h = cc
is_text-elim (some (bool _)) h = cc
is_text-elim (some (number _)) h = cc
is_text-elim (some (array _)) h = cc
is_text-elim (some (object _)) h = cc

has_code-elim :
    (o : Option Json)
    → has_code o ≡ true
    → (e : Fields) × (s : String) × (o ≡ some (object e)) × (get e "code" ≡ some (text s))
has_code-elim (some (object e)) h = let (s, q) = is_text-elim (get e "code") h in (e, s, refl, q)
has_code-elim none h = cc
has_code-elim (some null) h = cc
has_code-elim (some (bool _)) h = cc
has_code-elim (some (number _)) h = cc
has_code-elim (some (array _)) h = cc
has_code-elim (some (text _)) h = cc

pub Refusal-of_test : (payload : Json) → is_typed_envelope payload ≡ true → Refusal payload
unfolding is_typed_envelope
Refusal-of_test (object fs) h =
    let (e, s, p, q) = has_code-elim (get fs "error") h in
    record { fields = fs; error = e; code = s; is_fields = refl; is_error = p; is_code = q }
Refusal-of_test null h = cc
Refusal-of_test (bool _) h = cc
Refusal-of_test (number _) h = cc
Refusal-of_test (array _) h = cc
Refusal-of_test (text _) h = cc

pub test_of_Refusal : (payload : Json) → Refusal payload → is_typed_envelope payload ≡ true
unfolding is_typed_envelope
test_of_Refusal payload r = rw r.is_fields (rw r.is_error (rw r.is_code refl))

-- What the proxy may hand on: everything below 500, and a refusal of the engine at any status.
abbrev Passes : ℕ → Json → Type 0
Passes status payload = (status < 500) ⊎ Refusal payload

passthrough-Passes :
    (status : ℕ) (payload : Json)
    → Passes status payload
    → passthrough_or_bad_gateway status payload
      ≡ ok (record { status_code = status; content = payload })
unfolding passthrough_or_bad_gateway
passthrough-Passes status payload (inl h) = ground arith
passthrough-Passes status payload (inr r) = ground (arith, test_of_Refusal payload r)

Passes-of_passthrough :
    (status : ℕ) (payload : Json) (r : JsonResponse)
    → passthrough_or_bad_gateway status payload ≡ ok r
    → (Passes status payload) × (r ≡ record { status_code = status; content = payload })
unfolding passthrough_or_bad_gateway
Passes-of_passthrough status payload r h = elim (Bool-cases (is_typed_envelope payload)) [
  | inl e ↦ (inr (Refusal-of_test payload e), ground arith)
  | inr e ↦ (inl (ground arith), ground arith)
]

-- What the engine's answer must be for the proxy to hand on `r`.
pub record Answers (outcome : Outcome) (r : JsonResponse) : Type 0 where
  pub upstream : Upstream
  pub is_response : outcome ≡ response upstream
  pub is_json : upstream.json ≡ some r.content
  pub same_status : upstream.status_code ≡ r.status_code
  pub passes : Passes r.status_code r.content

Answers-of_decoded :
    (u : Upstream) (json : Option Json) (r : JsonResponse)
    → u.json ≡ json
    → decoded u json ≡ ok r
    → Answers (response u) r
Answers-of_decoded u none r e h = cc
Answers-of_decoded u (some payload) r e h =
    let (passes, same) = Passes-of_passthrough u.status_code payload r h in
    record {
      upstream = u;
      is_response = refl;
      is_json = rw same e;
      same_status = rw same refl;
      passes = rw same passes;
    }

answer-Answers : (o : Outcome) (r : JsonResponse) → proxy_answer o ≡ ok r → Answers o r
unfolding proxy_answer
answer-Answers timeout r h = cc
answer-Answers request_error r h = cc
answer-Answers (response u) r h = Answers-of_decoded u u.json r refl h

decoded-Passes :
    (u : Upstream) (r : JsonResponse)
    → u.json ≡ some r.content
    → u.status_code ≡ r.status_code
    → Passes r.status_code r.content
    → decoded u u.json ≡ ok r
decoded-Passes u r e s passes = rw (e, s) (passthrough-Passes r.status_code r.content passes)

answer-of_Answers : (o : Outcome) (r : JsonResponse) → Answers o r → proxy_answer o ≡ ok r
unfolding proxy_answer
answer-of_Answers o r a =
    rw a.is_response (decoded-Passes a.upstream r a.is_json a.same_status a.passes)

module _ (send : Call → Outcome) (request : Request) where
  -- `_proxy` answers with `r` exactly if the engine answered the call that `_proxy` makes with the
  -- status and the JSON body of `r`, and that status is below 500 or the body is a typed refusal.
  pub proxy_iff :
      (method path : String) (r : JsonResponse)
      → (proxy send request method path ≡ ok r) ↔ Answers (send (proxy_call request method path)) r
  unfolding proxy
  proxy_iff method path r = (
    answer-Answers (send (proxy_call request method path)) r,
    answer-of_Answers (send (proxy_call request method path)) r,
  )
