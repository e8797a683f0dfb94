-- ===== src/Proxy/Execution/Sse.antt =====
-- The streaming proxy of the execution engine: how it decides, and what becomes of the response.
use quant_api_gateway.Prelude.{
  ℕ, suc, String, ◌≡◌, ◌≢◌, refl, inl, inr, ◌⊎◌, true, false, Bool-cases, List, [], ◌∷◌, ◌++◌, map,
  arith, ◌==◌, Result, ok, err,
}
use quant_api_gateway.Http.{
  HttpException, Request, JsonResponse, Call, Upstream, Outcome, timeout, request_error, response,
}
use quant_api_gateway.Proxy.{
  Event, aread, aclose, chunk, SseEnd, streaming, buffered, iter, take, Consumer, never_started,
  takes, read_error,
}
use quant_api_gateway.Proxy.Execution.{sse_answer, proxy_sse, sse_call, buffer, decoded}

abbrev closes : List Event → ℕ
closes [] = 0
closes (aclose ∷ es) = suc (closes es)
closes (aread ∷ es) = closes es
closes (chunk _ ∷ es) = closes es

-- All that is done with the upstream response, with what the server does with the generator.
abbrev pub all_events : SseEnd → Consumer → List Event
all_events end consumer = end.events ++ elim end.result [
  | err e ↦ []
  | ok (buffered r) ↦ []
  | ok (streaming u media headers) ↦ iter u consumer
]

-- One close, after everything else that is done with the response.
pub record ClosesLast (events : List Event) : Type 0 where
  pub before : List Event
  pub is_last : events ≡ before ++ aclose ∷ []
  pub open_before : closes before ≡ 0

abbrev Started : Consumer → Type 0
Started never_started = ⊥
Started (takes _) = Unit

-- The response is a stream that was begun, or an answer whose body could be read.
abbrev pub Reached : Upstream → Consumer → Type 0
Reached u consumer =
    ((u.status_code ≡ 200) × Started consumer) ⊎ ((u.status_code ≢ 200) × (u.readable ≡ true))

-- The response is a stream that was never begun.
abbrev pub Unstarted : Upstream → Consumer → Type 0
Unstarted u consumer = (u.status_code ≡ 200) × (consumer ≡ never_started)

-- The response is an answer whose body could not be read, and the error of the read is raised.
abbrev pub Unread : Upstream → SseEnd → Type 0
Unread u end = (u.status_code ≢ 200) × ((u.readable ≡ false) × (end.result ≡ err read_error))

abbrev pub Released : Outcome → Consumer → SseEnd → Type 0
Released (response u) consumer end =
    (Reached u consumer × ClosesLast (all_events end consumer))
    ⊎ ((Unstarted u consumer ⊎ Unread u end) × (closes (all_events end consumer) ≡ 0))
Released timeout consumer end = all_events end consumer ≡ []
Released request_error consumer end = all_events end consumer ≡ []

ClosesLast-iter : (u : Upstream) (n : ℕ) → ClosesLast (iter u (takes n))
unfolding iter
ClosesLast-iter u n = record {
  before = map chunk (take n u.chunks);
  is_last = refl;
  open_before = go (take n u.chunks);
}
  where
    go : (cs : List String) → closes (map chunk cs) ≡ 0
    go [] = refl
    go (c ∷ cs) = go cs

read_and_closed : ClosesLast (aread ∷ aclose ∷ [])
read_and_closed = record { before = aread ∷ []; is_last = refl; open_before = refl }

buffered-ClosesLast :
    (r : Result HttpException JsonResponse) (consumer : Consumer)
    → ClosesLast (all_events (record { result = buffer r; events = aread ∷ aclose ∷ [] }) consumer)
buffered-ClosesLast (ok r) consumer = read_and_closed
buffered-ClosesLast (err e) consumer = read_and_closed

stream-Released :
    (u : Upstream) (consumer : Consumer)
    → (u.status_code == 200) ≡ true
    → Released (response u) consumer (sse_answer (response u))
unfolding sse_answer iter
stream-Released u never_started e = rw e (inr (inl (ground arith, refl), refl))
stream-Released u (takes n) e = rw e (inl (inl (ground arith, tt), ClosesLast-iter u n))

read-Released :
    (u : Upstream) (consumer : Consumer)
    → (u.status_code == 200) ≡ false
    → u.status_code ≢ 200
    → Released (response u) consumer (sse_answer (response u))
unfolding sse_answer
read-Released u consumer e other = rw e (elim (Bool-cases u.readable) [
  | inl r ↦ rw r (
      inl (
        inr (other, refl),
        buffered-ClosesLast (decoded (record u { readable = true }) u.json) consumer,
      ))
  | inr r ↦ rw r (inr (inr (other, (refl, refl)), refl))
])

answer-Released : (o : Outcome) (consumer : Consumer) → Released o consumer (sse_answer o)
answer-Released timeout consumer = unfold sse_answer in refl
answer-Released request_error consumer = unfold sse_answer in refl
answer-Released (response u) consumer = elim (Bool-cases (u.status_code == 200)) [
  | inl e ↦ stream-Released u consumer e
  | inr e ↦ read-Released u consumer e (ground arith)
]

-- A response that `_proxy_sse` receives is closed exactly once, and nothing is done with it
-- afterwards, where it has status 200 and its stream is begun, however many chunks are taken, and
-- where it has another status and its body could be read. It is never closed where a stream is never
-- begun, and where the read of another body fails: then the error of the read is raised. Where no
-- response was received nothing is done.
pub proxy_sse-Released :
    (send : Call → Outcome) (request : Request) (path : String) (consumer : Consumer)
    → Released (send (sse_call request path)) consumer (proxy_sse send request path)
unfolding proxy_sse
proxy_sse-Released send request path consumer =
    answer-Released (send (sse_call request path)) consumer
