-- ===== src/Api/Admin.antt =====
-- api/v1/admin.py: the flush of the cache, behind the API key. The fuel is that of the SCAN loop.
use quant_api_gateway.Prelude.{
  ℕ, ◌<◌, String, ◌≡◌, refl, ap, ◌≢◌, ◌⊎◌, inl, inr, true, false, Option, none, some, [],
  if◌then◌else◌, Result, ok, err,
}
use quant_api_gateway.Effects.{Exception, is_cache_error}
use quant_api_gateway.Cache.{Redis}
use quant_api_gateway.Cache.Pattern.{Pass}
use quant_api_gateway.Cache.Laws.{IsLawful}
use quant_api_gateway.Cache.Ends.{ScanEnds, Flushes}
use quant_api_gateway.Cache.Invalidator.{gateway_cache_pattern, flush_all}
use quant_api_gateway.Cache.Invalidator.Laws.{flush_all-Flushes}
use quant_api_gateway.Api.{abort}
use quant_api_gateway.Api.Key.{
  CompareDigest, verify_api_key, forbidden, is_ascii, key_or_empty, verify_api_key_iff,
}

pub record Flushed : Type 0 where
  pub status : String
  pub keys_deleted : ℕ

module _ (R : Redis) where
  -- A step that may run out of fuel.
  abbrev flush_answer : Result Exception ℕ → Result Exception Flushed
  flush_answer (ok count) = ok (record { status = "flushed"; keys_deleted = count })
  flush_answer (err e) = if is_cache_error e then err (abort 500 "cache flush failed" []) else err e

  abbrev flushed : Pass R gateway_cache_pattern → Option (Result Exception Flushed × R.State)
  flushed none = none
  flushed (some (r, s)) = some (flush_answer r, s)

  unfoldable pub flush_cache : ℕ → R.State → Option (Result Exception Flushed × R.State)
  flush_cache fuel s = flushed (flush_all R fuel s)

  abbrev pub after_key :
      ℕ → Result Exception (Unit {0}) × R.State → Option (Result Exception Flushed × R.State)
  after_key fuel (ok _, s) = flush_cache fuel s
  after_key fuel (err e, s) = some (err e, s)

  -- The route, with the dependency of its router.
  unfoldable pub flush_route :
      CompareDigest
      → String
      → Option String
      → ℕ
      → R.State
      → Option (Result Exception Flushed × R.State)
  flush_route secrets expected key fuel s = after_key fuel (verify_api_key secrets expected key s)

  module _ (law : IsLawful R) (ends : ScanEnds R) where
    open law use {lookup, matches}

    -- How the flush of a cache ends: it says so and the keys of the pattern are gone, or it answers
    -- 500; the keys outside the pattern are as they were.
    abbrev pub Emptied : R.State → Option (Result Exception Flushed × R.State) → Type 0
    Emptied s none = ⊥
    Emptied s (some (ok answer, t)) =
        (answer.status ≡ "flushed")
        × ((j : String)
            → lookup t j ≡ (if matches gateway_cache_pattern j then none else lookup s j))
    Emptied s (some (err e, t)) =
        (e ≡ abort 500 "cache flush failed" [])
        × ((j : String) → matches gateway_cache_pattern j ≡ false → lookup t j ≡ lookup s j)

    flushed-Emptied :
        (s : R.State) (r : Pass R gateway_cache_pattern)
        → Flushes R law ends gateway_cache_pattern s r
        → Emptied s (flushed r)
    flushed-Emptied s none f = f
    flushed-Emptied s (some (ok n, t)) f = (refl, f)
    flushed-Emptied s (some (err e, t)) (raised, f) = rw raised (refl, f)

    -- With an expected key and a presented key of ASCII characters, a lawful Redis and fuel above the
    -- rank of cursor 0, the route ends as follows. For a request that presents the key it answers that
    -- the cache is flushed, and then no key of the pattern gateway:* is left, or it answers 500, and
    -- then some of them may be; in both cases every other key of the cache is as it was. For any
    -- other request it answers 403 with the cache as it was.
    pub flush_route-guarded :
        (secrets : CompareDigest) (expected : String) (key : Option String) (fuel : ℕ) (s : R.State)
        → is_ascii expected ≡ true
        → is_ascii (key_or_empty key) ≡ true
        → ends.rank 0 < fuel
        → let o = flush_route secrets expected key fuel s in
          ((key_or_empty key ≡ expected) × Emptied s o)
          ⊎ ((key_or_empty key ≢ expected) × (o ≡ some (err forbidden, s)))
    unfolding flush_route flush_cache
    flush_route-guarded secrets expected key fuel s ascii presented enough =
        let ((to, from), ended) = verify_api_key_iff secrets expected key s ascii presented in
        elim ended [
          | inl e ↦ inl (
            to (ap (λ x. x.0) e),
            rw e (
                flushed-Emptied s (flush_all R fuel s)
                  (flush_all-Flushes R law ends fuel s enough)),
          )
          | inr e ↦ inr (λ same. let k = from same in cc, rw e refl)
        ]
