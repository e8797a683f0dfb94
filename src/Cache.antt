-- ===== src/Cache.antt =====
-- services/cache.py: the cache layer over Redis. Redis and the JSON form of a model are parameters.
pub mod Pattern
pub mod Laws
pub mod Ends
pub mod Invalidator
use quant_api_gateway.Prelude.{
  ℕ, zero, suc, ◌+◌, ◌-◌, ◌*◌, ◌/◌, ◌%◌, ◌^◌, ◌≤◌, ◌<◌, String, ◌<>◌, ◌≡◌, refl, sym, ap, ◌∙◌,
  fun_ext, ◌≢◌, ◌↔◌, ◌⊎◌, inl, inr, Bool, true, false, not, ◌&&◌, ◌||◌, Option, none, some, List,
  [], ◌∷◌, ◌++◌, map, arith, str_eq, eq_iff, eq_refl, ltb, leb, ◌==◌, if◌then◌else◌, ltb→lt, lt→ltb,
  leb→le, Bool-cases, Option-cases, is_none, Result, ok, err,
}
use quant_api_gateway.Http.{Message}
use quant_api_gateway.Effects.{M, Exception, service, cache_error, pure, raise, ◌>>=◌, ◌>>◌}

-- The Redis server and its client. `none` is an exception of the client, a failed connection
-- included; `scan` takes a cursor and a pattern and returns the next cursor and a page of keys.
pub record Redis : Type 1 where
  pub State : Type 0
  pub get : String → State → Option (Option String) × State
  pub setex : String → ℕ → String → State → Option (Unit {0}) × State
  pub delete : List String → State → Option (Unit {0}) × State
  pub scan : ℕ → String → State → Option (ℕ × List String) × State

-- A Pydantic model type: `model_dump_json` (`none`: it raises), and `json.loads` followed by
-- `model_validate` (`none`: one of them raises).
pub record Model (A : Type 0) : Type 0 where
  pub dump : A → Option String
  pub parse : String → Option A

abbrev pub failed : String → String → Exception
failed template key = service cache_error (record { template = template; args = key ∷ [] })

module _ (R : Redis) where
  -- `except Exception as exc: raise CacheError(…) from exc` around a call of the client.
  abbrev pub attempt : {A : Type 0} → (R.State → Option A × R.State) → Exception → M R.State A
  attempt call e s =
      let (reply, s') = call s in elim reply [ none ↦ (err e, s') | some a ↦ (ok a, s') ]

  abbrev pub parse_raw : {A : Type 0} → Model A → Option String → Option A
  parse_raw model none = none
  parse_raw model (some raw) = model.parse raw

  unfoldable pub get_cached : {A : Type 0} → String → Model A → M R.State (Option A)
  get_cached key model = do
    raw ← attempt (R.get key) (failed "redis GET failed for key {!r}" key)
    pure (parse_raw model raw)

  abbrev store : String → ℕ → Option String → M R.State (Unit {0})
  store key ttl none = raise (failed "failed to serialise model for key {!r}" key)
  store key ttl (some payload) =
      attempt (R.setex key ttl payload) (failed "redis SETEX failed for key {!r}" key)

  unfoldable pub set_cached : {A : Type 0} → String → Model A → A → ℕ → M R.State (Unit {0})
  set_cached key model value ttl = store key ttl (model.dump value)

  pub invalidate_key : String → M R.State (Unit {0})
  invalidate_key key = attempt (R.delete (key ∷ [])) (failed "redis DELETE failed for key {!r}" key)
