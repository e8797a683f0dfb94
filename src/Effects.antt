-- ===== src/Effects.antt =====
-- Exceptions, and calls that may raise and change the state of the world. What was changed before a
-- raise stays changed, so the state comes back beside the exception too.
pub mod Laws
use quant_api_gateway.Prelude.{Bool, true, false, Option, none, some, Result, ok, err}
use quant_api_gateway.Http.{HttpException, Message}

-- The classes of services/errors.py. Each is a `ServiceError`.
pub data ServiceKind : Type 0 where
  service_error registry_load_error unknown_strategy_error ingestion_persist_error : ServiceKind
  aggregation_error cache_error report_not_found_error : ServiceKind

-- What a call may raise: a service error, an `HTTPException`, an `asyncpg.PostgresError`, or any
-- other exception.
pub data Exception : Type 0 where
  service : ServiceKind → Message → Exception
  http : HttpException → Exception
  postgres other : Exception

-- `except CacheError`, `except ServiceError` and `except IngestionPersistError`.
abbrev pub is_cache_error : Exception → Bool
is_cache_error (service cache_error _) = true
is_cache_error _ = false

abbrev pub is_service_error : Exception → Bool
is_service_error (service _ _) = true
is_service_error _ = false

abbrev pub is_persist_error : Exception → Bool
is_persist_error (service ingestion_persist_error _) = true
is_persist_error _ = false

abbrev pub is_not_found_error : Exception → Bool
is_not_found_error (service report_not_found_error _) = true
is_not_found_error _ = false

abbrev pub is_postgres_error : Exception → Bool
is_postgres_error postgres = true
is_postgres_error _ = false

abbrev pub M : Type 0 → Type 0 → Type 0
M W A = W → Result Exception A × W

module _ {W A : Type 0} where
  abbrev pub pure : A → M W A
  pure a w = (ok a, w)

  abbrev pub raise : Exception → M W A
  raise e w = (err e, w)

  abbrev pub lift : Result Exception A → M W A
  lift r w = (r, w)

  -- `try: m` with `except` clauses: `handler` says which exceptions they take, and what they do.
  abbrev pub handle : Result Exception A → (Exception → Option (M W A)) → M W A
  handle (ok a) handler w = (ok a, w)
  handle (err e) handler w = elim (handler e) [ none ↦ (err e, w) | some k ↦ k w ]

  abbrev pub catch : M W A → (Exception → Option (M W A)) → M W A
  catch m handler w = let (r, w') = m w in handle r handler w'

module _ {W A B : Type 0} where
  abbrev pub continue : Result Exception A → (A → M W B) → M W B
  continue (ok a) f w = f a w
  continue (err e) f w = (err e, w)

  infixl 5 ◌>>=◌ ◌>>◌
  abbrev pub ◌>>=◌ : M W A → (A → M W B) → M W B
  ◌>>=◌ m f w = let (r, w') = m w in continue r f w'

  abbrev pub ◌>>◌ : M W A → M W B → M W B
  m >> k = m >>= λ _. k
