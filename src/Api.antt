-- ===== src/Api.antt =====
-- What the handlers of api/v1 and api/v2 share: the world they run in, the guards, and cache-aside
-- over the service layer, which they take as an interface.
pub mod Laws
pub mod Backtest
pub mod Portfolio
pub mod Engine
pub mod EquityCurve
pub mod Report
pub mod Key
pub mod Admin
pub mod Ingest
use quant_api_gateway.Prelude.{
  ℕ, zero, suc, ◌+◌, ◌-◌, ◌*◌, ◌/◌, ◌%◌, ◌^◌, ◌≤◌, ◌<◌, String, ◌<>◌, ◌≡◌, refl, sym, ap, ◌∙◌,
  fun_ext, ◌≢◌, ◌↔◌, ◌⊎◌, inl, inr, Bool, true, false, not, ◌&&◌, ◌||◌, Option, none, some, List,
  [], ◌∷◌, ◌++◌, map, arith, str_eq, eq_iff, eq_refl, ltb, leb, ◌==◌, if◌then◌else◌, ltb→lt, lt→ltb,
  leb→le, Bool-cases, Option-cases, is_none, one_of, length, Result, ok, err,
}
use quant_api_gateway.Http.{Message, HttpException, plain}
use quant_api_gateway.Effects.{
  M, Exception, http, is_cache_error, is_service_error, is_not_found_error, pure, raise, catch,
  ◌>>=◌, ◌>>◌,
}
use quant_api_gateway.Registry.{StrategyConfig, Global, get_registry, by_id}
use quant_api_gateway.Cache.{Redis, Model, get_cached, set_cached}

-- `raise HTTPException(status_code=…, detail=…)`
abbrev pub abort : ℕ → String → List String → Exception
abort status template args =
    http (record { status_code = status; detail = record { template = template; args = args } })

-- `cfg is None or not cfg.active`
abbrev pub is_inactive : Option StrategyConfig → Bool
is_inactive none = true
is_inactive (some cfg) = not cfg.active

-- `D` is the state of the databases.
module _ (R : Redis) (D : Type 0) where
  abbrev pub World : Type 0
  World = R.State × D × Global

  abbrev pub on_cache : {A : Type 0} → M R.State A → M World A
  on_cache m (s, d, g) = let (r, s') = m s in (r, (s', d, g))

  abbrev pub on_db : {A : Type 0} → M D A → M World A
  on_db m (s, d, g) = let (r, d') = m d in (r, (s, d', g))

  abbrev pub on_registry : {A : Type 0} → M Global A → M World A
  on_registry m (s, d, g) = let (r, g') = m g in (r, (s, d, g'))

  abbrev pub require_active : String → Option StrategyConfig → M World (Unit {0})
  require_active strategy_id cfg =
      if is_inactive cfg
      then raise (abort 404 "Strategy {!r} not found" (strategy_id ∷ []))
      else pure tt

  pub ensure_active : String → M World (Unit {0})
  ensure_active strategy_id = do
    registry ← on_registry get_registry
    require_active strategy_id (by_id registry strategy_id)

  -- `except ServiceError` around a read: a response with status 500.
  abbrev pub or_500 : {A : Type 0} → String → List String → M World A → M World A
  or_500 template args m =
      catch m (λ e. if is_service_error e then some (raise (abort 500 template args)) else none)

  -- `except StrategyReportNotFoundError` before it: status 404 with the text of the exception.
  abbrev pub or_404 : {A : Type 0} → (Exception → Message) → M World A → M World A
  or_404 str m = catch m (λ e.
      if is_not_found_error e
      then some (raise (http (record { status_code = 404; detail = str e })))
      else none)

  -- `if result is None: raise HTTPException(404)`
  abbrev pub found : {A : Type 0} → String → List String → Option A → M World A
  found template args none = raise (abort 404 template args)
  found template args (some a) = pure a

  module _ {A : Type 0} (key : String) (model : Model A) (ttl : ℕ) where
    -- `try: await set_cached(…) except CacheError: logger.warning(…)`, then the result.
    unfoldable pub remember : A → M World A
    remember value = do
      catch (on_cache (set_cached R key model value ttl))
          (λ e. if is_cache_error e then some (pure tt) else none)
      pure value

    abbrev pub or_compute : M World A → Option A → M World A
    or_compute compute (some cached) = pure cached
    or_compute compute none = compute >>= remember

    unfoldable pub cache_aside : M World A → M World A
    cache_aside compute = on_cache (get_cached R key model) >>= or_compute compute
