-- ===== src/Cache/Invalidator.antt =====
-- services/cache_invalidator.py: the keys and patterns of the cache, and who deletes them. The fuel
-- is that of the SCAN loop.
pub mod Laws
use quant_api_gateway.Prelude.{
  ℕ, zero, suc, ◌+◌, ◌-◌, ◌*◌, ◌/◌, ◌%◌, ◌^◌, ◌≤◌, ◌<◌, String, ◌<>◌, ◌≡◌, refl, sym, ap, ◌∙◌,
  fun_ext, ◌≢◌, ◌↔◌, ◌⊎◌, inl, inr, Bool, true, false, not, ◌&&◌, ◌||◌, Option, none, some, List,
  [], ◌∷◌, ◌++◌, map, arith, str_eq, eq_iff, eq_refl, ltb, leb, ◌==◌, if◌then◌else◌, ltb→lt, lt→ltb,
  leb→le, Bool-cases, Option-cases, is_none, one_of, length, Result, ok, err,
}
use quant_api_gateway.Effects.{M, pure, catch, Exception}
use quant_api_gateway.Cache.{Redis, invalidate_key}
use quant_api_gateway.Cache.Pattern.{Pass, invalidate_pattern}

abbrev pub overall_performance_key : String
overall_performance_key = "overall_performance"

abbrev pub strategy_performance_key : String → String
strategy_performance_key strategy_id = "strategy:" <> strategy_id <> ":performance"

abbrev pub gateway_cache_pattern : String
gateway_cache_pattern = "gateway:*"

abbrev pub strategy_report_pattern : String → String
strategy_report_pattern strategy_id = "gateway:strategy:" <> strategy_id <> ":report:*"

abbrev pub strategy_trades_pattern : String → String
strategy_trades_pattern strategy_id = "gateway:strategy:" <> strategy_id <> ":trades:*"

abbrev pub strategy_benchmark_pattern : String → String
strategy_benchmark_pattern strategy_id = "gateway:strategy:" <> strategy_id <> ":benchmark:*"

-- `try: … except Exception: logger.exception(…)`.
abbrev best_effort : {W : Type 0} → M W (Unit {0}) → M W (Unit {0})
best_effort m = catch m (λ e. some (pure tt))

module _ (R : Redis) where
  pub invalidate_overall_cache : M R.State (Unit {0})
  invalidate_overall_cache = best_effort (invalidate_key R overall_performance_key)

  pub invalidate_strategy_cache : String → M R.State (Unit {0})
  invalidate_strategy_cache strategy_id =
      best_effort (invalidate_key R (strategy_performance_key strategy_id))

  -- The state after a pass whose exceptions are logged and dropped.
  abbrev pub settled : Option (Result Exception ℕ × R.State) → Option R.State
  settled none = none
  settled (some (_, s)) = some s

  invalidate_strategy_report_keys : ℕ → String → R.State → Option R.State
  invalidate_strategy_report_keys fuel strategy_id s =
      settled (invalidate_pattern R (strategy_report_pattern strategy_id) fuel s)

  invalidate_strategy_trade_keys : ℕ → String → R.State → Option R.State
  invalidate_strategy_trade_keys fuel strategy_id s =
      settled (invalidate_pattern R (strategy_trades_pattern strategy_id) fuel s)

  invalidate_strategy_benchmark_keys : ℕ → String → R.State → Option R.State
  invalidate_strategy_benchmark_keys fuel strategy_id s =
      settled (invalidate_pattern R (strategy_benchmark_pattern strategy_id) fuel s)

  abbrev and_then : Option R.State → (R.State → Option R.State) → Option R.State
  and_then none k = none
  and_then (some s) k = k s

  pub invalidate_strategy_report_bundle : ℕ → String → R.State → Option R.State
  unfolding invalidate_strategy_report_keys invalidate_strategy_trade_keys
      invalidate_strategy_benchmark_keys
  invalidate_strategy_report_bundle fuel strategy_id s =
      and_then (invalidate_strategy_report_keys fuel strategy_id s) (λ t.
        and_then (invalidate_strategy_trade_keys fuel strategy_id t)
          (invalidate_strategy_benchmark_keys fuel strategy_id))

  pub flush_all : ℕ → R.State → Pass R gateway_cache_pattern
  flush_all fuel s = invalidate_pattern R gateway_cache_pattern fuel s
