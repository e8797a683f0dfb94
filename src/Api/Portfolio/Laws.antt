-- ===== src/Api/Portfolio/Laws.antt =====
-- Ranges of dates and the registry endpoints.
use quant_api_gateway.Prelude.{
  String, ◌≡◌, refl, sym, ap, ◌∙◌, ◌↔◌, inl, inr, true, Option, none, some, List, [], ◌∷◌,
  if◌then◌else◌, Bool-cases, Result, ok, err,
}
use quant_api_gateway.Effects.{
  M, Exception, continue, handle, pure, raise, is_service_error, service, http, postgres, other,
  service,
}
use quant_api_gateway.Registry.{
  StrategyConfig, StrategyRegistry, by_id, get_registry, active_strategies,
}
use quant_api_gateway.Registry.Laws.{Has, DistinctIds, by_id_iff, active_strategies_iff}
use quant_api_gateway.Cache.{Redis}
use quant_api_gateway.Api.{World, abort, is_inactive, is_service_error, raise, http}
use quant_api_gateway.Api.Portfolio.{
  Service, Settings, active_config, get_strategy, list_strategies, get_strategy_performance,
  performance_between, performance_range,
}

module _ (R : Redis) (D : Type 0) (S : Service D) (settings : Settings) where
  config_ok :
      (id : String) (o : Option StrategyConfig) (w : World R D) (cfg : StrategyConfig)
      → ((active_config R D S settings id o w).0 ≡ ok cfg) ↔ ((o ≡ some cfg) × (cfg.active ≡ true))
  config_ok id none w cfg = (λ h. cc, λ (h, _). cc)
  config_ok id (some c) w cfg = elim (Bool-cases c.active) [
    | inl on ↦
        let step : (active_config R D S settings id (some c) w).0 ≡ ok c = rw on refl in
        (λ h. let e : c ≡ cfg = cc in (ap some e, ap (λ x. x.active) (sym e) ∙ on), λ (h, _). cc)
    | inr off ↦
        let step : (active_config R D S settings id (some c) w).0
            ≡ err (abort 404 "Strategy {!r} not found" (id ∷ [])) =
          rw off refl in
        (λ h. cc, λ (h, on). let e : c ≡ cfg = cc in cc (ap (λ x. x.active) e))
  ]

  -- In a loaded registry with distinct ids, the endpoint of one strategy answers exactly with the
  -- entry of that id among the active strategies that the list endpoint answers with.
  pub get_strategy-listed :
      (id : String) (cfg : StrategyConfig) (registry : StrategyRegistry) (s : R.State) (d : D)
      → DistinctIds registry.strategies
      → ((get_strategy R D S settings id (s, d, some registry)).0 ≡ ok cfg) ↔ (
          ((listed : List StrategyConfig) × ((list_strategies R D S settings
                (s, d, some registry)).0
              ≡ ok listed)
            × Has cfg listed)
          × (cfg.id ≡ id))
  unfolding get_strategy list_strategies get_registry
  get_strategy-listed id cfg registry s d distinct =
      let w : World R D = (s, d, some registry) in
      let (found, served) = config_ok id (by_id registry id) w cfg in
      let (has, finds) = by_id_iff registry id cfg distinct in
      let (split, join) = active_strategies_iff registry cfg in
      (
        λ h.
            let (e, on) = found h in
            let (there, same) = has e in
            ((active_strategies registry, refl, join (there, on)), same),
        λ ((listed, e, there), same).
            let same_list : active_strategies registry ≡ listed = cc in
            let (known, on) = split (rw same_list there) in served (finds (known, same), on),
      )

  then_keeps :
      {A B : Type 0} (r : Result Exception A) (f : A → M (World R D) B) (w : World R D)
      → ((a : A) → (f a w).1.0 ≡ w.0)
      → (continue r f w).1.0 ≡ w.0
  then_keeps (ok a) f w h = h a
  then_keeps (err e) f w h = refl

  performance_range-keeps :
      (id from_date to_date : String) (w : World R D)
      → (performance_range R D S settings id from_date to_date w).1.0 ≡ w.0
  performance_range-keeps id from_date to_date (s, d, g) =
      handled (S.compute_strategy_performance_range id from_date to_date d).0
        (s, (S.compute_strategy_performance_range id from_date to_date d).1, g)
    where
      handled :
          (r : Result Exception (List S.StrategyPerformanceResponse)) (w : World R D)
          → (handle r
              (λ e.
                if is_service_error e
                then some (
                    raise
                      (abort 500 "Failed to compute performance range for strategy {!r}" (id ∷ [])))
                else none)
              w).1.0
            ≡ w.0
      handled (ok rows) w = refl
      handled (err (service kind message)) w = refl
      handled (err (http e)) w = refl
      handled (err postgres) w = refl
      handled (err other) w = refl

  between-keeps :
      (id from_date to_date : String) (w : World R D)
      → (performance_between R D S settings id (some from_date) (some to_date) w).1.0 ≡ w.0
  between-keeps id from_date to_date (s, d, g) =
      let w : World R D = (s, (S.get_pool d).1, g) in
      let read = performance_range R D S settings id from_date to_date in
      then_keeps (S.get_pool d).0 _ w (λ _.
        then_keeps (read w).0 (λ rows. pure (inr rows)) (read w).1 (λ _. refl)
        ∙ performance_range-keeps id from_date to_date w)

  -- A request for a range of dates neither reads nor writes the cache, whether it succeeds or raises.
  pub range-uncached :
      (id from_date to_date : String) (w : World R D)
      → (get_strategy_performance R D S settings id (some from_date) (some to_date) w).1.0 ≡ w.0
  unfolding get_strategy_performance get_registry
  range-uncached id from_date to_date (s, d, none) = refl
  range-uncached id from_date to_date (s, d, some registry) =
      elim (Bool-cases (is_inactive (by_id registry id))) [
        | inl e ↦ rw e refl
        | inr e ↦ rw e (between-keeps id from_date to_date (s, d, some registry))
      ]
