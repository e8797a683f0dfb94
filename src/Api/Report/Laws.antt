-- ===== src/Api/Report/Laws.antt =====
-- When the report endpoint answers, and with what.
use quant_api_gateway.Prelude.{
  ℕ, String, ◌≡◌, refl, sym, ◌∙◌, ◌↔◌, inl, inr, true, Option, none, some, Bool-cases, ok,
}
use quant_api_gateway.Effects.{M, ◌>>◌}
use quant_api_gateway.Registry.{StrategyRegistry, StrategyConfig, Global, get_registry, by_id}
use quant_api_gateway.Cache.{Redis}
use quant_api_gateway.Cache.Laws.{IsLawful}
use quant_api_gateway.Api.{World, require_active, ensure_active, cache_aside}
use quant_api_gateway.Api.Laws.{Served, cache_aside-Served, get_cached-got}
use quant_api_gateway.Api.Report.{
  Service, Python, Settings, report_key, trades_key, load_report, load_trades, get_strategy_report,
  list_strategy_trades,
}

-- The registry is loaded and has an active entry of this id.
abbrev pub Active : String → Global → Type 0
Active id g =
    (registry : StrategyRegistry) × (cfg : StrategyConfig) × (g ≡ some registry)
    × (by_id registry id ≡ some cfg)
    × (cfg.active ≡ true)

module _ (R : Redis) (D : Type 0) where
  module _ {A : Type 0} (m : M (World R D) A) (id : String) (a : A) where
    required :
        (registry : StrategyRegistry) (o : Option StrategyConfig) (w : World R D)
        → by_id registry id ≡ o
        → (((require_active R D id o >> m) w).0 ≡ ok a) ↔ (
            ((cfg : StrategyConfig) × (by_id registry id ≡ some cfg) × (cfg.active ≡ true))
            × ((m w).0 ≡ ok a))
    required registry none w e = (λ h. cc, λ h. cc)
    required registry (some cfg) w e = elim (Bool-cases cfg.active) [
      | inl on ↦
          let step : ((require_active R D id (some cfg) >> m) w).0 ≡ (m w).0 = rw on refl in
          (λ h. ((cfg, e, on), sym step ∙ h), λ (_, h). step ∙ h)
      | inr off ↦ (λ h. cc, λ h. cc)
    ]

    Active-then :
        (w : World R D)
        → (((ensure_active R D id >> m) w).0 ≡ ok a) ↔ (Active id w.2 × ((m w).0 ≡ ok a))
    unfolding ensure_active get_registry
    Active-then (s, d, none) = (λ h. cc, λ ((registry, cfg, e, _, _), _). cc)
    Active-then (s, d, some registry) =
        let (to, from) = required registry (by_id registry id) (s, d, some registry) refl in
        (
          λ h. let ((cfg, e, on), served) = to h in ((registry, cfg, refl, e, on), served),
          λ ((r, cfg, e, f, on), served). from ((cfg, cc, on), served),
        )

module _ (R : Redis) (D : Type 0) (S : Service D) (py : Python) (settings : Settings) where
  both : {A B B' : Type 0} → (B ↔ (A × B')) → {C : Type 0} → (B' ↔ C) → B ↔ (A × C)
  both (f, g) (f', g') = (λ b. ((f b).0, f' (f b).1), λ (a, c). g (a, g' c))

  -- The report endpoint answers with a report exactly when the strategy is registered and active
  -- and the report is the one in the cache, or there is none in the cache and the database gave it
  -- (storing it in the cache may fail).
  pub get_strategy_report_iff :
      (id : String) (target_date : Option String) (w : World R D)
      (report : S.StrategyReportResponse)
      → ((get_strategy_report R D S py settings id target_date w).0 ≡ ok report) ↔ (
          Active id w.2
          × Served R D
              (report_key R D S py settings id target_date)
              S.report_model
              settings.strategy_report_ttl_seconds
              (load_report R D S py settings id target_date)
              w
              report)
  unfolding get_strategy_report
  get_strategy_report_iff id target_date w report =
      let key = report_key R D S py settings id target_date in
      let load = load_report R D S py settings id target_date in
      let ttl = settings.strategy_report_ttl_seconds in
      both (Active-then R D (cache_aside R D key S.report_model ttl load) id report w)
        (cache_aside-Served R D key S.report_model ttl load w report)

  -- The trades endpoint likewise, for a page of trades under the key of its four parameters.
  list_strategy_trades_iff :
      (id : String) (from_date to_date : Option String) (limit offset : ℕ) (w : World R D)
      (page : S.TradeLogPage)
      → ((list_strategy_trades R D S py settings id from_date to_date limit offset w).0 ≡ ok page)
        ↔ (Active id w.2
            × Served R D
                (trades_key R D S py settings id from_date to_date limit offset)
                S.page_model
                settings.trade_log_ttl_seconds
                (load_trades R D S py settings id from_date to_date limit offset)
                w
                page)
  unfolding list_strategy_trades
  list_strategy_trades_iff id from_date to_date limit offset w page =
      let key = trades_key R D S py settings id from_date to_date limit offset in
      let load = load_trades R D S py settings id from_date to_date limit offset in
      let ttl = settings.trade_log_ttl_seconds in
      both (Active-then R D (cache_aside R D key S.page_model ttl load) id page w)
        (cache_aside-Served R D key S.page_model ttl load w page)

  loaded :
      (id : String) (s : R.State) (d : D) (g : Global) (report : S.StrategyReportResponse)
      → (S.get_pool d).0 ≡ ok tt
      → (S.get_latest_report id (S.get_pool d).1).0 ≡ ok report
      → (load_report R D S py settings id none (s, d, g)).0 ≡ ok report
  loaded id s d g report there read = rw (there, read) refl

  -- With nothing in the cache under its key, the endpoint answers the latest report that the database
  -- gives.
  pub get_strategy_report-missed :
      (redis : IsLawful R) (id : String) (s : R.State) (d : D) (registry : StrategyRegistry)
      (cfg : StrategyConfig) (v : Option String) (report : S.StrategyReportResponse)
      → let key = report_key R D S py settings id none in
        by_id registry id ≡ some cfg
        → cfg.active ≡ true
        → (R.get key s).0 ≡ some v
        → redis.lookup s key ≡ none
        → (S.get_pool d).0 ≡ ok tt
        → (S.get_latest_report id (S.get_pool d).1).0 ≡ ok report
        → (get_strategy_report R D S py settings id none (s, d, some registry)).0 ≡ ok report
  get_strategy_report-missed redis id s d registry cfg v report known on got missing there read =
      let key = report_key R D S py settings id none in
      let ttl = settings.strategy_report_ttl_seconds in
      let miss : v ≡ none = redis.get_value key s v got ∙ missing in
      (get_strategy_report_iff id none (s, d, some registry) report).1 (
        (registry, cfg, refl, known, on),
        inr (
          get_cached-got R D key S.report_model ttl s v got ∙ rw miss refl,
          loaded id _ d (some registry) report there read,
        ),
      )
