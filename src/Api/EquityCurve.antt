-- ===== src/Api/EquityCurve.antt =====
-- The equity-curve endpoints of one strategy, in api/v1/strategies.py and in
-- api/v2/engines/portfolio.py. The pool and the statement of the latest row are parameters.
use quant_api_gateway.Prelude.{
  String, ◌≡◌, refl, ◌↔◌, ◌⊎◌, inl, inr, true, Option, none, some, List, [], ◌∷◌, if◌then◌else◌,
  Result, ok, err,
}
use quant_api_gateway.Effects.{M, Exception, pure, raise, catch, handle, continue, ◌>>=◌, ◌>>◌}
use quant_api_gateway.Numbers.{Numbers}
use quant_api_gateway.Registry.{StrategyConfig, StrategyRegistry, get_registry, by_id}
use quant_api_gateway.Cache.{Redis}
use quant_api_gateway.Aggregator.{EquityPoint}
use quant_api_gateway.Snapshot.{Parsing, Metadata, extract_equity_curve}
use quant_api_gateway.PortfolioService.Curves.{
  DayRow, Connection, points_of, build_equity_curve_from_rows, curve_or_days,
}
use quant_api_gateway.Api.{World, abort, is_inactive, on_db, on_registry, require_active}

module _ (N : Numbers) (J : Parsing N) (point : String → N.Float → Option (EquityPoint N))
    (R : Redis) (DB : Connection N) where
  -- `get_pool` and, on a connection of it, the metadata of the strategy's latest row.
  pub record Latest : Type 0 where
    pub get_pool : M DB.State (Unit {0})
    pub select_latest_single : String → M DB.State (Option (Metadata N))

  module _ (L : Latest) where
    abbrev no_curve : String → Exception
    no_curve strategy_id =
        abort 500 "Failed to query equity curve for strategy {!r}" (strategy_id ∷ [])

    -- `except Exception` around the statement takes every exception.
    abbrev latest_row : String → M (World R DB.State) (Option (Metadata N))
    latest_row strategy_id =
        catch (on_db R DB.State (L.select_latest_single strategy_id))
          (λ exc. some (raise (no_curve strategy_id)))

    abbrev curve_of_row : String → Option (Metadata N) → M (World R DB.State) (List (EquityPoint N))
    curve_of_row strategy_id none = pure []
    curve_of_row strategy_id (some metadata) =
        on_db R DB.State
          (curve_or_days N point DB J strategy_id (extract_equity_curve N J metadata))

    unfoldable pub get_strategy_equity_curve : String → M (World R DB.State) (List (EquityPoint N))
    get_strategy_equity_curve strategy_id = do
      registry ← on_registry R DB.State get_registry
      require_active R DB.State strategy_id (by_id registry strategy_id)
      on_db R DB.State L.get_pool
      row ← latest_row strategy_id
      curve_of_row strategy_id row

    unfoldable pub get_strategy_equity_curve_v2 :
        String → M (World R DB.State) (List (EquityPoint N))
    get_strategy_equity_curve_v2 strategy_id = on_registry R DB.State get_registry >>= λ registry.
        if is_inactive (by_id registry strategy_id)
        then raise (abort 404 "Strategy {!r} not found" (strategy_id ∷ []))
        else on_db R DB.State L.get_pool >> (latest_row strategy_id >>= curve_of_row strategy_id)

    module _ (strategy_id : String) (registry : StrategyRegistry) (s : R.State)
        (e : Exception) where
      points-err_iff :
          (x : Result Exception (List (DayRow N)) × DB.State)
          (f : List (DayRow N) → List (EquityPoint N))
          → ((continue x.0 (λ rows. pure (f rows)) x.1).0 ≡ err e) ↔ (x.0 ≡ err e)
      points-err_iff (ok rows, d) f = (λ h. cc, λ h. cc)
      points-err_iff (err y, d) f = (λ h. cc, λ h. cc)

      row-err_iff :
          (d : DB.State) (metadata : Metadata N) (curve : List (EquityPoint N))
          → extract_equity_curve N J metadata ≡ curve
          → ((curve_or_days N point DB J strategy_id curve d).0 ≡ err e) ↔ (
              (extract_equity_curve N J metadata ≡ []) × ((DB.select_days strategy_id d).0 ≡ err e))
      unfolding build_equity_curve_from_rows
      row-err_iff d metadata [] same =
          let (to, from) = points-err_iff (DB.select_days strategy_id d) (points_of N point DB) in
          (λ h. (same, to h), λ (_, h). from h)
      row-err_iff d metadata (p ∷ curve) same = (λ h. cc, λ (h, _). cc)

      -- How the endpoint raises `e` after the statement of the latest row answered `x`.
      abbrev pub Raises : Result Exception (Option (Metadata N)) × DB.State → Type 0
      Raises x =
          ((y : Exception) × (x.0 ≡ err y) × (e ≡ no_curve strategy_id))
          ⊎ ((metadata : Metadata N) × (x.0 ≡ ok (some metadata))
              × (extract_equity_curve N J metadata ≡ [])
              × ((DB.select_days strategy_id x.1).0 ≡ err e))

      abbrev answered :
          Result Exception (Option (Metadata N)) × DB.State
          → Result Exception (List (EquityPoint N)) × World R DB.State
      answered (r, d) =
          let y =
            handle r (λ exc. some (raise {W = World R DB.State} (no_curve strategy_id)))
              (s, d, some registry) in
          continue y.0 (curve_of_row strategy_id) y.1

      answered-err_iff :
          (x : Result Exception (Option (Metadata N)) × DB.State)
          → ((answered x).0 ≡ err e) ↔ Raises x
      answered-err_iff (err y, d) =
          (λ h. inl (y, refl, cc), λ h. elim h [ inl (z, f, g) ↦ cc | inr (m, f, g, raised) ↦ cc ])
      answered-err_iff (ok none, d) =
          (λ h. cc, λ h. elim h [ inl (z, f, g) ↦ cc | inr (m, f, g, raised) ↦ cc ])
      answered-err_iff (ok (some metadata), d) =
          let (to, from) = row-err_iff d metadata (extract_equity_curve N J metadata) refl in
          (
            λ h. let (gone, raised) = to h in inr (metadata, refl, gone, raised),
            λ h. elim h [
              | inl (z, f, g) ↦ cc
              | inr (m, f, g, raised) ↦ let same : m ≡ metadata = cc in from (cc, raised)
            ],
          )

      -- For an active strategy and a pool that is there, both endpoints are the same, and they raise
      -- an exception exactly in two cases: the statement of the latest row raised, and the exception
      -- is the response with status 500; or the latest row carries no curve, and the exception is
      -- the one that the statement of the strategy's days raised, as it was raised.
      pub get_strategy_equity_curve-err_iff :
          (d : DB.State) (cfg : StrategyConfig)
          → by_id registry strategy_id ≡ some cfg
          → cfg.active ≡ true
          → (L.get_pool d).0 ≡ ok tt
          → (get_strategy_equity_curve_v2 strategy_id (s, d, some registry)
              ≡ get_strategy_equity_curve strategy_id (s, d, some registry))
            × (((get_strategy_equity_curve strategy_id (s, d, some registry)).0 ≡ err e)
                ↔ Raises (L.select_latest_single strategy_id (L.get_pool d).1))
      unfolding get_strategy_equity_curve get_strategy_equity_curve_v2 get_registry
      get_strategy_equity_curve-err_iff d cfg known on there =
          let x = L.select_latest_single strategy_id (L.get_pool d).1 in
          (rw known (rw on refl), rw known (rw on (rw there (answered-err_iff x))))
