-- ===== src/Api/Backtest.antt =====
-- api/v2/engines/backtest.py: the second version's endpoints of one strategy's report, beside those of
-- the first.
use quant_api_gateway.Prelude.{
  ℕ, String, ◌<>◌, ◌≡◌, refl, Bool, Option, none, some, List, [], ◌∷◌, if◌then◌else◌,
}
use quant_api_gateway.Effects.{
  M, pure, raise, catch, is_service_error, is_not_found_error, http, ◌>>=◌, ◌>>◌,
}
use quant_api_gateway.Registry.{get_registry, by_id}
use quant_api_gateway.Cache.{Redis}
use quant_api_gateway.Api.{
  World, abort, is_inactive, on_db, on_registry, cache_aside, ensure_active,
}
use quant_api_gateway.Api.Report.{
  Service, Python, Settings, joined, date_or_latest, get_strategy_report, list_strategy_trades,
  get_strategy_benchmark_curve,
}

module _ (R : Redis) (D : Type 0) (S : Service D) (py : Python) (settings : Settings) where
  abbrev refuse_inactive : String → M (World R D) (Unit {0})
  refuse_inactive strategy_id = do
    registry ← on_registry R D get_registry
    let cfg = by_id registry strategy_id
    if is_inactive cfg
        then raise (abort 404 "Strategy {!r} not found" (strategy_id ∷ []))
        else pure tt

  pub get_strategy_report_v2 : String → Option String → M (World R D) S.StrategyReportResponse
  get_strategy_report_v2 strategy_id target_date = do
    refuse_inactive strategy_id
    let key = "gateway:strategy:" <> strategy_id <> ":report:" <> date_or_latest target_date
    cache_aside R D key S.report_model settings.strategy_report_ttl_seconds (
        on_db R D S.get_pool
        >> catch
            (catch
              (on_db R D (elim target_date [
                | none ↦ S.get_latest_report strategy_id
                | some date ↦ S.get_report_for_date strategy_id date
              ]))
              (λ exc.
                if is_not_found_error exc
                then some (raise (http (record { status_code = 404; detail = S.str exc })))
                else none))
            (λ exc.
              if is_service_error exc
              then some (raise (abort 500 "failed to load report for {!r}" (strategy_id ∷ [])))
              else none))

  pub list_strategy_trades_v2 :
      String → Option String → Option String → ℕ → ℕ → M (World R D) S.TradeLogPage
  list_strategy_trades_v2 strategy_id from_date to_date limit offset = do
    refuse_inactive strategy_id
    let key_hash = py.digest (
        joined (
          ("from_date", py.repr_date from_date)
          ∷ ("limit", py.repr_nat limit)
          ∷ ("offset", py.repr_nat offset)
          ∷ ("to_date", py.repr_date to_date)
          ∷ []))
    cache_aside R D ("gateway:strategy:" <> strategy_id <> ":trades:" <> key_hash) S.page_model
        settings.trade_log_ttl_seconds
        (on_db R D S.get_csm_set_pool
          >> catch (on_db R D (S.list_trades strategy_id from_date to_date limit offset)) (λ exc.
            if is_service_error exc
            then some (raise (abort 500 "failed to load trade log for {!r}" (strategy_id ∷ [])))
            else none))

  pub get_strategy_benchmark_curve_v2 :
      String → Option String → Option String → Bool → M (World R D) (List S.BenchmarkPoint)
  get_strategy_benchmark_curve_v2 strategy_id from_date to_date normalize = do
    refuse_inactive strategy_id
    let key_hash = py.digest (
        joined (
          ("from_date", py.repr_date from_date)
          ∷ ("normalize", py.repr_bool normalize)
          ∷ ("to_date", py.repr_date to_date)
          ∷ []))
    cache_aside R D ("gateway:strategy:" <> strategy_id <> ":benchmark:" <> key_hash) S.curve_model
        settings.benchmark_curve_ttl_seconds
        (on_db R D S.get_csm_set_pool
          >> catch (on_db R D (S.get_benchmark_curve strategy_id from_date to_date normalize))
              (λ exc.
                if is_service_error exc
                then some
                    (raise (abort 500 "failed to load benchmark curve for {!r}" (strategy_id ∷ [])))
                else none))

  -- The report endpoint of version 2 answers and acts as that of version 1, latest or for a date.
  report_v2 :
      (id : String) (target_date : Option String) (w : World R D)
      → get_strategy_report_v2 id target_date w
        ≡ get_strategy_report R D S py settings id target_date w
  unfolding get_strategy_report_v2 get_strategy_report ensure_active
  report_v2 id none w = refl
  report_v2 id (some date) w = refl

  -- The trades and benchmark-curve endpoints of version 2 answer and act as those of version 1.
  trades_v2 :
      (id : String) (from_date to_date : Option String) (limit offset : ℕ) (normalize : Bool)
      (w : World R D)
      → (list_strategy_trades_v2 id from_date to_date limit offset w
          ≡ list_strategy_trades R D S py settings id from_date to_date limit offset w)
        × (get_strategy_benchmark_curve_v2 id from_date to_date normalize w
            ≡ get_strategy_benchmark_curve R D S py settings id from_date to_date normalize w)
  unfolding list_strategy_trades_v2 list_strategy_trades get_strategy_benchmark_curve_v2
      get_strategy_benchmark_curve ensure_active
  trades_v2 id from_date to_date limit offset normalize w = (refl, refl)

  -- The three endpoints of version 2 answer and act as those of version 1, on a report latest or for
  -- a date.
  pub backtest_v2 :
      (id : String) (target_date from_date to_date : Option String) (limit offset : ℕ)
      (normalize : Bool) (w : World R D)
      → (get_strategy_report_v2 id target_date w
          ≡ get_strategy_report R D S py settings id target_date w)
        × (list_strategy_trades_v2 id from_date to_date limit offset w
            ≡ list_strategy_trades R D S py settings id from_date to_date limit offset w)
        × (get_strategy_benchmark_curve_v2 id from_date to_date normalize w
            ≡ get_strategy_benchmark_curve R D S py settings id from_date to_date normalize w)
  backtest_v2 id target_date from_date to_date limit offset normalize w =
      let (trades, benchmark) = trades_v2 id from_date to_date limit offset normalize w in
      (report_v2 id target_date w, trades, benchmark)
