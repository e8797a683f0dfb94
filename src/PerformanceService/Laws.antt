-- ===== src/PerformanceService/Laws.antt =====
-- The two services that read the latest rows agree on the curves.
use quant_api_gateway.Prelude.{
  String, ◌≡◌, refl, sym, ap, ◌∙◌, true, Option, List, [], ◌∷◌, map, Result, ok, err,
}
use quant_api_gateway.Effects.{M, Exception, lift, pure, continue, is_postgres_error, ◌>>=◌}
use quant_api_gateway.Effects.Laws.{handle-instead, continue-both}
use quant_api_gateway.Numbers.{Numbers}
use quant_api_gateway.Registry.{StrategyConfig, StrategyRegistry, active_strategies}
use quant_api_gateway.Aggregator.Drawdown.{combined_drawdown-merged}
use quant_api_gateway.Aggregator.{Dict, EquityPoint, Pandas, drawdown_of, drawdown_if_merged}
use quant_api_gateway.Snapshot.{Parsing, extract_equity_curve}
use quant_api_gateway.StrategyReports.Dates.{Datetime}
use quant_api_gateway.PortfolioService.Curves.{
  Connection, CurveRow, gather, curve_or_days, put_if_any, compute_portfolio_equity_curve,
  curve_of_active, ids_of, merged, weights_from, reading,
}
use quant_api_gateway.PerformanceService.{
  Row, StrategyPerformanceResponse, OverallPerformanceResponse, Decimals, Pool,
  row_to_strategy_performance, connection, latest_curves, curve_row, Gathered, with_response,
  gather_performance, read_active, failing, respond, drawdown_if_any, compute_overall_performance,
}

module _ (N : Numbers) (J : Parsing N) (D : Decimals N)
    (point : String → N.Float → Option (EquityPoint N)) (DB : Pool N) where
  -- A validated response keeps the id, and the overall one its drawdown.
  pub record Validates : Type 0 where
    pub keeps_id :
        (x y : StrategyPerformanceResponse N) → D.validate x ≡ ok y → y.strategy_id ≡ x.strategy_id
    pub keeps_drawdown :
        (x y : OverallPerformanceResponse N)
        → D.validate_overall x ≡ ok y
        → y.combined_max_drawdown ≡ x.combined_max_drawdown

  module _ (law : Validates) where
    lifted :
        {A : Type 0} (r : Result Exception A) (s t : DB.State) (a : A)
        → lift r s ≡ (ok a, t)
        → (r ≡ ok a) × (s ≡ t)
    lifted r s t a h = (ap (λ x. x.0) h, ap (λ x. x.1) h)

    row-kept :
        (row : Row N) (s t : DB.State) (sp : StrategyPerformanceResponse N)
        → row_to_strategy_performance N J D row s ≡ (ok sp, t)
        → (sp.strategy_id ≡ row.strategy_id) × (s ≡ t)
    unfolding row_to_strategy_performance
    row-kept row s t sp h =
        let (value, _, h1) =
          continue-both (lift (D.quantize4 (D.of_float row.total_value)) s) _ sp t h in
        let (drawdown, _, h2) =
          continue-both (lift (D.quantize4 (D.of_float row.max_drawdown)) s) _ sp t h1 in
        let (sharpe, _, h3) =
          continue-both (lift (D.quantize4 (D.of_float row.sharpe_ratio)) s) _ sp t h2 in
        let (valid, same) = lifted _ s t sp h3 in (law.keeps_id _ sp valid, same)

    abbrev Curves : Type 0
    Curves = Dict (List (EquityPoint N))

    abbrev link : Connection N
    link = connection N J D point DB (latest_curves N J D point DB)

    with_response-curves :
        (sp : StrategyPerformanceResponse N) (g : Gathered N J D point DB) (w t : DB.State)
        (found : List (StrategyPerformanceResponse N)) (all : Curves)
        → with_response N J D point DB sp g w ≡ (ok (found, all), t)
        → (g.1 ≡ all) × (w ≡ t)
    with_response-curves sp (strategies, curves) w t found all h = (cc, cc)

    gather-same :
        (rows : List (Row N)) (curves : Curves) (s t : DB.State)
        (found : List (StrategyPerformanceResponse N)) (all : Curves)
        → gather_performance N J D point DB rows curves s ≡ (ok (found, all), t)
        → gather N point link J (map (curve_row N J D point DB) rows) curves s ≡ (ok all, t)
    gather-same [] curves s t found all h = cc
    gather-same (row ∷ rows) curves s t found all h =
        let (sp, e1, h1) =
          continue-both (row_to_strategy_performance N J D row s) _ (found, all) t h in
        let (id, same) = row-kept row s (row_to_strategy_performance N J D row s).1 sp e1 in
        let x =
          curve_or_days N point link J sp.strategy_id (extract_equity_curve N J row.metadata)
            (row_to_strategy_performance N J D row s).1 in
        let (curve, e2, h2) = continue-both x _ (found, all) t h1 in
        let y =
          gather_performance N J D point DB rows
            (put_if_any N point link sp.strategy_id curve curves) x.1 in
        let (pair, e3, h3) = continue-both y (with_response N J D point DB sp) (found, all) t h2 in
        let rec =
          gather-same rows (put_if_any N point link sp.strategy_id curve curves) x.1 y.1 pair.0
            pair.1 e3 in
        let f : List (EquityPoint N) → M DB.State Curves = λ curve'.
          gather N point link J (map (curve_row N J D point DB) rows)
            (put_if_any N point link row.strategy_id curve' curves) in
        let started : curve_or_days N point link J row.strategy_id
              (extract_equity_curve N J row.metadata) s
            ≡ x =
          λ i.
            curve_or_days N point link J (sym id i) (extract_equity_curve N J row.metadata)
              (same i) in
        let (all_same, w_same) = with_response-curves sp pair y.1 t found all h3 in
        ap (λ z. continue z.0 f z.1) (started ∙ e2)
        ∙ ap
            (λ k.
              gather N point link J (map (curve_row N J D point DB) rows)
                (put_if_any N point link k curve curves) x.1)
            (sym id)
        ∙ rec
        ∙ (λ i. (ok (all_same i), w_same i))

    reading-same :
        (message : String) (m : M DB.State Curves) (s t : DB.State) (all : Curves)
        → m s ≡ (ok all, t)
        → reading N point link J message m s ≡ (ok all, t)
    reading-same message m s t all h = rw h refl

    merged-drawdown :
        (pandas : Pandas N) (curves : Curves) (weights : Dict N.Float)
        → drawdown_if_any N J D point DB pandas curves weights
          ≡ drawdown_if_merged N pandas (merged N point link J pandas curves weights true)
    merged-drawdown pandas [] weights = refl
    merged-drawdown pandas (c ∷ curves) weights =
        combined_drawdown-merged N pandas (c ∷ curves) weights

    merged-ok :
        (pandas : Pandas N) (r : Result Exception (List (EquityPoint N))) (fall : N.Float)
        → drawdown_if_merged N pandas r ≡ ok fall
        → (curve : List (EquityPoint N)) × (r ≡ ok curve) × (drawdown_of N pandas curve ≡ fall)
    merged-ok pandas (ok curve) fall h = (curve, refl, cc)
    merged-ok pandas (err e) fall h = cc

    module _ (pandas : Pandas N) (now : Datetime) (s t : DB.State)
        (r : OverallPerformanceResponse N) where
      responded :
          (active : List StrategyConfig) (g : Gathered N J D point DB) (w : DB.State)
          → respond N J D point DB pandas now active g w ≡ (ok r, t)
          → (fall : N.Float) × (drawdown_if_any N J D point DB pandas g.1 (weights_from N active [])
              ≡ ok fall)
            × (D.quantize4 (D.of_float fall) ≡ ok r.combined_max_drawdown)
            × (w ≡ t)
      responded active (strategies, curves) w h =
          let (fall, e0, h0) =
            continue-both
              (lift {W = DB.State}
                (drawdown_if_any N J D point DB pandas curves (weights_from N active [])) w)
              _ r t h in
          let (weighted, _, h1) = continue-both (lift {W = DB.State} (D.quantize6 _) w) _ r t h0 in
          let (drawdown, e, h2) = continue-both (lift {W = DB.State} (D.quantize4 _) w) _ r t h1 in
          let (valid, same) = lifted _ w t r h2 in
          (
            fall,
            ap (λ x. x.0) e0,
            ap (λ x. x.0) e ∙ ap ok (sym (law.keeps_drawdown _ r valid)),
            same,
          )

      abbrev Agrees : List StrategyConfig → Type 0
      Agrees active =
          (curve : List (EquityPoint N)) × (curve_of_active N point link J pandas active true s
            ≡ (ok curve, t))
          × (D.quantize4 (D.of_float (drawdown_of N pandas curve)) ≡ ok r.combined_max_drawdown)

      on_active :
          (active : List StrategyConfig)
          → (read_active N J D point DB active >>= respond N J D point DB pandas now active) s
            ≡ (ok r, t)
          → Agrees active
      on_active [] k =
          let (fall, none_merged, drawdown, same) = responded [] ([], []) s k in
          let zero : N.zero ≡ fall = cc in
          ([], (λ i. (ok [], same i)), ap (λ d. D.quantize4 (D.of_float d)) zero ∙ drawdown)
      on_active (cfg ∷ active) k =
          let ids = ids_of N (cfg ∷ active) in
          let weights = weights_from N (cfg ∷ active) [] in
          let x = DB.select_latest ids s in
          let loop : List (Row N) → M DB.State (Gathered N J D point DB) =
            λ rows. gather_performance N J D point DB rows [] in
          let body = continue x.0 loop x.1 in
          let y =
            failing N J D point DB "failed to query daily_performance for overall aggregation" []
              (DB.select_latest ids >>= loop) s in
          let (g, e, h1) =
            continue-both y (respond N J D point DB pandas now (cfg ∷ active)) r t k in
          let (_, same) = handle-instead is_postgres_error _ body g (ap (λ z. z.0) e) in
          let (rows, ex, hg) = continue-both x loop g y.1 (sym same ∙ e) in
          let pick : List (Row N) → M DB.State (List (CurveRow N)) =
            λ rs. pure (map (curve_row N J D point DB) rs) in
          let all : List (CurveRow N) → M DB.State Curves = λ rs. gather N point link J rs [] in
          let picked : continue x.0 pick x.1 ≡ (ok (map (curve_row N J D point DB) rows), x.1) =
            ap (λ z. continue z.0 pick z.1) ex in
          let gathered : (link.select_latest ids >>= all) s ≡ (ok g.1, y.1) =
            ap (λ z. continue z.0 all z.1) picked ∙ gather-same rows [] x.1 y.1 g.0 g.1 hg in
          let finish : Curves → M DB.State (List (EquityPoint N)) =
            λ curves. lift (merged N point link J pandas curves weights true) in
          let read =
            reading-same "failed to query daily_performance for equity curves"
              (link.select_latest ids >>= all) s y.1 g.1 gathered in
          let (fall, fell, drawdown, kept) = responded (cfg ∷ active) g y.1 h1 in
          let (curve, joined, down) =
            merged-ok pandas (merged N point link J pandas g.1 weights true) fall
              (sym (merged-drawdown pandas g.1 weights) ∙ fell) in
          (
            curve,
            ap (λ z. continue z.0 finish z.1) read ∙ (λ i. (joined i, kept i)),
            ap (λ d. D.quantize4 (D.of_float d)) down ∙ drawdown,
          )

    -- When the overall performance is computed, the merged and normalized curve of the portfolio can
    -- be computed on the same rows, and the drawdown reported is that of this curve, as a decimal of
    -- four places.
    pub overall-curve :
        (pandas : Pandas N) (now : Datetime) (registry : StrategyRegistry) (s t : DB.State)
        (r : OverallPerformanceResponse N)
        → compute_overall_performance N J D point DB pandas now registry s ≡ (ok r, t)
        → (curve : List (EquityPoint N)) × (compute_portfolio_equity_curve N point link J pandas
              registry true s
            ≡ (ok curve, t))
          × (D.quantize4 (D.of_float (drawdown_of N pandas curve)) ≡ ok r.combined_max_drawdown)
    unfolding compute_overall_performance compute_portfolio_equity_curve
    overall-curve pandas now registry s t r h =
        on_active pandas now s t r (active_strategies registry) h
