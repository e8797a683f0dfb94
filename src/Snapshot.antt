-- ===== src/Snapshot.antt =====
-- services/snapshot_writer.py: the daily snapshot of the portfolio, written when every active strategy
-- has reported. asyncpg, json.loads and the validation of a point are parameters.
pub mod Rounds
pub mod Laws
pub mod Keeps
pub mod Totals
pub mod Writes
pub mod Duplicates
use quant_api_gateway.Prelude.{
  ℕ, zero, suc, ◌+◌, ◌-◌, ◌*◌, ◌/◌, ◌%◌, ◌^◌, ◌≤◌, ◌<◌, String, ◌<>◌, ◌≡◌, refl, sym, ap, ◌∙◌,
  fun_ext, ◌≢◌, ◌↔◌, ◌⊎◌, inl, inr, Bool, true, false, not, ◌&&◌, ◌||◌, Option, none, some, List,
  [], ◌∷◌, ◌++◌, map, arith, str_eq, eq_iff, eq_refl, ltb, leb, ◌==◌, if◌then◌else◌, ltb→lt, lt→ltb,
  leb→le, Bool-cases, Option-cases, is_none, one_of, length, Result, ok, err,
}
use quant_api_gateway.Json.{Json, null, Items, nil, cons, Fields, get, as_object, as_text, as_array}
use quant_api_gateway.Http.{plain}
use quant_api_gateway.Effects.{
  M, Exception, service, service_error, other, is_postgres_error, pure, raise, catch, lift, ◌>>=◌,
  ◌>>◌,
}
use quant_api_gateway.Numbers.{Numbers, sum}
use quant_api_gateway.Registry.{StrategyConfig, StrategyRegistry, active_strategies}
use quant_api_gateway.Cache.{Redis}
use quant_api_gateway.Cache.Invalidator.{invalidate_overall_cache, invalidate_strategy_cache}
use quant_api_gateway.Aggregator.{
  Dict, lookup, put, values, EquityPoint, Pandas, merge_equity_curves, calculate_combined_drawdown,
}

module _ (N : Numbers) where
  -- A `metadata` column as asyncpg hands it out: NULL, its text, a dict, or something else.
  pub data Metadata : Type 0 where
    missing odd : Metadata
    raw : String → Metadata
    parsed : Fields → Metadata

  pub record TodayRow : Type 0 where
    pub strategy_id : String
    pub total_value : N.Float
    pub daily_return : N.Float
    pub metadata : Metadata

  pub record SnapshotAggregates : Type 0 where
    pub total_portfolio : N.Float
    pub weighted_return : N.Float
    pub combined_drawdown : Option N.Float
    pub active_strategies : ℕ
    pub allocation : Dict N.Float

  -- `json.loads` (`none`: `JSONDecodeError`), and `EquityPoint(date=…, value=Decimal(str(value)))`
  -- (`none`: `ValueError` or `ArithmeticError`).
  pub record Parsing : Type 0 where
    pub loads : String → Option Json
    pub equity_point : String → Json → Option (EquityPoint N)

  -- The two statements, each on a connection of the pool: the day's rows of the given strategies, and
  -- the upsert of a bucket.
  pub record Postgres : Type 1 where
    pub State : Type 0
    pub select_today : ℕ → List String → M State (List TodayRow)
    pub upsert : ℕ → SnapshotAggregates → M State (Unit {0})

  module _ (J : Parsing) where
    abbrev point_from : Option Json → Option Json → Option (EquityPoint N)
    point_from none value = none
    point_from (some date) none = none
    point_from (some date) (some null) = none
    point_from (some date) (some value) = elim (as_text date) [
      | none ↦ none
      | some d ↦ J.equity_point d value
    ]

    abbrev point_of : Json → Option (EquityPoint N)
    point_of entry = elim (as_object entry) [
      | none ↦ none
      | some e ↦ point_from (get e "date") (get e "value")
    ]

    abbrev points_in : Items → List (EquityPoint N)
    points_in nil = []
    points_in (cons entry rest) =
        let points = points_in rest in elim (point_of entry) [ none ↦ points | some p ↦ p ∷ points ]

    abbrev curve_in : Option Json → List (EquityPoint N)
    curve_in none = []
    curve_in (some curve) = elim (as_array curve) [ none ↦ [] | some items ↦ points_in items ]

    abbrev curve_of : Option Json → List (EquityPoint N)
    curve_of none = []
    curve_of (some payload) = elim (as_object payload) [
      | none ↦ []
      | some fields ↦ curve_in (get fields "equity_curve")
    ]

    unfoldable pub extract_equity_curve : Metadata → List (EquityPoint N)
    extract_equity_curve missing = []
    extract_equity_curve odd = []
    extract_equity_curve (raw s) = curve_of (J.loads s)
    extract_equity_curve (parsed fields) = curve_in (get fields "equity_curve")

    -- `{cfg.id: cfg.capital_weight for cfg in active}` and `{row["strategy_id"]: row for row in rows}`
    abbrev weights_of : List StrategyConfig → Dict ℕ → Dict ℕ
    weights_of [] d = d
    weights_of (cfg ∷ active) d = weights_of active (put cfg.id cfg.capital_weight d)

    abbrev rows_by_id : List TodayRow → Dict TodayRow → Dict TodayRow
    rows_by_id [] d = d
    rows_by_id (row ∷ rows) d = rows_by_id rows (put row.strategy_id row d)

    abbrev total_of : Dict ℕ → ℕ
    total_of [] = 0
    total_of ((_, w) ∷ weights) = w + total_of weights

    -- `rows_by_id[sid]["total_value"]` for every id, in order: `none` is a `KeyError`.
    abbrev totals : Dict ℕ → Dict TodayRow → Option (List N.Float)
    totals [] rows = some []
    totals ((sid, _) ∷ weights) rows =
        let rest = totals weights rows in
        elim (lookup sid rows) [
          | none ↦ none
          | some row ↦ elim rest [ none ↦ none | some xs ↦ some (row.total_value ∷ xs) ]
        ]

    abbrev weighted_terms : Dict ℕ → Dict TodayRow → List N.Float
    weighted_terms [] rows = []
    weighted_terms ((sid, weight) ∷ weights) rows =
        let rest = weighted_terms weights rows in
        elim (lookup sid rows) [
          | none ↦ rest
          | some row ↦ N.mul row.daily_return (N.of_units weight) ∷ rest
        ]

    abbrev shares : ℕ → Dict ℕ → Dict N.Float
    shares total [] = []
    shares total ((sid, weight) ∷ weights) =
        (sid, if ltb 0 total then N.div (N.of_units weight) (N.of_units total) else N.zero)
        ∷ shares total weights

    abbrev add_if_any :
        String → List (EquityPoint N) → Dict (List (EquityPoint N)) → Dict (List (EquityPoint N))
    add_if_any sid [] curves = curves
    add_if_any sid (p ∷ curve) curves = (sid, p ∷ curve) ∷ curves

    unfoldable pub curves_of : Dict ℕ → Dict TodayRow → Dict (List (EquityPoint N))
    unfolding extract_equity_curve
    curves_of [] rows = []
    curves_of ((sid, _) ∷ weights) rows =
        let rest = curves_of weights rows in
        elim (lookup sid rows) [
          | none ↦ rest
          | some row ↦ add_if_any sid (extract_equity_curve row.metadata) rest
        ]

    abbrev pub float_weights : Dict ℕ → Dict N.Float
    float_weights [] = []
    float_weights ((sid, weight) ∷ weights) = (sid, N.of_units weight) ∷ float_weights weights

    module _ (pandas : Pandas N) where
      -- `none` is what `calculate_combined_drawdown` raises.
      abbrev pub drawdown_if_any :
          Dict (List (EquityPoint N)) → Dict N.Float → Option (Option N.Float)
      drawdown_if_any [] weights = some none
      drawdown_if_any (c ∷ curves) weights =
          elim (calculate_combined_drawdown N pandas (c ∷ curves) weights) [
            | ok fall ↦ some (some fall)
            | err e ↦ none
          ]

      abbrev pub aggregates :
          Dict ℕ → Dict TodayRow → ℕ → List N.Float → Option N.Float → SnapshotAggregates
      aggregates weights by_id active xs fall = record {
        total_portfolio = sum N xs;
        weighted_return =
            let total_weight = total_of weights in
            if ltb 0 total_weight
            then N.div (sum N (weighted_terms weights by_id)) (N.of_units total_weight)
            else N.zero;
        combined_drawdown = fall;
        active_strategies = active;
        allocation = shares (total_of weights) weights;
      }

      -- `none` is a `KeyError`, or the `ValueError` of a merger that pandas or `EquityPoint` refuses.
      pub compute_aggregates : List TodayRow → List StrategyConfig → Option SnapshotAggregates
      unfolding curves_of
      compute_aggregates rows active =
          let weights = weights_of active [] in
          let by_id = rows_by_id rows [] in
          elim (totals weights by_id) [
            | none ↦ none
            | some xs ↦ elim (drawdown_if_any (curves_of weights by_id) (float_weights weights)) [
              | none ↦ none
              | some fall ↦ some (aggregates weights by_id (length active) xs fall)
            ]
          ]

      module _ (R : Redis) (DB : Postgres) where
        abbrev pub World : Type 0
        World = R.State × DB.State

        abbrev pub on_db : {A : Type 0} → String → M DB.State A → M World A
        on_db message m =
            catch (λ (s, d). let (r, d') = m d in (r, (s, d')))
              (λ e.
                if is_postgres_error e
                then some (raise (service service_error (plain message)))
                else none)

        abbrev pub on_cache : {A : Type 0} → M R.State A → M World A
        on_cache m (s, d) = let (r, s') = m s in (r, (s', d))

        abbrev pub invalidate_all : List StrategyConfig → M World (Unit {0})
        invalidate_all [] = pure tt
        invalidate_all (cfg ∷ active) =
            on_cache (invalidate_strategy_cache R cfg.id) >> invalidate_all active

        abbrev pub ids_of : List StrategyConfig → List String
        ids_of [] = []
        ids_of (cfg ∷ active) = cfg.id ∷ ids_of active

        abbrev pub write_snapshot :
            ℕ → List StrategyConfig → Option SnapshotAggregates → M World Bool
        write_snapshot bucket active none = raise other
        write_snapshot bucket active (some agg) = do
          on_db "failed to upsert portfolio_snapshot" (DB.upsert bucket agg)
          catch (on_cache (invalidate_overall_cache R) >> invalidate_all active)
              (λ e. some (pure tt))
          pure true

        -- A day is its number, and its bucket the microsecond at which it begins.
        abbrev pub day_of : ℕ → ℕ
        day_of now = now / 86400000000

        abbrev pub bucket_of : ℕ → ℕ
        bucket_of day = day * 86400000000

        abbrev pub if_complete : ℕ → List StrategyConfig → List TodayRow → M World Bool
        if_complete now active rows =
            if ltb (length rows) (length active)
            then pure false
            else write_snapshot (bucket_of (day_of now)) active (compute_aggregates rows active)

        pub maybe_write : ℕ → List StrategyConfig → M World Bool
        unfolding compute_aggregates
        maybe_write now [] = pure false
        maybe_write now (cfg ∷ active) = do
          rows ←
              on_db "failed to read daily_performance for snapshot"
                (DB.select_today (day_of now) (ids_of (cfg ∷ active)))
          if_complete now (cfg ∷ active) rows

        pub maybe_write_snapshot : StrategyRegistry → ℕ → M World Bool
        unfolding maybe_write
        maybe_write_snapshot registry now = maybe_write now (active_strategies registry)
