-- ===== src/Aggregator.antt =====
-- services/aggregator.py. The pandas calls that join the curves are parameters.
pub mod Weighted
pub mod Drawdown
use quant_api_gateway.Prelude.{
  ℕ, zero, suc, ◌+◌, ◌-◌, ◌*◌, ◌/◌, ◌%◌, ◌^◌, ◌≤◌, ◌<◌, String, ◌<>◌, ◌≡◌, refl, sym, ap, ◌∙◌,
  fun_ext, ◌≢◌, ◌↔◌, ◌⊎◌, inl, inr, Bool, true, false, not, ◌&&◌, ◌||◌, Option, none, some, List,
  [], ◌∷◌, ◌++◌, map, arith, str_eq, eq_iff, eq_refl, ltb, leb, ◌==◌, if◌then◌else◌, ltb→lt, lt→ltb,
  leb→le, Bool-cases, Option-cases, is_none, one_of, length, Result, ok, err,
}
use quant_api_gateway.Effects.{Exception, other}
use quant_api_gateway.Numbers.{Numbers, sum}

-- A Python dict with text keys, in insertion order: `d.get(k, default)` and `d[k] = v`.
abbrev pub Dict : Type 0 → Type 0
Dict V = List (String × V)

abbrev pub lookup : {V : Type 0} → String → Dict V → Option V
lookup k [] = none
lookup k ((j, v) ∷ d) = if str_eq j k then some v else lookup k d

abbrev pub put : {V : Type 0} → String → V → Dict V → Dict V
put k v [] = (k, v) ∷ []
put k v ((j, w) ∷ d) = if str_eq j k then (j, v) ∷ d else (j, w) ∷ put k v d

abbrev get_or : {V : Type 0} → String → V → Dict V → V
get_or k default d = elim (lookup k d) [ none ↦ default | some v ↦ v ]

abbrev pub values : {V : Type 0} → Dict V → List V
values [] = []
values ((_, v) ∷ d) = v ∷ values d

module _ (N : Numbers) where
  -- `EquityPoint` of schemas/strategy.py; the date is its text.
  pub record EquityPoint : Type 0 where
    pub date : String
    pub value : N.Decimal

  -- The fields of `StrategyPerformanceResponse` that the aggregation reads.
  pub record Performance : Type 0 where
    pub strategy_id : String
    pub daily_pnl : N.Decimal
    pub total_value : N.Decimal

  abbrev pub weight_of : Dict N.Float → String → N.Float
  weight_of weights strategy_id = get_or strategy_id N.zero weights

  -- The generator over `strategies`: those of positive value, each with its weighted return.
  abbrev pub terms : List Performance → Dict N.Float → List N.Float
  terms [] weights = []
  terms (s ∷ strategies) weights =
      let rest = terms strategies weights in
      if N.is_positive s.total_value
      then N.mul (N.div (N.of_decimal s.daily_pnl) (N.of_decimal s.total_value))
          (weight_of weights s.strategy_id)
        ∷ rest
      else rest

  unfoldable pub calculate_weighted_return : List Performance → Dict N.Float → N.Float
  calculate_weighted_return strategies weights =
      let total_weight = sum N (values weights) in
      if N.le total_weight N.zero
      then N.zero
      else N.div (sum N (terms strategies weights)) total_weight

  -- The two uses of pandas: the values of a curve in the order of its dates (`pd.Series(…).sort_index()`),
  -- and the join of the series under their weights (`pd.DataFrame(…)` to `.dropna()`), which gives
  -- the dates with their merged values (`none`: a `ValueError`, as for indexes that differ when one has
  -- a date twice). And whether `EquityPoint` accepts a date and a value.
  pub record Pandas : Type 0 where
    pub sort_index : List (String × N.Float) → List (String × N.Float)
    pub join : Dict (List (String × N.Float)) → Dict N.Float → Option (List (String × N.Float))
    pub is_point : String → N.Decimal → Bool

  abbrev pub series_of : List EquityPoint → List (String × N.Float)
  series_of [] = []
  series_of (p ∷ curve) = (p.date, N.of_decimal p.value) ∷ series_of curve

  -- `series / first_value * 100.0`
  abbrev rebase : N.Float → List (String × N.Float) → List (String × N.Float)
  rebase first [] = []
  rebase first ((d, x) ∷ series) = (d, N.mul (N.div x first) N.hundred) ∷ rebase first series

  module _ (P : Pandas) where
    -- What the loop over the curves keeps of one of them: `continue` on a weight or a first value
    -- that is not positive.
    abbrev pub qualified :
        List (String × N.Float) → N.Float → Bool → Option (List (String × N.Float))
    qualified [] weight normalize = none
    qualified ((d, first) ∷ series) weight normalize =
        if N.le weight N.zero || N.le first N.zero
        then none
        else some (if normalize then rebase first ((d, first) ∷ series) else ((d, first) ∷ series))

    abbrev pub usable : List EquityPoint → N.Float → Bool → Option (List (String × N.Float))
    usable [] weight normalize = none
    usable (p ∷ curve) weight normalize =
        qualified (P.sort_index (series_of (p ∷ curve))) weight normalize

    -- One curve added to what the loop keeps of the others, under its weight.
    abbrev pub add_curve :
        String
        → N.Float
        → Option (List (String × N.Float))
        → Dict (List (String × N.Float)) × Dict N.Float
        → Dict (List (String × N.Float)) × Dict N.Float
    add_curve sid weight none kept = kept
    add_curve sid weight (some s) (series, weights) = ((sid, s) ∷ series, (sid, weight) ∷ weights)

    unfoldable pub collect :
        Dict (List EquityPoint)
        → Dict N.Float
        → Bool
        → Dict (List (String × N.Float)) × Dict N.Float
    collect [] weights normalize = ([], [])
    collect ((sid, curve) ∷ curves) weights normalize =
        add_curve sid (weight_of weights sid) (usable curve (weight_of weights sid) normalize)
          (collect curves weights normalize)

    abbrev pub before :
        EquityPoint → Result Exception (List EquityPoint) → Result Exception (List EquityPoint)
    before p (ok points) = ok (p ∷ points)
    before p (err e) = err e

    -- The list of `EquityPoint(date=…, value=…)`: a `ValidationError` for a point that is refused.
    abbrev pub points_of : List (String × N.Float) → Result Exception (List EquityPoint)
    points_of [] = ok []
    points_of ((d, x) ∷ merged) =
        let rest = points_of merged in
        if P.is_point d (N.round4 x)
        then before (record { date = d; value = N.round4 x }) rest
        else err other

    abbrev pub points_if_joined :
        Option (List (String × N.Float)) → Result Exception (List EquityPoint)
    points_if_joined none = err other
    points_if_joined (some merged) = points_of merged

    abbrev pub joined :
        Dict (List (String × N.Float)) × Dict N.Float → Result Exception (List EquityPoint)
    joined ([], kept) = ok []
    joined (s ∷ series, kept) = points_if_joined (P.join (s ∷ series) kept)

    unfoldable pub merge_equity_curves :
        Dict (List EquityPoint) → Dict N.Float → Bool → Result Exception (List EquityPoint)
    merge_equity_curves curves weights normalize = joined (collect curves weights normalize)

    -- One round of the scan: the running peak and the worst drawdown so far.
    abbrev pub raise_peak : N.Float → N.Float → N.Float
    raise_peak peak value = if N.lt peak value then value else peak

    abbrev pub worse : N.Float → N.Float → N.Float → N.Float
    worse peak value max_drawdown =
        let drawdown = N.sub (N.div value peak) N.one in
        if N.le peak N.zero
        then max_drawdown
        else if N.lt drawdown max_drawdown
        then drawdown
        else max_drawdown

    unfoldable pub scan : List EquityPoint → N.Float → N.Float → N.Float
    scan [] peak max_drawdown = max_drawdown
    scan (p ∷ points) peak max_drawdown =
        let value = N.of_decimal p.value in
        let top = raise_peak peak value in scan points top (worse top value max_drawdown)

    abbrev pub drawdown_of : List EquityPoint → N.Float
    drawdown_of [] = N.zero
    drawdown_of (p ∷ points) = scan (p ∷ points) (N.of_decimal p.value) N.zero

    abbrev pub drawdown_if_merged : Result Exception (List EquityPoint) → Result Exception N.Float
    drawdown_if_merged (ok points) = ok (drawdown_of points)
    drawdown_if_merged (err e) = err e

    unfoldable pub calculate_combined_drawdown :
        Dict (List EquityPoint) → Dict N.Float → Result Exception N.Float
    unfolding merge_equity_curves scan
    calculate_combined_drawdown curves weights =
        drawdown_if_merged (merge_equity_curves curves weights true)
