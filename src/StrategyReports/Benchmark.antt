-- ===== src/StrategyReports/Benchmark.antt =====
-- What the two forms of the benchmark curve have to do with each other.
use quant_api_gateway.Prelude.{
  ℕ, String, ◌≡◌, refl, inl, inr, Bool, true, false, Option, List, [], ◌∷◌, if◌then◌else◌,
  Bool-cases, Result, ok, err,
}
use quant_api_gateway.Effects.{M, Exception, lift, continue, ◌>>=◌}
use quant_api_gateway.Numbers.{Numbers}
use quant_api_gateway.StrategyReports.Dates.{require_utc, date_to_utc, upper_bound}
use quant_api_gateway.StrategyReports.Each.{prepend-ok, when-ok}
use quant_api_gateway.StrategyReports.Items.{
  Schema, SampleRow, BenchmarkPoint, each, is_utc, corrupt,
}
use quant_api_gateway.StrategyReports.Reads.{
  Pools, sample_of, scaled, normalized, reading, get_benchmark_curve,
}

module _ (N : Numbers) where
  -- A curve as percentages of its first value; a curve that begins at zero, as it is.
  abbrev percent_of : N.Decimal → List (BenchmarkPoint N) → List (BenchmarkPoint N)
  percent_of base [] = []
  percent_of base (p ∷ points) =
      record {
        date = p.date;
        value = N.mul_decimal (N.div_decimal p.value base) (N.decimal_of_nat 100);
      }
      ∷ percent_of base points

  abbrev rebased : List (BenchmarkPoint N) → List (BenchmarkPoint N)
  rebased [] = []
  rebased (p ∷ points) = if N.is_zero p.value then p ∷ points else percent_of p.value (p ∷ points)

  abbrev pub rebased_answer :
      Result Exception (List (BenchmarkPoint N)) → Result Exception (List (BenchmarkPoint N))
  rebased_answer (ok points) = ok (rebased points)
  rebased_answer (err e) = err e

  module _ (J : Schema) (isoformat : ℕ → String) (DB : Pools N J) where
    abbrev AllUtc : List (BenchmarkPoint N) → Type 0
    AllUtc [] = Unit
    AllUtc (p ∷ points) = (is_utc N (require_utc p.date) ≡ true) × AllUtc points

    samples-AllUtc :
        (rows : List (SampleRow N)) (points : List (BenchmarkPoint N))
        → each (sample_of N J isoformat DB) rows ≡ ok points
        → AllUtc points
    samples-AllUtc [] [] h = tt
    samples-AllUtc [] (p ∷ points) h = cc
    samples-AllUtc (r ∷ rows) points h =
        let (p, ps, one, others, same) =
          prepend-ok (sample_of N J isoformat DB) (sample_of N J isoformat DB r)
            (each (sample_of N J isoformat DB) rows) points h in
        let (utc_date, e) = when-ok _ _ p one in
        rw same (rw (← e) utc_date, samples-AllUtc rows ps others)

    each-percent :
        (base : N.Decimal) (points : List (BenchmarkPoint N))
        → AllUtc points
        → each (scaled N J isoformat DB base) points ≡ ok (percent_of base points)
    each-percent base [] h = refl
    each-percent base (p ∷ points) (h, hs) = rw (h, each-percent base points hs) refl

    normalized-rebased :
        (points : List (BenchmarkPoint N))
        → AllUtc points
        → normalized N J isoformat DB true points ≡ ok (rebased points)
    normalized-rebased [] h = refl
    normalized-rebased (p ∷ points) h = elim (Bool-cases (N.is_zero p.value)) [
      | inl e ↦ rw e refl
      | inr e ↦ rw e (each-percent p.value (p ∷ points) h)
    ]

    abbrev conclude :
        Bool → Result Exception (List (BenchmarkPoint N)) → M DB.State (List (BenchmarkPoint N))
    conclude normalize r = lift r >>= λ points. lift (normalized N J isoformat DB normalize points)

    conclude-rebased :
        (rows : List (SampleRow N)) (r : Result Exception (List (BenchmarkPoint N))) (s : DB.State)
        → each (sample_of N J isoformat DB) rows ≡ r
        → conclude true r s ≡ (rebased_answer (conclude false r s).0, (conclude false r s).1)
    conclude-rebased rows (err e) s h = refl
    conclude-rebased rows (ok []) s h = refl
    conclude-rebased rows (ok (p ∷ points)) s h =
        let e = normalized-rebased (p ∷ points) (samples-AllUtc rows (p ∷ points) h) in
        λ i. (e i, s)

    abbrev from_rows : Bool → List (SampleRow N) → M DB.State (List (BenchmarkPoint N))
    from_rows normalize rows = conclude normalize (each (sample_of N J isoformat DB) rows)

    selected-rebased :
        (x : Result Exception (List (SampleRow N)) × DB.State)
        → continue x.0 (from_rows true) x.1 ≡ (
          rebased_answer (continue x.0 (from_rows false) x.1).0,
          (continue x.0 (from_rows false) x.1).1,
        )
    selected-rebased (ok rows, s) =
        conclude-rebased rows (each (sample_of N J isoformat DB) rows) s refl
    selected-rebased (err e, s) = refl

    abbrev from_bounds :
        String
        → Option ℕ
        → Bool
        → Result Exception (Option ℕ)
        → M DB.State (List (BenchmarkPoint N))
    from_bounds id lower normalize bounds = lift bounds >>= λ upper.
        reading N J isoformat DB
          (corrupt "failed to read benchmark_equity_curve for {!r}" (id ∷ []))
          (DB.select_benchmark id lower upper)
        >>= from_rows normalize

    bounds-rebased :
        (id : String) (lower : Option ℕ) (bounds : Result Exception (Option ℕ)) (s : DB.State)
        → let raw = from_bounds id lower false bounds s in
          from_bounds id lower true bounds s ≡ (rebased_answer raw.0, raw.1)
    bounds-rebased id lower (ok upper) s = selected-rebased (
        reading N J isoformat DB
          (corrupt "failed to read benchmark_equity_curve for {!r}" (id ∷ []))
          (DB.select_benchmark id lower upper) s)
    bounds-rebased id lower (err e) s = refl

    -- The normalized curve is the raw one with each value as a percentage of the first, or the raw
    -- one where that is zero; what the raw read raises, the normalized read raises too.
    pub get_benchmark_curve-rebased :
        (id : String) (from_date to_date : Option ℕ) (s : DB.State)
        → let raw = get_benchmark_curve N J isoformat DB id from_date to_date false s in
          get_benchmark_curve N J isoformat DB id from_date to_date true s
          ≡ (rebased_answer raw.0, raw.1)
    unfolding get_benchmark_curve
    get_benchmark_curve-rebased id from_date to_date s =
        bounds-rebased id (date_to_utc from_date) (upper_bound to_date) s
