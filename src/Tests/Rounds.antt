-- ===== src/Tests/Rounds.antt =====
-- A day on which the active strategy has not reported, one on which it has, and a registry in which it
-- stands twice.
use quant_api_gateway.Prelude.{
  ℕ, suc, String, ◌≡◌, refl, ap, ◌↔◌, inl, inr, true, false, some, arith, eq_iff, eq_refl, not,
  ◌&&◌, none, List, [], ◌∷◌, if◌then◌else◌, Bool-cases, one_of, length, ok,
}
use quant_api_gateway.Registry.{StrategyRegistry, active_strategies}
use quant_api_gateway.Snapshot.{
  TodayRow, SnapshotAggregates, compute_aggregates, curves_of, missing, Parsing, Postgres,
  maybe_write_snapshot,
}
use quant_api_gateway.Snapshot.Rounds.{Entry, has_row, reported}
use quant_api_gateway.Snapshot.Laws.{IsQuery, complete, maybe_write_snapshot-skips_iff}
use quant_api_gateway.Snapshot.Totals.{in_rows}
use quant_api_gateway.Snapshot.Duplicates.{maybe_write_snapshot-repeats}
use quant_api_gateway.Snapshot.Writes.{ReturnsAll, Writes, maybe_write_snapshot-Writes}
use quant_api_gateway.Tests.Server.{server}
use quant_api_gateway.Tests.Figures.{figures, pandas}
use quant_api_gateway.Tests.Caching.{csm, known, known-DistinctIds}

abbrev pub parsing : Parsing figures
parsing = record { loads = λ s. none; equity_point = λ date value. none }

abbrev bare_row : String → TodayRow figures
bare_row id = record { strategy_id = id; total_value = 100; daily_return = 1; metadata = missing }

abbrev rows_for : ℕ → List String → List Entry → List (TodayRow figures)
rows_for day [] rows = []
rows_for day (id ∷ ids) rows =
    let rest = rows_for day ids rows in
    if not (one_of id ids) && has_row day id rows then bare_row id ∷ rest else rest

-- The entries, and the buckets that were written.
abbrev rounds : Postgres figures
rounds = record {
  State = List Entry × List ℕ;
  select_today = λ day ids d. (ok (rows_for day ids d.0), d);
  upsert = λ bucket agg d. (ok tt, (d.0, bucket ∷ d.1));
}

rows_for-count :
    (day : ℕ) (ids : List String) (rows : List Entry)
    → length (rows_for day ids rows) ≡ reported day ids rows
rows_for-count day [] rows = refl
rows_for-count day (id ∷ ids) rows =
    elim (Bool-cases (not (one_of id ids) && has_row day id rows)) [
      | inl e ↦ rw e (ap suc (rows_for-count day ids rows))
      | inr e ↦ rw e (rows_for-count day ids rows)
    ]

abbrev rounds-IsQuery : IsQuery figures parsing pandas server rounds
rounds-IsQuery = record {
  history = λ d. d.0;
  distinct_on = λ day ids d rows e.
      let same : rows_for day ids d.0 ≡ rows = cc in rw (← same) (rows_for-count day ids d.0);
}

abbrev other_day : List Entry × List ℕ
other_day = (record { time = 5; strategy_id = "b" } ∷ [], [])

maybe_write_snapshot-skips_iff_example :
    ((maybe_write_snapshot figures parsing pandas server rounds known 7 ([], other_day)).0
      ≡ ok false)
    ↔ (complete figures parsing pandas server rounds rounds-IsQuery known 7 [] other_day ≡ false)
unfolding active_strategies
maybe_write_snapshot-skips_iff_example =
    maybe_write_snapshot-skips_iff figures parsing pandas server rounds rounds-IsQuery known 7 []
      other_day [] known-DistinctIds (λ h. cc) refl

rows_for-returned :
    (day : ℕ) (ids : List String) (rows : List Entry) (id : String)
    → one_of id ids ≡ true
    → has_row day id rows ≡ true
    → in_rows figures parsing id (rows_for day ids rows) ≡ true
rows_for-returned day [] rows id one there = cc
rows_for-returned day (i ∷ ids) rows id one there = elim (Bool-cases (one_of id ids)) [
  | inl later ↦ ground (arith, rows_for-returned day ids rows id later there)
  | inr last ↦
      let same : i ≡ id = ground (arith, eq_iff i id, one, last) in
      rw same (ground (arith, eq_refl id, last, there))
]

rounds-ReturnsAll : ReturnsAll figures parsing pandas server rounds rounds-IsQuery
rounds-ReturnsAll = record {
  returned = λ day ids d rows e id one there.
      let same : rows_for day ids d.0 ≡ rows = cc in
      rw (← same) (rows_for-returned day ids d.0 id one there);
}

abbrev this_day : List Entry × List ℕ
this_day = (record { time = 5; strategy_id = "a" } ∷ [], [])

maybe_write_snapshot-Writes_example :
    (agg : SnapshotAggregates figures) × (compute_aggregates figures parsing pandas
        (bare_row "a" ∷ [])
        (active_strategies known)
      ≡ some agg)
    × Writes figures parsing pandas server rounds
        (maybe_write_snapshot figures parsing pandas server rounds known 7 ([], this_day))
        (this_day.0, 0 ∷ [])
unfolding active_strategies curves_of
maybe_write_snapshot-Writes_example =
    maybe_write_snapshot-Writes figures parsing pandas server rounds rounds-IsQuery
      rounds-ReturnsAll 7 [] this_day (bare_row "a" ∷ []) known known-DistinctIds (λ h. cc) refl
      refl (none, refl) (λ agg. refl)

abbrev doubled : StrategyRegistry
doubled = record { strategies = csm ∷ csm ∷ [] }

maybe_write_snapshot-repeats_example :
    maybe_write_snapshot figures parsing pandas server rounds doubled 7 ([], this_day)
    ≡ (ok false, ([], this_day))
unfolding active_strategies
maybe_write_snapshot-repeats_example =
    maybe_write_snapshot-repeats figures parsing pandas server rounds rounds-IsQuery 7 [] this_day
      doubled (bare_row "a" ∷ []) refl refl
