-- ===== src/Ingestion/Upserts.antt =====
-- The two upserts: `ON CONFLICT (time, strategy_id) DO UPDATE` of services/ingestion.py and of
-- services/strategy_report_service.py.
use quant_api_gateway.Prelude.{
  ℕ, String, ◌≡◌, refl, ap, inl, inr, Bool, true, ◌&&◌, Option, none, some, List, [], ◌∷◌, arith,
  str_eq, eq_refl, ◌==◌, if◌then◌else◌, Bool-cases,
}
use quant_api_gateway.Numbers.{Numbers}
use quant_api_gateway.Ingestion.{Row}

module _ (N : Numbers) where
  -- `ON CONFLICT (time, strategy_id) DO UPDATE SET` of every other column.
  abbrev same_key : Row N → Row N → Bool
  same_key row r = row.time == r.time && str_eq row.strategy_id r.strategy_id

  pub put_row : Row N → List (Row N) → List (Row N)
  put_row row [] = row ∷ []
  put_row row (r ∷ rows) = if same_key row r then row ∷ rows else r ∷ put_row row rows

  -- A row of `strategy_report_snapshot`; `computed_at` is the database's `now()` at the upsert.
  pub record Report : Type 0 where
    pub time : ℕ
    pub strategy_id : String
    pub report : String
    pub computed_at : ℕ

  abbrev pub same_report : Report → Report → Bool
  same_report row r = row.time == r.time && str_eq row.strategy_id r.strategy_id

  unfoldable pub put_report : Report → List Report → List Report
  put_report row [] = row ∷ []
  put_report row (r ∷ rows) = if same_report row r then row ∷ rows else r ∷ put_report row rows

  abbrev pub Tables : Type 0
  Tables = List (Row N) × List Report

  abbrev pub with_report : ℕ → Row N → Option String → List Report → List Report
  with_report now row none reports = reports
  with_report now row (some report) reports =
      put_report
        (record {
          time = row.time;
          strategy_id = row.strategy_id;
          report = report;
          computed_at = now;
        })
        reports

  key_refl : (i : ℕ) (s : String) → (i == i && str_eq s s) ≡ true
  key_refl i s = let e = eq_refl s in ground arith

  pub put_row-twice :
      (row : Row N) (rows : List (Row N)) → put_row row (put_row row rows) ≡ put_row row rows
  unfolding put_row
  put_row-twice row [] = rw (key_refl row.time row.strategy_id) refl
  put_row-twice row (r ∷ rows) = elim (Bool-cases (same_key row r)) [
    | inl e ↦ rw e (rw (key_refl row.time row.strategy_id) refl)
    | inr e ↦ rw e (rw e (ap (λ x. r ∷ x) (put_row-twice row rows)))
  ]

  abbrev at : Report → ℕ → Report
  at row now = record row { computed_at = now }

  put_report-twice :
      (row : Report) (now later : ℕ) (rows : List Report)
      → put_report (at row later) (put_report (at row now) rows) ≡ put_report (at row later) rows
  unfolding put_report
  put_report-twice row now later [] = rw (key_refl row.time row.strategy_id) refl
  put_report-twice row now later (r ∷ rows) = elim (Bool-cases (same_report row r)) [
    | inl e ↦ rw e (rw (key_refl row.time row.strategy_id) refl)
    | inr e ↦ rw e (rw e (ap (λ x. r ∷ x) (put_report-twice row now later rows)))
  ]

  pub with_report-twice :
      (now later : ℕ) (row : Row N) (report : Option String) (reports : List Report)
      → with_report later row report (with_report now row report reports)
        ≡ with_report later row report reports
  with_report-twice now later row none reports = refl
  with_report-twice now later row (some report) reports =
      put_report-twice
        (record {
          time = row.time;
          strategy_id = row.strategy_id;
          report = report;
          computed_at = now;
        })
        now later reports
