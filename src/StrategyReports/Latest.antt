-- ===== src/StrategyReports/Latest.antt =====
-- What `get_latest_report` answers, and that it is the report persisted last.
use quant_api_gateway.Prelude.{
  ℕ, ◌≤◌, String, ◌≡◌, refl, sym, ap, ◌∙◌, inl, inr, true, false, Option, none, some, List, [], ◌∷◌,
  arith, str_eq, eq_iff, eq_refl, ltb, Bool-cases, ok,
}
use quant_api_gateway.Json.{Json}
use quant_api_gateway.Effects.{Exception}
use quant_api_gateway.Numbers.{Numbers}
use quant_api_gateway.Ingestion.{StrategyPayload, Postgres, persist_daily_report}
use quant_api_gateway.Ingestion.Upserts.{Report, put_report, same_report}
use quant_api_gateway.Ingestion.Laws.{
  with_report-parsed, IsAtomic, Atomic-done, persist_daily_report-Atomic,
}
use quant_api_gateway.StrategyReports.Dates.{utc}
use quant_api_gateway.StrategyReports.Rows.{newer, latest}
use quant_api_gateway.StrategyReports.Items.{Schema, SnapshotRow, json_text}
use quant_api_gateway.StrategyReports.Reads.{Pools, get_latest_report, respond}

module _ (N : Numbers) where
  -- No report of the strategy is of a later time.
  abbrev pub NoneNewer : ℕ → String → List (Report N) → Type 0
  NoneNewer time id [] = Unit
  NoneNewer time id (r ∷ reports) =
      (str_eq r.strategy_id id ≡ true → r.time ≤ time) × NoneNewer time id reports

  newer_of :
      (row : Report N) (rest : Option (Report N))
      → ((q : Report N) → rest ≡ some q → q.time ≤ row.time)
      → newer N row rest ≡ row
  newer_of row none h = refl
  newer_of row (some q) h = let k = h q refl in ground arith

  newer-bound :
      (r : Report N) (rest : Option (Report N)) (bound : ℕ)
      → r.time ≤ bound
      → ((q : Report N) → rest ≡ some q → q.time ≤ bound)
      → (newer N r rest).time ≤ bound
  newer-bound r none bound h k = h
  newer-bound r (some q) bound h k = elim (Bool-cases (ltb r.time q.time)) [
    | inl e ↦ rw e (k q refl)
    | inr e ↦ rw e h
  ]

  latest-NoneNewer :
      (row : Report N) (reports : List (Report N)) (q : Report N)
      → NoneNewer row.time row.strategy_id reports
      → latest N row.strategy_id reports ≡ some q
      → q.time ≤ row.time
  latest-NoneNewer row [] q h e = cc
  latest-NoneNewer row (r ∷ reports) q (h, hs) e =
      let rest = latest N row.strategy_id reports in
      let id = row.strategy_id in
      elim (Bool-cases (str_eq r.strategy_id id)) [
        | inr f ↦
            let k : latest N id (r ∷ reports) ≡ rest = rw f refl in
            latest-NoneNewer row reports q hs (sym k ∙ e)
        | inl f ↦
            let k : latest N id (r ∷ reports) ≡ some (newer N r rest) = rw f refl in
            let same : newer N r rest ≡ q = cc in
            let bound =
              newer-bound r rest row.time (h f) (λ p. latest-NoneNewer row reports p hs) in
            rw (← same) bound
      ]

  newer-earlier :
      (row r : Report N)
      → same_report N row r ≡ false
      → str_eq r.strategy_id row.strategy_id ≡ true
      → r.time ≤ row.time
      → newer N r (some row) ≡ row
  newer-earlier row r e f h =
      let same = eq_iff row.strategy_id r.strategy_id in
      let same' = eq_iff r.strategy_id row.strategy_id in ground (arith, same, same')

  latest-put_report :
      (row : Report N) (reports : List (Report N))
      → NoneNewer row.time row.strategy_id reports
      → latest N row.strategy_id (put_report N row reports) ≡ some row
  unfolding put_report
  latest-put_report row [] h = rw (eq_refl row.strategy_id) refl
  latest-put_report row (r ∷ reports) (h, hs) = elim (Bool-cases (same_report N row r)) [
    | inl e ↦ rw e (
        rw (eq_refl row.strategy_id)
          (ap some (newer_of row _ (λ q. latest-NoneNewer row reports q hs))))
    | inr e ↦ rw e (elim (Bool-cases (str_eq r.strategy_id row.strategy_id)) [
      | inl f ↦ rw (f, latest-put_report row reports hs) (ap some (newer-earlier row r e f (h f)))
      | inr f ↦ rw (f, latest-put_report row reports hs) refl
    ])
  ]

  module _ (J : Schema) (DB : Pools N J) where
    -- A row as asyncpg hands it out: its times in UTC, and a text of the same JSON. PostgreSQL keeps the
    -- keys of a jsonb object in an order of its own, and `J.loads` gives both texts in that one order:
    -- a dict has none.
    abbrev pub Fetched : Option (Report N) → Option SnapshotRow → Type 0
    Fetched none none = Unit
    Fetched none (some row) = ⊥
    Fetched (some r) none = ⊥
    Fetched (some r) (some row) =
        (row.time ≡ utc r.time)
        × ((text : String) × (row.report ≡ json_text text) × (J.loads text ≡ J.loads r.report))
        × (row.computed_at ≡ utc r.computed_at)

    pub record ReadsReports : Type 0 where
      pub reports : DB.State → List (Report N)
      pub selected :
          (id : String) (s : DB.State) (row : Option SnapshotRow)
          → (DB.select_latest id s).0 ≡ ok row
          → Fetched (latest N id (reports s)) row

    module _ (isoformat : ℕ → String) (law : ReadsReports) where
      respond-latest :
          (r : Report N) (row : Option SnapshotRow) (missing : Exception) (s : DB.State)
          (json : Json) (report : J.StrategyReport)
          → Fetched (some r) row
          → str_eq r.strategy_id "" ≡ false
          → J.loads r.report ≡ some json
          → J.model_validate json ≡ some report
          → (t : ℕ) × ((respond N J isoformat DB missing r.strategy_id row s).0
              ≡ ok (record {
                strategy_id = r.strategy_id;
                as_of = utc r.time;
                report = report;
                computed_at = utc t;
              }))
      respond-latest r none missing s json report f named loaded valid = absurd f
      respond-latest r (some row) missing s json report (time, (text, column, same), computed) named
            loaded valid =
          (r.computed_at, rw (column, same, loaded, valid, time, computed, named) refl)

      -- After the upsert of a report than which none of its strategy is newer.
      pub get_latest_report-stored :
          (r : Report N) (before : List (Report N)) (s : DB.State) (json : Json)
          (report : J.StrategyReport) (row : Option SnapshotRow)
          → law.reports s ≡ put_report N r before
          → NoneNewer r.time r.strategy_id before
          → str_eq r.strategy_id "" ≡ false
          → J.loads r.report ≡ some json
          → J.model_validate json ≡ some report
          → (DB.select_latest r.strategy_id s).0 ≡ ok row
          → (t : ℕ) × ((get_latest_report N J isoformat DB r.strategy_id s).0
              ≡ ok (record {
                strategy_id = r.strategy_id;
                as_of = utc r.time;
                report = report;
                computed_at = utc t;
              }))
      unfolding get_latest_report
      get_latest_report-stored r before s json report row read oldest named loaded valid answered =
          let id = r.strategy_id in
          let stored : latest N id (law.reports s) ≡ some r =
            ap (latest N id) read ∙ latest-put_report r before oldest in
          let fetched : Fetched (some r) row = rw (← stored) (law.selected id s row answered) in
          rw answered (respond-latest r row _ _ json report fetched named loaded valid)

      module _ (str_decimal : N.Decimal → String) (str_nat : ℕ → String)
          (PG : Postgres N str_decimal str_nat) (atomic : IsAtomic N str_decimal str_nat PG) where
        open atomic use {tables}

        -- The row of `strategy_report_snapshot` that a payload with the given report becomes.
        abbrev pub report_of : ℕ → StrategyPayload N → String → Report N
        report_of now payload text = record {
          time = payload.strategy_metadata.last_updated;
          strategy_id = payload.strategy_metadata.id;
          report = text;
          computed_at = now;
        }

        written-reports :
            (payload : StrategyPayload N) (s : PG.State) (text : String)
            → payload.parsed_report ≡ some text
            → (persist_daily_report N str_decimal str_nat PG payload s).0 ≡ ok tt
            → (now : ℕ) × ((tables (persist_daily_report N str_decimal str_nat PG payload s).1).1
                ≡ put_report N (report_of now payload text) (tables s).1)
        written-reports payload s text parsed done =
            let (now, e) =
              Atomic-done N str_decimal str_nat PG atomic payload s _
                (persist_daily_report-Atomic N str_decimal str_nat PG atomic payload s) done in
            (
              now,
              ap (λ t. t.1) e
                  ∙ with_report-parsed N str_decimal str_nat now payload text (tables s).1 parsed,
            )

        -- With a database that does what it documents: when a payload with a report of the strategy
        -- has been persisted, no stored report of the strategy was of a later time, and the text of
        -- the report still parses, then `get_latest_report` on those tables, where its statement
        -- succeeds, answers that report with the time of the payload.
        pub get_latest_report-persisted :
            (payload : StrategyPayload N) (s : PG.State) (s' : DB.State) (text : String)
            (json : Json) (report : J.StrategyReport) (row : Option SnapshotRow)
            → let id = payload.strategy_metadata.id in
              payload.parsed_report ≡ some text
              → (persist_daily_report N str_decimal str_nat PG payload s).0 ≡ ok tt
              → law.reports s'
                ≡ (tables (persist_daily_report N str_decimal str_nat PG payload s).1).1
              → NoneNewer payload.strategy_metadata.last_updated id (tables s).1
              → str_eq id "" ≡ false
              → J.loads text ≡ some json
              → J.model_validate json ≡ some report
              → (DB.select_latest id s').0 ≡ ok row
              → (t : ℕ) × ((get_latest_report N J isoformat DB id s').0
                  ≡ ok (record {
                    strategy_id = id;
                    as_of = utc payload.strategy_metadata.last_updated;
                    report = report;
                    computed_at = utc t;
                  }))
        get_latest_report-persisted payload s s' text json report row parsed done read oldest named
              loaded valid answered =
            let (now, stored) = written-reports payload s text parsed done in
            get_latest_report-stored (report_of now payload text) (tables s).1 s' json report row
              (read ∙ stored) oldest named loaded valid answered
