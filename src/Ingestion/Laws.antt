-- ===== src/Ingestion/Laws.antt =====
-- How the write of a report to services/ingestion.py's two tables ends, and what a second one does.
use quant_api_gateway.Prelude.{
  ℕ, String, ◌≡◌, refl, ap, ◌∙◌, ◌≢◌, ◌⊎◌, inl, inr, Option, none, some, List, [], ◌∷◌,
  if◌then◌else◌, Result, ok, err,
}
use quant_api_gateway.Http.{Message}
use quant_api_gateway.Effects.{
  M, Exception, service, http, service_error, registry_load_error, unknown_strategy_error,
  ingestion_persist_error, aggregation_error, cache_error, report_not_found_error, handle, continue,
  ◌>>◌, is_postgres_error, raise,
}
use quant_api_gateway.Numbers.{Numbers}
use quant_api_gateway.Ingestion.{
  Row, StrategyPayload, Postgres, payload_to_row, persist_report, report_if_any, on_failure,
  persist_daily_report,
}
use quant_api_gateway.Ingestion.Upserts.{put_row, put_report, Tables, Report, with_report}

module _ (N : Numbers) where
  module _ (str_decimal : N.Decimal → String) (str_nat : ℕ → String) where
    -- With a report, the row put into `strategy_report_snapshot` carries the payload's key.
    pub with_report-parsed :
        (now : ℕ) (payload : StrategyPayload N) (text : String) (reports : List (Report N))
        → payload.parsed_report ≡ some text
        → with_report N now
            (payload_to_row N str_decimal str_nat payload)
            payload.parsed_report
            reports
          ≡ put_report N
              (record {
                time = payload.strategy_metadata.last_updated;
                strategy_id = payload.strategy_metadata.id;
                report = text;
                computed_at = now;
              })
              reports
    unfolding payload_to_row
    with_report-parsed now payload text reports parsed = rw parsed refl

    -- The tables after an upsert of the payload at the time `now`.
    abbrev pub written : ℕ → StrategyPayload N → Tables N → Tables N
    written now payload (rows, reports) =
        let row = payload_to_row N str_decimal str_nat payload in
        (put_row N row rows, with_report N now row payload.parsed_report reports)

    abbrev pub Written : StrategyPayload N → Tables N → Tables N → Type 0
    Written payload t t' = (now : ℕ) × (t' ≡ written now payload t)

    -- What PostgreSQL and asyncpg document: the two statements do what their SQL says, a transaction
    -- that ends runs its block on the tables it finds and keeps what the block did, and one that
    -- raises leaves the tables as they were.
    pub record IsAtomic (DB : Postgres N str_decimal str_nat) : Type 0 where
      pub tables : DB.State → Tables N
      pub performance_written :
          (row : Row N) (s : DB.State)
          → (DB.insert_performance row s).0 ≡ ok tt
          → tables (DB.insert_performance row s).1 ≡ (put_row N row (tables s).0, (tables s).1)
      pub report_written :
          (time : ℕ) (id report : String) (s : DB.State)
          → (DB.insert_report time id report s).0 ≡ ok tt
          → (now : ℕ) × (tables (DB.insert_report time id report s).1 ≡ (
            (tables s).0,
            put_report N
                (record { time = time; strategy_id = id; report = report; computed_at = now })
                (tables s).1,
          ))
      pub committed :
          (block : M DB.State (Unit {0})) (s : DB.State)
          → (DB.transaction block s).0 ≡ ok tt
          → (t : DB.State) × (tables t ≡ tables s)
            × ((block t).0 ≡ ok tt)
            × (tables (DB.transaction block s).1 ≡ tables (block t).1)
      pub rolled_back :
          (block : M DB.State (Unit {0})) (s : DB.State) (e : Exception)
          → (DB.transaction block s).0 ≡ err e
          → tables (DB.transaction block s).1 ≡ tables s

    module _ (DB : Postgres N str_decimal str_nat) (law : IsAtomic DB) where
      open law use {tables}

      not_raised :
          (r : Result Exception (Unit {0})) (h : Exception → Option (M DB.State (Unit {0})))
          (t : DB.State)
          → ((e : Exception) → (handle (err e) h t).0 ≢ ok tt)
          → (handle r h t).0 ≡ ok tt
          → (r ≡ ok tt) × (handle r h t ≡ (ok tt, t))
      not_raised (ok _) h t never e = (refl, refl)
      not_raised (err e) h t never h' = absurd (never e h')

      -- `e` was raised: the handler of `persist_report` does not make an answer of it.
      report_never :
          (id : String) (e : Exception) (t : DB.State)
          → (handle
              (err e)
              (λ e.
                if is_postgres_error e
                then some (
                    raise (
                      service service_error (record {
                        template = "failed to persist strategy_report_snapshot for {!r}";
                        args = id ∷ [];
                      })))
                else none)
              t).0
            ≢ ok tt
      report_never id (service kind m) t = λ h. cc
      report_never id (http e) t = λ h. cc
      report_never id Exception.postgres t = λ h. cc
      report_never id Exception.other t = λ h. cc

      persist_report-written :
          (id report : String) (time : ℕ) (s : DB.State)
          → (persist_report N str_decimal str_nat DB id report time s).0 ≡ ok tt
          → (now : ℕ) × (tables (persist_report N str_decimal str_nat DB id report time s).1 ≡ (
            (tables s).0,
            put_report N
                (record { time = time; strategy_id = id; report = report; computed_at = now })
                (tables s).1,
          ))
      unfolding persist_report
      persist_report-written id report time s h =
          let reply = DB.insert_report time id report s in
          let (done, same) = not_raised reply.0 _ reply.1 (λ e. report_never id e reply.1) h in
          let (now, stored) = law.report_written time id report s done in
          (now, ap (λ x. tables x.1) same ∙ stored)

      report_if_any-written :
          (row : Row N) (report : Option String) (s : DB.State)
          → (report_if_any N str_decimal str_nat DB row report s).0 ≡ ok tt
          → (now : ℕ) × (tables (report_if_any N str_decimal str_nat DB row report s).1
              ≡ ((tables s).0, with_report N now row report (tables s).1))
      report_if_any-written row none s h = (0, refl)
      report_if_any-written row (some report) s h =
          persist_report-written row.strategy_id report row.time s h

      block_after :
          (row : Row N) (report : Option String) (x : Result Exception (Unit {0}) × DB.State)
          (rows : List (Row N)) (reports : List (Report N))
          → (x.0 ≡ ok tt → tables x.1 ≡ (rows, reports))
          → (continue x.0 (λ _. report_if_any N str_decimal str_nat DB row report) x.1).0 ≡ ok tt
          → (now : ℕ) × (tables
                (continue x.0 (λ _. report_if_any N str_decimal str_nat DB row report) x.1).1
              ≡ (rows, with_report N now row report reports))
      block_after row report (ok _, t) rows reports written h =
          let (now, stored) = report_if_any-written row report t h in
          (now, stored ∙ ap (λ x. (x.0, with_report N now row report x.1)) (written refl))
      block_after row report (err e, t) rows reports written h = cc

      block-written :
          (row : Row N) (report : Option String) (s : DB.State)
          → let block =
              DB.insert_performance row >> report_if_any N str_decimal str_nat DB row report in
            (block s).0 ≡ ok tt
            → (now : ℕ) × (tables (block s).1
                ≡ (put_row N row (tables s).0, with_report N now row report (tables s).1))
      block-written row report s h =
          block_after row report (DB.insert_performance row s) (put_row N row (tables s).0)
            (tables s).1 (law.performance_written row s) h

      -- Every exception leaves `persist_daily_report` as an `IngestionPersistError`.
      abbrev pub Failed : Result Exception (Unit {0}) → Type 0
      Failed r = (m : Message) × (r ≡ err (service ingestion_persist_error m))

      on_failure-Failed :
          (id : String) (e : Exception) (t : DB.State)
          → Failed (handle (err e) (on_failure N str_decimal str_nat DB id) t).0
            × ((handle (err e) (on_failure N str_decimal str_nat DB id) t).1 ≡ t)
      on_failure-Failed id (service service_error m) t = ((_, refl), refl)
      on_failure-Failed id (service registry_load_error m) t = ((_, refl), refl)
      on_failure-Failed id (service unknown_strategy_error m) t = ((_, refl), refl)
      on_failure-Failed id (service ingestion_persist_error m) t = ((m, refl), refl)
      on_failure-Failed id (service aggregation_error m) t = ((_, refl), refl)
      on_failure-Failed id (service cache_error m) t = ((_, refl), refl)
      on_failure-Failed id (service report_not_found_error m) t = ((_, refl), refl)
      on_failure-Failed id (http e) t = ((_, refl), refl)
      on_failure-Failed id Exception.postgres t = ((_, refl), refl)
      on_failure-Failed id Exception.other t = ((_, refl), refl)

      -- How a write ends: whole, or failed with the tables as they were.
      abbrev pub Atomic :
          StrategyPayload N → DB.State → Result Exception (Unit {0}) × DB.State → Type 0
      Atomic payload s x =
          ((x.0 ≡ ok tt) × Written payload (tables s) (tables x.1))
          ⊎ (Failed x.0 × (tables x.1 ≡ tables s))

      settle :
          (payload : StrategyPayload N) (s : DB.State) (id : String)
          (x : Result Exception (Unit {0}) × DB.State)
          → (x.0 ≡ ok tt → Written payload (tables s) (tables x.1))
          → ((e : Exception) → x.0 ≡ err e → tables x.1 ≡ tables s)
          → Atomic payload s (handle x.0 (on_failure N str_decimal str_nat DB id) x.1)
      settle payload s id (ok _, t) whole back = inl (refl, whole refl)
      settle payload s id (err e, t) whole back =
          let (failed, same) = on_failure-Failed id e t in
          inr (failed, ap tables same ∙ back e refl)

      -- With a database that does what it documents, persisting a payload either succeeds and has
      -- upserted the row of the payload and, when it carries a parsed report, the report, or raises
      -- `IngestionPersistError` with both tables as they were.
      pub persist_daily_report-Atomic :
          (payload : StrategyPayload N) (s : DB.State)
          → Atomic payload s (persist_daily_report N str_decimal str_nat DB payload s)
      unfolding persist_daily_report
      persist_daily_report-Atomic payload s =
          let row = payload_to_row N str_decimal str_nat payload in
          let block =
            DB.insert_performance row
            >> report_if_any N str_decimal str_nat DB row payload.parsed_report in
          settle payload s row.strategy_id (DB.transaction block s)
            (λ done.
              let (t, found, ended, kept) = law.committed block s done in
              let (now, stored) = block-written row payload.parsed_report t ended in
              (now, kept ∙ stored ∙ ap (written now payload) found))
            (λ e raised. law.rolled_back block s e raised)

      pub Atomic-done :
          (payload : StrategyPayload N) (s : DB.State) (x : Result Exception (Unit {0}) × DB.State)
          → Atomic payload s x
          → x.0 ≡ ok tt
          → Written payload (tables s) (tables x.1)
      Atomic-done payload s x (inl (_, e)) done = e
      Atomic-done payload s x (inr ((m, failed), _)) done = cc
