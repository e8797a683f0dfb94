-- ===== src/Tests/TradeLog.antt =====
-- The read side of strategy reports over tables in memory.
use quant_api_gateway.Prelude.{
  ℕ, String, ◌≡◌, refl, true, false, Option, none, some, List, [], ◌∷◌, map, arith, length, ok,
  if◌then◌else◌, ◌≤◌, inl, Bool-cases, leb, inr,
}
use quant_api_gateway.Json.{text}
use quant_api_gateway.Ingestion.{persist_daily_report}
use quant_api_gateway.Ingestion.Upserts.{Report}
use quant_api_gateway.StrategyReports.Dates.{utc, upper_bound}
use quant_api_gateway.StrategyReports.Rows.{
  ℤ, pos, Trade, Sample, hits, samples, take, drop, latest,
}
use quant_api_gateway.StrategyReports.Items.{
  Schema, SnapshotRow, json_text, SampleRow, TradeLogPage, each, row_to_trade, limit_ok, is_natural,
}
use quant_api_gateway.StrategyReports.Reads.{Pools, list_trades, get_benchmark_curve}
use quant_api_gateway.StrategyReports.Trades.{select_trade, ReadsTrades, IsPage, list_trades-IsPage}
use quant_api_gateway.StrategyReports.Ordered.{Strict, Into, AllBefore, Descending, Ordered}
use quant_api_gateway.StrategyReports.Walk.{walk, walk-all}
use quant_api_gateway.StrategyReports.Latest.{Fetched, ReadsReports}
use quant_api_gateway.StrategyReports.Benchmark.{rebased_answer, get_benchmark_curve-rebased}
use quant_api_gateway.Tests.Figures.{figures, no_text, database}
use quant_api_gateway.Tests.Reports.{payload, empty}

-- A report is its text, and a text its own JSON.
abbrev schema : Schema
schema = record {
  StrategyReport = String;
  loads = λ s. some (text s);
  model_validate = λ j. elim j [ text s ↦ some s | _ ↦ none ];
}

abbrev Store : Type 0
Store = List (Report figures) × List (Trade figures) × List (Sample figures)

abbrev fetched : Option (Report figures) → Option SnapshotRow
fetched none = none
fetched (some r) =
    some
      (record { time = utc r.time; report = json_text r.report; computed_at = utc r.computed_at })

abbrev sample_row : Sample figures → SampleRow figures
sample_row p = record { time = utc p.time; equity = p.equity }

-- The table sorted by its times.
abbrev put_by_time : Trade figures → List (Trade figures) → List (Trade figures)
put_by_time t [] = t ∷ []
put_by_time t (u ∷ us) =
    let rest = put_by_time t us in if leb u.time t.time then t ∷ u ∷ us else u ∷ rest

abbrev by_time : List (Trade figures) → List (Trade figures)
by_time [] = []
by_time (t ∷ ts) = put_by_time t (by_time ts)

put_by_time-Into :
    (t : Trade figures) (ts : List (Trade figures)) → Into figures t ts (put_by_time t ts)
put_by_time-Into t [] = inl (refl, refl)
put_by_time-Into t (u ∷ us) = elim (Bool-cases (leb u.time t.time)) [
  | inl e ↦ rw e (inl (refl, refl))
  | inr e ↦ rw e (inr (us, refl, put_by_time-Into t us))
]

AllBefore-trans :
    (t u : Trade figures) (us : List (Trade figures))
    → u.time ≤ t.time
    → AllBefore figures u us
    → AllBefore figures t us
AllBefore-trans t u [] h hs = tt
AllBefore-trans t u (v ∷ vs) h (h', hs) = (omega arith, AllBefore-trans t u vs h hs)

AllBefore-put :
    (t u : Trade figures) (us : List (Trade figures))
    → t.time ≤ u.time
    → AllBefore figures u us
    → AllBefore figures u (put_by_time t us)
AllBefore-put t u [] h hs = (h, tt)
AllBefore-put t u (v ∷ vs) h (h', hs) = elim (Bool-cases (leb v.time t.time)) [
  | inl e ↦ rw e (h, (h', hs))
  | inr e ↦ rw e (h', AllBefore-put t u vs h hs)
]

put_by_time-Descending :
    (t : Trade figures) (ts : List (Trade figures))
    → Descending figures ts
    → Descending figures (put_by_time t ts)
put_by_time-Descending t [] h = (tt, tt)
put_by_time-Descending t (u ∷ us) (h, hs) = elim (Bool-cases (leb u.time t.time)) [
  | inl e ↦
      let le : u.time ≤ t.time = ground arith in rw e ((le, AllBefore-trans t u us le h), (h, hs))
  | inr e ↦
      let le : t.time ≤ u.time = ground arith in
      rw e (AllBefore-put t u us le h, put_by_time-Descending t us hs)
]

by_time-Ordered : (ts : List (Trade figures)) → Ordered figures ts (by_time ts)
by_time-Ordered [] = (refl, tt)
by_time-Ordered (t ∷ ts) =
    let (same, h) = by_time-Ordered ts in
    ((by_time ts, put_by_time-Into t (by_time ts), same), put_by_time-Descending t (by_time ts) h)

abbrev pools : Pools figures schema
pools = record {
  State = Store;
  select_latest = λ id s. (ok (fetched (latest figures id s.0)), s);
  select_on_date = λ id date s. (ok none, s);
  count_trades = λ id lower upper s. (ok (some (length (hits figures id lower upper s.1))), s);
  select_page = λ id lower upper limit offset s. (
    ok (
        map (select_trade figures)
          (take limit (drop offset (by_time (hits figures id lower upper s.1))))),
    s,
  );
  select_benchmark =
      λ id lower upper s. (ok (map sample_row (samples figures id lower upper s.2)), s);
}

abbrev pools-ReadsTrades : ReadsTrades figures schema pools
pools-ReadsTrades = record {
  trades = λ s. s.1;
  counted = λ id lower upper s total h. cc;
  paged = λ id lower upper limit offset s rows h.
      let rows_of = hits figures id lower upper s.1 in
      (by_time rows_of, by_time-Ordered rows_of, cc);
  count_reads = λ id lower upper s. refl;
  page_reads = λ id lower upper limit offset s. refl;
}

fetched-Fetched : (o : Option (Report figures)) → Fetched figures schema pools o (fetched o)
fetched-Fetched none = tt
fetched-Fetched (some r) = (refl, (r.report, refl, refl), refl)

abbrev pools-ReadsReports : ReadsReports figures schema pools
pools-ReadsReports = record {
  reports = λ s. s.0;
  selected = λ id s row h.
      let same : fetched (latest figures id s.0) ≡ row = cc in
      rw (← same) (fetched-Fetched (latest figures id s.0));
}

abbrev trade_at : ℕ → String → Trade figures
trade_at time symbol = record {
  time = time;
  strategy_id = "a";
  symbol = symbol;
  side = "LONG";
  quantity = 10;
  price = 50;
  entry_price = none;
  exit_price = some 55;
  realized_pnl = some 50;
  duration_bars = some (pos 3);
  commission = none;
}

abbrev filled : Store
filled = (
  [],
  trade_at 172800000001 "PTT" ∷ trade_at 86400000000 "AOT" ∷ trade_at 5 "CPALL" ∷ [],
  record { time = 5; strategy_id = "a"; equity = 200 }
      ∷ record { time = 86400000005; strategy_id = "a"; equity = 250 }
      ∷ [],
)

abbrev iso : ℕ → String
iso date = ""

abbrev str_int : ℤ → String
str_int n = ""

abbrev one_trade : TradeLogPage figures
one_trade = record {
  items =
      record {
        entry_time = utc 86400000000;
        exit_time = utc 86400000000;
        symbol = "AOT";
        side = "LONG";
        qty = 10;
        entry_price = 50;
        exit_price = 55;
        realized_pnl = 50;
        duration_bars = pos 3;
        commission = 0;
      }
      ∷ [];
  total = 1;
  limit = pos 100;
  offset = pos 0;
}

list_trades-IsPage_example :
    (upper : Option ℕ) × (upper_bound (some 1) ≡ ok upper)
    × (limit_ok figures (pos 100) ≡ true)
    × (is_natural figures (pos 0) ≡ true)
    × IsPage figures schema pools iso pools-ReadsTrades "a"
        (some 86400000000)
        upper
        (pos 100)
        (pos 0)
        filled
        one_trade
    × (filled.1 ≡ filled.1)
unfolding list_trades
list_trades-IsPage_example =
    list_trades-IsPage figures schema pools iso pools-ReadsTrades str_int "a" (some 1) (some 1)
      (pos 100) (pos 0) filled one_trade refl

get_benchmark_curve-rebased_example :
    get_benchmark_curve figures schema iso pools "a" none none true filled ≡ (
      rebased_answer figures
          (get_benchmark_curve figures schema iso pools "a" none none false filled).0,
      filled,
    )
unfolding get_benchmark_curve
get_benchmark_curve-rebased_example =
    get_benchmark_curve-rebased figures schema iso pools "a" none none filled

filled-Strict : Strict figures filled.1
filled-Strict = ((omega arith, (omega arith, tt)), ((omega arith, tt), (tt, tt)))

walk-all_example :
    each (row_to_trade figures) (map (select_trade figures) (filled.1))
    ≡ (walk figures schema pools iso pools-ReadsTrades str_int "a" none none 2 4 0 filled).0
unfolding list_trades
walk-all_example =
    walk-all figures schema pools iso pools-ReadsTrades str_int "a" none none 2 4 none filled _
      filled.1 (omega arith) refl filled-Strict
      (_, inl (refl, refl), (_, inl (refl, refl), (_, inl (refl, refl), refl))) (omega arith) refl

after_ingest : Store
unfolding persist_daily_report
after_ingest =
    ((persist_daily_report figures no_text no_text database payload empty).1.1, filled.1, filled.2)
