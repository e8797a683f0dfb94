-- ===== src/StrategyReports/Rows.antt =====
-- The tables that services/strategy_report_service.py reads, and what its SELECT statements say of
-- them. `strategy_report_snapshot` is the table of reports of the ingestion.
use quant_api_gateway.Prelude.{
  ℕ, zero, suc, String, Bool, ◌&&◌, ◌||◌, Option, none, some, List, [], ◌∷◌, str_eq, ltb, ◌==◌,
  if◌then◌else◌,
}
use quant_api_gateway.Numbers.{Numbers}
use quant_api_gateway.Ingestion.Upserts.{Report}
use quant_api_gateway.StrategyReports.Dates.{in_window, date_of}

-- An `integer` column.
pub data ℤ : Type 0 where
  pos negsuc : ℕ → ℤ

module _ (N : Numbers) where
  -- A row of `trade_history`.
  pub record Trade : Type 0 where
    pub time : ℕ
    pub strategy_id : String
    pub symbol : String
    pub side : String
    pub quantity : N.Float
    pub price : N.Float
    pub entry_price : Option N.Float
    pub exit_price : Option N.Float
    pub realized_pnl : Option N.Float
    pub duration_bars : Option ℤ
    pub commission : Option N.Float

  -- A row of `benchmark_equity_curve`.
  pub record Sample : Type 0 where
    pub time : ℕ
    pub strategy_id : String
    pub equity : N.Float

  -- `side IN ('LONG', 'SHORT')`
  abbrev pub is_round_trip : String → Bool
  is_round_trip side = str_eq side "LONG" || str_eq side "SHORT"

  -- The WHERE clause of the two statements on `trade_history`.
  abbrev is_hit : String → Option ℕ → Option ℕ → Trade → Bool
  is_hit strategy_id lower upper t =
      str_eq t.strategy_id strategy_id && in_window lower upper t.time && is_round_trip t.side

  abbrev pub hits : String → Option ℕ → Option ℕ → List Trade → List Trade
  hits strategy_id lower upper [] = []
  hits strategy_id lower upper (t ∷ trades) =
      let rest = hits strategy_id lower upper trades in
      if is_hit strategy_id lower upper t then t ∷ rest else rest

  -- The WHERE clause on `benchmark_equity_curve`.
  abbrev pub samples : String → Option ℕ → Option ℕ → List Sample → List Sample
  samples strategy_id lower upper [] = []
  samples strategy_id lower upper (p ∷ curve) =
      let rest = samples strategy_id lower upper curve in
      if str_eq p.strategy_id strategy_id && in_window lower upper p.time then p ∷ rest else rest

  -- `ORDER BY time DESC LIMIT 1`: of rows of one time, which a unique key excludes, the first.
  abbrev pub newer : Report N → Option (Report N) → Report N
  newer r none = r
  newer r (some q) = if ltb r.time q.time then q else r

  abbrev pub latest : String → List (Report N) → Option (Report N)
  latest strategy_id [] = none
  latest strategy_id (r ∷ reports) =
      let rest = latest strategy_id reports in
      if str_eq r.strategy_id strategy_id then some (newer r rest) else rest

  -- The same, with `time::date = $2`.
  abbrev latest_on : String → ℕ → List (Report N) → Option (Report N)
  latest_on strategy_id date [] = none
  latest_on strategy_id date (r ∷ reports) =
      let rest = latest_on strategy_id date reports in
      if str_eq r.strategy_id strategy_id && date_of r.time == date
      then some (newer r rest)
      else rest

-- `LIMIT` and `OFFSET`.
module _ {A : Type 0} where
  abbrev pub take : ℕ → List A → List A
  take zero xs = []
  take (suc n) [] = []
  take (suc n) (x ∷ xs) = x ∷ take n xs

  abbrev pub drop : ℕ → List A → List A
  drop zero xs = xs
  drop (suc n) [] = []
  drop (suc n) (x ∷ xs) = drop n xs
