-- ===== src/StrategyReports/Items.antt =====
-- The rows of the statements of services/strategy_report_service.py, and the items of its answers with
-- their validators.
use quant_api_gateway.Prelude.{
  ℕ, suc, String, Bool, true, false, not, ◌&&◌, Option, none, some, List, [], ◌∷◌, str_eq, leb,
  Result, ok, err,
}
use quant_api_gateway.Json.{Json, Fields}
use quant_api_gateway.Effects.{Exception, service, other, service_error}
use quant_api_gateway.Numbers.{Numbers}
use quant_api_gateway.StrategyReports.Dates.{Datetime, as_utc, require_utc}
use quant_api_gateway.StrategyReports.Rows.{ℤ, pos, negsuc, is_round_trip}

-- A `report` column as asyncpg hands it out: its text, a dict, or a value of another type.
pub data Column : Type 0 where
  json_text type_name : String → Column
  dict : Fields → Column

-- `json.loads` (`none`: `JSONDecodeError`) and `StrategyReport.model_validate` (`none`: it raises).
pub record Schema : Type 1 where
  pub StrategyReport : Type 0
  pub loads : String → Option Json
  pub model_validate : Json → Option StrategyReport

pub record SnapshotRow : Type 0 where
  pub time : Datetime
  pub report : Column
  pub computed_at : Datetime

abbrev pub corrupt : String → List String → Exception
corrupt template args = service service_error (record { template = template; args = args })

abbrev pub when : {A : Type 0} → Bool → A → Result Exception A
when true a = ok a
when false a = err other

-- A list comprehension whose element may raise.
module _ {A B : Type 0} (f : A → Result Exception B) where
  abbrev pub prepend : Result Exception B → Result Exception (List B) → Result Exception (List B)
  prepend (ok b) (ok bs) = ok (b ∷ bs)
  prepend (ok b) (err e) = err e
  prepend (err e) rest = err e

  abbrev pub each : List A → Result Exception (List B)
  each [] = ok []
  each (a ∷ items) = prepend (f a) (each items)

module _ (N : Numbers) where
  -- A row of the page of trades, as its statement selects it.
  pub record TradeRow : Type 0 where
    pub time : Datetime
    pub symbol : String
    pub side : String
    pub quantity : N.Float
    pub entry_price : N.Float
    pub exit_price : N.Float
    pub realized_pnl : N.Float
    pub duration_bars : ℤ
    pub commission : N.Float

  pub record TradeLogEntry : Type 0 where
    pub entry_time : Datetime
    pub exit_time : Datetime
    pub symbol : String
    pub side : String
    pub qty : N.Decimal
    pub entry_price : N.Decimal
    pub exit_price : N.Decimal
    pub realized_pnl : N.Decimal
    pub duration_bars : ℤ
    pub commission : N.Decimal

  pub record TradeLogPage : Type 0 where
    pub items : List TradeLogEntry
    pub total : ℕ
    pub limit : ℤ
    pub offset : ℤ

  pub record SampleRow : Type 0 where
    pub time : Datetime
    pub equity : N.Float

  pub record BenchmarkPoint : Type 0 where
    pub date : Datetime
    pub value : N.Decimal

  abbrev pub is_natural : ℤ → Bool
  is_natural (pos n) = true
  is_natural (negsuc n) = false

  abbrev pub is_utc : Result Exception Datetime → Bool
  is_utc (ok t) = true
  is_utc (err e) = false

  -- The validation of `TradeLogEntry`.
  abbrev pub is_entry : TradeLogEntry → Bool
  is_entry e =
      is_utc (require_utc e.entry_time)
      && is_utc (require_utc e.exit_time)
      && not (str_eq e.symbol "")
      && is_round_trip N e.side
      && is_natural e.duration_bars

  abbrev pub entry_of : TradeRow → TradeLogEntry
  entry_of row = record {
    entry_time = as_utc row.time;
    exit_time = as_utc row.time;
    symbol = row.symbol;
    side = row.side;
    qty = N.decimal_of row.quantity;
    entry_price = N.decimal_of row.entry_price;
    exit_price = N.decimal_of row.exit_price;
    realized_pnl = N.decimal_of row.realized_pnl;
    duration_bars = row.duration_bars;
    commission = N.decimal_of row.commission;
  }

  abbrev pub row_to_trade : TradeRow → Result Exception TradeLogEntry
  row_to_trade row = when (is_entry (entry_of row)) (entry_of row)

  -- `BenchmarkPoint(date=…, value=…)`
  abbrev pub point_at : Datetime → N.Decimal → Result Exception BenchmarkPoint
  point_at date value = when (is_utc (require_utc date)) (record { date = date; value = value })

  -- `limit < 1 or limit > 1000` and `offset < 0`
  abbrev pub limit_ok : ℤ → Bool
  limit_ok (pos n) = leb 1 n && leb n 1000
  limit_ok (negsuc n) = false

  abbrev pub absolute : ℤ → ℕ
  absolute (pos n) = n
  absolute (negsuc n) = suc n

  abbrev pub total_or_zero : Option ℕ → ℕ
  total_or_zero none = 0
  total_or_zero (some n) = n
