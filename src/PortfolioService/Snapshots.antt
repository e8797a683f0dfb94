-- ===== src/PortfolioService/Snapshots.antt =====
-- The reads of `portfolio_snapshot` in services/portfolio.py. asyncpg and `json.loads` are parameters;
-- a column is a value of its type, and its `Decimal(str(…))` a parameter too.
use quant_api_gateway.Prelude.{
  ℕ, ◌+◌, ◌-◌, ◌^◌, String, Bool, true, not, ◌&&◌, Option, none, some, List, [], ◌∷◌, ltb, leb,
  if◌then◌else◌, Result, ok, err,
}
use quant_api_gateway.Effects.{
  M, Exception, service, other, service_error, is_postgres_error, pure, raise, lift, catch, ◌>>=◌,
}
use quant_api_gateway.Aggregator.{Dict}
use quant_api_gateway.StrategyReports.Dates.{Datetime, as_utc, naive, utc, zoned, date_of}
use quant_api_gateway.StrategyReports.Items.{when, each}
use quant_api_gateway.Formatting.{Decimal, is_negative, quantize_even}

pub record PortfolioSnapshotResponse : Type 0 where
  pub snapshot_date : ℕ
  pub total_portfolio_value : Decimal
  pub weighted_daily_return : Decimal
  pub combined_drawdown : Option Decimal
  pub active_strategies : ℕ
  pub allocation : Dict Decimal
  pub computed_at : Datetime

-- A column of floats as asyncpg hands it out, and what `Decimal(str(value))` makes of it: `none` for
-- a value that is not finite.
pub record Columns : Type 1 where
  pub Value : Type 0
  pub decimal : Value → Option Decimal
  -- `json.loads` of the allocation (`none`: `JSONDecodeError`), and its `isinstance(…, dict)` with
  -- the values of its items
  pub Loaded : Type 0
  pub loads : String → Option Loaded
  pub items : Loaded → Option (Dict Value)

-- `max_digits` and `decimal_places` of a field.
abbrev fits : ℕ → ℕ → Decimal → Bool
fits max_digits decimal_places d =
    leb d.places decimal_places
    && ltb d.coefficient (10 ^ (d.places + (max_digits - decimal_places)))

abbrev fits_if_any : ℕ → ℕ → Option Decimal → Bool
fits_if_any max_digits decimal_places none = true
fits_if_any max_digits decimal_places (some d) = fits max_digits decimal_places d

abbrev is_snapshot : PortfolioSnapshotResponse → Bool
is_snapshot r =
    fits 18 4 r.total_portfolio_value
    && not (is_negative r.total_portfolio_value)
    && fits 8 6 r.weighted_daily_return
    && fits_if_any 8 4 r.combined_drawdown

-- The date of an instant in its own zone: of one in another zone, a parameter's.
abbrev date_in : (ℕ → ℕ) → Datetime → ℕ
date_in local (naive t) = date_of t
date_in local (utc t) = date_of t
date_in local (zoned t) = local t

module _ (C : Columns) where
  -- The `allocation` column: a text, a dict, or something else.
  pub data Allocation : Type 0 where
    raw : String → Allocation
    parsed : Dict C.Value → Allocation
    neither : Allocation

  pub record Row : Type 0 where
    pub time : Datetime
    pub total_portfolio : C.Value
    pub weighted_return : C.Value
    pub combined_drawdown : Option C.Value
    pub active_strategies : ℕ
    pub allocation : Allocation

  abbrev quantized : ℕ → Option Decimal → Result Exception Decimal
  quantized places none = err other
  quantized places (some d) = quantize_even d places

  abbrev to_decimal : C.Value → ℕ → Result Exception Decimal
  to_decimal value places = quantized places (C.decimal value)

  abbrev some_of : Result Exception Decimal → Result Exception (Option Decimal)
  some_of (ok d) = ok (some d)
  some_of (err e) = err e

  abbrev to_decimal_if_any : Option C.Value → ℕ → Result Exception (Option Decimal)
  to_decimal_if_any none places = ok none
  to_decimal_if_any (some value) places = some_of (to_decimal value places)

  abbrev dict_or_empty : Option (Dict C.Value) → Dict C.Value
  dict_or_empty none = []
  dict_or_empty (some d) = d

  abbrev loaded : Option C.Loaded → Result Exception (Dict C.Value)
  loaded none = err other
  loaded (some j) = ok (dict_or_empty (C.items j))

  abbrev allocation_of : Allocation → Result Exception (Dict C.Value)
  allocation_of (raw text) = loaded (C.loads text)
  allocation_of (parsed d) = ok d
  allocation_of neither = ok []

  abbrev keyed : String → Result Exception Decimal → Result Exception (String × Decimal)
  keyed k (ok d) = ok (k, d)
  keyed k (err e) = err e

  abbrev share : String × C.Value → Result Exception (String × Decimal)
  share (k, v) = keyed k (to_decimal v 4)

  module _ {W : Type 0} (local : ℕ → ℕ) where
    unfoldable pub row_to_snapshot_response : Row → M W PortfolioSnapshotResponse
    row_to_snapshot_response row = do
      allocation_raw ← lift (allocation_of row.allocation)
      total ← lift (to_decimal row.total_portfolio 2)
      weighted ← lift (to_decimal row.weighted_return 6)
      drawdown ← lift (to_decimal_if_any row.combined_drawdown 4)
      allocation ← lift (each share allocation_raw)
      let computed_at = as_utc row.time
      let r : PortfolioSnapshotResponse = record {
        snapshot_date = date_in local computed_at;
        total_portfolio_value = total;
        weighted_daily_return = weighted;
        combined_drawdown = drawdown;
        active_strategies = row.active_strategies;
        allocation = allocation;
        computed_at = computed_at;
      }
      lift (when (is_snapshot r) r)

  -- asyncpg: the three statements, each on a connection of the pool.
  pub record Snapshots : Type 1 where
    pub State : Type 0
    pub select_latest : M State (Option Row)
    pub select_on_date : ℕ → M State (Option Row)
    pub select_before : ℕ → M State (Option Row)

  module _ (local : ℕ → ℕ) (isoformat : ℕ → String) (DB : Snapshots) where
    abbrev pub failing : {A : Type 0} → String → List String → M DB.State A → M DB.State A
    failing template args m = catch m (λ e.
        if is_postgres_error e
        then some (raise (service service_error (record { template = template; args = args })))
        else none)

    abbrev pub if_any : Option Row → M DB.State (Option PortfolioSnapshotResponse)
    if_any none = pure none
    if_any (some row) = do response ← row_to_snapshot_response local row; pure (some response)

    unfoldable pub query_latest_snapshot : M DB.State (Option PortfolioSnapshotResponse)
    query_latest_snapshot =
        failing "failed to query portfolio_snapshot" [] DB.select_latest >>= if_any

    unfoldable pub query_snapshot_by_date : ℕ → M DB.State (Option PortfolioSnapshotResponse)
    query_snapshot_by_date snapshot_date =
        failing "failed to query portfolio_snapshot for {}" (isoformat snapshot_date ∷ [])
          (DB.select_on_date snapshot_date)
        >>= if_any

    unfoldable pub query_previous_snapshot : ℕ → M DB.State (Option PortfolioSnapshotResponse)
    query_previous_snapshot before_date =
        failing "failed to query previous portfolio_snapshot before {}" (isoformat before_date ∷ [])
          (DB.select_before before_date)
        >>= if_any
