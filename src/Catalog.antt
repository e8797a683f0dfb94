-- ===== src/Catalog.antt =====
-- api/v2/engines/catalog.py: the list of engines, from the table `engine_registry` or, whatever goes
-- wrong there, from a list in the code.
pub mod Laws
use quant_api_gateway.Prelude.{String, Option, none, some, List, [], ◌∷◌, Result, ok, err}
use quant_api_gateway.Effects.{M, Exception, other, pure, lift, catch, continue, ◌>>=◌}

pub record EngineEntry : Type 0 where
  pub slug : String
  pub type_name : String
  pub status : String
  pub description : String

-- A row of the table: its four columns, each `none` where it is not a text.
pub record Row : Type 0 where
  pub slug : Option String
  pub type_name : Option String
  pub status : Option String
  pub description : Option String

-- `EngineEntry(slug=row["slug"], …)`, which raises `ValidationError` on a column of another type.
abbrev entry_of_columns :
    Option String → Option String → Option String → Option String → Result Exception EngineEntry
entry_of_columns (some slug) (some type_name) (some status) (some description) =
    ok (record { slug = slug; type_name = type_name; status = status; description = description })
entry_of_columns _ _ _ _ = err other

abbrev pub entry_of : Row → Result Exception EngineEntry
entry_of row = entry_of_columns row.slug row.type_name row.status row.description

abbrev pub put_first :
    Result Exception EngineEntry
    → Result Exception (List EngineEntry)
    → Result Exception (List EngineEntry)
put_first (ok e) (ok entries) = ok (e ∷ entries)
put_first (ok e) (err x) = err x
put_first (err x) rest = err x

abbrev pub entries_of : List Row → Result Exception (List EngineEntry)
entries_of [] = ok []
entries_of (row ∷ rows) = put_first (entry_of row) (entries_of rows)

abbrev engine : String → String → String → String → EngineEntry
engine slug type_name status description = record {
  slug = slug;
  type_name = type_name;
  status = status;
  description = description;
}

-- `_STATIC_CATALOG`
abbrev pub static_catalog : List EngineEntry
static_catalog =
    engine "market-data" "EXTERNAL" "active"
      "Standalone quant-marketdata-engine (host :8300), gateway-proxied; canonical OHLCV via settfex + tvkit"
    ∷ engine "backtest" "EXTERNAL" "active" "Wraps csm-set walk-forward backtesting"
    ∷ engine "portfolio" "INTERNAL" "active"
        "Aggregation, snapshots, equity curves, strategy reports"
    ∷ engine "signals" "EXTERNAL" "dormant" "Signal generation pipeline (future)"
    ∷ engine "execution" "EXTERNAL" "active"
        "Standalone quant-execution-engine (host :8400), gateway-proxied; canonical order router (sim-first), no broker credential in the gateway"
    ∷ engine "orderbook" "EXTERNAL" "active"
        "Standalone quant-orderbook-engine (host :8600), gateway-proxied; durable L2/T&S capture + derived greeks/features (read-only, market-data plane)"
    ∷ engine "crypto" "EXTERNAL" "active"
        "Standalone quant-crypto-engine (host :9100), gateway-proxied; durable 24/7 crypto L2/T&S capture — Binance TH/Global + Bitkub (read-only, market-data plane)"
    ∷ []

module _ (W : Type 0) (get_pool : M W (Unit {0})) (fetch : M W (List Row)) where
  -- `if rows: return […]`
  abbrev if_rows : List Row → M W (Option (List EngineEntry))
  if_rows [] = pure none
  if_rows (row ∷ rows) = lift (entries_of (row ∷ rows)) >>= λ entries. pure (some entries)

  abbrev or_static : Option (List EngineEntry) → List EngineEntry
  or_static none = static_catalog
  or_static (some entries) = entries

  abbrev pub after_read : Result Exception (List Row) × W → Result Exception (List EngineEntry) × W
  after_read (r, w) =
      let (found, w') = catch (lift r >>= if_rows) (λ exc. some (pure none)) w in
      (continue found (λ f. pure (or_static f)) w')

  unfoldable pub get_catalog : M W (List EngineEntry)
  get_catalog w = after_read ((get_pool >>= λ _. fetch) w)
