-- ===== src/Settings.antt =====
-- src/config.py: the settings that are read from the environment, and `get_settings`, which keeps the
-- first that could be read. How Pydantic converts a text to a number is a parameter.
pub mod Laws
pub mod Valid
use quant_api_gateway.Prelude.{
  String, Option, none, some, List, [], ◌∷◌, Bool, not, str_eq, if◌then◌else◌, Result, ok, err,
}
use quant_api_gateway.Effects.{M, Exception, other, pure, raise}
use quant_api_gateway.StrategyReports.Rows.{ℤ, pos}

-- Pydantic's lax conversions of a text to an `int` and to a `float` (`none`: a `ValidationError`), and
-- the floats with their test against zero.
pub record Conversions : Type 1 where
  pub Float : Type 0
  pub ten : Float
  pub is_positive : Float → Bool
  pub to_int : String → Option ℤ
  pub to_float : String → Option Float

-- The process environment and the `.env` file. A variable is found by the name of its field, in
-- upper or lower case.
pub record Environment : Type 0 where
  pub environ : String → Option String
  pub dotenv : String → Option String

-- The rules of the fields: `str`, `str` with `min_length=1`, `Path`, `int`, and `float` with `gt=0`.
pub data Rule : Type 0 where
  any_text nonempty_text any_path any_int positive_float : Rule

module _ (C : Conversions) where
  pub data Value : Type 0 where
    text path : String → Value
    int : ℤ → Value
    float : C.Float → Value

  pub record Field : Type 0 where
    pub name : String
    pub rule : Rule
    pub default : Option Value

  abbrev required : String → Rule → Field
  required name rule = record { name = name; rule = rule; default = none }

  abbrev defaulted : String → Rule → Value → Field
  defaulted name rule value = record { name = name; rule = rule; default = some value }

  unfoldable pub fields : List Field
  fields =
      required "postgres_dsn" any_text
      ∷ required "mongo_uri" any_text
      ∷ required "redis_url" any_text
      ∷ required "csm_set_service_url" any_text
      ∷ defaulted "marketdata_engine_service_url" any_text
          (text "http://quant-marketdata-engine:8000")
      ∷ defaulted "marketdata_engine_timeout_seconds" positive_float (float C.ten)
      ∷ defaulted "execution_engine_service_url" any_text
          (text "http://quant-execution-engine:8000")
      ∷ defaulted "execution_engine_timeout_seconds" positive_float (float C.ten)
      ∷ defaulted "orderbook_engine_service_url" any_text
          (text "http://quant-orderbook-engine:8000")
      ∷ defaulted "orderbook_engine_timeout_seconds" positive_float (float C.ten)
      ∷ defaulted "crypto_engine_service_url" any_text (text "http://quant-crypto-engine:8000")
      ∷ defaulted "crypto_engine_timeout_seconds" positive_float (float C.ten)
      ∷ required "internal_api_key" nonempty_text
      ∷ defaulted "log_level" any_text (text "INFO")
      ∷ defaulted "strategy_registry_path" any_path (path "strategies.json")
      ∷ defaulted "overall_performance_ttl_seconds" any_int (int (pos 300))
      ∷ defaulted "strategy_performance_ttl_seconds" any_int (int (pos 300))
      ∷ defaulted "portfolio_snapshot_ttl_seconds" any_int (int (pos 3600))
      ∷ required "csm_set_dsn" nonempty_text
      ∷ defaulted "strategy_report_ttl_seconds" any_int (int (pos 600))
      ∷ defaulted "trade_log_ttl_seconds" any_int (int (pos 300))
      ∷ defaulted "benchmark_curve_ttl_seconds" any_int (int (pos 600))
      ∷ []

  abbrev pub Settings : Type 0
  Settings = List (String × Value)

  -- A default is validated as a variable is, but converted from no text.
  abbrev pub validate : Rule → Value → Option Value
  validate any_text (text s) = some (text s)
  validate nonempty_text (text s) = if str_eq s "" then none else some (text s)
  validate any_path (path s) = some (path s)
  validate any_int (int n) = some (int n)
  validate positive_float (float x) = if C.is_positive x then some (float x) else none
  validate _ _ = none

  abbrev pub as_int : Option ℤ → Option Value
  as_int none = none
  as_int (some n) = some (int n)

  abbrev pub as_float : Option C.Float → Option Value
  as_float none = none
  as_float (some x) = validate positive_float (float x)

  abbrev pub convert : Rule → String → Option Value
  convert any_text s = some (text s)
  convert nonempty_text s = validate nonempty_text (text s)
  convert any_path s = some (path s)
  convert any_int s = as_int (C.to_int s)
  convert positive_float s = as_float (C.to_float s)

  -- A variable of the process comes before the line of the file, and this before the default.
  abbrev pub or_default : Field → Option Value
  or_default field = elim field.default [ none ↦ none | some v ↦ validate field.rule v ]

  abbrev pub in_dotenv : Field → Option String → Option Value
  in_dotenv field none = or_default field
  in_dotenv field (some s) = convert field.rule s

  abbrev pub in_environ : Field → Environment → Option String → Option Value
  in_environ field env none = in_dotenv field (env.dotenv field.name)
  in_environ field env (some s) = convert field.rule s

  abbrev pub value_of : Field → Environment → Option Value
  value_of field env = in_environ field env (env.environ field.name)

  abbrev pub with_value : String → Option Value → Option Settings → Option Settings
  with_value name none rest = none
  with_value name (some v) none = none
  with_value name (some v) (some rest) = some ((name, v) ∷ rest)

  -- `none` is a `ValidationError`.
  unfoldable pub read_settings : List Field → Environment → Option Settings
  read_settings [] env = some []
  read_settings (field ∷ declared) env =
      with_value field.name (value_of field env) (read_settings declared env)

  abbrev pub held : Option Settings → M (Option Settings) Settings
  held none cache = (err other, cache)
  held (some settings) cache = (ok settings, some settings)

  -- `lru_cache(maxsize=1)` of a function without arguments: an answer is kept, an exception is not.
  unfoldable pub get_settings : Environment → M (Option Settings) Settings
  unfolding fields read_settings
  get_settings env (some settings) = (ok settings, some settings)
  get_settings env none = held (read_settings fields env) none

  unfoldable pub cache_clear : Option Settings → Option Settings
  cache_clear cache = none

  -- `settings.name`
  unfoldable pub attribute : String → Settings → Option Value
  attribute name [] = none
  attribute name ((n, v) ∷ settings) = if str_eq n name then some v else attribute name settings
