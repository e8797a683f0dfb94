-- ===== src/Tests/Configured.antt =====
-- Settings from a `.env` file that has the required lines, after a call without them.
use quant_api_gateway.Prelude.{
  ℕ, String, ◌≡◌, ◌≢◌, refl, Option, none, some, List, [], ◌∷◌, ltb, one_of, if◌then◌else◌, ok,
}
use quant_api_gateway.StrategyReports.Rows.{pos}
use quant_api_gateway.Settings.{
  Conversions, Environment, Settings, fields, read_settings, get_settings, cache_clear, attribute,
  text,
}
use quant_api_gateway.Settings.Valid.{IsValid}
use quant_api_gateway.Settings.Laws.{ReadIn, Event, called, cleared, after, get_settings-IsValid}
use quant_api_gateway.Api.Key.{verify_api_key}
use quant_api_gateway.Api.Key.Required.{verify_api_key-required}
use quant_api_gateway.Tests.Pushes.{secrets}

abbrev conversions : Conversions
conversions = record {
  Float = ℕ;
  ten = 10;
  is_positive = λ n. ltb 0 n;
  to_int = λ s. some (pos 1);
  to_float = λ s. none;
}

abbrev lines : List String
lines =
    "postgres_dsn" ∷ "mongo_uri" ∷ "redis_url" ∷ "csm_set_service_url" ∷ "internal_api_key"
    ∷ "csm_set_dsn" ∷ "trade_log_ttl_seconds" ∷ []

abbrev bare : Environment
bare = record { environ = λ name. none; dotenv = λ name. none }

abbrev with_lines : Environment
with_lines = record {
  environ = λ name. none;
  dotenv = λ name. if one_of name lines then some "1" else none;
}

abbrev or_empty : Option (Settings conversions) → Settings conversions
or_empty none = []
or_empty (some settings) = settings

settings : Settings conversions
unfolding read_settings fields
settings = or_empty (read_settings conversions (fields conversions) with_lines)

abbrev history : List Event
history = called bare ∷ called with_lines ∷ cleared ∷ called bare ∷ []

get_settings-IsValid_example :
    IsValid conversions (fields conversions) settings
    × ReadIn conversions (λ env. Unit) settings
    × ((later : Environment)
        → get_settings conversions later
            (get_settings conversions with_lines (after conversions history none)).1
          ≡ (ok settings, some settings))
unfolding settings get_settings cache_clear
get_settings-IsValid_example =
    get_settings-IsValid conversions (λ env. Unit) history with_lines settings (tt, (tt, (tt, tt)))
      tt refl

verify_api_key-required_example :
    (expected : String) × (attribute conversions "internal_api_key" settings ≡ some (text expected))
    × (expected ≢ "")
    × ((verify_api_key {W = String} secrets expected none "").0 ≢ ok tt)
unfolding settings get_settings cache_clear
verify_api_key-required_example =
    verify_api_key-required secrets conversions history with_lines settings "" refl
