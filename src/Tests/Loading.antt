-- ===== src/Tests/Loading.antt =====
-- The start-up over a file that holds one strategy.
use quant_api_gateway.Prelude.{false, String, none, some, Option, Result, ok}
use quant_api_gateway.Json.{Json, text, object, array, field, end, cons, nil}
use quant_api_gateway.Registry.{StrategyRegistry}
use quant_api_gateway.Registry.Load.{contents, startup}
use quant_api_gateway.Registry.Validation.{
  Written, Scalars, model_validate, StartedValid, startup-AllConfig,
}
use quant_api_gateway.Tests.Caching.{known}

abbrev half : Json → Option Written
half v = some (record { negative = false; digits = 5; places = 1 })

abbrev rules : Scalars
rules = record {
  strip = λ s. s;
  decimal_in = half;
  bool_in = λ v. none;
  explain = λ v. "1 validation error for StrategyRegistry";
}

abbrev one_strategy : Json
one_strategy = object (
    field "strategies"
      (array (
        cons
          (object (
            field "id" (text "a") (
              field "name" (text "A") (
                field "type" (text "momentum") (
                  field "service_url" (text "http://a")
                    (field "capital_weight" (text "0.5") end))))))
          nil))
      end)

abbrev as_one_strategy : String → Result String Json
as_one_strategy raw = ok one_strategy

startup-AllConfig_example :
    StartedValid rules as_one_strategy "strategies.json"
      (contents "[]")
      none
      (startup as_one_strategy (model_validate rules) "strategies.json" (contents "[]") none)
startup-AllConfig_example =
    startup-AllConfig rules as_one_strategy "strategies.json" (contents "[]") none

abbrev pub as_text : String → Result String Json
as_text raw = ok (text raw)

abbrev pub as_known : Json → Result String StrategyRegistry
as_known json = ok known
