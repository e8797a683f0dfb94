-- ===== src/Registry/Load.antt =====
-- `load_registry` of services/strategy_registry.py, and the first steps of the lifespan of main.py.
-- What the file system, json.loads and the validation of the models answer are parameters.
use quant_api_gateway.Prelude.{
  String, ◌≡◌, refl, ◌⊎◌, inl, inr, some, List, [], ◌∷◌, Result, ok, err,
}
use quant_api_gateway.Json.{Json}
use quant_api_gateway.Effects.{
  M, Exception, service, other, registry_load_error, lift, continue, ◌>>=◌,
}
use quant_api_gateway.Registry.{StrategyRegistry, Global, set_registry, get_registry}

-- How `path.read_text(encoding="utf-8")` ends; the last is a `UnicodeDecodeError`.
pub data ReadText : Type 0 where
  contents : String → ReadText
  file_not_found : ReadText
  os_error : String → ReadText
  not_utf8 : ReadText

abbrev pub load_error : String → List String → Exception
load_error template args = service registry_load_error (record { template = template; args = args })

module _ (loads : String → Result String Json)
    (model_validate : Json → Result String StrategyRegistry) (path : String) where
  from_validation : Result String StrategyRegistry → Result Exception StrategyRegistry
  from_validation (ok registry) = ok registry
  from_validation (err exc) =
      err (load_error "strategy registry {} failed validation: {}" (path ∷ exc ∷ []))

  from_json : Result String Json → Result Exception StrategyRegistry
  unfolding from_validation
  from_json (ok json) = from_validation (model_validate json)
  from_json (err exc) =
      err (load_error "strategy registry {} is not valid JSON: {}" (path ∷ exc ∷ []))

  unfoldable pub load_registry : ReadText → Result Exception StrategyRegistry
  unfolding from_json
  load_registry (contents raw) = from_json (loads raw)
  load_registry file_not_found = err (load_error "strategy registry not found: {}" (path ∷ []))
  load_registry (os_error exc) =
      err (load_error "cannot read strategy registry {}: {}" (path ∷ exc ∷ []))
  load_registry not_utf8 = err other

  unfoldable pub startup : ReadText → M Global (Unit {0})
  startup read = lift (load_registry read) >>= set_registry

  abbrev pub Named : Exception → Type 0
  Named e = (template : String) × (args : List String) × (e ≡ load_error template (path ∷ args))

  -- How the start-up ends: with a registry that get_registry then answers with, validated from what
  -- was read; or with an exception and the global as it was.
  abbrev pub Started : ReadText → Global → Result Exception (Unit {0}) × Global → Type 0
  Started read g x =
      ((raw : String) × (json : Json) × (registry : StrategyRegistry) × (read ≡ contents raw)
        × (loads raw ≡ ok json)
        × (model_validate json ≡ ok registry)
        × (x ≡ (ok tt, some registry))
        × (get_registry x.1 ≡ (ok registry, x.1)))
      ⊎ ((e : Exception) × (x ≡ (err e, g)) × (Named e ⊎ ((read ≡ not_utf8) × (e ≡ other))))

  abbrev started : Result Exception StrategyRegistry → M Global (Unit {0})
  started r g = continue r set_registry g

  from_validation-Started :
      (raw : String) (json : Json) (g : Global) (v : Result String StrategyRegistry)
      → loads raw ≡ ok json
      → model_validate json ≡ v
      → Started (contents raw) g (started (from_validation v) g)
  unfolding from_validation set_registry get_registry
  from_validation-Started raw json g (ok registry) parsed valid =
      inl (raw, json, registry, refl, parsed, valid, refl, refl)
  from_validation-Started raw json g (err exc) parsed valid = inr (_, refl, inl (_, exc ∷ [], refl))

  from_json-Started :
      (raw : String) (g : Global) (v : Result String Json)
      → loads raw ≡ v
      → Started (contents raw) g (started (from_json v) g)
  unfolding from_json
  from_json-Started raw g (ok json) parsed =
      from_validation-Started raw json g (model_validate json) parsed refl
  from_json-Started raw g (err exc) parsed = inr (_, refl, inl (_, exc ∷ [], refl))

  -- The start-up either reads a text that is JSON and validates, and get_registry then answers with
  -- what was validated; or it raises and leaves the registry as it was, and the exception is a
  -- StrategyRegistryLoadError that names the path, except for a file that is not UTF-8, whose
  -- exception is of another kind.
  pub startup-Started : (read : ReadText) (g : Global) → Started read g (startup read g)
  unfolding startup load_registry
  startup-Started (contents raw) g = from_json-Started raw g (loads raw) refl
  startup-Started file_not_found g = inr (_, refl, inl (_, [], refl))
  startup-Started (os_error exc) g = inr (_, refl, inl (_, exc ∷ [], refl))
  startup-Started not_utf8 g = inr (_, refl, inr (refl, refl))
