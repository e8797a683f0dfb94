-- ===== src/Registry/Validation.antt =====
-- The validation of strategies.json: the fields of `StrategyConfig` and `StrategyRegistry` with their
-- rules. How Pydantic strips a text and reads a decimal and a Boolean is a parameter.
use quant_api_gateway.Prelude.{
  ℕ, zero, suc, ◌<◌, ◌*◌, ◌/◌, ◌^◌, ◌-◌, ◌&&◌, ◌||◌, leb, ltb, false, String, ◌≡◌, refl, ◌≢◌, ◌⊎◌,
  inl, inr, Bool, true, not, Option, none, some, List, [], ◌∷◌, arith, str_eq, eq_iff, Bool-cases,
  Result, ok, err,
}
use quant_api_gateway.Json.{Json, Items, nil, cons, Fields, get, as_object, as_text, as_array}
use quant_api_gateway.Effects.{Exception, other}
use quant_api_gateway.Schemas.{bind, map_option, keep_if, value_or}
use quant_api_gateway.Registry.{StrategyConfig, StrategyRegistry, Global, get_registry}
use quant_api_gateway.Registry.Load.{ReadText, not_utf8, Named, startup, startup-Started}

-- A finite `Decimal`: its sign, its digits as one number, and how many of them stand after the point,
-- without zeros at the end of those.
pub record Written : Type 0 where
  pub negative : Bool
  pub digits : ℕ
  pub places : ℕ

-- `str_strip_whitespace`; a `Decimal` as it is parsed (`none`: it is none, or not finite); a `bool`; and
-- the text of a `ValidationError`.
pub record Scalars : Type 0 where
  pub strip : String → String
  pub decimal_in : Json → Option Written
  pub bool_in : Json → Option Bool
  pub explain : Json → String

module _ (S : Scalars) where
  -- `str` with `min_length=1`, stripped.
  abbrev pub nonempty : String → Option String
  nonempty s = keep_if (not (str_eq s "")) s

  abbrev pub text_in : Json → Option String
  text_in v = bind (as_text v) (λ s. nonempty (S.strip s))

  -- A decimal of at most four places in units of 0.0001.
  abbrev pub in_units : ℕ → ℕ → Option ℕ
  in_units digits places = keep_if (leb places 4) (digits * 10 ^ (4 - places))

  -- `ge=0`: no sign but that of zero.
  abbrev pub not_negative : Written → Bool
  not_negative d = not d.negative || leb d.digits 0

  -- `decimal_places=4`, which `in_units` asks for; `max_digits=8`; and the limit of 8 - 4 digits
  -- before the point that follows from the two.
  abbrev pub allowed_weight : Written → Option ℕ
  allowed_weight d = bind (in_units d.digits d.places) (λ units.
      keep_if
        (not_negative d && (ltb d.digits (10 ^ 8) && ltb (d.digits / 10 ^ d.places) (10 ^ (8 - 4))))
        units)

  abbrev pub weight_in : Json → Option ℕ
  weight_in v = bind (S.decimal_in v) allowed_weight

  abbrev pub config_in : Fields → Option StrategyConfig
  config_in e = bind (value_or none text_in (get e "id")) (λ id.
      bind (value_or none text_in (get e "name")) (λ name.
        bind (value_or none text_in (get e "type")) (λ type_name.
          bind (value_or none text_in (get e "service_url")) (λ service_url.
            bind (value_or none weight_in (get e "capital_weight")) (λ capital_weight.
              bind (value_or (some true) S.bool_in (get e "active")) (λ active. some (record {
                id = id;
                name = name;
                type_name = type_name;
                service_url = service_url;
                capital_weight = capital_weight;
                active = active;
              })))))))

  abbrev pub both :
      Option StrategyConfig → Option (List StrategyConfig) → Option (List StrategyConfig)
  both (some cfg) (some configs) = some (cfg ∷ configs)
  both (some cfg) none = none
  both none configs = none

  unfoldable pub configs_in : Items → Option (List StrategyConfig)
  configs_in nil = some []
  configs_in (cons v items) = both (bind (as_object v) config_in) (configs_in items)

  unfoldable pub registry_in : Json → Option StrategyRegistry
  registry_in v = bind (as_object v) (λ fields.
      bind (value_or none as_array (get fields "strategies"))
        (λ items. map_option (λ configs. record { strategies = configs }) (configs_in items)))

  abbrev pub or_error : Json → Option StrategyRegistry → Result String StrategyRegistry
  or_error v none = err (S.explain v)
  or_error v (some registry) = ok registry

  unfoldable pub model_validate : Json → Result String StrategyRegistry
  model_validate v = or_error v (registry_in v)

  -- What an entry is: its texts are not empty, and its weight, in units of 0.0001, is below 10000.
  pub record IsConfig (cfg : StrategyConfig) : Type 0 where
    pub id_given : cfg.id ≢ ""
    pub name_given : cfg.name ≢ ""
    pub type_given : cfg.type_name ≢ ""
    pub url_given : cfg.service_url ≢ ""
    pub weight_bound : cfg.capital_weight < 100000000

  abbrev pub AllConfig : List StrategyConfig → Type 0
  AllConfig [] = Unit
  AllConfig (cfg ∷ configs) = IsConfig cfg × AllConfig configs

  bind-some :
      {A B : Type 0} (o : Option A) (f : A → Option B) (b : B)
      → bind o f ≡ some b
      → (a : A) × (o ≡ some a) × (f a ≡ some b)
  bind-some none f b h = cc
  bind-some (some a) f b h = (a, refl, h)

  text_in-given : (o : Option Json) (s : String) → value_or none text_in o ≡ some s → s ≢ ""
  text_in-given none s h = cc
  text_in-given (some v) s h =
      let (raw, _, kept) = bind-some (as_text v) (λ t. nonempty (S.strip t)) s h in
      elim (Bool-cases (str_eq (S.strip raw) "")) [
        | inl e ↦ let absent = rw e at kept in cc
        | inr e ↦
            let there = rw e at kept in
            let same : S.strip raw ≡ s = cc in
            rw (← same) (λ empty. ground (arith, eq_iff (S.strip raw) ""))
      ]

  in_units-bound :
      (digits places units : ℕ)
      → in_units digits places ≡ some units
      → digits / 10 ^ places < 10000
      → units < 100000000
  in_units-bound digits zero units e h = let same : digits * 10000 ≡ units = cc in omega arith
  in_units-bound digits (suc zero) units e h = let same : digits * 1000 ≡ units = cc in omega arith
  in_units-bound digits (suc (suc zero)) units e h =
      let same : digits * 100 ≡ units = cc in omega arith
  in_units-bound digits (suc (suc (suc zero))) units e h =
      let same : digits * 10 ≡ units = cc in omega arith
  in_units-bound digits (suc (suc (suc (suc zero)))) units e h =
      let same : digits * 1 ≡ units = cc in omega arith
  in_units-bound digits (suc (suc (suc (suc (suc n))))) units e h =
      let late : leb (suc (suc (suc (suc (suc n))))) 4 ≡ false = ground arith in
      let none_left = rw late at e in cc

  keep_if-some : {A : Type 0} (b : Bool) (a a' : A) → keep_if b a ≡ some a' → (b ≡ true) × (a ≡ a')
  keep_if-some true a a' h = (refl, cc)
  keep_if-some false a a' h = cc

  weight_in-bound : (o : Option Json) (n : ℕ) → value_or none weight_in o ≡ some n → n < 100000000
  weight_in-bound none n h = cc
  weight_in-bound (some v) n h =
      let (d, _, h1) = bind-some (S.decimal_in v) allowed_weight n h in
      let (units, e, h2) = bind-some (in_units d.digits d.places) _ n h1 in
      let (kept, same) = keep_if-some _ units n h2 in
      rw (← same) (in_units-bound d.digits d.places units e (ground arith))

  config_in-IsConfig : (e : Fields) (cfg : StrategyConfig) → config_in e ≡ some cfg → IsConfig cfg
  config_in-IsConfig e cfg h =
      let (id, given, h1) = bind-some (value_or none text_in (get e "id")) _ cfg h in
      let (name, named, h2) = bind-some (value_or none text_in (get e "name")) _ cfg h1 in
      let (type_name, typed, h3) = bind-some (value_or none text_in (get e "type")) _ cfg h2 in
      let (url, placed, h4) = bind-some (value_or none text_in (get e "service_url")) _ cfg h3 in
      let (weight, weighed, h5) =
        bind-some (value_or none weight_in (get e "capital_weight")) _ cfg h4 in
      let (active, _, h6) = bind-some (value_or (some true) S.bool_in (get e "active")) _ cfg h5 in
      let same : record {
        id = id;
        name = name;
        type_name = type_name;
        service_url = url;
        capital_weight = weight;
        active = active;
      }
          ≡ cfg =
        cc in
      rw (← same) (record {
        id_given = text_in-given (get e "id") id given;
        name_given = text_in-given (get e "name") name named;
        type_given = text_in-given (get e "type") type_name typed;
        url_given = text_in-given (get e "service_url") url placed;
        weight_bound = weight_in-bound (get e "capital_weight") weight weighed;
      })

  both-AllConfig :
      (o : Option StrategyConfig) (rest : Option (List StrategyConfig))
      (configs : List StrategyConfig)
      → ((cfg : StrategyConfig) → o ≡ some cfg → IsConfig cfg)
      → ((tail : List StrategyConfig) → rest ≡ some tail → AllConfig tail)
      → both o rest ≡ some configs
      → AllConfig configs
  both-AllConfig none rest configs k k' h = cc
  both-AllConfig (some cfg) none configs k k' h = cc
  both-AllConfig (some cfg) (some tail) configs k k' h =
      let same : cfg ∷ tail ≡ configs = cc in rw (← same) (k cfg refl, k' tail refl)

  configs_in-AllConfig :
      (items : Items) (configs : List StrategyConfig)
      → configs_in items ≡ some configs
      → AllConfig configs
  unfolding configs_in
  configs_in-AllConfig nil configs h = let same : [] ≡ configs = cc in rw (← same) tt
  configs_in-AllConfig (cons v items) configs h =
      both-AllConfig (bind (as_object v) config_in) (configs_in items) configs
        (λ cfg k.
          let (e, _, read) = bind-some (as_object v) config_in cfg k in
          config_in-IsConfig e cfg read)
        (configs_in-AllConfig items) h

  registry_in-AllConfig :
      (v : Json) (registry : StrategyRegistry)
      → registry_in v ≡ some registry
      → AllConfig registry.strategies
  unfolding registry_in
  registry_in-AllConfig v registry h =
      let (fields, _, h1) = bind-some (as_object v) _ registry h in
      let (items, _, h2) =
        bind-some (value_or none as_array (get fields "strategies")) _ registry h1 in
      built items (configs_in items) refl h2
    where
      built :
          (items : Items) (o : Option (List StrategyConfig))
          → configs_in items ≡ o
          → map_option (λ configs. record { strategies = configs }) o ≡ some registry
          → AllConfig registry.strategies
      built items none e k = cc
      built items (some configs) e k =
          let same : record { strategies = configs } ≡ registry = cc in
          rw (← same) (configs_in-AllConfig items configs e)

  model_validate-AllConfig :
      (v : Json) (registry : StrategyRegistry)
      → model_validate v ≡ ok registry
      → AllConfig registry.strategies
  unfolding model_validate
  model_validate-AllConfig v registry h = passed (registry_in v) refl h
    where
      passed :
          (o : Option StrategyRegistry)
          → registry_in v ≡ o
          → or_error v o ≡ ok registry
          → AllConfig registry.strategies
      passed none e k = cc
      passed (some r) e k =
          let same : r ≡ registry = cc in rw (← same) (registry_in-AllConfig v r e)

  module _ (loads : String → Result String Json) (path : String) where
    -- How the start-up ends: with a registry that get_registry answers and whose entries keep the rules; or
    -- with an exception and the global as it was.
    abbrev pub StartedValid : ReadText → Global → Result Exception (Unit {0}) × Global → Type 0
    StartedValid read g x =
        ((registry : StrategyRegistry) × (x ≡ (ok tt, some registry))
          × (get_registry x.1 ≡ (ok registry, x.1))
          × AllConfig registry.strategies)
        ⊎ ((e : Exception) × (x ≡ (err e, g))
            × (Named loads model_validate path e ⊎ ((read ≡ not_utf8) × (e ≡ other))))

    -- The start-up ends in one of two ways. Either the file was read, and get_registry then answers with
    -- entries whose id, name, type and URL are not empty and whose weight is below 10000; or it
    -- raises and leaves the registry as it was, and the exception is a StrategyRegistryLoadError that
    -- names the path, except for a file that is not UTF-8, whose exception is of another kind.
    pub startup-AllConfig :
        (read : ReadText) (g : Global)
        → StartedValid read g (startup loads model_validate path read g)
    startup-AllConfig read g = elim (startup-Started loads model_validate path read g) [
      | inl (raw, json, registry, _, _, valid, done, got) ↦
          inl (registry, done, got, model_validate-AllConfig json registry valid)
      | inr failed ↦ inr failed
    ]
