-- ===== src/Settings/Valid.antt =====
-- That what is read of an environment has a value for each field, which keeps the rule of the field.
use quant_api_gateway.Prelude.{
  String, Option, none, some, List, [], ◌∷◌, true, ◌≡◌, ◌≢◌, refl, ap, inl, inr, str_eq, eq_iff,
  Bool-cases, if◌then◌else◌, arith,
}
use quant_api_gateway.Settings.{
  Conversions, Environment, Rule, any_text, nonempty_text, any_path, any_int, positive_float, Value,
  text, path, int, float, Field, fields, Settings, validate, as_int, as_float, convert, in_dotenv,
  in_environ, value_of, with_value, read_settings, attribute,
}

module _ (C : Conversions) where
  -- A value is of the type of its field, and keeps the bound that the field declares.
  abbrev pub Keeps : Rule → Value C → Type 0
  Keeps any_text (text s) = Unit
  Keeps nonempty_text (text s) = s ≢ ""
  Keeps any_path (path s) = Unit
  Keeps any_int (int n) = Unit
  Keeps positive_float (float x) = C.is_positive x ≡ true
  Keeps _ _ = ⊥

  nonempty-Keeps :
      (s : String) (u : Value C)
      → validate C nonempty_text (text s) ≡ some u
      → Keeps nonempty_text u
  nonempty-Keeps s u h = elim (Bool-cases (str_eq s "")) [
    | inl e ↦ let absent = rw e at h in cc
    | inr e ↦
        let same : text s ≡ u = ap (λ o. elim o [ none ↦ text s | some v ↦ v ]) (rw e at h) in
        rw (← same) (λ f. ground (arith, eq_iff s ""))
  ]

  positive-Keeps :
      (x : C.Float) (u : Value C)
      → validate C positive_float (float x) ≡ some u
      → Keeps positive_float u
  positive-Keeps x u h = elim (Bool-cases (C.is_positive x)) [
    | inl e ↦ let got = rw e at h in let same : float x ≡ u = cc in rw (← same) e
    | inr e ↦ let absent = rw e at h in cc
  ]

  int-Keeps : (o : Option _) (u : Value C) → as_int C o ≡ some u → Keeps any_int u
  int-Keeps none u h = cc
  int-Keeps (some n) u h = let same : int n ≡ u = cc in rw (← same) tt

  float-Keeps : (o : Option C.Float) (u : Value C) → as_float C o ≡ some u → Keeps positive_float u
  float-Keeps none u h = cc
  float-Keeps (some x) u h = positive-Keeps x u h

  convert-Keeps :
      (rule : Rule) (s : String) (u : Value C) → convert C rule s ≡ some u → Keeps rule u
  convert-Keeps any_text s u h = let same : text s ≡ u = cc in rw (← same) tt
  convert-Keeps nonempty_text s u h = nonempty-Keeps s u h
  convert-Keeps any_path s u h = let same : path s ≡ u = cc in rw (← same) tt
  convert-Keeps any_int s u h = int-Keeps (C.to_int s) u h
  convert-Keeps positive_float s u h = float-Keeps (C.to_float s) u h

  validate-Keeps : (rule : Rule) (v u : Value C) → validate C rule v ≡ some u → Keeps rule u
  validate-Keeps any_text (text s) u h = let same : text s ≡ u = cc in rw (← same) tt
  validate-Keeps nonempty_text (text s) u h = nonempty-Keeps s u h
  validate-Keeps any_path (path s) u h = let same : path s ≡ u = cc in rw (← same) tt
  validate-Keeps any_int (int n) u h = let same : int n ≡ u = cc in rw (← same) tt
  validate-Keeps positive_float (float x) u h = positive-Keeps x u h
  validate-Keeps _ _ u h = cc

  default-Keeps :
      (rule : Rule) (default : Option (Value C)) (u : Value C)
      → (elim default [ none ↦ none | some v ↦ validate C rule v ]) ≡ some u
      → Keeps rule u
  default-Keeps rule none u h = cc
  default-Keeps rule (some v) u h = validate-Keeps rule v u h

  dotenv-Keeps :
      (field : Field C) (line : Option String) (u : Value C)
      → in_dotenv C field line ≡ some u
      → Keeps field.rule u
  dotenv-Keeps field none u h = default-Keeps field.rule field.default u h
  dotenv-Keeps field (some s) u h = convert-Keeps field.rule s u h

  environ-Keeps :
      (field : Field C) (env : Environment) (variable : Option String) (u : Value C)
      → in_environ C field env variable ≡ some u
      → Keeps field.rule u
  environ-Keeps field env none u h = dotenv-Keeps field (env.dotenv field.name) u h
  environ-Keeps field env (some s) u h = convert-Keeps field.rule s u h

  -- There is a value for each field, in their order, and it keeps the rule of the field.
  abbrev pub IsValid : List (Field C) → Settings C → Type 0
  IsValid [] [] = Unit
  IsValid [] (_ ∷ settings) = ⊥
  IsValid (field ∷ declared) [] = ⊥
  IsValid (field ∷ declared) ((name, v) ∷ settings) =
      (name ≡ field.name) × Keeps field.rule v × IsValid declared settings

  with_value-IsValid :
      (field : Field C) (declared : List (Field C)) (o : Option (Value C))
      (rest : Option (Settings C)) (settings : Settings C)
      → ((v : Value C) → o ≡ some v → Keeps field.rule v)
      → ((t : Settings C) → rest ≡ some t → IsValid declared t)
      → with_value C field.name o rest ≡ some settings
      → IsValid (field ∷ declared) settings
  with_value-IsValid field declared none rest settings k k' h = cc
  with_value-IsValid field declared (some v) none settings k k' h = cc
  with_value-IsValid field declared (some v) (some t) settings k k' h =
      let same : (field.name, v) ∷ t ≡ settings = cc in rw (← same) (refl, k v refl, k' t refl)

  pub read_settings-IsValid :
      (declared : List (Field C)) (env : Environment) (settings : Settings C)
      → read_settings C declared env ≡ some settings
      → IsValid declared settings
  unfolding read_settings
  read_settings-IsValid [] env settings h = let same : [] ≡ settings = cc in rw (← same) tt
  read_settings-IsValid (field ∷ declared) env settings h =
      with_value-IsValid field declared (value_of C field env) (read_settings C declared env)
        settings (environ-Keeps field env (env.environ field.name))
        (read_settings-IsValid declared env) h

  abbrev pub rule_of : String → List (Field C) → Option Rule
  rule_of name [] = none
  rule_of name (field ∷ declared) =
      if str_eq field.name name then some field.rule else rule_of name declared

  -- A declared field is there, and keeps its rule.
  pub attribute-Keeps :
      (name : String) (rule : Rule) (declared : List (Field C)) (settings : Settings C)
      → IsValid declared settings
      → rule_of name declared ≡ some rule
      → (v : Value C) × (attribute C name settings ≡ some v) × Keeps rule v
  unfolding attribute
  attribute-Keeps name rule [] [] valid h = cc
  attribute-Keeps name rule [] (_ ∷ settings) valid h = absurd valid
  attribute-Keeps name rule (field ∷ declared) [] valid h = absurd valid
  attribute-Keeps name rule (field ∷ declared) ((n, v) ∷ settings) (same, keeps, valid) h =
      elim (Bool-cases (str_eq field.name name)) [
        | inl e ↦
            let got = rw e at h in
            let rule_is : field.rule ≡ rule = cc in (v, rw (same, e) refl, rw (← rule_is) keeps)
        | inr e ↦
            let (u, found, kept) = attribute-Keeps name rule declared settings valid (rw e at h) in
            (u, rw (same, e) found, kept)
      ]

  -- `settings.internal_api_key` is a text that is not empty.
  pub internal_api_key-nonempty :
      (settings : Settings C)
      → IsValid (fields C) settings
      → (key : String) × (attribute C "internal_api_key" settings ≡ some (text key)) × (key ≢ "")
  unfolding fields
  internal_api_key-nonempty settings valid =
      let (v, found, kept) =
        attribute-Keeps "internal_api_key" nonempty_text (fields C) settings valid refl in
      text_of v found kept
    where
      text_of :
          (v : Value C)
          → attribute C "internal_api_key" settings ≡ some v
          → Keeps nonempty_text v
          → (key : String) × (attribute C "internal_api_key" settings ≡ some (text key))
            × (key ≢ "")
      text_of (text key) found kept = (key, found, kept)
      text_of (path s) found kept = absurd kept
      text_of (int n) found kept = absurd kept
      text_of (float x) found kept = absurd kept
