-- ===== src/Schemas/Typed.antt =====
-- The type of a document: its fields and theirs, at every depth; and when a class is well formed.
use quant_api_gateway.Prelude.{
  ℕ, String, ◌≡◌, ◌⊎◌, Bool, true, false, ◌&&◌, not, List, one_of, str_eq,
}
use quant_api_gateway.Json.{Json, null, text, array, object, Items, nil, cons, Fields, end, field}
use quant_api_gateway.StrategyReports.Dates.{utc}
use quant_api_gateway.StrategyReports.Rows.{pos}
use quant_api_gateway.Schemas.{
  Default, none_default, empty_list, empty_dict, text_default, integer_default, Shape, decimal,
  whole, utc_time, open_dict, sized, literal, nullable, list_of, mapping, model, Declared, done,
  required, optional, Scalars, is_sized, within,
}

-- No field of the class has this name.
unfoldable pub fresh : String → Declared → Bool
fresh k done = true
fresh k (required j s d) = not (str_eq k j) && fresh k d
fresh k (optional j s x d) = not (str_eq k j) && fresh k d

-- A default is a value of its field.
abbrev pub default_fits : Default → Shape → Bool
default_fits none_default (nullable s) = true
default_fits empty_list (list_of s) = true
default_fits empty_dict open_dict = true
default_fits (text_default t) (sized low high) = is_sized low high t
default_fits (integer_default n) (whole low high) = within low high n
default_fits _ _ = false

-- Names are distinct in every class, and defaults fit.
unfoldable mutual
  pub is_well : Shape → Bool
  is_well (nullable s) = is_well s
  is_well (list_of s) = is_well s
  is_well (mapping names s) = is_well s
  is_well (model d) = are_well d
  is_well _ = true

  pub are_well : Declared → Bool
  are_well done = true
  are_well (required k s d) = fresh k d && (is_well s && are_well d)
  are_well (optional k s x d) = fresh k d && (default_fits x s && (is_well s && are_well d))

module _ (P : Json → Type 0) where
  abbrev pub AllItems : Items → Type 0
  AllItems nil = Unit
  AllItems (cons v items) = P v × AllItems items

  -- Every entry has one of the names.
  abbrev pub AllEntries : List String → Fields → Type 0
  AllEntries names end = Unit
  AllEntries names (field k v fields) = (one_of k names ≡ true) × P v × AllEntries names fields

module _ (S : Scalars) where
  -- The document has exactly the declared fields, in their order, each of its declared type: numbers
  -- with `ge=0` are natural and within their bounds, texts have their lengths, and every time is in UTC.
  unfoldable mutual
    pub Typed : Shape → Json → Type 0
    Typed decimal v = (d : S.Decimal) × (v ≡ S.decimal_out d)
    Typed (whole low high) v = (n : ℕ) × (v ≡ S.integer_out (pos n)) × (within low high n ≡ true)
    Typed utc_time v = (t : ℕ) × (v ≡ S.datetime_out (utc t))
    Typed open_dict v = (fields : Fields) × (v ≡ object fields)
    Typed (sized low high) v = (s : String) × (v ≡ text s) × (is_sized low high s ≡ true)
    Typed (literal names) v = (s : String) × (v ≡ text s) × (one_of s names ≡ true)
    Typed (nullable s) v = (v ≡ null) ⊎ Typed s v
    Typed (list_of s) v = (items : Items) × (v ≡ array items) × AllItems (Typed s) items
    Typed (mapping names s) v =
        (fields : Fields) × (v ≡ object fields) × AllEntries (Typed s) names fields
    Typed (model d) v = (fields : Fields) × (v ≡ object fields) × TypedFields d fields

    pub TypedFields : Declared → Fields → Type 0
    TypedFields done fields = fields ≡ end
    TypedFields (required k s d) fields =
        (v : Json) × (rest : Fields) × (fields ≡ field k v rest) × Typed s v × TypedFields d rest
    TypedFields (optional k s x d) fields =
        (v : Json) × (rest : Fields) × (fields ≡ field k v rest) × Typed s v × TypedFields d rest
