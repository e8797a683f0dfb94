-- ===== src/Schemas.antt =====
-- What the classes of src/schemas declare, as data, and how Pydantic reads a JSON document by such a
-- declaration. A model that was read is its `model_dump_json()`, as `json.loads` gives it back.
pub mod Laws
pub mod Typed
pub mod Again
pub mod Report
pub mod Payload
use Prim.Native.String.{count}
use quant_api_gateway.Prelude.{
  ℕ, String, ◌≡◌, Bool, true, false, ◌&&◌, not, Option, none, some, List, [], ◌∷◌, leb, one_of,
  str_eq, if◌then◌else◌, ok, err,
}
use quant_api_gateway.Json.{
  Json, null, text, array, object, Items, nil, cons, Fields, end, field, get, as_array, as_object,
  as_text,
}
use quant_api_gateway.StrategyReports.Dates.{Datetime, require_utc}
use quant_api_gateway.StrategyReports.Rows.{ℤ, pos, negsuc}

-- A default of a field: `None`, an empty list or dict, a text, or an integer.
pub data Default : Type 0 where
  none_default empty_list empty_dict : Default
  text_default : String → Default
  integer_default : ℕ → Default

-- The annotation of a field with its constraints, and the fields of a class in their order. `sized` is
-- a `str` with its `min_length` and `max_length`, `whole` an `int` with its `ge` and `le`, `utc_time`
-- a `datetime` with the validator `_require_utc`; `mapping` is `dict[Literal[…], …]`; `open_dict` is
-- `dict[str, Any]`.
mutual
  pub data Shape : Type 0 where
    decimal utc_time open_dict : Shape
    sized whole : ℕ → Option ℕ → Shape
    literal : List String → Shape
    nullable list_of : Shape → Shape
    mapping : List String → Shape → Shape
    model : Declared → Shape

  pub data Declared : Type 0 where
    done : Declared
    required : String → Shape → Declared → Declared
    optional : String → Shape → Default → Declared → Declared

-- A class from its fields in their order.
abbrev pub declare : List (Declared → Declared) → Declared
declare [] = done
declare (f ∷ fields) = f (declare fields)

abbrev pub class : List (Declared → Declared) → Shape
class fields = model (declare fields)

-- The types that Pydantic parses itself, and how they are dumped.
pub record Scalars : Type 1 where
  pub Decimal : Type 0
  pub decimal_in : Json → Option Decimal
  pub decimal_out : Decimal → Json
  pub integer_in : Json → Option ℤ
  pub integer_out : ℤ → Json
  pub datetime_in : Json → Option Datetime
  pub datetime_out : Datetime → Json

abbrev pub map_option : {A B : Type 0} → (A → B) → Option A → Option B
map_option f none = none
map_option f (some a) = some (f a)

abbrev pub bind : {A B : Type 0} → Option A → (A → Option B) → Option B
bind none f = none
bind (some a) f = f a

abbrev pub keep_if : {A : Type 0} → Bool → A → Option A
keep_if true a = some a
keep_if false a = none

-- `_require_utc` on what was parsed.
abbrev pub in_utc : Datetime → Option Datetime
in_utc t = elim (require_utc t) [ ok t' ↦ some t' | err e ↦ none ]

-- A lower bound, and an upper one if there is any.
abbrev pub within : ℕ → Option ℕ → ℕ → Bool
within low none n = leb low n
within low (some high) n = leb low n && leb n high

abbrev pub whole_within : ℕ → Option ℕ → ℤ → Bool
whole_within low high (pos n) = within low high n
whole_within low high (negsuc n) = false

abbrev pub is_sized : ℕ → Option ℕ → String → Bool
is_sized low high s = within low high (count s)

abbrev pub is_null : Json → Bool
is_null null = true
is_null _ = false

module _ (f : Json → Option Json) where
  abbrev pub cons_both : Option Json → Option Items → Option Items
  cons_both (some v) (some items) = some (cons v items)
  cons_both (some v) none = none
  cons_both none items = none

  abbrev pub each_item : Items → Option Items
  each_item nil = some nil
  each_item (cons v items) = cons_both (f v) (each_item items)

-- A field with its value and those after it.
abbrev pub field_both : String → Option Json → Option Fields → Option Fields
field_both k (some v) (some fields) = some (field k v fields)
field_both k (some v) none = none
field_both k none fields = none

module _ (f : Json → Option Json) (names : List String) where
  abbrev pub each_entry : Fields → Option Fields
  each_entry end = some end
  each_entry (field k v fields) =
      field_both k (if one_of k names then f v else none) (each_entry fields)

abbrev pub sized_text : ℕ → Option ℕ → Json → Option Json
sized_text low high v = bind (as_text v) (λ s. keep_if (is_sized low high s) v)

abbrev pub literal_text : List String → Json → Option Json
literal_text names v = bind (as_text v) (λ s. keep_if (one_of s names) v)

-- A field that is there is read, and one that is missing has its default or is an error.
abbrev pub value_or : {A : Type 0} → Option A → (Json → Option A) → Option Json → Option A
value_or missing f none = missing
value_or missing f (some v) = f v

module _ (S : Scalars) where
  -- A default as it is dumped.
  abbrev pub default_value : Default → Json
  default_value none_default = null
  default_value empty_list = array nil
  default_value empty_dict = object end
  default_value (text_default s) = text s
  default_value (integer_default n) = S.integer_out (pos n)

  abbrev pub counted : ℕ → Option ℕ → Json → Option Json
  counted low high v =
      bind (S.integer_in v) (λ n. keep_if (whole_within low high n) (S.integer_out n))

  abbrev pub timed : Json → Option Json
  timed v = bind (S.datetime_in v) (λ t. map_option S.datetime_out (in_utc t))

  -- What Pydantic makes of a document, where every class has `extra="ignore"`: that is the setting of
  -- `_ReportBase`, and Pydantic's own where a class has none.
  unfoldable mutual
    pub read : Shape → Json → Option Json
    read decimal v = map_option S.decimal_out (S.decimal_in v)
    read utc_time v = timed v
    read open_dict v = map_option object (as_object v)
    read (whole low high) v = counted low high v
    read (sized low high) v = sized_text low high v
    read (literal names) v = literal_text names v
    read (nullable s) v = if is_null v then some null else read s v
    read (list_of s) v = bind (as_array v) (λ items. map_option array (each_item (read s) items))
    read (mapping names s) v =
        bind (as_object v) (λ fields. map_option object (each_entry (read s) names fields))
    read (model d) v = bind (as_object v) (λ fields. map_option object (read_fields d fields))

    pub read_fields : Declared → Fields → Option Fields
    read_fields done fields = some end
    read_fields (required k s d) fields =
        field_both k (value_or none (read s) (get fields k)) (read_fields d fields)
    read_fields (optional k s x d) fields =
        field_both k (value_or (some (default_value x)) (read s) (get fields k))
          (read_fields d fields)

-- Pydantic: `model_validate` does what is documented of a declaration, and reads a scalar that it
-- dumped as the same scalar.
pub record Pydantic (S : Scalars) : Type 0 where
  pub model_validate : Shape → Json → Option Json
  pub reads : (s : Shape) (v : Json) → model_validate s v ≡ read S s v
  pub decimal_again : (d : S.Decimal) → S.decimal_in (S.decimal_out d) ≡ some d
  pub integer_again : (n : ℤ) → S.integer_in (S.integer_out n) ≡ some n
  pub datetime_again : (t : Datetime) → S.datetime_in (S.datetime_out t) ≡ some t
