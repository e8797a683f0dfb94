-- ===== src/Json.antt =====
-- The values that Python's `json.loads` builds. A dict is its list of items; a number is kept as
-- Python's `str` of it.
use quant_api_gateway.Prelude.{Bool, Option, none, some, String, str_eq, if◌then◌else◌}

mutual
  pub data Json : Type 0 where
    null : Json
    bool : Bool → Json
    number : String → Json
    text : String → Json
    array : Items → Json
    object : Fields → Json

  pub data Items : Type 0 where
    nil : Items
    cons : Json → Items → Items

  pub data Fields : Type 0 where
    end : Fields
    field : String → Json → Fields → Fields

-- `d.get(key)` on a dict.
unfoldable pub get : Fields → String → Option Json
get end key = none
get (field k v rest) key = if str_eq k key then some v else get rest key

-- `isinstance(x, dict)`, with the dict.
abbrev pub as_object : Json → Option Fields
as_object (object fields) = some fields
as_object (null) = none
as_object (bool _) = none
as_object (number _) = none
as_object (text _) = none
as_object (array _) = none

-- `isinstance(x, str)`, with the text.
abbrev pub as_text : Json → Option String
as_text (text s) = some s
as_text (null) = none
as_text (bool _) = none
as_text (number _) = none
as_text (array _) = none
as_text (object _) = none

-- `isinstance(x, list)`, with the items.
abbrev pub as_array : Json → Option Items
as_array (array items) = some items
as_array (null) = none
as_array (bool _) = none
as_array (number _) = none
as_array (text _) = none
as_array (object _) = none
