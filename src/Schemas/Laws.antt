-- ===== src/Schemas/Laws.antt =====
-- What a document that was read looks like, and that it reads as itself.
use quant_api_gateway.Prelude.{
  ℕ, String, ◌≡◌, refl, sym, ◌⊎◌, inl, inr, Bool, true, false, ◌&&◌, Option, none, some, List,
  one_of, if◌then◌else◌, Bool-cases,
}
use quant_api_gateway.Json.{
  Json, null, bool, number, text, array, object, Items, nil, cons, Fields, end, field, get,
  as_array, as_object, as_text,
}
use quant_api_gateway.StrategyReports.Dates.{Datetime, naive, utc, zoned}
use quant_api_gateway.StrategyReports.Rows.{ℤ, pos, negsuc}
use quant_api_gateway.Schemas.{
  Default, none_default, empty_list, empty_dict, text_default, integer_default, Shape, decimal,
  whole, utc_time, open_dict, sized, literal, nullable, list_of, mapping, model, Declared, done,
  required, optional, Scalars, is_sized, is_null, within, whole_within, in_utc, cons_both,
  each_item, field_both, each_entry, bind, map_option, keep_if, default_value, value_or, read,
  read_fields,
}
use quant_api_gateway.Schemas.Typed.{
  fresh, default_fits, is_well, are_well, AllItems, AllEntries, Typed, TypedFields,
}

module _ {A B : Type 0} where
  bind-eq_some :
      (o : Option A) (f : A → Option B) {b : B}
      → bind o f ≡ some b
      → (a : A) × (o ≡ some a) × (f a ≡ some b)
  bind-eq_some none f h = cc
  bind-eq_some (some a) f h = (a, refl, h)

  map_option-eq_some :
      (f : A → B) (o : Option A) {b : B}
      → map_option f o ≡ some b
      → (a : A) × (o ≡ some a) × (b ≡ f a)
  map_option-eq_some f none h = cc
  map_option-eq_some f (some a) h = (a, refl, cc)

keep_if-eq_some :
    {A : Type 0} (b : Bool) (a : A) {c : A} → keep_if b a ≡ some c → (b ≡ true) × (c ≡ a)
keep_if-eq_some true a h = (refl, cc)
keep_if-eq_some false a h = cc

field_both-eq_some :
    (k : String) (o : Option Json) (r : Option Fields) {fields : Fields}
    → field_both k o r ≡ some fields
    → (v : Json) × (rest : Fields) × (fields ≡ field k v rest) × (o ≡ some v) × (r ≡ some rest)
field_both-eq_some k (some v) (some rest) h = (v, rest, cc, refl, refl)
field_both-eq_some k (some v) none h = cc
field_both-eq_some k none r h = cc

cons_both-eq_some :
    (f : Json → Option Json) (o : Option Json) (r : Option Items) {items : Items}
    → cons_both f o r ≡ some items
    → (v : Json) × (rest : Items) × (items ≡ cons v rest) × (o ≡ some v) × (r ≡ some rest)
cons_both-eq_some f (some v) (some rest) h = (v, rest, cc, refl, refl)
cons_both-eq_some f (some v) none h = cc
cons_both-eq_some f none r h = cc

pub and-eq_true : (a b : Bool) → (a && b) ≡ true → (a ≡ true) × (b ≡ true)
and-eq_true true b h = (refl, h)
and-eq_true false b h = cc

if-eq_some :
    {A : Type 0} (b : Bool) (o : Option A) {a : A}
    → (if b then o else none) ≡ some a
    → (b ≡ true) × (o ≡ some a)
if-eq_some true o h = (refl, h)
if-eq_some false o h = cc

some-inj : {A : Type 0} {a b : A} → some a ≡ some b → a ≡ b
some-inj h = cc

value_or-eq_some :
    (f : Json → Option Json) (o : Option Json) {w : Json}
    → value_or none f o ≡ some w
    → (v : Json) × (o ≡ some v) × (f v ≡ some w)
value_or-eq_some f none h = cc
value_or-eq_some f (some v) h = (v, refl, h)

value_or_default :
    (x : Json) (f : Json → Option Json) (o : Option Json) {w : Json}
    → value_or (some x) f o ≡ some w
    → (w ≡ x) ⊎ ((v : Json) × (f v ≡ some w))
value_or_default x f none h = inl cc
value_or_default x f (some v) h = inr (v, h)

module _ (f : Json → Option Json) (P : Json → Type 0)
    (each : (v w : Json) → f v ≡ some w → P w) where
  each_item-All : (items : Items) {out : Items} → each_item f items ≡ some out → AllItems P out
  each_item-All nil {out} h = let e : out ≡ nil = cc in rw e tt
  each_item-All (cons v items) h =
      let (w, rest, e, first, others) = cons_both-eq_some f (f v) (each_item f items) h in
      rw e (each v w first, each_item-All items others)

  each_entry-All :
      (names : List String) (fields : Fields) {out : Fields}
      → each_entry f names fields ≡ some out
      → AllEntries P names out
  each_entry-All names end {out} h = let e : out ≡ end = cc in rw e tt
  each_entry-All names (field k v fields) {out} h =
      let (w, rest, e, first, others) =
        field_both-eq_some k (if one_of k names then f v else none) (each_entry f names fields) h in
      let (named, is_read) = if-eq_some (one_of k names) (f v) first in
      rw e (named, each v w is_read, each_entry-All names fields others)

module _ (S : Scalars) where
  counted-eq_some :
      (low : ℕ) (high : Option ℕ) (n : ℤ) {w : Json}
      → keep_if (whole_within low high n) (S.integer_out n) ≡ some w
      → (m : ℕ) × (w ≡ S.integer_out (pos m)) × (within low high m ≡ true)
  counted-eq_some low high (pos m) h =
      let (passed, same) = keep_if-eq_some (within low high m) (S.integer_out (pos m)) h in
      (m, same, passed)
  counted-eq_some low high (negsuc m) h = cc

  timed-eq_some :
      (t : Datetime) {w : Json}
      → map_option S.datetime_out (in_utc t) ≡ some w
      → (m : ℕ) × (w ≡ S.datetime_out (utc m))
  timed-eq_some (naive t) h = cc
  timed-eq_some (utc t) h = (t, cc)
  timed-eq_some (zoned t) h = cc

  text-eq_some :
      (test : String → Bool) (v : Json) {w : Json}
      → bind (as_text v) (λ s. keep_if (test s) v) ≡ some w
      → (s : String) × (w ≡ text s) × (test s ≡ true)
  text-eq_some test (text s) h =
      let (passed, same) = keep_if-eq_some (test s) (text s) h in (s, same, passed)
  text-eq_some test null h = cc
  text-eq_some test (bool b) h = cc
  text-eq_some test (number n) h = cc
  text-eq_some test (array items) h = cc
  text-eq_some test (object fields) h = cc

  default-Typed :
      (x : Default) (s : Shape) → default_fits x s ≡ true → Typed S s (default_value S x)
  unfolding Typed
  default-Typed none_default (nullable s) h = inl refl
  default-Typed empty_list (list_of s) h = (nil, refl, tt)
  default-Typed empty_dict open_dict h = (end, refl)
  default-Typed (text_default t) (sized low high) h = (t, refl, h)
  default-Typed (integer_default n) (whole low high) h = (n, refl, h)
  default-Typed x s h = cc

  mutual
    unfolding read Typed is_well

    pub read-Typed : (s : Shape) (v w : Json) → is_well s ≡ true → read S s v ≡ some w → Typed S s w
    read-Typed decimal v w well h =
        let (d, _, e) = map_option-eq_some S.decimal_out (S.decimal_in v) h in (d, e)
    read-Typed (whole low high) v w well h =
        let (n, _, kept) = bind-eq_some (S.integer_in v) _ h in counted-eq_some low high n kept
    read-Typed utc_time v w well h =
        let (t, _, kept) = bind-eq_some (S.datetime_in v) _ h in timed-eq_some t kept
    read-Typed open_dict v w well h =
        let (fields, _, e) = map_option-eq_some object (as_object v) h in (fields, e)
    read-Typed (sized low high) v w well h = text-eq_some (is_sized low high) v h
    read-Typed (literal names) v w well h = text-eq_some (λ s. one_of s names) v h
    read-Typed (nullable s) v w well h = elim (Bool-cases (is_null v)) [
      | inl absent ↦ inl (sym (some-inj (rw absent at h)))
      | inr there ↦ inr (read-Typed s v w well (rw there at h))
    ]
    read-Typed (list_of s) v w well h =
        let (items, _, is_read) = bind-eq_some (as_array v) _ h in
        let (out, each, e) = map_option-eq_some array (each_item (read S s) items) is_read in
        (out, e, each_item-All (read S s) (Typed S s) (λ a b. read-Typed s a b well) items each)
    read-Typed (mapping names s) v w well h =
        let (fields, _, is_read) = bind-eq_some (as_object v) _ h in
        let (out, each, e) =
          map_option-eq_some object (each_entry (read S s) names fields) is_read in
        (
          out,
          e,
          each_entry-All (read S s) (Typed S s) (λ a b. read-Typed s a b well) names fields each,
        )
    read-Typed (model d) v w well h =
        let (fields, _, is_read) = bind-eq_some (as_object v) _ h in
        let (out, each, e) = map_option-eq_some object (read_fields S d fields) is_read in
        (out, e, read_fields-Typed d fields out well each)

    read_fields-Typed :
        (d : Declared) (fields out : Fields)
        → are_well d ≡ true
        → read_fields S d fields ≡ some out
        → TypedFields S d out
    read_fields-Typed done fields out well h = cc
    read_fields-Typed (required k s d) fields out well h =
        let (v, rest, e, first, others) = field_both-eq_some k _ (read_fields S d fields) h in
        let (_, rest_well) = and-eq_true (fresh k d) (is_well s && are_well d) well in
        let (s_well, d_well) = and-eq_true (is_well s) (are_well d) rest_well in
        let (given, _, is_read) = value_or-eq_some (read S s) (get fields k) first in
        (
          v,
          rest,
          e,
          read-Typed s given v s_well is_read,
          read_fields-Typed d fields rest d_well others,
        )
    read_fields-Typed (optional k s x d) fields out well h =
        let (v, rest, e, first, others) = field_both-eq_some k _ (read_fields S d fields) h in
        let (_, rest_well) =
          and-eq_true (fresh k d) (default_fits x s && (is_well s && are_well d)) well in
        let (fits, both_well) =
          and-eq_true (default_fits x s) (is_well s && are_well d) rest_well in
        let (s_well, d_well) = and-eq_true (is_well s) (are_well d) both_well in
        (
          v,
          rest,
          e,
          elim (value_or_default (default_value S x) (read S s) (get fields k) first) [
            | inl same ↦ rw same (default-Typed x s fits)
            | inr (given, is_read) ↦ read-Typed s given v s_well is_read
          ],
          read_fields-Typed d fields rest d_well others,
        )
