-- ===== src/Schemas/Again.antt =====
-- A document that was read reads as itself, and what a class does not declare is not read.
use quant_api_gateway.Prelude.{
  String, ◌≡◌, refl, inl, inr, Bool, true, false, ◌&&◌, not, Option, some, List, str_eq, eq_refl,
  Bool-cases,
}
use quant_api_gateway.Json.{Json, null, Items, nil, cons, Fields, end, field, get}
use quant_api_gateway.StrategyReports.Dates.{utc}
use quant_api_gateway.StrategyReports.Rows.{pos}
use quant_api_gateway.Schemas.{
  Shape, decimal, whole, utc_time, open_dict, sized, literal, nullable, list_of, mapping, model,
  Declared, done, required, optional, Scalars, Pydantic, is_null, each_item, each_entry, read,
  read_fields,
}
use quant_api_gateway.Schemas.Typed.{
  fresh, default_fits, is_well, are_well, AllItems, AllEntries, Typed, TypedFields,
}
use quant_api_gateway.Schemas.Laws.{and-eq_true}

null_eq : (v : Json) → is_null v ≡ true → v ≡ null
null_eq null h = refl
null_eq v h = cc

pub not-eq_true : (b : Bool) → not b ≡ true → b ≡ false
not-eq_true true h = cc
not-eq_true false h = refl

module _ (f : Json → Option Json) (P : Json → Type 0)
    (again : (v : Json) → P v → f v ≡ some v) where
  each_item-again : (items : Items) → AllItems P items → each_item f items ≡ some items
  each_item-again nil all = refl
  each_item-again (cons v items) (p, all) = rw (again v p, each_item-again items all) refl

  each_entry-again :
      (names : List String) (fields : Fields)
      → AllEntries P names fields
      → each_entry f names fields ≡ some fields
  each_entry-again names end all = refl
  each_entry-again names (field k v fields) (named, p, all) =
      rw (named, again v p, each_entry-again names fields all) refl

pub get-differs :
    (k j : String) (v : Json) (fields : Fields)
    → str_eq k j ≡ false
    → get (field k v fields) j ≡ get fields j
unfolding get
get-differs k j v fields h = rw h refl

pub get-same : (k : String) (v : Json) (fields : Fields) → get (field k v fields) k ≡ some v
unfolding get
get-same k v fields = rw (eq_refl k) refl

module _ (S : Scalars) where
  -- A name that the class does not declare is skipped.
  pub read_fields-fresh :
      (d : Declared) (k : String) (v : Json) (fields : Fields)
      → fresh k d ≡ true
      → read_fields S d (field k v fields) ≡ read_fields S d fields
  unfolding read fresh
  read_fields-fresh done k v fields h = refl
  read_fields-fresh (required j s d) k v fields h =
      let (differs, others) = and-eq_true (not (str_eq k j)) (fresh k d) h in
      rw
        (
          get-differs k j v fields (not-eq_true (str_eq k j) differs),
          read_fields-fresh d k v fields others,
        )
        refl
  read_fields-fresh (optional j s x d) k v fields h =
      let (differs, others) = and-eq_true (not (str_eq k j)) (fresh k d) h in
      rw
        (
          get-differs k j v fields (not-eq_true (str_eq k j) differs),
          read_fields-fresh d k v fields others,
        )
        refl

  module _ (P : Pydantic S) where
    mutual
      unfolding read Typed is_well

      pub Typed-again :
          (s : Shape) (v : Json) → is_well s ≡ true → Typed S s v → read S s v ≡ some v
      Typed-again decimal v well (d, e) = rw e (rw (P.decimal_again d) refl)
      Typed-again (whole low high) v well (n, e, fits) =
          rw e (rw (P.integer_again (pos n)) (rw fits refl))
      Typed-again utc_time v well (t, e) = rw e (rw (P.datetime_again (utc t)) refl)
      Typed-again open_dict v well (fields, e) = rw e refl
      Typed-again (sized low high) v well (t, e, fits) = rw e (rw fits refl)
      Typed-again (literal names) v well (t, e, named) = rw e (rw named refl)
      Typed-again (nullable s) v well (inl e) = rw e refl
      Typed-again (nullable s) v well (inr typed) = elim (Bool-cases (is_null v)) [
        | inl absent ↦ rw (null_eq v absent) refl
        | inr there ↦ rw there (Typed-again s v well typed)
      ]
      Typed-again (list_of s) v well (items, e, all) =
          rw e
            (rw (each_item-again (read S s) (Typed S s) (λ a. Typed-again s a well) items all) refl)
      Typed-again (mapping names s) v well (fields, e, all) = rw e (
          rw (each_entry-again (read S s) (Typed S s) (λ a. Typed-again s a well) names fields all)
            refl)
      Typed-again (model d) v well (fields, e, all) =
          rw e (rw (TypedFields-again d fields well all) refl)

      TypedFields-again :
          (d : Declared) (fields : Fields)
          → are_well d ≡ true
          → TypedFields S d fields
          → read_fields S d fields ≡ some fields
      TypedFields-again done fields well e = rw e refl
      TypedFields-again (required k s d) fields well (v, rest, e, typed, all) =
          let (is_fresh, rest_well) = and-eq_true (fresh k d) (is_well s && are_well d) well in
          let (s_well, d_well) = and-eq_true (is_well s) (are_well d) rest_well in
          rw e (
            rw
              (
                get-same k v rest,
                read_fields-fresh d k v rest is_fresh,
                Typed-again s v s_well typed,
                TypedFields-again d rest d_well all,
              )
              refl)
      TypedFields-again (optional k s x d) fields well (v, rest, e, typed, all) =
          let (is_fresh, rest_well) =
            and-eq_true (fresh k d) (default_fits x s && (is_well s && are_well d)) well in
          let (_, both_well) = and-eq_true (default_fits x s) (is_well s && are_well d) rest_well in
          let (s_well, d_well) = and-eq_true (is_well s) (are_well d) both_well in
          rw e (
            rw
              (
                get-same k v rest,
                read_fields-fresh d k v rest is_fresh,
                Typed-again s v s_well typed,
                TypedFields-again d rest d_well all,
              )
              refl)
