-- ===== src/Tests/Documents.antt =====
-- Documents of the report classes over scalars in memory: numbers in unary, and decimals and times as
-- their texts.
use quant_api_gateway.Prelude.{
  ℕ, zero, suc, String, ◌≡◌, refl, ap, Option, none, some, [], ◌∷◌, str_eq, if◌then◌else◌,
}
use quant_api_gateway.Json.{
  Json, null, text, array, object, Items, nil, cons, Fields, end, field, get,
}
use quant_api_gateway.Ingestion.{StrategyPayload}
use quant_api_gateway.Ingestion.Upserts.{Report}
use quant_api_gateway.StrategyReports.Dates.{Datetime, naive, utc, zoned}
use quant_api_gateway.StrategyReports.Rows.{ℤ, pos, negsuc}
use quant_api_gateway.StrategyReports.Items.{SnapshotRow, json_text}
use quant_api_gateway.Schemas.{
  Shape, decimal, whole, utc_time, open_dict, sized, literal, nullable, list_of, mapping, model,
  Declared, done, required, optional, Scalars, Pydantic, read,
}
use quant_api_gateway.Schemas.Report.{report, page, shape_of}
use quant_api_gateway.Schemas.Report.Page.{PageOfTrades, model_validate-PageOfTrades}
use quant_api_gateway.Schemas.Report.Laws.{model_validate-again}
use quant_api_gateway.Schemas.Payload.{parse_extended_report}
use quant_api_gateway.Tests.Figures.{figures}
use quant_api_gateway.Tests.Reports.{payload}

abbrev unary : ℕ → Items
unary zero = nil
unary (suc n) = cons null (unary n)

abbrev amount : Items → ℕ
amount nil = 0
amount (cons v items) = suc (amount items)

amount-unary : (n : ℕ) → amount (unary n) ≡ n
amount-unary zero = refl
amount-unary (suc n) = ap suc (amount-unary n)

abbrev tagged : String → ℕ → Json
tagged tag n = array (cons (text tag) (unary n))

abbrev integer_in : Json → Option ℤ
integer_in (array (cons (text tag) items)) =
    some (if str_eq tag "+" then pos (amount items) else negsuc (amount items))
integer_in v = none

abbrev integer_out : ℤ → Json
integer_out (pos n) = tagged "+" n
integer_out (negsuc n) = tagged "-" n

abbrev datetime_in : Json → Option Datetime
datetime_in (array (cons (text tag) items)) = some (
    if str_eq tag "Z"
    then utc (amount items)
    else if str_eq tag ""
    then naive (amount items)
    else zoned (amount items))
datetime_in v = none

abbrev datetime_out : Datetime → Json
datetime_out (utc t) = tagged "Z" t
datetime_out (naive t) = tagged "" t
datetime_out (zoned t) = tagged "+07:00" t

abbrev decimal_in : Json → Option String
decimal_in (text d) = some d
decimal_in v = none

abbrev pub scalars : Scalars
scalars = record {
  Decimal = String;
  decimal_in = decimal_in;
  decimal_out = λ d. text d;
  integer_in = integer_in;
  integer_out = integer_out;
  datetime_in = datetime_in;
  datetime_out = datetime_out;
}

pub integer_out-again : (n : ℤ) → integer_in (integer_out n) ≡ some n
integer_out-again (pos n) = rw (amount-unary n) refl
integer_out-again (negsuc n) = rw (amount-unary n) refl

pub datetime_out-again : (t : Datetime) → datetime_in (datetime_out t) ≡ some t
datetime_out-again (naive t) = rw (amount-unary t) refl
datetime_out-again (utc t) = rw (amount-unary t) refl
datetime_out-again (zoned t) = rw (amount-unary t) refl

abbrev pub pydantic : Pydantic scalars
pydantic = record {
  model_validate = read scalars;
  reads = λ s v. refl;
  decimal_again = λ d. refl;
  integer_again = integer_out-again;
  datetime_again = datetime_out-again;
}

-- A document of a shape, with the required fields only.
mutual
  sample : Shape → Json
  sample decimal = text "1.5"
  sample (whole low high) = integer_out (pos low)
  sample utc_time = datetime_out (utc 7)
  sample open_dict = object end
  sample (sized low high) = text "PTT"
  sample (literal []) = null
  sample (literal (name ∷ names)) = text name
  sample (nullable s) = null
  sample (list_of s) = array (cons (sample s) nil)
  sample (mapping names s) = object end
  sample (model d) = object (sample_fields d)

  sample_fields : Declared → Fields
  sample_fields done = end
  sample_fields (required k s d) = field k (sample s) (sample_fields d)
  sample_fields (optional k s x d) = sample_fields d

abbrev or_null : Option Json → Json
or_null none = null
or_null (some v) = v

one_page : Json
unfolding sample shape_of
one_page = sample (shape_of page)

pub one_report : Json
unfolding sample shape_of
one_report = sample (shape_of report)

validated_page : Json
unfolding one_page read
validated_page = or_null (read scalars (shape_of page) one_page)

pub validated_report : Json
unfolding one_report read
validated_report = or_null (read scalars (shape_of report) one_report)

read-one_page : read scalars (shape_of page) one_page ≡ some validated_page
unfolding validated_page get
read-one_page = refl

read-one_report : read scalars (shape_of report) one_report ≡ some validated_report
unfolding validated_report get
read-one_report = refl

model_validate-PageOfTrades_example : PageOfTrades scalars validated_page
model_validate-PageOfTrades_example =
    model_validate-PageOfTrades scalars pydantic one_page validated_page read-one_page

model_validate-again_example :
    read scalars (shape_of report) validated_report ≡ some validated_report
model_validate-again_example =
    model_validate-again scalars pydantic report one_report validated_report read-one_report

-- A text form of one document.
abbrev pub dumps : Json → String
dumps v = "report"

abbrev pub loads : String → Option Json
loads s = if str_eq s "report" then some validated_report else none

abbrev pub with_report : StrategyPayload figures
with_report = record payload {
  extended_data = field "report" one_report end;
  parsed_report = some "report";
}

abbrev pub fetched : Option (Report figures) → Option SnapshotRow
fetched none = none
fetched (some r) =
    some
      (record { time = utc r.time; report = json_text r.report; computed_at = utc r.computed_at })

pub parsed :
    parse_extended_report scalars pydantic with_report.extended_data ≡ some validated_report
unfolding parse_extended_report read-one_report validated_report get sample
parsed = refl
