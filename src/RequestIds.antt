-- ===== src/RequestIds.antt =====
-- The request id: `RequestIDMiddleware` of main.py, and `JSONFormatter` of logging_config.py, which
-- reads the same context variable. The clock and the text of an exception are parameters, and so is
-- what handles the request.
use quant_api_gateway.Prelude.{
  String, ◌≡◌, refl, ap, false, ◌⊎◌, Option, none, some, List, [], ◌∷◌, ◌++◌, str_eq, if◌then◌else◌,
  inl, inr, Result, ok, err,
}
use mathlib.Core.List.{append-nil, append_assoc}
use quant_api_gateway.Json.{text, Fields, end, field, get}
use quant_api_gateway.Effects.{Exception}

-- What the formatter reads of a `LogRecord`; `exc_info` is the text of its exception, if it has one.
pub record LogRecord : Type 0 where
  pub timestamp : String
  pub level_name : String
  pub name : String
  pub message : String
  pub exc_info : Option String

-- `if record.exc_info and record.exc_info[0]`
abbrev exc_fields : Option String → Fields
exc_fields none = end
exc_fields (some trace) = field "exc_info" (text trace) end

-- `if request_id`: neither `None` nor the empty text.
abbrev id_fields : Option String → Fields → Fields
id_fields none rest = rest
id_fields (some request_id) rest =
    if str_eq request_id "" then rest else field "request_id" (text request_id) rest

-- The dict that becomes the line.
unfoldable pub format : Option String → LogRecord → Fields
format request_id_var r = field "timestamp" (text r.timestamp) (
    field "level" (text r.level_name) (
      field "logger" (text r.name)
        (field "message" (text r.message) (id_fields request_id_var (exc_fields r.exc_info)))))

-- A response, with the header of a name and the setting of one.
pub record Responses : Type 1 where
  pub Response : Type 0
  pub header : Response → String → Option String
  pub set_header : String → String → Response → Response
  pub set_header-reads :
      (key value : String) (r : Response) → header (set_header key value r) key ≡ some value

-- `request_id_var`, and the lines logged so far.
pub record Logging : Type 0 where
  pub request_id_var : Option String
  pub lines : List Fields

module _ (R : Responses) where
  -- A request's handler: the records that it logs, one after the other, and how it ends.
  pub record Handled : Type 0 where
    pub records : List LogRecord
    pub result : Result Exception R.Response

  abbrev log_each : List LogRecord → Logging → Logging
  log_each [] s = s
  log_each (r ∷ records) s =
      log_each records (record s { lines = s.lines ++ format s.request_id_var r ∷ [] })

  abbrev with_id : String → Result Exception R.Response → Result Exception R.Response
  with_id request_id (ok response) = ok (R.set_header "X-Request-ID" request_id response)
  with_id request_id (err e) = err e

  -- `token = set(…)`, then `reset(token)` in the `finally`.
  unfoldable pub dispatch : String → Handled → Logging → Result Exception R.Response × Logging
  dispatch request_id handled s =
      let logged = log_each handled.records (record s { request_id_var = some request_id }) in
      (with_id request_id handled.result, record logged { request_id_var = s.request_id_var })

-- A line that carries this request id.
abbrev pub Carries : String → Fields → Type 0
Carries request_id line = get line "request_id" ≡ some (text request_id)

abbrev pub AllCarry : String → List Fields → Type 0
AllCarry request_id [] = Unit
AllCarry request_id (line ∷ lines) = Carries request_id line × AllCarry request_id lines

format-Carries :
    (request_id : String) (r : LogRecord)
    → str_eq request_id "" ≡ false
    → Carries request_id (format (some request_id) r)
unfolding format get
format-Carries request_id r named = rw named refl

module _ (R : Responses) (request_id : String) where
  with_id-ends :
      (x : Result Exception R.Response)
      → ((e : Exception) × (x ≡ err e) × (with_id R request_id x ≡ err e))
        ⊎ ((response : R.Response) × (with_id R request_id x ≡ ok response)
            × (R.header response "X-Request-ID" ≡ some request_id))
  with_id-ends (err e) = inl (e, refl, refl)
  with_id-ends (ok r) = inr (_, refl, R.set_header-reads "X-Request-ID" request_id r)

module _ (R : Responses) where
  log_each-adds :
      (request_id : String) (records : List LogRecord) (lines : List Fields)
      → str_eq request_id "" ≡ false
      → (more : List Fields) × (log_each R records
            (record { request_id_var = some request_id; lines = lines })
          ≡ record { request_id_var = some request_id; lines = lines ++ more })
        × AllCarry request_id more
  log_each-adds request_id [] lines named = ([], rw append-nil refl, tt)
  log_each-adds request_id (r ∷ records) lines named =
      let line = format (some request_id) r in
      let (more, same, carried) = log_each-adds request_id records (lines ++ line ∷ []) named in
      (line ∷ more, rw same (rw append_assoc refl), (format-Carries request_id r named, carried))

  -- Every line that is logged while a request is handled carries its id, the response has the same
  -- id in its header, and afterwards, also when the handler raised, the variable is what it was
  -- before.
  pub dispatch-Tagged :
      (request_id : String) (handled : Handled R) (s : Logging)
      → str_eq request_id "" ≡ false
      → let (answer, s') = dispatch R request_id handled s in
        (s'.request_id_var ≡ s.request_id_var)
        × ((more : List Fields) × (s'.lines ≡ s.lines ++ more) × AllCarry request_id more)
        × (((e : Exception) × (handled.result ≡ err e) × (answer ≡ err e))
            ⊎ ((response : R.Response) × (answer ≡ ok response)
                × (R.header response "X-Request-ID" ≡ some request_id)))
  unfolding dispatch
  dispatch-Tagged request_id handled s named =
      let (more, same, carried) = log_each-adds request_id handled.records s.lines named in
      (refl, (more, ap (λ l. l.lines) same, carried), with_id-ends R request_id handled.result)
