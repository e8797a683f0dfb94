-- ===== src/Formatting.antt =====
-- utils/formatting.py: the texts of the metric widgets. A `Decimal` is its sign, its digits as one
-- number and how many of them follow the point; its context has the default precision of 28 digits.
pub mod Digits
pub mod Rounding
pub mod Currency
use quant_api_gateway.Prelude.{
  ℕ, zero, suc, ◌+◌, ◌-◌, ◌*◌, ◌/◌, ◌%◌, ◌^◌, ◌≤◌, ◌<◌, String, ◌<>◌, ◌≡◌, refl, sym, ap, ◌∙◌,
  fun_ext, ◌≢◌, ◌↔◌, ◌⊎◌, inl, inr, Bool, true, false, not, ◌&&◌, ◌||◌, Option, none, some, List,
  [], ◌∷◌, ◌++◌, map, arith, str_eq, eq_iff, eq_refl, ltb, leb, ◌==◌, if◌then◌else◌, ltb→lt, lt→ltb,
  leb→le, le→leb, Bool-cases, Option-cases, is_none, one_of, length, Result, ok, err,
}
use quant_api_gateway.Effects.{Exception, other}

pub record Decimal : Type 0 where
  pub negative : Bool
  pub coefficient : ℕ
  pub places : ℕ

-- `d < 0` and `d > 0`: a zero is neither, whatever its sign.
abbrev pub is_negative : Decimal → Bool
is_negative d = d.negative && ltb 0 d.coefficient

abbrev pub is_positive : Decimal → Bool
is_positive d = not d.negative && ltb 0 d.coefficient

-- `-d`, of a number that is not zero.
abbrev negate : Decimal → Decimal
negate d = record { negative = not d.negative; coefficient = d.coefficient; places = d.places }

-- The digits of `d` with `places` places, half a unit rounded away from zero.
abbrev pub half_up : Decimal → ℕ → ℕ
half_up d places = (2 * (d.coefficient * 10 ^ places) + 10 ^ d.places) / (2 * 10 ^ d.places)

abbrev pub max_coefficient : ℕ
max_coefficient = 10000000000000000000000000000

abbrev within : Decimal → Result Exception Decimal
within d = if ltb d.coefficient max_coefficient then ok d else err other

-- `d.quantize(…, rounding=ROUND_HALF_UP)`, which raises `InvalidOperation` beyond the precision. The
-- sign stays, that of a zero too.
abbrev quantize : Decimal → ℕ → Result Exception Decimal
quantize d places =
    within (record { negative = d.negative; coefficient = half_up d places; places = places })

-- `d.quantize(…)` with the default ROUND_HALF_EVEN.
abbrev to_even : ℕ → ℕ → ℕ → ℕ
to_even q r unit =
    if ltb (2 * r) unit
    then q
    else if ltb unit (2 * r)
    then q + 1
    else if q % 2 == 0
    then q
    else q + 1

abbrev half_even : Decimal → ℕ → ℕ
half_even d places =
    let x = d.coefficient * 10 ^ places in
    let unit = 10 ^ d.places in to_even (x / unit) (x % unit) unit

abbrev pub quantize_even : Decimal → ℕ → Result Exception Decimal
quantize_even d places =
    within (record { negative = d.negative; coefficient = half_even d places; places = places })

-- The coefficients of two numbers at the greater of their places.
abbrev at_places : ℕ → Decimal → ℕ
at_places places d = d.coefficient * 10 ^ (places - d.places)

abbrev larger : ℕ → ℕ → ℕ
larger a b = if ltb a b then b else a

-- `a - b`, exact for a result within the precision. A zero is negative only from `-0 - 0`.
abbrev pub minus : Decimal → Decimal → Decimal
minus a b =
    let places = larger a.places b.places in
    let x = at_places places a in
    let y = at_places places b in
    if a.negative
    then (if b.negative
        then (if ltb y x
            then record { negative = true; coefficient = x - y; places = places }
            else record { negative = false; coefficient = y - x; places = places })
        else record { negative = true; coefficient = x + y; places = places })
    else (if b.negative
        then record { negative = false; coefficient = x + y; places = places }
        else (if ltb x y
            then record { negative = true; coefficient = y - x; places = places }
            else record { negative = false; coefficient = x - y; places = places }))

-- `value * Decimal(100)`, exact for a product within the precision.
abbrev pub times_100 : Decimal → Decimal
times_100 d = record { negative = d.negative; coefficient = d.coefficient * 100; places = d.places }

abbrev pub digit : ℕ → String
digit zero = "0"
digit (suc zero) = "1"
digit (suc (suc zero)) = "2"
digit (suc (suc (suc zero))) = "3"
digit (suc (suc (suc (suc zero)))) = "4"
digit (suc (suc (suc (suc (suc zero))))) = "5"
digit (suc (suc (suc (suc (suc (suc zero)))))) = "6"
digit (suc (suc (suc (suc (suc (suc (suc zero))))))) = "7"
digit (suc (suc (suc (suc (suc (suc (suc (suc zero)))))))) = "8"
digit (suc (suc (suc (suc (suc (suc (suc (suc (suc n))))))))) = "9"

-- The decimal digits of a number, at most `fuel` of them.
abbrev pub plain : ℕ → ℕ → String
plain zero n = ""
plain (suc fuel) n =
    let rest = plain fuel (n / 10) in (if ltb n 10 then "" else rest) <> digit (n % 10)

-- The last `width` digits.
abbrev pub padded : ℕ → ℕ → String
padded zero n = ""
padded (suc width) n = padded width (n / 10) <> digit (n % 10)

-- A comma before every third digit from the right.
abbrev pub grouped : ℕ → ℕ → String
grouped zero n = ""
grouped (suc fuel) n =
    let rest = grouped fuel (n / 1000) in
    if ltb n 1000 then plain 3 n else rest <> "," <> padded 3 (n % 1000)

abbrev pub sign : Decimal → String
sign d = if d.negative then "-" else ""

abbrev fraction : Decimal → String
fraction d = elim d.places [ zero ↦ "" | suc n ↦ "." <> padded (suc n) d.coefficient ]

-- `f"{d:.{places}f}"` and `f"{d:,.{places}f}"`, of a number that has that many places.
abbrev pub fixed : Decimal → String
fixed d = sign d <> plain 28 (d.coefficient / 10 ^ d.places) <> fraction d

abbrev pub fixed_grouped : Decimal → String
fixed_grouped d = sign d <> grouped 10 (d.coefficient / 10 ^ d.places) <> fraction d

abbrev on_quantized : Result Exception Decimal → (Decimal → String) → Result Exception String
on_quantized (ok d) f = ok (f d)
on_quantized (err e) f = err e

abbrev percentage_text : Bool → Decimal → String
percentage_text use_arrows scaled =
    let formatted = fixed scaled in
    if not use_arrows
    then formatted <> "%"
    else if is_positive scaled
    then "↑ +" <> formatted <> "%"
    else if is_negative scaled
    then "↓ " <> formatted <> "%"
    else "→ " <> formatted <> "%"

unfoldable pub format_percentage : Decimal → ℕ → Bool → Result Exception String
format_percentage value decimals use_arrows =
    on_quantized (quantize (times_100 value) decimals) (percentage_text use_arrows)

abbrev pub currency_text : Decimal → String
currency_text rounded =
    if is_negative rounded
    then "-$" <> fixed_grouped (negate rounded)
    else "$" <> fixed_grouped rounded

pub format_currency : Decimal → Result Exception String
format_currency value = on_quantized (quantize value 2) currency_text

unfoldable pub format_delta_number : Decimal → ℕ → Result Exception String
format_delta_number value decimals = on_quantized (quantize value decimals) fixed
