-- ===== src/Formatting/Currency.antt =====
-- What the text of an amount of money says of the amount.
use quant_api_gateway.Prelude.{
  ℕ, zero, suc, ◌+◌, ◌*◌, ◌/◌, ◌%◌, ◌^◌, ◌≤◌, ◌<◌, String, ◌<>◌, ◌≡◌, refl, ap, ◌∙◌, inl, inr, Bool,
  true, false, ◌&&◌, ◌||◌, arith, ltb, ◌==◌, lt→ltb, Bool-cases, ok,
}
use Prim.Native.Char.{code}
use text.Mathlib.TextLemmas.{nil-append, cons-append}
use quant_api_gateway.Formatting.{
  Decimal, half_up, max_coefficient, digit, plain, padded, grouped, sign, fixed_grouped,
  currency_text, format_currency,
}
use quant_api_gateway.Formatting.Rounding.{half_up-near}
use quant_api_gateway.Formatting.Digits.{digits_from, digits-append, digits-padded, digits-grouped}

abbrev pub cents : Bool → ℕ → Decimal
cents negative n = record { negative = negative; coefficient = n; places = 2 }

pub digits-sign : (acc n : ℕ) (negative : Bool) → digits_from acc (sign (cents negative n)) ≡ acc
digits-sign acc n true = refl
digits-sign acc n false = refl

digits-fixed :
    (negative : Bool) (n : ℕ)
    → n < max_coefficient
    → digits_from 0 (fixed_grouped (cents negative n)) ≡ n
digits-fixed negative n h =
    digits-append 0 (sign (cents negative n)) (grouped 10 (n / 10 ^ 2) <> "." <> padded 2 n)
    ∙ ap (λ a. digits_from a (grouped 10 (n / 10 ^ 2) <> "." <> padded 2 n))
        (digits-sign 0 n negative)
    ∙ digits-append 0 (grouped 10 (n / 10 ^ 2)) ("." <> padded 2 n)
    ∙ ap (λ a. digits_from a ("." <> padded 2 n)) (digits-grouped 10 (n / 10 ^ 2) (omega arith))
    ∙ digits-append (n / 100) "." (padded 2 n)
    ∙ digits-padded 2 (n / 100) n
    ∙ omega arith

-- A text begins with a minus sign, or with a dollar sign and then a minus sign.
abbrev pub starts_minus : String → Bool
starts_minus String.[] = false
starts_minus (String.◌∷◌ c s) = code c == 45

abbrev starts_dollar_minus : String → Bool
starts_dollar_minus String.[] = false
starts_dollar_minus (String.◌∷◌ c s) = code c == 36 && starts_minus s

-- What the text of an amount, rounded to `n` cents, says: its digits are those of `n`, it begins
-- with a minus sign when the amount is negative after rounding, and with `$-` when it is negative
-- and was rounded to zero.
abbrev pub Says : Bool → ℕ → String → Type 0
Says negative n text =
    (digits_from 0 text ≡ n)
    × (starts_minus text ≡ negative && ltb 0 n)
    × (starts_dollar_minus text ≡ negative && n == 0)

abbrev has_minus : String → Bool
has_minus String.[] = false
has_minus (String.◌∷◌ c s) = code c == 45 || has_minus s

pub has_minus-append :
    (s t : String) → has_minus s ≡ false → has_minus t ≡ false → has_minus (s <> t) ≡ false
has_minus-append String.[] t h k = rw (nil-append t) k
has_minus-append (String.◌∷◌ c s) t h k =
    rw (cons-append c s t) (let l = has_minus-append s t (ground arith) k in ground arith)

pub starts_minus-of_has : (s : String) → has_minus s ≡ false → starts_minus s ≡ false
starts_minus-of_has String.[] h = refl
starts_minus-of_has (String.◌∷◌ c s) h = ground arith

has_minus-digit : (n : ℕ) → has_minus (digit n) ≡ false
has_minus-digit zero = refl
has_minus-digit (suc zero) = refl
has_minus-digit (suc (suc zero)) = refl
has_minus-digit (suc (suc (suc zero))) = refl
has_minus-digit (suc (suc (suc (suc zero)))) = refl
has_minus-digit (suc (suc (suc (suc (suc zero))))) = refl
has_minus-digit (suc (suc (suc (suc (suc (suc zero)))))) = refl
has_minus-digit (suc (suc (suc (suc (suc (suc (suc zero))))))) = refl
has_minus-digit (suc (suc (suc (suc (suc (suc (suc (suc zero)))))))) = refl
has_minus-digit (suc (suc (suc (suc (suc (suc (suc (suc (suc n))))))))) = refl

pub has_minus-padded : (width n : ℕ) → has_minus (padded width n) ≡ false
has_minus-padded zero n = refl
has_minus-padded (suc width) n =
    has_minus-append (padded width (n / 10)) (digit (n % 10)) (has_minus-padded width (n / 10))
      (has_minus-digit (n % 10))

pub has_minus-plain : (fuel n : ℕ) → has_minus (plain fuel n) ≡ false
has_minus-plain zero n = refl
has_minus-plain (suc fuel) n = elim (Bool-cases (ltb n 10)) [
  | inl e ↦ rw e (has_minus-append "" (digit (n % 10)) refl (has_minus-digit (n % 10)))
  | inr e ↦ rw e (
      has_minus-append (plain fuel (n / 10)) (digit (n % 10)) (has_minus-plain fuel (n / 10))
        (has_minus-digit (n % 10)))
]

has_minus-grouped : (fuel n : ℕ) → has_minus (grouped fuel n) ≡ false
has_minus-grouped zero n = refl
has_minus-grouped (suc fuel) n = elim (Bool-cases (ltb n 1000)) [
  | inl e ↦ rw e (has_minus-plain 3 n)
  | inr e ↦ rw e (
      has_minus-append (grouped fuel (n / 1000)) ("," <> padded 3 (n % 1000))
        (has_minus-grouped fuel (n / 1000))
        (has_minus-append "," (padded 3 (n % 1000)) refl (has_minus-padded 3 (n % 1000))))
]

has_minus-fixed : (n : ℕ) → has_minus (fixed_grouped (cents false n)) ≡ false
has_minus-fixed n = has_minus-append "" (grouped 10 (n / 10 ^ 2) <> "." <> padded 2 n) refl (
    has_minus-append (grouped 10 (n / 10 ^ 2)) ("." <> padded 2 n)
      (has_minus-grouped 10 (n / 10 ^ 2))
      (has_minus-append "." (padded 2 n) refl (has_minus-padded 2 n)))

currency_text-Says :
    (negative : Bool) (n : ℕ)
    → n < max_coefficient
    → Says negative n (currency_text (cents negative n))
currency_text-Says true zero h = (refl, refl, refl)
currency_text-Says true (suc n) h =
    let e : ltb 0 (suc n) ≡ true = ground arith in
    let text = fixed_grouped (cents false (suc n)) in
    rw e (
      digits-append 0 "-$" text ∙ digits-fixed false (suc n) h,
      rw (cons-append _ "$" text) refl,
      rw (cons-append _ "$" text) (ground arith),
    )
currency_text-Says false n h =
    let text = fixed_grouped (cents false n) in
    (
      digits-append 0 "$" text ∙ digits-fixed false n h,
      rw (cons-append _ "" text) refl,
      rw (cons-append _ "" text)
          (rw (nil-append text) (starts_minus-of_has text (has_minus-fixed n))),
    )

-- An amount that is below 10^26 after rounding has a text: its digits are those of the amount in
-- cents, which differs from the amount by at most half a cent (in units of the last place of the
-- amount); it begins with a minus sign exactly if the amount is negative and does not round to zero,
-- and with `$-` exactly if it is negative and rounds to zero.
pub format_currency-Says :
    (value : Decimal)
    → half_up value 2 < max_coefficient
    → (text : String) × (format_currency value ≡ ok text)
      × Says value.negative (half_up value 2) text
      × (2 * (value.coefficient * 10 ^ 2)
          ≤ 2 * (half_up value 2 * 10 ^ value.places) + 10 ^ value.places)
      × (2 * (half_up value 2 * 10 ^ value.places)
          ≤ 2 * (value.coefficient * 10 ^ 2) + 10 ^ value.places)
unfolding format_currency
format_currency-Says value small =
    let (low, high) = half_up-near value 2 in
    (
      currency_text (cents value.negative (half_up value 2)),
      rw (lt→ltb (half_up value 2) max_coefficient small) refl,
      currency_text-Says value.negative (half_up value 2) small,
      low,
      high,
    )
