-- ===== src/StrategyReports/Dates.antt =====
-- Dates and instants: `_as_utc`, `_date_to_utc` and the half-open window of a query. A date is its
-- ordinal, which Python counts from 1 to 3652059 (9999-12-31), and an instant is in microseconds from
-- the beginning of ordinal 0.
use quant_api_gateway.Prelude.{
  ℕ, ◌+◌, ◌*◌, ◌/◌, ◌≤◌, ◌≡◌, refl, ◌↔◌, Bool, true, false, ◌&&◌, Option, none, some, arith, ltb,
  leb, if◌then◌else◌, ltb→lt, leb→le, Result, ok, err,
}
use native.Mathlib.Nat.{le-div_iff_mul-le, div-lt_iff_lt-mul}
use quant_api_gateway.Effects.{Exception, other}

-- A `datetime`: without a zone, in UTC, or in another zone.
pub data Datetime : Type 0 where
  naive utc zoned : ℕ → Datetime

abbrev pub as_utc : Datetime → Datetime
as_utc (naive t) = utc t
as_utc (utc t) = utc t
as_utc (zoned t) = zoned t

-- `_require_utc`, whose `ValueError` Pydantic makes a `ValidationError`.
abbrev pub require_utc : Datetime → Result Exception Datetime
require_utc (naive t) = err other
require_utc (utc t) = ok (utc t)
require_utc (zoned t) = err other

abbrev pub day : ℕ
day = 86400000000

abbrev pub max_date : ℕ
max_date = 3652059

abbrev pub date_to_utc : Option ℕ → Option ℕ
date_to_utc none = none
date_to_utc (some date) = some (date * day)

abbrev when_early : Bool → ℕ → Result Exception (Option ℕ)
when_early late x = if late then err other else ok (some x)

-- Midnight after the date. `datetime.fromtimestamp` raises `ValueError` on the year 10000.
abbrev pub upper_bound : Option ℕ → Result Exception (Option ℕ)
upper_bound none = ok none
upper_bound (some date) = when_early (leb max_date date) (date * day + day)

-- `($2 IS NULL OR time >= $2) AND ($3 IS NULL OR time < $3)`
abbrev since : Option ℕ → ℕ → Bool
since none t = true
since (some lower) t = leb lower t

abbrev pub before : Option ℕ → ℕ → Bool
before none t = true
before (some upper) t = ltb t upper

abbrev pub in_window : Option ℕ → Option ℕ → ℕ → Bool
in_window lower upper t = since lower t && before upper t

-- The date on which an instant falls.
abbrev pub date_of : ℕ → ℕ
date_of t = t / day

abbrev pub OnOrAfter : Option ℕ → ℕ → Type 0
OnOrAfter none date = Unit
OnOrAfter (some from_date) date = from_date ≤ date

abbrev pub OnOrBefore : Option ℕ → ℕ → Type 0
OnOrBefore none date = Unit
OnOrBefore (some to_date) date = date ≤ to_date

and_iff : (a b : Bool) → (a && b ≡ true) ↔ ((a ≡ true) × (b ≡ true))
and_iff true b = (λ h. (refl, h), λ h. h.1)
and_iff false b = (λ h. cc, λ h. cc)

since_iff :
    (from_date : Option ℕ) (t : ℕ)
    → (since (date_to_utc from_date) t ≡ true) ↔ OnOrAfter from_date (date_of t)
since_iff none t = (λ h. tt, λ h. refl)
since_iff (some d) t =
    let (f, g) = le-div_iff_mul-le {k = day} {x = d} {y = t} (omega arith) in
    (λ h. g (leb→le (d * day) t h), λ h. let k = f h in ground arith)

midnight_iff : (d t : ℕ) → (ltb t (d * day + day) ≡ true) ↔ (date_of t ≤ d)
midnight_iff d t =
    let (f, g) = div-lt_iff_lt-mul {k = day} {x = t} {y = d + 1} (omega arith) in
    (
      λ h. let k = g (omega (arith, ltb→lt t (d * day + day) h)) in omega arith,
      λ h. let k = f (omega arith) in ground arith,
    )

guarded : (late : Bool) (x : ℕ) (upper : Option ℕ) → when_early late x ≡ ok upper → upper ≡ some x
guarded true x upper e = cc
guarded false x upper e = cc

before_iff :
    (to_date upper : Option ℕ) (t : ℕ)
    → upper_bound to_date ≡ ok upper
    → (before upper t ≡ true) ↔ OnOrBefore to_date (date_of t)
before_iff none none t e = (λ h. tt, λ h. refl)
before_iff none (some u) t e = cc
before_iff (some d) upper t e =
    rw (guarded (leb max_date d) (d * day + day) upper e) (midnight_iff d t)

-- Where a query has bounds, an instant is in its window exactly when the date on which it falls is
-- neither before the first date nor after the last, which are both included.
pub window_iff :
    (from_date to_date upper : Option ℕ) (t : ℕ)
    → upper_bound to_date ≡ ok upper
    → (in_window (date_to_utc from_date) upper t ≡ true)
      ↔ (OnOrAfter from_date (date_of t) × OnOrBefore to_date (date_of t))
window_iff from_date to_date upper t e =
    let (f, g) = since_iff from_date t in
    let (h, k) = before_iff to_date upper t e in
    let (m, n) = and_iff (since (date_to_utc from_date) t) (before upper t) in
    (λ w. let (a, b) = m w in (f a, h b), λ (a, b). n (g a, k b))
