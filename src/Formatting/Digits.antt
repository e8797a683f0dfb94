-- ===== src/Formatting/Digits.antt =====
-- The digits of a text are those of the number that it was printed from.
use quant_api_gateway.Prelude.{
  ℕ, zero, suc, ◌+◌, ◌-◌, ◌*◌, ◌/◌, ◌%◌, ◌^◌, ◌<◌, String, ◌<>◌, ◌≡◌, refl, ap, ◌∙◌, inl, inr, ◌&&◌,
  arith, ltb, leb, if◌then◌else◌, ltb→lt, Bool-cases,
}
use Prim.Native.Char.{code}
use text.Mathlib.TextLemmas.{nil-append, cons-append}
use native.Mathlib.Nat.{div-add-mod, mod-lt, mod-eq_of_lt, mul-add-mod_self_left, pow-suc}
use quant_api_gateway.Formatting.Rounding.{pow_pos}
use quant_api_gateway.Formatting.{digit, plain, padded, grouped}

-- A reader of digits that passes over every other character.
abbrev next_digit : ℕ → ℕ → ℕ
next_digit acc k = if leb 48 k && leb k 57 then acc * 10 + (k - 48) else acc

abbrev pub digits_from : ℕ → String → ℕ
digits_from acc String.[] = acc
digits_from acc (String.◌∷◌ c s) = digits_from (next_digit acc (code c)) s

pub digits-append :
    (acc : ℕ) (s t : String) → digits_from acc (s <> t) ≡ digits_from (digits_from acc s) t
digits-append acc String.[] t = ap (digits_from acc) (nil-append t)
digits-append acc (String.◌∷◌ c s) t =
    ap (digits_from acc) (cons-append c s t) ∙ digits-append (next_digit acc (code c)) s t

digits-digit : (acc n : ℕ) → n < 10 → digits_from acc (digit n) ≡ acc * 10 + n
digits-digit acc zero h = refl
digits-digit acc (suc zero) h = refl
digits-digit acc (suc (suc zero)) h = refl
digits-digit acc (suc (suc (suc zero))) h = refl
digits-digit acc (suc (suc (suc (suc zero)))) h = refl
digits-digit acc (suc (suc (suc (suc (suc zero))))) h = refl
digits-digit acc (suc (suc (suc (suc (suc (suc zero)))))) h = refl
digits-digit acc (suc (suc (suc (suc (suc (suc (suc zero))))))) h = refl
digits-digit acc (suc (suc (suc (suc (suc (suc (suc (suc zero)))))))) h = refl
digits-digit acc (suc (suc (suc (suc (suc (suc (suc (suc (suc zero))))))))) h = refl
digits-digit acc (suc (suc (suc (suc (suc (suc (suc (suc (suc (suc n)))))))))) h =
    absurd (omega arith)

pub digits-plain : (fuel n : ℕ) → n < 10 ^ fuel → digits_from 0 (plain fuel n) ≡ n
digits-plain zero n h = omega arith
digits-plain (suc fuel) n h = elim (Bool-cases (ltb n 10)) [
  | inl e ↦ rw e (
      ap (digits_from 0) (nil-append (digit (n % 10)))
      ∙ digits-digit 0 (n % 10) (omega arith)
      ∙ (let k = ltb→lt n 10 e in omega arith))
  | inr e ↦ rw e (
      digits-append 0 (plain fuel (n / 10)) (digit (n % 10))
      ∙ ap (λ a. digits_from a (digit (n % 10))) (digits-plain fuel (n / 10) (omega arith))
      ∙ digits-digit (n / 10) (n % 10) (omega arith)
      ∙ omega arith)
]

mod-step : (n m : ℕ) → 0 < m → n % (m * 10) ≡ n / 10 % m * 10 + n % 10
mod-step n m pos =
    let split = div-add-mod (n / 10) m in
    let small = mod-lt (n / 10) {m = m} pos in
    let e : n ≡ m * 10 * (n / 10 / m) + (n / 10 % m * 10 + n % 10) = grind arith in
    ap (λ k. k % (m * 10)) e
    ∙ mul-add-mod_self_left (m * 10) (n / 10 / m) (n / 10 % m * 10 + n % 10)
    ∙ mod-eq_of_lt (omega arith)

pub digits-padded :
    (width acc n : ℕ) → digits_from acc (padded width n) ≡ acc * 10 ^ width + n % 10 ^ width
digits-padded zero acc n = omega arith
digits-padded (suc width) acc n =
    digits-append acc (padded width (n / 10)) (digit (n % 10))
    ∙ ap (λ a. digits_from a (digit (n % 10))) (digits-padded width acc (n / 10))
    ∙ digits-digit (acc * 10 ^ width + n / 10 % 10 ^ width) (n % 10) (omega arith)
    ∙ rw (pow-suc 10 width) (rw (mod-step n (10 ^ width) (pow_pos width)) (grind arith))

digits-comma : (acc : ℕ) (s : String) → digits_from acc ("," <> s) ≡ digits_from acc s
digits-comma acc s = digits-append acc "," s

digits-group : (acc n : ℕ) → digits_from acc ("," <> padded 3 (n % 1000)) ≡ acc * 1000 + n % 1000
digits-group acc n =
    digits-comma acc (padded 3 (n % 1000)) ∙ digits-padded 3 acc (n % 1000) ∙ omega arith

pub digits-grouped : (fuel n : ℕ) → n < 1000 ^ fuel → digits_from 0 (grouped fuel n) ≡ n
digits-grouped zero n h = omega arith
digits-grouped (suc fuel) n h = elim (Bool-cases (ltb n 1000)) [
  | inl e ↦ rw e (digits-plain 3 n (ltb→lt n 1000 e))
  | inr e ↦ rw e (
      digits-append 0 (grouped fuel (n / 1000)) ("," <> padded 3 (n % 1000))
      ∙ ap (λ a. digits_from a ("," <> padded 3 (n % 1000)))
          (digits-grouped fuel (n / 1000) (omega arith))
      ∙ digits-group (n / 1000) n
      ∙ omega arith)
]
