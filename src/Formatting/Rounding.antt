-- ===== src/Formatting/Rounding.antt =====
-- How far a rounded amount is from the amount.
use quant_api_gateway.Prelude.{ℕ, zero, suc, ◌+◌, ◌*◌, ◌^◌, ◌≤◌, ◌<◌, arith}
use native.Mathlib.Nat.{mul-div-le, lt-mul-div-succ}
use quant_api_gateway.Formatting.{Decimal, half_up}

pub pow_pos : (n : ℕ) → 0 < 10 ^ n
pow_pos zero = omega arith
pow_pos (suc n) = let h = pow_pos n in omega arith

-- In units of the last place of the number, the rounded one is at most half a unit of the places
-- asked for from the number.
pub half_up-near :
    (d : Decimal) (places : ℕ)
    → (2 * (d.coefficient * 10 ^ places) ≤ 2 * (half_up d places * 10 ^ d.places) + 10 ^ d.places)
      × (2 * (half_up d places * 10 ^ d.places) ≤ 2 * (d.coefficient * 10 ^ places) + 10 ^ d.places)
half_up-near d places =
    let u = 10 ^ d.places in
    let x = 2 * (d.coefficient * 10 ^ places) + u in
    let pos = pow_pos d.places in
    let low = mul-div-le x (2 * u) in
    let high = lt-mul-div-succ x {b = 2 * u} (omega arith) in (grind arith, grind arith)
