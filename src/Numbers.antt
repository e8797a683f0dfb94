-- ===== src/Numbers.antt =====
-- Floats and decimals. Python's `float` and `Decimal` are taken as two types with the operations that
-- the services use; what a theorem needs of them it states.
use quant_api_gateway.Prelude.{ℕ, ◌≡◌, Bool, true, false, not, List, [], ◌∷◌}

pub record Numbers : Type 1 where
  pub Float : Type 0
  pub Decimal : Type 0
  pub zero : Float
  pub one : Float
  pub hundred : Float
  pub add : Float → Float → Float
  pub sub : Float → Float → Float
  pub mul : Float → Float → Float
  pub div : Float → Float → Float
  pub lt : Float → Float → Bool
  pub le : Float → Float → Bool
  -- `float(d)` of a decimal, and of a decimal of `n` units of 0.0001
  pub of_decimal : Decimal → Float
  pub of_units : ℕ → Float
  -- `d > 0`, and `/` on decimals
  pub is_positive : Decimal → Bool
  pub div_decimal : Decimal → Decimal → Decimal
  -- `Decimal(f"{x:.4f}")`, and `Decimal(str(x))` of a float
  pub round4 : Float → Decimal
  pub decimal_of : Float → Decimal
  -- `d == 0`, `Decimal(n)`, and `*` and `-` on decimals
  pub is_zero : Decimal → Bool
  pub decimal_of_nat : ℕ → Decimal
  pub mul_decimal : Decimal → Decimal → Decimal
  pub sub_decimal : Decimal → Decimal → Decimal

-- `sum(values)`, from the left.
abbrev sum_from : (N : Numbers) → N.Float → List N.Float → N.Float
sum_from N acc [] = acc
sum_from N acc (x ∷ xs) = sum_from N (N.add acc x) xs

abbrev pub sum : (N : Numbers) → List N.Float → N.Float
sum N xs = sum_from N N.zero xs

-- The comparisons order the values that occur: none of them is NaN.
pub record IsOrdered (N : Numbers) : Type 0 where
  pub lt_irrefl : (x : N.Float) → N.lt x x ≡ false
  pub lt_trans : (x y z : N.Float) → N.lt x y ≡ true → N.lt y z ≡ true → N.lt x z ≡ true
  pub le-eq-not-lt : (x y : N.Float) → N.le x y ≡ not (N.lt y x)
  pub le_trans : (x y z : N.Float) → N.le x y ≡ true → N.le y z ≡ true → N.le x z ≡ true
