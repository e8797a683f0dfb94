-- ===== src/Prelude/Texts.antt =====
-- Lists of texts and their lengths.
use Prim.Native.Nat.{ℕ, suc}
use Prim.Native.String.{String}
use mathlib.Core.Bool.{Bool, false, ◌||◌}
use mathlib.Core.List.{List, [], ◌∷◌}
use text.Mathlib.Text.{◌==◌}

-- `x in names`.
abbrev pub one_of : String → List String → Bool
one_of x [] = false
one_of x (n ∷ ns) = n == x || one_of x ns

-- The library's `length` returns unary numbers.
abbrev pub length {ℓ} : {A : Type ℓ} → List A → ℕ
length [] = 0
length (x ∷ xs) = suc (length xs)
