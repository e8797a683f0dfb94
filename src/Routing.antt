-- ===== src/Routing.antt =====
-- Route tables. The decorators of a router declare its routes in order, and the first whose method
-- and template fit a request handles it; a path parameter takes one segment, which is not empty, and
-- a `:path` parameter all that is left (the rule that the comments above the routes of
-- api/v2/engines/execution.py and orderbook.py state).
use text.Mathlib.TextLemmas.{append_assoc, append-nil}
use quant_api_gateway.Prelude.{
  String, ◌<>◌, ◌≡◌, refl, ap, ◌∙◌, Bool, true, false, ◌&&◌, not, Option, none, some, List, [], ◌∷◌,
  arith, str_eq, eq_iff, if◌then◌else◌, Option-cases, inl, inr,
}

-- A path, from its segments.
abbrev pub render : List String → String
render [] = ""
render (s ∷ []) = "/" <> s
render (s ∷ t ∷ segments) = "/" <> s <> render (t ∷ segments)

-- A literal that ends in a slash, as the handlers write it before a parameter.
pub slash : (a x : String) → ("/" <> a <> "/") <> x ≡ "/" <> a <> "/" <> x
slash a x = append_assoc "/" (a <> "/") x ∙ ap (λ s. "/" <> s) (append_assoc a "/" x)

-- A path parameter with all the segments that it takes.
pub render-path :
    (head x : String) (rest : List String)
    → "/" <> head <> "/" <> x <> render rest ≡ render (head ∷ x ∷ rest)
render-path head x [] = ap (λ s. "/" <> head <> "/" <> s) (append-nil x)
render-path head x (y ∷ rest) = refl

pub data Route (A : Type 0) : Type 0 where
  fixed : String → List String → A → Route A
  one_param : String → String → List String → (String → A) → Route A
  path_param : String → String → (String → A) → Route A

abbrev pub same : List String → List String → Bool
same [] [] = true
same [] (_ ∷ _) = false
same (_ ∷ _) [] = false
same (x ∷ xs) (y ∷ ys) = str_eq x y && same xs ys

module _ {A : Type 0} where
  abbrev fit : Route A → String → List String → Option A
  fit (fixed m segments a) method path =
      if str_eq m method && same segments path then some a else none
  fit (one_param m head tail f) method (h ∷ x ∷ rest) =
      if str_eq m method && str_eq head h && not (str_eq x "") && same tail rest
      then some (f x)
      else none
  fit (one_param m head tail f) method (h ∷ []) = none
  fit (one_param m head tail f) method [] = none
  fit (path_param m head f) method (h ∷ x ∷ rest) =
      if str_eq m method && str_eq head h then some (f (x <> render rest)) else none
  fit (path_param m head f) method (h ∷ []) = none
  fit (path_param m head f) method [] = none

  abbrev or_else : Option A → Option A → Option A
  or_else none b = b
  or_else (some a) b = some a

  unfoldable pub dispatch : List (Route A) → String → List String → Option A
  dispatch [] method path = none
  dispatch (r ∷ routes) method path = or_else (fit r method path) (dispatch routes method path)

same→eq : (xs ys : List String) → same xs ys ≡ true → xs ≡ ys
same→eq [] [] h = refl
same→eq [] (_ ∷ _) h = cc
same→eq (_ ∷ _) [] h = cc
same→eq (x ∷ xs) (y ∷ ys) h = ground (arith, eq_iff x y, same→eq xs ys)

-- A property of every handler that a route can give, at the path that it fits.
module _ {A : Type 0} (P : String → List String → A → Type 0) where
  abbrev Sound : Route A → Type 0
  Sound (fixed m segments a) = P m segments a
  Sound (one_param m head tail f) = (x : String) → P m (head ∷ x ∷ tail) (f x)
  Sound (path_param m head f) =
      (x : String) (rest : List String) → P m (head ∷ x ∷ rest) (f (x <> render rest))

  abbrev pub AllSound : List (Route A) → Type 0
  AllSound [] = Unit
  AllSound (r ∷ routes) = Sound r × AllSound routes

  move : {m n : String} {p q : List String} {a b : A} → m ≡ n → p ≡ q → a ≡ b → P m p a → P n q b
  move e f g s = rw (← e, ← f, ← g) s

  fit-sound :
      (r : Route A) (method : String) (path : List String) (a : A)
      → Sound r
      → fit r method path ≡ some a
      → P method path a
  fit-sound (fixed m segments b) method path a s h =
      move (ground (arith, eq_iff m method)) (same→eq segments path (ground arith)) (ground arith) s
  fit-sound (one_param m head tail f) method (h ∷ x ∷ rest) a s e =
      move {p = head ∷ x ∷ tail} (ground (arith, eq_iff m method))
        (ground (arith, eq_iff head h, same→eq tail rest)) (ground arith) (s x)
  fit-sound (one_param m head tail f) method [] a s e = cc
  fit-sound (one_param m head tail f) method (h ∷ []) a s e = cc
  fit-sound (path_param m head f) method (h ∷ x ∷ rest) a s e =
      move {p = head ∷ x ∷ rest} (ground (arith, eq_iff m method)) (ground (arith, eq_iff head h))
        (ground arith) (s x rest)
  fit-sound (path_param m head f) method [] a s e = cc
  fit-sound (path_param m head f) method (h ∷ []) a s e = cc

  -- What holds of every route of a table holds of the handler that a request is given.
  pub dispatch-sound :
      (routes : List (Route A)) (method : String) (path : List String) (a : A)
      → AllSound routes
      → dispatch routes method path ≡ some a
      → P method path a
  unfolding dispatch
  dispatch-sound [] method path a s e = cc
  dispatch-sound (r ∷ routes) method path a s e = elim (Option-cases (fit r method path)) [
    | inl other ↦ dispatch-sound routes method path a s.1 (ground arith)
    | inr (b, found) ↦ fit-sound r method path a s.0 (ground arith)
  ]
