-- ===== src/StrategyReports/Each.antt =====
-- List comprehensions whose elements may raise.
use quant_api_gateway.Prelude.{
  ◌≡◌, refl, sym, ap, ◌∙◌, Bool, true, false, List, [], ◌∷◌, ◌++◌, Result, ok, err,
}
use quant_api_gateway.Effects.{Exception}
use quant_api_gateway.StrategyReports.Items.{prepend, each, when}

module _ {A B : Type 0} (f : A → Result Exception B) where
  pub prepend-ok :
      (x : Result Exception B) (xs : Result Exception (List B)) (p : List B)
      → prepend f x xs ≡ ok p
      → (b : B) × (bs : List B) × (x ≡ ok b) × (xs ≡ ok bs) × (p ≡ b ∷ bs)
  prepend-ok (ok b) (ok bs) p h = (b, bs, refl, refl, cc)
  prepend-ok (ok b) (err e) p h = cc
  prepend-ok (err e) xs p h = cc

  pub each-append :
      (xs ys : List A) (p q : List B)
      → each f xs ≡ ok p
      → each f ys ≡ ok q
      → each f (xs ++ ys) ≡ ok (p ++ q)
  each-append [] ys p q h k = let e : [] ≡ p = cc in k ∙ ap (λ l. ok (l ++ q)) e
  each-append (x ∷ xs) ys p q h k =
      let (b, bs, e, es, same) = prepend-ok (f x) (each f xs) p h in
      ap (λ r. prepend f r (each f (xs ++ ys))) e
      ∙ ap (prepend f (ok b)) (each-append xs ys bs q es k)
      ∙ ap (λ l. ok (l ++ q)) (sym same)

  pub each-empty : (xs : List A) → each f xs ≡ ok [] → xs ≡ []
  each-empty [] h = refl
  each-empty (x ∷ xs) h = let (b, bs, e, es, same) = prepend-ok (f x) (each f xs) [] h in cc

pub when-ok : {A : Type 0} (b : Bool) (a c : A) → when b a ≡ ok c → (b ≡ true) × (a ≡ c)
when-ok true a c h = (refl, cc)
when-ok false a c h = cc
