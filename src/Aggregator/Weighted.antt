-- ===== src/Aggregator/Weighted.antt =====
-- Which strategies and curves count in the aggregates.
use quant_api_gateway.Prelude.{
  String, ◌≡◌, refl, ap, ◌⊎◌, inl, inr, Bool, true, false, none, List, [], ◌∷◌, ◌++◌, arith,
}
use quant_api_gateway.Numbers.{Numbers}
use quant_api_gateway.Aggregator.{
  Dict, Performance, EquityPoint, Pandas, weight_of, terms, calculate_weighted_return, usable,
  qualified, series_of, collect, add_curve, merge_equity_curves,
}

module _ (N : Numbers) where
  terms-drop :
      (xs ys : List (Performance N)) (s : Performance N) (weights : Dict N.Float)
      → N.is_positive s.total_value ≡ false
      → terms N (xs ++ s ∷ ys) weights ≡ terms N (xs ++ ys) weights
  terms-drop [] ys s weights h = rw h
  terms-drop (x ∷ xs) ys s weights h = rw (terms-drop xs ys s weights h)

  -- A strategy whose total value is not positive does not change the weighted return, whatever its
  -- profit and weight and wherever it stands.
  weighted_return_ignores :
      (xs ys : List (Performance N)) (s : Performance N) (weights : Dict N.Float)
      → N.is_positive s.total_value ≡ false
      → calculate_weighted_return N (xs ++ s ∷ ys) weights
        ≡ calculate_weighted_return N (xs ++ ys) weights
  unfolding calculate_weighted_return
  weighted_return_ignores xs ys s weights h = rw (terms-drop xs ys s weights h)

  module _ (P : Pandas N) where
    -- A curve that the merger leaves out: it is empty, or its weight or its first value is not
    -- positive.
    abbrev FirstNotPositive : List (String × N.Float) → Type 0
    FirstNotPositive [] = Unit
    FirstNotPositive ((d, first) ∷ series) = N.le first N.zero ≡ true

    abbrev Excluded : List (EquityPoint N) → N.Float → Type 0
    Excluded curve weight =
        (curve ≡ [])
        ⊎ ((N.le weight N.zero ≡ true) ⊎ FirstNotPositive (P.sort_index (series_of N curve)))

    qualified-none :
        (s : List (String × N.Float)) (weight : N.Float) (normalize : Bool)
        → (N.le weight N.zero ≡ true) ⊎ FirstNotPositive s
        → qualified N P s weight normalize ≡ none
    qualified-none [] weight normalize h = refl
    qualified-none ((d, first) ∷ s) weight normalize (inl h) = rw h
    qualified-none ((d, first) ∷ s) weight normalize (inr h) = ground arith

    usable-none :
        (curve : List (EquityPoint N)) (weight : N.Float) (normalize : Bool)
        → Excluded curve weight
        → usable N P curve weight normalize ≡ none
    usable-none [] weight normalize h = refl
    usable-none (p ∷ curve) weight normalize (inl e) = cc
    usable-none (p ∷ curve) weight normalize (inr h) =
        qualified-none (P.sort_index (series_of N (p ∷ curve))) weight normalize h

    collect-drop :
        (xs ys : Dict (List (EquityPoint N))) (sid : String) (curve : List (EquityPoint N))
        (weights : Dict N.Float) (normalize : Bool)
        → Excluded curve (weight_of N weights sid)
        → collect N P (xs ++ (sid, curve) ∷ ys) weights normalize
          ≡ collect N P (xs ++ ys) weights normalize
    unfolding collect
    collect-drop [] ys sid curve weights normalize h =
        rw (usable-none curve (weight_of N weights sid) normalize h) refl
    collect-drop ((sid', curve') ∷ xs) ys sid curve weights normalize h =
        ap
          (add_curve N P sid' (weight_of N weights sid')
            (usable N P curve' (weight_of N weights sid') normalize))
          (collect-drop xs ys sid curve weights normalize h)

    -- A curve that is empty, or whose weight is missing or not positive, or whose first value by date
    -- is not positive, does not change the merged curve, normalised or not.
    merge_ignores :
        (xs ys : Dict (List (EquityPoint N))) (sid : String) (curve : List (EquityPoint N))
        (weights : Dict N.Float) (normalize : Bool)
        → Excluded curve (weight_of N weights sid)
        → merge_equity_curves N P (xs ++ (sid, curve) ∷ ys) weights normalize
          ≡ merge_equity_curves N P (xs ++ ys) weights normalize
    unfolding merge_equity_curves
    merge_ignores xs ys sid curve weights normalize h =
        rw (collect-drop xs ys sid curve weights normalize h)
