-- ===== src/Aggregator/Drawdown.antt =====
-- The combined drawdown of services/aggregator.py and the falls below the running peak.
use quant_api_gateway.Prelude.{
  ◌≡◌, refl, ◌⊎◌, inl, inr, true, false, List, [], ◌∷◌, if◌then◌else◌, Bool-cases, ap, ◌∙◌, ok,
}
use quant_api_gateway.Numbers.{Numbers, IsOrdered}
use quant_api_gateway.Aggregator.{
  Dict, EquityPoint, Pandas, merge_equity_curves, raise_peak, worse, scan, drawdown_of,
  drawdown_if_merged, calculate_combined_drawdown,
}

module _ (N : Numbers) (P : Pandas N) where
  pub combined_drawdown-merged :
      (curves : Dict (List (EquityPoint N))) (weights : Dict N.Float)
      → calculate_combined_drawdown N P curves weights
        ≡ drawdown_if_merged N P (merge_equity_curves N P curves weights true)
  unfolding calculate_combined_drawdown
  combined_drawdown-merged curves weights = refl

  -- The greatest of some values.
  abbrev pub highest : N.Float → List N.Float → N.Float
  highest x [] = x
  highest x (y ∷ ys) = let top = highest x ys in if N.lt top y then y else top

  -- `value / top - 1` at every point, where `top` is the greatest value up to and with the point, and is
  -- positive. `seen` holds the values before, the latest first, and `first` is the first value of all.
  abbrev pub falls_after : N.Float → List N.Float → List (EquityPoint N) → List N.Float
  falls_after first seen [] = []
  falls_after first seen (p ∷ points) =
      let value = N.of_decimal p.value in
      let top = highest first (value ∷ seen) in
      let rest = falls_after first (value ∷ seen) points in
      if N.le top N.zero then rest else N.sub (N.div value top) N.one ∷ rest

  abbrev pub all_drawdowns : List (EquityPoint N) → List N.Float
  all_drawdowns [] = []
  all_drawdowns (p ∷ points) = falls_after (N.of_decimal p.value) [] (p ∷ points)

  abbrev pub Among : N.Float → List N.Float → Type 0
  Among x [] = ⊥
  Among x (y ∷ ys) = (x ≡ y) ⊎ Among x ys

  -- `x` is at most every value of the list.
  abbrev pub Below : N.Float → List N.Float → Type 0
  Below x [] = Unit
  Below x (y ∷ ys) = (N.le x y ≡ true) × Below x ys

  -- `x` is at least every value of the list.
  abbrev pub Above : N.Float → List N.Float → Type 0
  Above x [] = Unit
  Above x (y ∷ ys) = (N.le y x ≡ true) × Above x ys

  module _ (law : IsOrdered N) where
    Above-trans : (x y : N.Float) (ys : List N.Float) → N.le x y ≡ true → Above x ys → Above y ys
    Above-trans x y [] h a = tt
    Above-trans x y (z ∷ zs) h (first, others) =
        (law.le_trans z x y first h, Above-trans x y zs h others)

    le_refl : (x : N.Float) → N.le x x ≡ true
    le_refl x = rw (law.le-eq-not-lt x x, law.lt_irrefl x)

    le_of_lt : (x y : N.Float) → N.lt x y ≡ true → N.le x y ≡ true
    le_of_lt x y h = elim (Bool-cases (N.lt y x)) [
      | inl back ↦ cc (law.lt_irrefl x, law.lt_trans x y x h back)
      | inr e ↦ rw (law.le-eq-not-lt x y, e)
    ]

    le_of_not_lt : (x y : N.Float) → N.lt y x ≡ false → N.le x y ≡ true
    le_of_not_lt x y h = rw (law.le-eq-not-lt x y, h)

    fall : N.Float → N.Float → N.Float
    fall top value = N.sub (N.div value top) N.one

    module _ (top value m : N.Float) where
      -- The three ways in which a round can end.
      data Round : N.Float → Type 0 where
        skipped : N.le top N.zero ≡ true → Round m
        fell : N.le top N.zero ≡ false → N.lt (fall top value) m ≡ true → Round (fall top value)
        stayed : N.le top N.zero ≡ false → N.lt (fall top value) m ≡ false → Round m

      worse-Round : Round (worse N P top value m)
      unfolding fall
      worse-Round = elim (Bool-cases (N.le top N.zero)) [
        | inl e ↦ rw e (skipped e)
        | inr e ↦ elim (Bool-cases (N.lt (fall top value) m)) [
          | inl f ↦ rw (e, f) (fell e f)
          | inr f ↦ rw (e, f) (stayed e f)
        ]
      ]

    abbrev drop : N.Float → N.Float → List N.Float → List N.Float
    drop top value rest = if N.le top N.zero then rest else N.sub (N.div value top) N.one ∷ rest

    Round-le : (top value m x : N.Float) → Round top value m x → N.le x m ≡ true
    Round-le top value m _ (skipped _) = le_refl m
    Round-le top value m _ (fell _ h) = le_of_lt (fall top value) m h
    Round-le top value m _ (stayed _ _) = le_refl m

    scan-le :
        (points : List (EquityPoint N)) (peak m : N.Float) → N.le (scan N P points peak m) m ≡ true
    unfolding scan
    scan-le [] peak m = le_refl m
    scan-le (p ∷ points) peak m =
        let value = N.of_decimal p.value in
        let top = raise_peak N P peak value in
        let next = worse N P top value m in
        law.le_trans (scan N P points top next) next m (scan-le points top next)
          (Round-le top value m next (worse-Round top value m))

    step-Below :
        (top value m x least : N.Float) (rest : List N.Float)
        → Round top value m x
        → N.le least x ≡ true
        → Below least rest
        → Below least (drop top value rest)
    unfolding fall
    step-Below top value m _ least rest (skipped h) le b = rw h b
    step-Below top value m _ least rest (fell h lt) le b = rw h (le, b)
    step-Below top value m _ least rest (stayed h lt) le b =
        rw h (law.le_trans least m (fall top value) le (le_of_not_lt m (fall top value) lt), b)

    scan-Below :
        (points : List (EquityPoint N)) (first : N.Float) (seen : List N.Float) (m : N.Float)
        → Below (scan N P points (highest first seen) m) (falls_after first seen points)
    unfolding scan
    scan-Below [] first seen m = tt
    scan-Below (p ∷ points) first seen m =
        let value = N.of_decimal p.value in
        let top = highest first (value ∷ seen) in
        let next = worse N P top value m in
        step-Below top value m next (scan N P points top next)
          (falls_after first (value ∷ seen) points) (worse-Round top value m)
          (scan-le points top next) (scan-Below points first (value ∷ seen) next)

    step-Among :
        (top value m x least : N.Float) (rest : List N.Float)
        → Round top value m x
        → Among least (x ∷ rest)
        → Among least (m ∷ drop top value rest)
    unfolding fall
    step-Among top value m _ least rest (skipped h) a = rw h a
    step-Among top value m _ least rest (fell h lt) a = rw h (inr a)
    step-Among top value m _ least rest (stayed h lt) (inl e) = inl e
    step-Among top value m _ least rest (stayed h lt) (inr a) = rw h (inr (inr a))

    scan-Among :
        (points : List (EquityPoint N)) (first : N.Float) (seen : List N.Float) (m : N.Float)
        → Among (scan N P points (highest first seen) m) (m ∷ falls_after first seen points)
    unfolding scan
    scan-Among [] first seen m = inl refl
    scan-Among (p ∷ points) first seen m =
        let value = N.of_decimal p.value in
        let top = highest first (value ∷ seen) in
        let next = worse N P top value m in
        step-Among top value m next (scan N P points top next)
          (falls_after first (value ∷ seen) points) (worse-Round top value m)
          (scan-Among points first (value ∷ seen) next)

    drawdown_of-least :
        (points : List (EquityPoint N))
        → Below (drawdown_of N P points) (N.zero ∷ all_drawdowns points)
          × Among (drawdown_of N P points) (N.zero ∷ all_drawdowns points)
    drawdown_of-least [] = ((le_refl N.zero, tt), inl refl)
    drawdown_of-least (p ∷ points) =
        let first = N.of_decimal p.value in
        (
          (scan-le (p ∷ points) first N.zero, scan-Below (p ∷ points) first [] N.zero),
          scan-Among (p ∷ points) first [] N.zero,
        )

    greater-Above :
        (x y : N.Float)
        → (N.le x (if N.lt x y then y else x) ≡ true) × (N.le y (if N.lt x y then y else x) ≡ true)
    greater-Above x y = elim (Bool-cases (N.lt x y)) [
      | inl e ↦ rw e (le_of_lt x y e, le_refl y)
      | inr e ↦ rw e (le_refl x, le_of_not_lt y x e)
    ]

    -- `highest` is at least each of the values.
    highest-Above : (x : N.Float) (xs : List N.Float) → Above (highest x xs) (x ∷ xs)
    highest-Above x [] = (le_refl x, tt)
    highest-Above x (y ∷ ys) =
        let top = highest x ys in
        let (first, others) = highest-Above x ys in
        let (below, last) = greater-Above top y in
        (
          law.le_trans x top (highest x (y ∷ ys)) first below,
          (last, Above-trans top (highest x (y ∷ ys)) ys below others),
        )

    -- When the comparisons are a total order on the values and the curves can be merged, the combined
    -- drawdown is the least of zero and the falls `value / top - 1` at the points of the merged,
    -- normalised curve, where `top` is the greatest value up to the point and is positive: it is at most
    -- each of them and is one of them.
    pub combined_drawdown-least :
        (curves : Dict (List (EquityPoint N))) (weights : Dict N.Float)
        (points : List (EquityPoint N))
        → merge_equity_curves N P curves weights true ≡ ok points
        → (least : N.Float) × (calculate_combined_drawdown N P curves weights ≡ ok least)
          × Below least (N.zero ∷ all_drawdowns points)
          × Among least (N.zero ∷ all_drawdowns points)
    combined_drawdown-least curves weights points merged =
        let (below, among) = drawdown_of-least points in
        (
          drawdown_of N P points,
          combined_drawdown-merged curves weights ∙ ap (drawdown_if_merged N P) merged,
          below,
          among,
        )
