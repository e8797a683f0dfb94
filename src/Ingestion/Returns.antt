-- ===== src/Ingestion/Returns.antt =====
-- The returns that a payload's equity curve gives.
use quant_api_gateway.Prelude.{◌≡◌, refl, true, some, List, [], ◌∷◌, ◌++◌}
use quant_api_gateway.Numbers.{Numbers}
use quant_api_gateway.Aggregator.{EquityPoint}
use quant_api_gateway.Ingestion.{last_of, prior_of, daily_return, cumulative_return}

module _ (N : Numbers) where
  prior_of-two :
      (curve : List (EquityPoint N)) (p q : EquityPoint N)
      → prior_of N (curve ++ p ∷ q ∷ []) ≡ some p
  unfolding prior_of
  prior_of-two [] p q = refl
  prior_of-two (a ∷ []) p q = refl
  prior_of-two (a ∷ b ∷ []) p q = refl
  prior_of-two (a ∷ b ∷ c ∷ curve) p q = prior_of-two (b ∷ c ∷ curve) p q

  last_of-snoc :
      (curve : List (EquityPoint N)) (p : EquityPoint N) → last_of N (curve ++ p ∷ []) ≡ some p
  unfolding last_of
  last_of-snoc [] p = refl
  last_of-snoc (a ∷ []) p = refl
  last_of-snoc (a ∷ b ∷ curve) p = last_of-snoc (b ∷ curve) p

  -- With a positive value at the last but one point of the curve, the daily return is the profit over
  -- that value: today's total value does not enter.
  pub daily_return-prior :
      (daily_pnl total_value : N.Float) (curve : List (EquityPoint N)) (prior last : EquityPoint N)
      → N.lt N.zero (N.of_decimal prior.value) ≡ true
      → daily_return N daily_pnl total_value (curve ++ prior ∷ last ∷ [])
        ≡ N.div daily_pnl (N.of_decimal prior.value)
  unfolding daily_return
  daily_return-prior daily_pnl total_value curve prior last h =
      rw (prior_of-two curve prior last, h) refl

  cumulative-of_last :
      (first q : EquityPoint N) (curve : List (EquityPoint N)) (last : EquityPoint N)
      → last_of N (q ∷ curve) ≡ some last
      → N.is_positive first.value ≡ true
      → cumulative_return N (first ∷ q ∷ curve)
        ≡ some (N.sub (N.of_decimal (N.div_decimal last.value first.value)) N.one)
  unfolding cumulative_return
  cumulative-of_last first q curve last e h = rw (e, h) refl

  -- With a positive first value the cumulative return is the ratio of the last value to the first,
  -- less one, whatever lies between them.
  cumulative_return-ends :
      (first : EquityPoint N) (curve : List (EquityPoint N)) (last : EquityPoint N)
      → N.is_positive first.value ≡ true
      → cumulative_return N (first ∷ curve ++ last ∷ [])
        ≡ some (N.sub (N.of_decimal (N.div_decimal last.value first.value)) N.one)
  cumulative_return-ends first [] last h =
      cumulative-of_last first last [] last (last_of-snoc [] last) h
  cumulative_return-ends first (q ∷ curve) last h =
      cumulative-of_last first q (curve ++ last ∷ []) last (last_of-snoc (q ∷ curve) last) h
