-- ===== src/Snapshot/Totals.antt =====
-- The dicts of `_compute_aggregates`: that no id is missing among the rows of a complete round.
use quant_api_gateway.Prelude.{
  length, Option, ℕ, String, ◌≡◌, refl, ◌⊎◌, inl, inr, Bool, true, false, ◌||◌, some, List, [], ◌∷◌,
  str_eq, eq_iff, eq_refl, Bool-cases,
}
use quant_api_gateway.Numbers.{Numbers}
use quant_api_gateway.Registry.{StrategyConfig}
use quant_api_gateway.Aggregator.{Dict, lookup, put, Pandas}
use quant_api_gateway.Snapshot.{
  TodayRow, SnapshotAggregates, Parsing, weights_of, rows_by_id, totals, compute_aggregates,
  drawdown_if_any, curves_of, float_weights, aggregates,
}

-- The dict has the key.
abbrev pub Known : {V : Type 0} → String → Dict V → Type 0
Known {V} k d = (v : V) × (lookup k d ≡ some v)

put-Known : {V : Type 0} (k : String) (v : V) (d : Dict V) → Known k (put k v d)
put-Known k v [] = (v, rw (eq_refl k) refl)
put-Known k v ((j, w) ∷ d) = elim (Bool-cases (str_eq j k)) [
  | inl here ↦ (v, rw here (rw here refl))
  | inr there ↦ let (u, found) = put-Known k v d in (u, rw there (rw there found))
]

put-keeps_Known : {V : Type 0} (k i : String) (v : V) (d : Dict V) → Known i d → Known i (put k v d)
put-keeps_Known k i v [] (u, found) = cc
put-keeps_Known k i v ((j, w) ∷ d) (u, found) = elim (Bool-cases (str_eq j k)) [
  | inl here ↦ elim (Bool-cases (str_eq j i)) [
    | inl same ↦ (v, rw here (rw same refl))
    | inr other ↦ (u, rw here (rw other (rw other at found)))
  ]
  | inr there ↦ elim (Bool-cases (str_eq j i)) [
    | inl same ↦ (w, rw there (rw same refl))
    | inr other ↦
        let (x, kept) = put-keeps_Known k i v d (u, rw other at found) in
        (x, rw there (rw other kept))
  ]
]

module _ (N : Numbers) (J : Parsing N) where
  abbrev pub in_rows : String → List (TodayRow N) → Bool
  in_rows id [] = false
  in_rows id (row ∷ rows) = str_eq row.strategy_id id || in_rows id rows

  rows_by_id-Known :
      (id : String) (rows : List (TodayRow N)) (d : Dict (TodayRow N))
      → (in_rows id rows ≡ true) ⊎ Known id d
      → Known id (rows_by_id N J rows d)
  rows_by_id-Known id [] d (inl h) = cc
  rows_by_id-Known id [] d (inr known) = known
  rows_by_id-Known id (row ∷ rows) d h =
      rows_by_id-Known id rows (put row.strategy_id row d)
        (elim (Bool-cases (str_eq row.strategy_id id)) [
          | inl here ↦
              let same : row.strategy_id ≡ id = (eq_iff row.strategy_id id).0 here in
              inr (rw (← same) (put-Known row.strategy_id row d))
          | inr there ↦ elim h [
            | inl among ↦ inl (rw there at among)
            | inr known ↦ inr (put-keeps_Known row.strategy_id id row d known)
          ]
        ])

  -- Every key of the weights is among the rows.
  abbrev pub AllKnown : Dict ℕ → Dict (TodayRow N) → Type 0
  AllKnown [] rows = Unit
  AllKnown ((sid, _) ∷ weights) rows = Known sid rows × AllKnown weights rows

  put-AllKnown :
      (k : String) (w : ℕ) (weights : Dict ℕ) (rows : Dict (TodayRow N))
      → Known k rows
      → AllKnown weights rows
      → AllKnown (put k w weights) rows
  put-AllKnown k w [] rows known all = (known, tt)
  put-AllKnown k w ((j, v) ∷ weights) rows known (first, all) = elim (Bool-cases (str_eq j k)) [
    | inl here ↦ rw here (first, all)
    | inr there ↦ rw there (first, put-AllKnown k w weights rows known all)
  ]

  abbrev pub EachKnown : List StrategyConfig → Dict (TodayRow N) → Type 0
  EachKnown [] rows = Unit
  EachKnown (cfg ∷ active) rows = Known cfg.id rows × EachKnown active rows

  weights_of-AllKnown :
      (active : List StrategyConfig) (weights : Dict ℕ) (rows : Dict (TodayRow N))
      → EachKnown active rows
      → AllKnown weights rows
      → AllKnown (weights_of N J active weights) rows
  weights_of-AllKnown [] weights rows each all = all
  weights_of-AllKnown (cfg ∷ active) weights rows (first, each) all =
      weights_of-AllKnown active (put cfg.id cfg.capital_weight weights) rows each
        (put-AllKnown cfg.id cfg.capital_weight weights rows first all)

  totals-found :
      (weights : Dict ℕ) (rows : Dict (TodayRow N))
      → AllKnown weights rows
      → (xs : List N.Float) × (totals N J weights rows ≡ some xs)
  totals-found [] rows all = ([], refl)
  totals-found ((sid, w) ∷ weights) rows ((row, found), all) =
      let (xs, more) = totals-found weights rows all in
      (row.total_value ∷ xs, rw (totals, found, more) refl)

  abbrev pub EachAmong : List (TodayRow N) → List StrategyConfig → Type 0
  EachAmong rows [] = Unit
  EachAmong rows (cfg ∷ active) = (in_rows cfg.id rows ≡ true) × EachAmong rows active

  EachAmong-Known :
      (rows : List (TodayRow N)) (active : List StrategyConfig)
      → EachAmong rows active
      → EachKnown active (rows_by_id N J rows [])
  EachAmong-Known rows [] among = tt
  EachAmong-Known rows (cfg ∷ active) (first, others) =
      (rows_by_id-Known cfg.id rows [] (inl first), EachAmong-Known rows active others)

  module _ (pandas : Pandas N) where
    -- The curves of the rows can be merged, or there are none.
    abbrev pub Mergeable : List (TodayRow N) → List StrategyConfig → Type 0
    Mergeable rows active =
        let weights = weights_of N J active [] in
        (fall : Option N.Float) × (drawdown_if_any N J pandas
            (curves_of N J weights (rows_by_id N J rows [])) (float_weights N J weights)
          ≡ some fall)

    -- The aggregates of rows in which every active strategy stands and whose curves can be merged.
    pub compute_aggregates-found :
        (rows : List (TodayRow N)) (active : List StrategyConfig)
        → EachAmong rows active
        → Mergeable rows active
        → (agg : SnapshotAggregates N) × (compute_aggregates N J pandas rows active ≡ some agg)
    unfolding compute_aggregates
    compute_aggregates-found rows active among (fall, merged) =
        let by_id = rows_by_id N J rows [] in
        let weights = weights_of N J active [] in
        let (xs, found) =
          totals-found weights by_id
            (weights_of-AllKnown active [] by_id (EachAmong-Known rows active among) tt) in
        (
          aggregates N J pandas weights by_id (length active) xs fall,
          rw (compute_aggregates, found, merged) refl,
        )
