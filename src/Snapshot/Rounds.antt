-- ===== src/Snapshot/Rounds.antt =====
-- Which strategies have a row on a day, and how many rows the query of the writer returns.
use quant_api_gateway.Prelude.{
  ℕ, suc, ◌/◌, ◌≤◌, String, Bool, true, false, not, ◌&&◌, ◌||◌, List, [], ◌∷◌, arith, str_eq, ◌==◌,
  if◌then◌else◌, one_of, length,
}

-- A row of `daily_performance`, as far as the query's condition reads it.
pub record Entry : Type 0 where
  pub time : ℕ
  pub strategy_id : String

abbrev pub has_row : ℕ → String → List Entry → Bool
has_row day id [] = false
has_row day id (r ∷ rows) =
    (r.time / 86400000000 == day && str_eq r.strategy_id id) || has_row day id rows

-- The number of rows of `SELECT DISTINCT ON (strategy_id) … WHERE time::date = day AND strategy_id =
-- ANY(ids)`.
abbrev pub reported : ℕ → List String → List Entry → ℕ
reported day [] rows = 0
reported day (id ∷ ids) rows =
    let rest = reported day ids rows in
    if not (one_of id ids) && has_row day id rows then suc rest else rest

abbrev pub all_reported : ℕ → List String → List Entry → Bool
all_reported day [] rows = true
all_reported day (id ∷ ids) rows = has_row day id rows && all_reported day ids rows

pub reported_le :
    (day : ℕ) (ids : List String) (rows : List Entry) → reported day ids rows ≤ length ids
reported_le day [] rows = omega arith
reported_le day (id ∷ ids) rows = ground (arith, reported_le day ids rows)
