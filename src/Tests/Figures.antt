-- ===== src/Tests/Figures.antt =====
-- Figures without fractions, and a pandas and a database in memory.
use quant_api_gateway.Prelude.{
  some, true, ℕ, ◌+◌, ◌-◌, ◌*◌, ◌/◌, String, ◌≡◌, refl, sym, ap, List, [], ◌∷◌, arith, ltb, leb,
  ◌==◌, Result, ok, err,
}
use quant_api_gateway.Effects.{M, Exception}
use quant_api_gateway.Numbers.{Numbers, IsOrdered}
use quant_api_gateway.Aggregator.{Pandas, Dict}
use quant_api_gateway.Ingestion.{Postgres}
use quant_api_gateway.Ingestion.Upserts.{Tables, put_row, put_report}
use quant_api_gateway.Ingestion.Laws.{IsAtomic}

-- Floats and decimals are whole numbers here, and a subtraction stops at zero.
abbrev pub figures : Numbers
figures = record {
  Float = ℕ;
  Decimal = ℕ;
  zero = 0;
  one = 1;
  hundred = 100;
  add = λ x y. x + y;
  sub = λ x y. x - y;
  mul = λ x y. x * y;
  div = λ x y. x / y;
  lt = ltb;
  le = leb;
  of_decimal = λ d. d;
  of_units = λ n. n;
  is_positive = λ d. ltb 0 d;
  div_decimal = λ x y. x / y;
  round4 = λ x. x;
  decimal_of = λ x. x;
  is_zero = λ d. d == 0;
  decimal_of_nat = λ n. n;
  mul_decimal = λ x y. x * y;
  sub_decimal = λ x y. x - y;
}

pub figures-IsOrdered : IsOrdered figures
figures-IsOrdered = record {
  lt_irrefl = λ x. ground arith;
  lt_trans = λ x y z h k. ground arith;
  le-eq-not-lt = λ x y. ground arith;
  le_trans = λ x y z h k. ground arith;
}

-- The join of one series: its own points.
abbrev pub first_series : Dict (List (String × ℕ)) → List (String × ℕ)
first_series [] = []
first_series ((id, series) ∷ rest) = series

abbrev pub pandas : Pandas figures
pandas = record {
  sort_index = λ series. series;
  join = λ series weights. some (first_series series);
  is_point = λ date value. true;
}

abbrev pub kept_on_success :
    {S : Type 0} → S → Result Exception (Unit {0}) × S → Result Exception (Unit {0}) × S
kept_on_success s (ok a, t) = (ok a, t)
kept_on_success s (err e, t) = (err e, s)

abbrev pub no_text : ℕ → String
no_text n = ""

abbrev pub database : Postgres figures no_text no_text
database = record {
  State = Tables figures;
  insert_performance = λ row s. (ok tt, (put_row figures row s.0, s.1));
  insert_report = λ time id report s. (
    ok tt,
    (
      s.0,
      put_report figures
          (record { time = time; strategy_id = id; report = report; computed_at = 0 }) s.1,
    ),
  );
  transaction = λ block s. kept_on_success s (block s);
}

pub commit :
    (s : Tables figures) (block : M (Tables figures) (Unit {0}))
    → (x : Result Exception (Unit {0}) × Tables figures) → block s ≡ x
    → (kept_on_success s x).0 ≡ ok tt
    → (t : Tables figures) × (t ≡ s)
      × ((block t).0 ≡ ok tt)
      × ((kept_on_success s x).1 ≡ (block t).1)
commit s block (ok _, t) e h = (s, refl, ap (λ y. y.0) e, sym (ap (λ y. y.1) e))
commit s block (err _, t) e h = cc

pub undo :
    (s : Tables figures) (x : Result Exception (Unit {0}) × Tables figures) (e : Exception)
    → (kept_on_success s x).0 ≡ err e
    → (kept_on_success s x).1 ≡ s
undo s (ok _, t) e h = cc
undo s (err _, t) e h = refl

abbrev pub database-IsAtomic : IsAtomic figures no_text no_text database
database-IsAtomic = record {
  tables = λ s. s;
  performance_written = λ row s h. refl;
  report_written = λ time id report s h. (0, refl);
  committed = λ block s h. commit s block (block s) refl h;
  rolled_back = λ block s e h. undo s (block s) e h;
}
