-- ===== src/PortfolioService/Moves.antt =====
-- What the metrics say of the change of the portfolio's value.
use quant_api_gateway.Prelude.{
  ℕ, ◌-◌, ◌*◌, ◌/◌, ◌^◌, ◌<◌, String, ◌<>◌, ◌≡◌, refl, ap, ◌∙◌, inl, inr, Bool, true, false, some,
  [], ◌∷◌, arith, ltb, if◌then◌else◌, lt→ltb, Bool-cases, ok,
}
use text.Mathlib.TextLemmas.{cons-append}
use quant_api_gateway.StrategyReports.Dates.{Datetime}
use quant_api_gateway.Formatting.{
  minus, half_up, max_coefficient, sign, fixed, plain, padded, format_percentage, format_currency,
  format_delta_number,
}
use quant_api_gateway.Formatting.Digits.{digits_from, digits-append, digits-padded, digits-plain}
use quant_api_gateway.Formatting.Currency.{
  cents, digits-sign, has_minus-append, has_minus-plain, has_minus-padded, starts_minus,
  starts_minus-of_has, Says, format_currency-Says,
}
use quant_api_gateway.PortfolioService.Snapshots.{PortfolioSnapshotResponse}
use quant_api_gateway.PortfolioService.Metrics.{
  return_delta, drawdown_value, drawdown_delta, value_delta, item, build_metrics_response,
}

digits-fixed :
    (negative : Bool) (n : ℕ) → n < max_coefficient → digits_from 0 (fixed (cents negative n)) ≡ n
digits-fixed negative n h =
    digits-append 0 (sign (cents negative n)) (plain 28 (n / 10 ^ 2) <> "." <> padded 2 n)
    ∙ ap (λ a. digits_from a (plain 28 (n / 10 ^ 2) <> "." <> padded 2 n))
        (digits-sign 0 n negative)
    ∙ digits-append 0 (plain 28 (n / 10 ^ 2)) ("." <> padded 2 n)
    ∙ ap (λ a. digits_from a ("." <> padded 2 n)) (digits-plain 28 (n / 10 ^ 2) (omega arith))
    ∙ digits-append (n / 100) "." (padded 2 n)
    ∙ digits-padded 2 (n / 100) n
    ∙ omega arith

fixed-sign : (negative : Bool) (n : ℕ) → starts_minus (fixed (cents negative n)) ≡ negative
fixed-sign true n = rw (cons-append _ "" (plain 28 (n / 10 ^ 2) <> "." <> padded 2 n)) refl
fixed-sign false n = starts_minus-of_has (fixed (cents false n)) (
    has_minus-append "" (plain 28 (n / 10 ^ 2) <> "." <> padded 2 n) refl (
      has_minus-append (plain 28 (n / 10 ^ 2)) ("." <> padded 2 n) (has_minus-plain 28 (n / 10 ^ 2))
        (has_minus-append "." (padded 2 n) refl (has_minus-padded 2 n))))

-- The distance of two amounts in cents.
abbrev pub distance : ℕ → ℕ → ℕ
distance a b = if ltb a b then b - a else a - b

minus-cents : (a b : ℕ) → minus (cents false a) (cents false b) ≡ cents (ltb a b) (distance a b)
minus-cents a b =
    let same : (a * 1 ≡ a) × (b * 1 ≡ b) = (omega arith, omega arith) in
    elim (Bool-cases (ltb a b)) [
      | inl e ↦ rw (same.0, same.1) (rw e refl)
      | inr e ↦ rw (same.0, same.1) (rw e refl)
    ]

half_up-cents : (negative : Bool) (n : ℕ) → half_up (cents negative n) 2 ≡ n
half_up-cents negative n = omega arith

distance-small :
    (a b : ℕ) → a < max_coefficient → b < max_coefficient → distance a b < max_coefficient
distance-small a b h k = ground arith

delta-text :
    (negative : Bool) (n : ℕ)
    → n < max_coefficient
    → format_delta_number (cents negative n) 2 ≡ ok (fixed (cents negative n))
unfolding format_delta_number
delta-text negative n h = rw (half_up-cents negative n) (rw (lt→ltb n max_coefficient h) refl)

-- Both snapshots have a total of whole cents that is not negative, and the other texts of the item
-- list can be printed. Then the third item shows the current total, its digits being its cents, and
-- moves by the exact difference of the totals in cents, with a minus sign exactly if the total fell.
pub build_metrics_response-moves :
    {W : Type 0} (now : Datetime) (current previous : PortfolioSnapshotResponse) (w : W) (a b : ℕ)
    (shown moved drawdown drawdown_moved : String)
    → current.total_portfolio_value ≡ cents false a
    → previous.total_portfolio_value ≡ cents false b
    → a < max_coefficient
    → b < max_coefficient
    → return_delta current (some previous) ≡ ok moved
    → drawdown_value current.combined_drawdown ≡ ok drawdown
    → drawdown_delta current (some previous) ≡ ok drawdown_moved
    → format_percentage current.weighted_daily_return 2 false ≡ ok shown
    → (value : String) × (delta : String) × (build_metrics_response now current (some previous) w
        ≡ (
          ok (record {
            snapshot_date = current.snapshot_date;
            metrics =
                item "Daily Return" shown moved
                ∷ item "Portfolio Drawdown" drawdown drawdown_moved
                ∷ item "Total Portfolio Value" value delta
                ∷ [];
            computed_at = now;
          }),
          w,
        ))
      × Says false a value
      × (digits_from 0 delta ≡ distance a b)
      × (starts_minus delta ≡ ltb a b)
unfolding build_metrics_response
build_metrics_response-moves now current previous w a b shown moved drawdown drawdown_moved total
      total' small small' e f g h =
    let n = distance a b in
    let (value, printed, says, _, _) =
      format_currency-Says (cents false a) (rw (half_up-cents false a) small) in
    let moves : value_delta current (some previous) ≡ ok (fixed (cents (ltb a b) n)) =
      ap (λ d. format_delta_number d 2)
        (ap (λ d. minus d previous.total_portfolio_value) total
          ∙ ap (minus (cents false a)) total'
          ∙ minus-cents a b)
      ∙ delta-text (ltb a b) n (distance-small a b small small') in
    let cur : format_currency current.total_portfolio_value ≡ ok value =
      ap format_currency total ∙ printed in
    (
      value,
      fixed (cents (ltb a b) n),
      rw (e, f, g, moves, h, cur) refl,
      rw (half_up-cents false a) at says,
      digits-fixed (ltb a b) n (distance-small a b small small'),
      fixed-sign (ltb a b) n,
    )
