-- ===== src/Tests/Curves.antt =====
-- The equity curve of one strategy over a database whose second statement fails.
use quant_api_gateway.Prelude.{ℕ, suc, ◌≡◌, refl, ◌↔◌, some, [], ok, err}
use quant_api_gateway.Effects.{postgres}
use quant_api_gateway.Snapshot.{missing}
use quant_api_gateway.PortfolioService.Curves.{Connection}
use quant_api_gateway.Api.EquityCurve.{
  Latest, Raises, get_strategy_equity_curve, get_strategy_equity_curve_v2,
  get_strategy_equity_curve-err_iff,
}
use quant_api_gateway.Tests.Server.{server}
use quant_api_gateway.Tests.Figures.{figures}
use quant_api_gateway.Tests.Rounds.{parsing}
use quant_api_gateway.Tests.Metrics.{day_point}
use quant_api_gateway.Tests.Pushes.{csm-known}
use quant_api_gateway.Tests.Caching.{csm, known}

abbrev no_days : Connection figures
no_days = record {
  State = ℕ;
  select_latest = λ ids d. (ok [], suc d);
  select_days = λ id d. (err postgres, suc d);
}

abbrev bare_row : Latest figures parsing day_point server no_days
bare_row = record {
  get_pool = λ d. (ok tt, d);
  select_latest_single = λ id d. (ok (some missing), suc d);
}

get_strategy_equity_curve-err_iff_example :
    (get_strategy_equity_curve_v2 figures parsing day_point server no_days bare_row "a"
        ([], 0, some known)
      ≡ get_strategy_equity_curve figures parsing day_point server no_days bare_row "a"
          ([], 0, some known))
    × (((get_strategy_equity_curve figures parsing day_point server no_days bare_row "a"
            ([], 0, some known)).0
          ≡ err postgres)
        ↔ Raises figures parsing day_point server no_days bare_row "a" known [] postgres
            (ok (some missing), 1))
get_strategy_equity_curve-err_iff_example =
    get_strategy_equity_curve-err_iff figures parsing day_point server no_days bare_row "a" known []
      postgres 0 csm csm-known refl refl
