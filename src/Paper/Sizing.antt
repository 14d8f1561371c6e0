-- ===== src/Paper/Sizing.antt =====
-- src/daily_alpha/sizing.py and src/daily_alpha/runner.py: how many units a paper trade is for, and how
-- they are split over the runner's stages.
pub mod Budget
use Prim.Native.String.{String}
use daily_alpha_engine.Common.{
  ℕ, ◌+◌, Bool, true, false, not, ◌&&◌, ◌||◌, Result, ok, err, ◌>>=◌, ◌>>◌, raise_if, if◌then◌else◌,
}
use daily_alpha_engine.Common.Int.{ℤ, pos, ◌*ℤ◌, floor_div, ltb_ℤ, leb_ℤ}
use daily_alpha_engine.Common.Floats.{Floats, zero_f, min_f}
use daily_alpha_engine.Paper.Models.{InstrumentSelected, option, stock}

pub data SizingError : Type 0 where
  nav_not_positive risk_pct_out_of_range capital_pct_out_of_range : SizingError
  option_inputs_not_positive risk_budget_too_small : SizingError
  stock_stop_invalid budget_too_small : SizingError
  raw_quantity_not_positive runner_too_small : SizingError

pub record PortfolioLimits (F : Type 0) : Type 0 where
  pub nav : F
  pub risk_per_trade_pct : F
  pub max_capital_per_trade_pct : F

pub record SizingResult (F : Type 0) : Type 0 where
  pub instrument : InstrumentSelected
  pub quantity : ℤ
  pub unit_entry_price : F
  pub capital_required : F
  pub risk_budget : F
  pub estimated_max_loss : F
  pub sizing_reason : String

pub record RunnerAllocation : Type 0 where
  pub raw_quantity : ℤ
  pub target_quantity : ℤ
  pub starter_quantity : ℤ
  pub add_quantity : ℤ
  pub harvest_quantity : ℤ

-- `min` of two integers.
abbrev pub min_ℤ : ℤ → ℤ → ℤ
min_ℤ a b = if ltb_ℤ b a then b else a

module _ {F : Type 0} ⦃fl : Floats F⦄ where
  -- `PortfolioLimits.__post_init__`
  unfoldable pub check_limits : PortfolioLimits F → Result SizingError (Unit {0})
  check_limits l = do
    raise_if (fl.le l.nav zero_f) nav_not_positive
    raise_if (not (fl.lt zero_f l.risk_per_trade_pct && fl.le l.risk_per_trade_pct (fl.dec 5 2)))
        risk_pct_out_of_range
    raise_if
        (not (
          fl.lt zero_f l.max_capital_per_trade_pct
          && fl.le l.max_capital_per_trade_pct (fl.dec 20 2)))
        capital_pct_out_of_range
    ok tt

  unfoldable pub size_long_option : F → PortfolioLimits F → ℤ → Result SizingError (SizingResult F)
  size_long_option premium limits contract_multiplier = do
    raise_if (fl.le premium zero_f || leb_ℤ contract_multiplier (pos 0)) option_inputs_not_positive
    let unit_cost = fl.mul premium (fl.of_int contract_multiplier)
    let risk_budget = fl.mul limits.nav limits.risk_per_trade_pct
    let capital_limit = fl.mul limits.nav limits.max_capital_per_trade_pct
    let quantity = fl.floor_quot (min_f risk_budget capital_limit) unit_cost
    raise_if (ltb_ℤ quantity (pos 1)) risk_budget_too_small
    let capital = fl.mul (fl.of_int quantity) unit_cost
    ok (record {
      instrument = option;
      quantity = quantity;
      unit_entry_price = premium;
      capital_required = capital;
      risk_budget = risk_budget;
      estimated_max_loss = capital;
      sizing_reason = "LONG_OPTION_PREMIUM_AT_RISK";
    })

  unfoldable pub size_stock : F → F → PortfolioLimits F → Result SizingError (SizingResult F)
  size_stock share_price stop_price limits = do
    raise_if (fl.le share_price zero_f || fl.le stop_price zero_f || fl.le share_price stop_price)
        stock_stop_invalid
    let per_share_risk = fl.sub share_price stop_price
    let risk_budget = fl.mul limits.nav limits.risk_per_trade_pct
    let capital_limit = fl.mul limits.nav limits.max_capital_per_trade_pct
    let by_risk = fl.floor_quot risk_budget per_share_risk
    let by_capital = fl.floor_quot capital_limit share_price
    let quantity = min_ℤ by_risk by_capital
    raise_if (ltb_ℤ quantity (pos 1)) budget_too_small
    ok (record {
      instrument = stock;
      quantity = quantity;
      unit_entry_price = share_price;
      capital_required = fl.mul (fl.of_int quantity) share_price;
      risk_budget = risk_budget;
      estimated_max_loss = fl.mul (fl.of_int quantity) per_share_risk;
      sizing_reason = "STOCK_STOP_DISTANCE_AND_CAPITAL_CAP";
    })

unfoldable pub allocate_runner : ℤ → Result SizingError RunnerAllocation
allocate_runner raw_quantity = do
  raise_if (leb_ℤ raw_quantity (pos 0)) raw_quantity_not_positive
  let target = floor_div raw_quantity 4 *ℤ pos 4
  raise_if (ltb_ℤ target (pos 4)) runner_too_small
  let unit = floor_div target 4
  ok (record {
    raw_quantity = raw_quantity;
    target_quantity = target;
    starter_quantity = unit *ℤ pos 2;
    add_quantity = unit;
    harvest_quantity = unit;
  })
