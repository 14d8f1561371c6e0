-- ===== src/Paper/Fallback.antt =====
-- src/daily_alpha/fallback.py and config.py: a qualified option, else an eligible stock, else no trade.
pub mod Choice
use Prim.Native.String.{String}
use daily_alpha_engine.Common.{
  Bool, true, false, not, ◌&&◌, ◌||◌, Option, none, some, List, [], ◌∷◌, if◌then◌else◌, some_and,
}
use daily_alpha_engine.Common.Int.{ℤ, pos, leb_ℤ, ltb_ℤ, eqb_ℤ}
use daily_alpha_engine.Common.Floats.{Floats}
use daily_alpha_engine.Paper.Models.{
  InstrumentSelected, option, stock, no_instrument, DecisionStatus, selected, no_trade, data_error,
  OptionCandidate, StockCandidate, Decision, spread_pct,
}

pub record OptionQualityRules (F : Type 0) : Type 0 where
  pub min_dte : ℤ
  pub max_dte : ℤ
  pub max_spread_pct : F
  pub min_open_interest : ℤ
  pub min_volume : ℤ
  pub min_bid : F
  pub min_abs_delta : F
  pub max_abs_delta : F

pub record StockFallbackRules (F : Type 0) : Type 0 where
  pub min_price : F
  pub min_average_daily_dollar_volume : F

-- `Decision.create`, where `now` is `datetime.now(UTC).isoformat()`.
unfoldable pub create_decision :
    {F : Type 0}
    → String
    → String
    → DecisionStatus
    → InstrumentSelected
    → String
    → Option (OptionCandidate F)
    → Decision F
create_decision now symbol status instrument reason contract = record {
  symbol = symbol;
  status = status;
  instrument_selected = instrument;
  fallback_reason = reason;
  selected_contract = contract;
  created_at = now;
}

-- `_none`
unfoldable pub no_decision : {F : Type 0} → String → String → String → Decision F
no_decision now symbol reason = create_decision now symbol no_trade no_instrument reason none

module _ {F : Type 0} ⦃fl : Floats F⦄ where
  unfoldable pub default_option_rules : OptionQualityRules F
  default_option_rules = record {
    min_dte = pos 45;
    max_dte = pos 75;
    max_spread_pct = fl.dec 15 2;
    min_open_interest = pos 100;
    min_volume = pos 10;
    min_bid = fl.dec 5 2;
    min_abs_delta = fl.dec 35 2;
    max_abs_delta = fl.dec 70 2;
  }

  unfoldable pub default_stock_rules : StockFallbackRules F
  default_stock_rules = record {
    min_price = fl.dec 5 0;
    min_average_daily_dollar_volume = fl.dec 50_000_000 0;
  }

  unfoldable pub option_passes : OptionQualityRules F → OptionCandidate F → Bool
  option_passes rules o =
      leb_ℤ rules.min_dte o.dte
      && leb_ℤ o.dte rules.max_dte
      && fl.le rules.min_bid o.bid
      && fl.le o.bid o.ask
      && fl.le (spread_pct o) rules.max_spread_pct
      && leb_ℤ rules.min_open_interest o.open_interest
      && leb_ℤ rules.min_volume o.volume
      && elim o.delta [
        | none ↦ true
        | some d ↦ fl.le rules.min_abs_delta (fl.abs d) && fl.le (fl.abs d) rules.max_abs_delta
      ]

  unfoldable pub stock_passes : StockFallbackRules F → StockCandidate F → Bool
  stock_passes rules s =
      s.eligible
      && fl.le rules.min_price s.price
      && fl.le rules.min_average_daily_dollar_volume s.average_daily_dollar_volume

  unfoldable pub qualified :
      OptionQualityRules F → List (OptionCandidate F) → List (OptionCandidate F)
  qualified rules [] = []
  qualified rules (o ∷ os) =
      let rest = qualified rules os in if option_passes rules o then o ∷ rest else rest

  -- `<` on the keys (spread_pct, -open_interest, -volume): Python compares the first pair that is not
  -- equal.
  unfoldable pub is_better : OptionCandidate F → OptionCandidate F → Bool
  is_better a b =
      if not (fl.eq (spread_pct a) (spread_pct b))
      then fl.lt (spread_pct a) (spread_pct b)
      else if not (eqb_ℤ a.open_interest b.open_interest)
      then ltb_ℤ b.open_interest a.open_interest
      else ltb_ℤ b.volume a.volume

  -- `min` with that key: the first of the least.
  unfoldable pub best : OptionCandidate F → List (OptionCandidate F) → OptionCandidate F
  best a [] = a
  best a (b ∷ bs) = best (if is_better b a then b else a) bs

  -- The choice once the gates are passed, from the options that qualify.
  unfoldable pub choose :
      StockFallbackRules F
      → String
      → String
      → List (OptionCandidate F)
      → Option (StockCandidate F)
      → Decision F
  choose stock_rules now symbol (a ∷ rest) candidate =
      create_decision now symbol selected option "QUALIFIED_OPTION_SELECTED" (some (best a rest))
  choose stock_rules now symbol [] candidate =
      if some_and candidate (stock_passes stock_rules)
      then create_decision now symbol selected stock
          "NO_OPTION_PASSED_QUALITY_FILTERS_STOCK_ELIGIBLE" none
      else no_decision now symbol "NO_QUALIFIED_OPTION_AND_STOCK_INELIGIBLE"

  unfoldable pub select :
      OptionQualityRules F
      → StockFallbackRules F
      → String
      → String
      → Bool
      → Bool
      → Bool
      → Bool
      → List (OptionCandidate F)
      → Option (StockCandidate F)
      → Decision F
  select option_rules stock_rules now symbol signal_active risk_gate_passed option_data_fresh
        option_data_available options candidate =
      if not signal_active
      then no_decision now symbol "NO_ACTIVE_PINE_SIGNAL"
      else if not risk_gate_passed
      then no_decision now symbol "PORTFOLIO_RISK_GATE_FAILED"
      else if not option_data_available || not option_data_fresh
      then create_decision now symbol data_error no_instrument "ORATS_DATA_UNAVAILABLE_OR_STALE"
          none
      else choose stock_rules now symbol (qualified option_rules options) candidate
