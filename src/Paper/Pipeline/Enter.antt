-- ===== src/Paper/Pipeline/Enter.antt =====
-- src/daily_alpha/pipeline.py: `process_entry`, which opens a paper trade for a selected decision.
use Prim.Native.String.{String}
use text.Mathlib.Text.{◌==◌}
use daily_alpha_engine.Common.{not, none, some}
use daily_alpha_engine.Common.Int.{pos}
use daily_alpha_engine.Common.Floats.{Floats}
use daily_alpha_engine.Common.Stateful.{Op, raise, check, wrapped, lifted, ◌>>=◌, ◌>>◌}
use daily_alpha_engine.Paper.Models.{InstrumentSelected, option, stock, no_instrument, Decision}
use daily_alpha_engine.Paper.Sizing.{PortfolioLimits, size_long_option, size_stock, allocate_runner}
use daily_alpha_engine.Paper.Ledger.{PaperTrade}
use daily_alpha_engine.Paper.Pipeline.{
  PineSignal, EntryPricing, LedgerApi, PipelineError, wrong_action, decision_not_selected,
  symbols_differ, option_data_missing, stock_prices_missing, instrument_unsupported, sizing_failed,
  ledger_failed, is_entry, is_selected, required,
}

module _ {S E F : Type 0} ⦃fl : Floats F⦄ where
  -- The branch of `process_entry` for an option.
  unfoldable pub enter_option :
      LedgerApi S E F
      → PortfolioLimits F
      → String
      → PineSignal F
      → Decision F
      → EntryPricing F
      → String
      → Op S (PipelineError E) (PaperTrade F)
  enter_option ledger limits new_id signal decision pricing sector = do
    premium ← required pricing.option_premium option_data_missing
    contract ← required decision.selected_contract option_data_missing
    size ← lifted sizing_failed (size_long_option premium limits (pos 100))
    runner ← lifted sizing_failed (allocate_runner size.quantity)
    wrapped ledger_failed (
        ledger.open_trade new_id (record {
          signal_id = signal.signal_id;
          symbol = signal.symbol;
          instrument = option;
          quantity = runner.starter_quantity;
          entry_price = premium;
          entry_time = signal.received_at;
          fallback_reason = decision.fallback_reason;
          option_expiration = some contract.expiration;
          option_strike = some contract.strike;
          option_type = some contract.option_type;
          target_quantity = some runner.target_quantity;
          runner_stage = "STARTER";
          sector = sector;
          initial_risk_basis =
              some
                (fl.mul (fl.mul (fl.of_int runner.target_quantity) premium) (fl.of_int (pos 100)));
        }))

  -- The branch of `process_entry` for a stock.
  unfoldable pub enter_stock :
      LedgerApi S E F
      → PortfolioLimits F
      → String
      → PineSignal F
      → Decision F
      → EntryPricing F
      → String
      → Op S (PipelineError E) (PaperTrade F)
  enter_stock ledger limits new_id signal decision pricing sector = do
    price ← required pricing.stock_price stock_prices_missing
    stop ← required pricing.stock_stop_price stock_prices_missing
    size ← lifted sizing_failed (size_stock price stop limits)
    runner ← lifted sizing_failed (allocate_runner size.quantity)
    wrapped ledger_failed (
        ledger.open_trade new_id (record {
          signal_id = signal.signal_id;
          symbol = signal.symbol;
          instrument = stock;
          quantity = runner.starter_quantity;
          entry_price = price;
          entry_time = signal.received_at;
          fallback_reason = decision.fallback_reason;
          option_expiration = none;
          option_strike = none;
          option_type = none;
          target_quantity = some runner.target_quantity;
          runner_stage = "STARTER";
          sector = sector;
          initial_risk_basis = some (fl.mul (fl.of_int runner.target_quantity) (fl.sub price stop));
        }))

  -- The branches of `process_entry`, by the instrument of the decision.
  unfoldable pub enter :
      InstrumentSelected
      → LedgerApi S E F
      → PortfolioLimits F
      → String
      → PineSignal F
      → Decision F
      → EntryPricing F
      → String
      → Op S (PipelineError E) (PaperTrade F)
  enter option ledger limits new_id signal decision pricing sector =
      enter_option ledger limits new_id signal decision pricing sector
  enter stock ledger limits new_id signal decision pricing sector =
      enter_stock ledger limits new_id signal decision pricing sector
  enter no_instrument ledger limits new_id signal decision pricing sector =
      raise instrument_unsupported

  unfoldable pub process_entry :
      LedgerApi S E F
      → PortfolioLimits F
      → String
      → PineSignal F
      → Decision F
      → EntryPricing F
      → String
      → Op S (PipelineError E) (PaperTrade F)
  process_entry ledger limits new_id signal decision pricing sector = do
    check (not (is_entry signal.action)) wrong_action
    check (not (is_selected decision.status)) decision_not_selected
    check (not (signal.symbol == decision.symbol)) symbols_differ
    enter decision.instrument_selected ledger limits new_id signal decision pricing sector
