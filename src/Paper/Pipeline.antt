-- ===== src/Paper/Pipeline.antt =====
-- src/daily_alpha/pipeline.py and src/daily_alpha/signals.py: from an approved Pine signal to calls of the
-- paper ledger, which is an interface here. Times are the texts of `isoformat`, `new_id` stands for the
-- `uuid4()` of the ledger, and a call of the ledger that raises ends the loop: what the calls before it
-- wrote stays written.
pub mod Enter
pub mod Rounds
pub mod Split
pub mod Flat
mod Tests
use Prim.Native.String.{String}
use daily_alpha_engine.Common.{Bool, true, false, Option, none, some, List}
use daily_alpha_engine.Common.Stateful.{Op, return, raise}
use daily_alpha_engine.Paper.Models.{
  InstrumentSelected, option, stock, no_instrument, DecisionStatus, selected, no_trade, data_error,
}
use daily_alpha_engine.Paper.Sizing.{SizingError}
use daily_alpha_engine.Paper.Ledger.{PaperTrade, Fill, OpenRequest}

pub data SignalAction : Type 0 where
  entry_long add partial exit : SignalAction

pub record PineSignal (F : Type 0) : Type 0 where
  pub signal_id : String
  pub symbol : String
  pub action : SignalAction
  pub strategy : String
  pub strategy_version : String
  pub timeframe : String
  pub price : F
  pub bar_time : String
  pub received_at : String
  pub position_fraction : Option F
  pub runner_stage : Option String

pub record EntryPricing (F : Type 0) : Type 0 where
  pub option_premium : Option F
  pub stock_price : Option F
  pub stock_stop_price : Option F

-- What the pipeline calls of `PaperLedger`, or of the DynamoDB ledger in its place.
pub record LedgerApi (S E F : Type 0) : Type 0 where
  pub open_trade : String → OpenRequest F → Op S E (PaperTrade F)
  pub add_trade : PaperTrade F → String → Fill F → Op S E (PaperTrade F)
  pub partial_trade : PaperTrade F → String → Fill F → Op S E (PaperTrade F)
  pub close_trade : PaperTrade F → F → String → Option String → Op S E (PaperTrade F)
  pub find_open : String → Op S E (List (PaperTrade F))

-- The `ValueError`s of the pipeline, in the order of the code, and those it passes on.
pub data PipelineError (E : Type 0) : Type 0 where
  wrong_action decision_not_selected symbols_differ : PipelineError E
  option_data_missing stock_prices_missing instrument_unsupported : PipelineError E
  stage_unsupported no_runner_target fill_price_missing exit_price_missing : PipelineError E
  sizing_failed : SizingError → PipelineError E
  ledger_failed : E → PipelineError E

unfoldable pub is_entry : SignalAction → Bool
is_entry entry_long = true
is_entry add = false
is_entry partial = false
is_entry exit = false

unfoldable pub is_add : SignalAction → Bool
is_add entry_long = false
is_add add = true
is_add partial = false
is_add exit = false

unfoldable pub is_partial : SignalAction → Bool
is_partial entry_long = false
is_partial add = false
is_partial partial = true
is_partial exit = false

unfoldable pub is_exit : SignalAction → Bool
is_exit entry_long = false
is_exit add = false
is_exit partial = false
is_exit exit = true

abbrev pub is_selected : DecisionStatus → Bool
is_selected selected = true
is_selected no_trade = false
is_selected data_error = false

-- A value that must not be `None`.
unfoldable pub required : {S E A : Type 0} → Option A → E → Op S E A
required none raised = raise raised
required (some x) raised = return x

-- `fill_time or signal.received_at`
abbrev pub time_or : Option String → String → String
time_or none received_at = received_at
time_or (some time) received_at = time

-- The price for the trade's instrument: every instrument but OPTION takes that of the stock.
unfoldable pub price_for :
    {S E F : Type 0}
    → InstrumentSelected
    → Option F
    → Option F
    → PipelineError E
    → Op S (PipelineError E) F
price_for option option_price stock_price missing = required option_price missing
price_for stock option_price stock_price missing = required stock_price missing
price_for no_instrument option_price stock_price missing = required stock_price missing
