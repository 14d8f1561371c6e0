-- ===== src/Paper/Pipeline/Rounds.antt =====
-- src/daily_alpha/pipeline.py: `process_add`, `process_partial` and `process_exit`, which go through
-- the trades that the ledger finds open for the symbol.
use Prim.Native.String.{String}
use text.Mathlib.Text.{◌==◌}
use daily_alpha_engine.Common.{not, ◌||◌, Option, none, some, List, [], ◌∷◌, if◌then◌else◌}
use daily_alpha_engine.Common.Int.{ℤ, pos, floor_div, leb_ℤ}
use daily_alpha_engine.Common.Stateful.{Op, return, raise, check, wrapped, ◌>>=◌, ◌>>◌}
use daily_alpha_engine.Paper.Ledger.{PaperTrade, Fill, target_or}
use daily_alpha_engine.Paper.Pipeline.{
  PineSignal, LedgerApi, PipelineError, wrong_action, stage_unsupported, no_runner_target,
  fill_price_missing, exit_price_missing, ledger_failed, is_add, is_partial, is_exit, time_or,
  price_for,
}

module _ {S E : Type 0} where
  -- The stage of an ADD that `process_add` accepts.
  unfoldable pub add_stage : Option String → Op S (PipelineError E) String
  add_stage none = raise stage_unsupported
  add_stage (some stage) =
      if stage == "ADD_1_ATR" || stage == "ADD_2_ATR" then return stage else raise stage_unsupported

  -- The stage of a PARTIAL that `process_partial` accepts.
  unfoldable pub partial_stage : Option String → Op S (PipelineError E) String
  partial_stage none = raise stage_unsupported
  partial_stage (some stage) =
      if stage == "HARVEST_3_ATR" then return stage else raise stage_unsupported

-- `target // 4`
unfoldable pub runner_unit : {F : Type 0} → PaperTrade F → ℤ
runner_unit trade = floor_div (target_or trade.target_quantity trade.quantity) 4

module _ {S E F : Type 0} where
  -- One pass of the loops of `process_add` and `process_partial`, which differ in the ledger's method.
  unfoldable pub fill_one :
      (PaperTrade F → String → Fill F → Op S E (PaperTrade F))
      → PineSignal F
      → String
      → Option F
      → Option F
      → String
      → PaperTrade F
      → Op S (PipelineError E) (PaperTrade F)
  fill_one method signal stage option_fill_price stock_fill_price timestamp trade = do
    check (leb_ℤ (runner_unit trade) (pos 0)) no_runner_target
    fill_price ← price_for trade.instrument option_fill_price stock_fill_price fill_price_missing
    wrapped ledger_failed (
        method trade signal.signal_id (record {
          price = fill_price;
          quantity = runner_unit trade;
          time = timestamp;
          stage = stage;
        }))

  -- One pass of the loop of `process_exit`.
  unfoldable pub exit_one :
      LedgerApi S E F
      → PineSignal F
      → Option F
      → Option F
      → String
      → PaperTrade F
      → Op S (PipelineError E) (PaperTrade F)
  exit_one ledger signal option_exit_price stock_exit_price timestamp trade = do
    exit_price ← price_for trade.instrument option_exit_price stock_exit_price exit_price_missing
    wrapped ledger_failed (ledger.close_trade trade exit_price timestamp (some signal.signal_id))

  -- `for trade in trades: results.append(...)`
  unfoldable pub for_each :
      (PaperTrade F → Op S (PipelineError E) (PaperTrade F))
      → List (PaperTrade F)
      → Op S (PipelineError E) (List (PaperTrade F))
  for_each body [] = return []
  for_each body (trade ∷ trades) = do
    result ← body trade
    results ← for_each body trades
    return (result ∷ results)

  unfoldable pub process_add :
      LedgerApi S E F
      → PineSignal F
      → Option F
      → Option F
      → Option String
      → Op S (PipelineError E) (List (PaperTrade F))
  process_add ledger signal option_fill_price stock_fill_price fill_time = do
    check (not (is_add signal.action)) wrong_action
    stage ← add_stage signal.runner_stage
    trades ← wrapped ledger_failed (ledger.find_open signal.symbol)
    for_each
        (fill_one ledger.add_trade signal stage option_fill_price stock_fill_price
          (time_or fill_time signal.received_at))
        trades

  unfoldable pub process_partial :
      LedgerApi S E F
      → PineSignal F
      → Option F
      → Option F
      → Option String
      → Op S (PipelineError E) (List (PaperTrade F))
  process_partial ledger signal option_fill_price stock_fill_price fill_time = do
    check (not (is_partial signal.action)) wrong_action
    stage ← partial_stage signal.runner_stage
    trades ← wrapped ledger_failed (ledger.find_open signal.symbol)
    for_each
        (fill_one ledger.partial_trade signal stage option_fill_price stock_fill_price
          (time_or fill_time signal.received_at))
        trades

  unfoldable pub process_exit :
      LedgerApi S E F
      → PineSignal F
      → Option F
      → Option F
      → Option String
      → Op S (PipelineError E) (List (PaperTrade F))
  process_exit ledger signal option_exit_price stock_exit_price exit_time = do
    check (not (is_exit signal.action)) wrong_action
    trades ← wrapped ledger_failed (ledger.find_open signal.symbol)
    for_each
        (exit_one ledger signal option_exit_price stock_exit_price
          (time_or exit_time signal.received_at))
        trades
