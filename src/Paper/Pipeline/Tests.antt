-- ===== src/Paper/Pipeline/Tests.antt =====
-- Runs of the pipeline: an entry on a ledger that accepts every request, and an exit on the DynamoDB ledger.
use daily_alpha_engine.Common.{ℕ, ◌≡◌, refl, none, some, [], ◌∷◌, ok, arith}
use daily_alpha_engine.Common.Int.{pos}
use daily_alpha_engine.Common.Fixed.{Fixed, fixed_floats, fixed_open}
use daily_alpha_engine.Common.Stateful.{check}
use daily_alpha_engine.Common.Text.{upper}
use daily_alpha_engine.Paper.Models.{option, stock, selected, Decision}
use daily_alpha_engine.Paper.Sizing.{PortfolioLimits, size_stock, allocate_runner}
use daily_alpha_engine.Paper.Ledger.{OpenRequest, LedgerError, is_opened, target_or}
use daily_alpha_engine.Paper.Ledger.Operations.{opened_trade, closed_trade}
use daily_alpha_engine.Paper.Dynamo.{
  current_key, audit_key, current_item, audit_item, instrument_value, find_each, find_open,
}
use daily_alpha_engine.Paper.Dynamo.Operations.{
  open_writes, open_new, open_found, open_trade, close_writes, close_trade,
}
use daily_alpha_engine.Paper.Dynamo.Table.{Table, key_eq, all_hold, update, written}
use daily_alpha_engine.Paper.Dynamo.Workers.{open_call, after_calls}
use daily_alpha_engine.Paper.Dynamo.Filed.{AllFiled, after_calls-AllFiled}
use daily_alpha_engine.Paper.Dynamo.Tests.{
  table_client, as_table, table_client-IsClient, request, trade,
}
use daily_alpha_engine.Paper.Pipeline.{
  PineSignal, EntryPricing, LedgerApi, entry_long, exit, is_entry, is_exit, price_for, required,
}
use daily_alpha_engine.Paper.Pipeline.Enter.{enter_stock, enter, process_entry}
use daily_alpha_engine.Paper.Pipeline.Rounds.{exit_one, for_each, process_exit}
use daily_alpha_engine.Paper.Pipeline.Flat.{dynamo_ledger, process_exit-flat}
use daily_alpha_engine.Paper.Pipeline.Split.{IsStarter, process_entry-IsStarter}

abbrev price : ℕ → Fixed
price n = fixed_floats.dec n 0

-- It answers every request with the trade, and keeps nothing.
abbrev accepting : LedgerApi (Unit {0}) LedgerError Fixed
accepting = record {
  open_trade = λ new_id q s. (s, ok (opened_trade new_id q));
  add_trade = λ t signal_id f s. (s, ok t);
  partial_trade = λ t signal_id f s. (s, ok t);
  close_trade = λ t exit_price exit_time signal_id s. (s, ok t);
  find_open = λ symbol s. (s, ok []);
}

abbrev limits : PortfolioLimits Fixed
limits = record {
  nav = price 100_000;
  risk_per_trade_pct = fixed_floats.dec 5 3;
  max_capital_per_trade_pct = fixed_floats.dec 2 2;
}

abbrev entry : PineSignal Fixed
entry = record {
  signal_id = "s-1";
  symbol = "ACME";
  action = entry_long;
  strategy = "gap";
  strategy_version = "2.4";
  timeframe = "1D";
  price = price 100;
  bar_time = "2026-01-02";
  received_at = "2026-01-02T21:00:00";
  position_fraction = none;
  runner_stage = none;
}

abbrev decision : Decision Fixed
decision = record {
  symbol = "ACME";
  status = selected;
  instrument_selected = stock;
  fallback_reason = "NO_OPTION_PASSED_QUALITY_FILTERS_STOCK_ELIGIBLE";
  selected_contract = none;
  created_at = "2026-01-02";
}

abbrev pricing : EntryPricing Fixed
pricing = record {
  option_premium = none;
  stock_price = some (price 100);
  stock_stop_price = some (price 95);
}

-- 2% of the account buys 20 shares, all of which the runner takes: it starts with 10.
abbrev asked : OpenRequest Fixed
asked = record {
  signal_id = "s-1";
  symbol = "ACME";
  instrument = stock;
  quantity = pos 10;
  entry_price = price 100;
  entry_time = "2026-01-02T21:00:00";
  fallback_reason = "NO_OPTION_PASSED_QUALITY_FILTERS_STOCK_ELIGIBLE";
  option_expiration = none;
  option_strike = none;
  option_type = none;
  target_quantity = some (pos 20);
  runner_stage = "STARTER";
  sector = "Technology";
  initial_risk_basis = some (price 100);
}

process_entry-opens :
    process_entry accepting limits "id-1" entry decision pricing "Technology" tt
    ≡ (tt, ok (opened_trade "id-1" asked))
unfolding process_entry enter enter_stock check is_entry required size_stock allocate_runner
    fixed_open
process_entry-opens = refl

process_entry-IsStarter_example :
    (q : OpenRequest Fixed) × (accepting.open_trade "id-1" q tt
      ≡ (tt, ok (opened_trade "id-1" asked)))
    × IsStarter entry decision q
process_entry-IsStarter_example =
    process_entry-IsStarter accepting limits "id-1" entry decision pricing "Technology" tt tt
      (opened_trade "id-1" asked) process_entry-opens

abbrev exit_signal : PineSignal Fixed
exit_signal = record {
  signal_id = "s-9";
  symbol = "acme";
  action = exit;
  strategy = "gap";
  strategy_version = "2.4";
  timeframe = "1D";
  price = price 110;
  bar_time = "2026-01-09";
  received_at = "2026-01-09T21:00:00";
  position_fraction = none;
  runner_stage = none;
}

-- The table behind an opening.
abbrev started : Table Fixed
started = after_calls table_client "paper" (open_call "id-1" request ∷ []) (λ k. none)

started-AllFiled : AllFiled "paper" started
started-AllFiled =
    after_calls-AllFiled table_client as_table table_client-IsClient "paper"
      (open_call "id-1" request ∷ []) (λ k. none) (λ k item eq sk. absurd (ground arith))

abbrev exited : Table Fixed
exited =
    (process_exit (dynamo_ledger table_client "paper") exit_signal none (some (price 110)) none
      started).0

process_exit-closes :
    process_exit
      (dynamo_ledger table_client "paper")
      exit_signal
      none
      (some (price 110))
      none
      started
    ≡ (exited, ok (closed_trade trade (price 110) "2026-01-09T21:00:00" ∷ []))
unfolding process_exit check is_exit find_open find_each after_calls open_trade open_found open_new
    open_writes current_item audit_item current_key audit_key instrument_value opened_trade upper
    all_hold written update key_eq for_each exit_one price_for required close_trade close_writes
    closed_trade is_opened fixed_open target_or
process_exit-closes = refl

process_exit-flat_example :
    (exited (current_key "paper" option "acme") ≡ none)
    × (exited (current_key "paper" stock "acme") ≡ none)
process_exit-flat_example =
    process_exit-flat table_client as_table table_client-IsClient "paper" exit_signal none
      (some (price 110)) none started exited
      (closed_trade trade (price 110) "2026-01-09T21:00:00" ∷ []) started-AllFiled
      process_exit-closes
