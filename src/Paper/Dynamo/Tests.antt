-- ===== src/Paper/Dynamo/Tests.antt =====
-- Runs of the DynamoDB ledger on a table in memory.
use Prim.Native.String.{String}
use text.Mathlib.Text.{◌==◌}
use daily_alpha_engine.Common.{
  ℕ, true, false, ◌≡◌, refl, ap, inl, none, some, List, [], ◌∷◌, ok, err, if◌then◌else◌, arith,
}
use daily_alpha_engine.Common.Int.{pos}
use daily_alpha_engine.Common.Fixed.{Fixed, fixed_floats, fixed_open}
use daily_alpha_engine.Common.Text.{upper}
use daily_alpha_engine.Paper.Models.{stock}
use daily_alpha_engine.Paper.Ledger.{PaperTrade, OpenRequest, is_opened, already_open, target_or}
use daily_alpha_engine.Paper.Ledger.Operations.{opened_trade}
use daily_alpha_engine.Paper.Dynamo.{
  Item, Write, Client, current_key, audit_key, current_item, audit_item, instrument_value,
  no_longer_open, refused,
}
use daily_alpha_engine.Paper.Dynamo.Operations.{close_trade, open_trade}
use daily_alpha_engine.Paper.Dynamo.Table.{
  key_eq, Table, all_hold, update, written, IsClient, IsAnswering,
}
use daily_alpha_engine.Paper.Dynamo.Workers.{open_call, close_call, after_calls, after_calls-kept}
use daily_alpha_engine.Paper.Dynamo.Filed.{AllFiled, after_calls-AllFiled}
use daily_alpha_engine.Paper.Dynamo.Answers.{is_valid, open_trade-occupied, close_trade-stale}

-- A client whose state is the table.
abbrev pub table_client : Client (Table Fixed) Fixed
table_client = record {
  get_item = λ key m. (m, ok (m key));
  transact_write_items = λ ws m.
      if all_hold ws m then (written ws m, ok tt) else (m, err "TransactionCanceledException");
}

abbrev pub as_table : Table Fixed → Table Fixed
as_table m = m

answer_true :
    (ws : List (Write Fixed)) (m : Table Fixed)
    → all_hold ws m ≡ true
    → table_client.transact_write_items ws m ≡ (written ws m, ok tt)
answer_true ws m holding = rw holding refl

answer_false :
    (ws : List (Write Fixed)) (m : Table Fixed)
    → all_hold ws m ≡ false
    → table_client.transact_write_items ws m ≡ (m, err "TransactionCanceledException")
answer_false ws m failing = rw failing refl

answer_held :
    (ws : List (Write Fixed)) (m : Table Fixed)
    → (table_client.transact_write_items ws m).1 ≡ ok tt
    → all_hold ws m ≡ true
answer_held ws m eq = ground arith

answer_failed :
    (ws : List (Write Fixed)) (m : Table Fixed) (code : String)
    → (table_client.transact_write_items ws m).1 ≡ err code
    → all_hold ws m ≡ false
answer_failed ws m code eq = ground arith

pub table_client-IsClient : IsClient table_client as_table
table_client-IsClient = record {
  get_keeps = λ key m k. refl;
  get_reads = λ key m found eq. ground arith;
  write_ok = λ ws m eq.
      (answer_held ws m eq, λ k. ap (λ p. p.0 k) (answer_true ws m (answer_held ws m eq)));
  write_cancelled =
      λ ws m code eq c k. ap (λ p. p.0 k) (answer_false ws m (answer_failed ws m code eq));
  write_failed =
      λ ws m code eq. inl (λ k. ap (λ p. p.0 k) (answer_false ws m (answer_failed ws m code eq)));
}

table_client-IsAnswering : IsAnswering table_client as_table
table_client-IsAnswering = record {
  get = λ key m. refl;
  write = λ ws m holding. (written ws m, answer_true ws m holding, λ k. refl);
  cancel = λ ws m failing. answer_false ws m failing;
}

abbrev price : ℕ → Fixed
price n = fixed_floats.dec n 0

abbrev pub request : OpenRequest Fixed
request = record {
  signal_id = "s-1";
  symbol = "acme";
  instrument = stock;
  quantity = pos 2;
  entry_price = price 100;
  entry_time = "2026-01-02";
  fallback_reason = "";
  option_expiration = none;
  option_strike = none;
  option_type = none;
  target_quantity = some (pos 4);
  runner_stage = "STARTER";
  sector = "Technology";
  initial_risk_basis = none;
}

abbrev pub trade : PaperTrade Fixed
trade = opened_trade "id-1" request

abbrev pub position : Item Fixed
position = current_item "paper" trade

abbrev opening : Item Fixed
opening = audit_item "paper" "OPEN" trade "2026-01-02" "s-1"

-- The table behind the opening of the trade.
abbrev pub opened_table : Table Fixed
opened_table = update (update (λ k. none) position.key (some position)) opening.key (some opening)

opening-there : opened_table opening.key ≡ some opening
unfolding update key_eq audit_item current_item audit_key current_key opened_trade upper
opening-there = refl

after_calls-kept_example :
    after_calls table_client "paper"
      (close_call trade (price 110) "2026-01-09" none ∷ open_call "id-2" request ∷ [])
      opened_table
      opening.key
    ≡ some opening
unfolding audit_item audit_key opened_trade
after_calls-kept_example =
    after_calls-kept table_client as_table table_client-IsClient "paper" opening.key opening
      (close_call trade (price 110) "2026-01-09" none ∷ open_call "id-2" request ∷ []) opened_table
      (refl, (refl, tt)) opening-there

after_calls-AllFiled_example :
    AllFiled "paper" (after_calls table_client "paper" (open_call "id-1" request ∷ []) (λ k. none))
after_calls-AllFiled_example =
    after_calls-AllFiled table_client as_table table_client-IsClient "paper"
      (open_call "id-1" request ∷ []) (λ k. none) (λ k item eq sk. absurd (ground arith))

request-valid : is_valid request ≡ true
unfolding target_or fixed_open
request-valid = refl

position-there : opened_table (current_key "paper" stock "acme") ≡ some position
unfolding update key_eq audit_item current_item audit_key current_key opened_trade upper
    instrument_value
position-there = refl

open_trade-occupied_example :
    open_trade table_client "paper" "id-2" request opened_table
    ≡ (opened_table, if trade.signal_id == "s-1" then ok trade else err (refused already_open))
unfolding current_item
open_trade-occupied_example =
    open_trade-occupied table_client as_table table_client-IsAnswering "paper" "id-2" request
      opened_table position request-valid position-there

trade-opened : is_opened trade.state ≡ true
unfolding opened_trade is_opened
trade-opened = refl

close_trade-stale_example :
    close_trade table_client "paper" trade (price 110) "2026-01-09" none (λ k. none)
    ≡ ((λ k. none), err no_longer_open)
unfolding fixed_open
close_trade-stale_example =
    close_trade-stale table_client as_table table_client-IsAnswering "paper" trade (price 110)
      "2026-01-09" none (λ k. none) trade-opened refl refl
