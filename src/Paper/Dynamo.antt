-- ===== src/Paper/Dynamo.antt =====
-- src/daily_alpha/dynamo_ledger.py: the paper ledger of AWS staging, on one DynamoDB table with a
-- current-position item for each instrument and symbol, and an audit item for each event of a trade.
-- The client of boto3 is a parameter, on a state of its own; an exception of the client is its AWS
-- error code, empty where it has none. `trade_json` carries the trade: `json.loads` gives back what
-- `json.dumps` was given. Times are the texts of `isoformat`.
pub mod Operations
pub mod Table
pub mod Calls
pub mod Workers
pub mod Filed
pub mod Clears
pub mod Answers
pub mod Tests
pub mod Keeps
use Prim.Native.String.{String, ◌++◌}
use text.Mathlib.Text.{◌==◌}
use daily_alpha_engine.Common.{Bool, false, ◌||◌, Option, none, some, List, [], ◌∷◌, if◌then◌else◌}
use daily_alpha_engine.Common.Text.{is_empty, upper}
use daily_alpha_engine.Common.Stateful.{Op, return, raise, attempt, ◌>>=◌}
use daily_alpha_engine.Paper.Models.{InstrumentSelected, option, stock, no_instrument}
use daily_alpha_engine.Paper.Ledger.{PaperTrade, TradeState, opened, closed, LedgerError}

pub record Key : Type 0 where
  pub pk : String
  pub sk : String

-- `event` is absent from the item of a current position.
pub record Item (F : Type 0) : Type 0 where
  pub key : Key
  pub event : Option String
  pub trade_id : String
  pub signal_id : String
  pub symbol : String
  pub instrument : String
  pub state : String
  pub runner_stage : String
  pub sector : String
  pub trade_json : PaperTrade F

-- `attribute_not_exists(pk)` and `trade_id = :trade_id`.
pub data Condition : Type 0 where
  key_absent : Condition
  trade_is : String → Condition

pub data Write (F : Type 0) : Type 0 where
  put : Item F → Condition → Write F
  delete : Key → Condition → Write F

-- The two calls of the client on one table, with `ConsistentRead` for the first.
pub record Client (S F : Type 0) : Type 0 where
  pub get_item : Key → Op S String (Option (Item F))
  pub transact_write_items : List (Write F) → Op S String (Unit {0})

-- The `ValueError`s that the file ledger has too, its own two, and `LedgerStorageError`.
pub data DynamoError : Type 0 where
  refused : LedgerError → DynamoError
  no_longer_open update_no_longer_valid : DynamoError
  storage_failed : String → DynamoError

unfoldable pub instrument_value : InstrumentSelected → String
instrument_value option = "OPTION"
instrument_value stock = "STOCK"
instrument_value no_instrument = "NONE"

unfoldable pub state_value : TradeState → String
state_value opened = "OPEN"
state_value closed = "CLOSED"

unfoldable pub current_key : String → InstrumentSelected → String → Key
current_key account_id instrument symbol = record {
  pk =
      "ACCOUNT#"
      ++ (account_id ++ ("#POSITION#" ++ (instrument_value instrument ++ ("#" ++ upper symbol))));
  sk = "OPEN";
}

unfoldable pub audit_key : String → String → String → String → String → Key
audit_key account_id trade_id occurred_at event event_signal_id = record {
  pk = "ACCOUNT#" ++ (account_id ++ ("#TRADE#" ++ trade_id));
  sk = "EVENT#" ++ (occurred_at ++ ("#" ++ (event ++ ("#" ++ event_signal_id))));
}

-- `_storage_error`
unfoldable pub storage_error : String → DynamoError
storage_error code =
    storage_failed ("DYNAMODB_" ++ (if is_empty code then "REQUEST_FAILED" else upper code))

-- The test of each handler: the codes of a condition that did not hold.
unfoldable pub is_conflict : String → Bool
is_conflict code =
    code == "TransactionCanceledException" || code == "ConditionalCheckFailedException"

-- `signal_id in {a, b, ...}`, where some of the set may be `None`.
abbrev is_signal : String → Option String → Bool
is_signal signal_id none = false
is_signal signal_id (some x) = x == signal_id

-- The instruments that `find_open` asks for.
abbrev selected_instruments : Option InstrumentSelected → List InstrumentSelected
selected_instruments none = option ∷ stock ∷ []
selected_instruments (some instrument) = instrument ∷ []

module _ {F : Type 0} where
  -- `results` with the trade of an item that was found.
  abbrev pub with_found : Option (Item F) → List (PaperTrade F) → List (PaperTrade F)
  with_found none results = results
  with_found (some item) results = item.trade_json ∷ results

  unfoldable pub current_item : String → PaperTrade F → Item F
  current_item account_id trade = record {
    key = current_key account_id trade.instrument trade.symbol;
    event = none;
    trade_id = trade.trade_id;
    signal_id = trade.signal_id;
    symbol = trade.symbol;
    instrument = instrument_value trade.instrument;
    state = state_value trade.state;
    runner_stage = trade.runner_stage;
    sector = trade.sector;
    trade_json = trade;
  }

  unfoldable pub audit_item : String → String → PaperTrade F → String → String → Item F
  audit_item account_id event trade occurred_at event_signal_id = record {
    key = audit_key account_id trade.trade_id occurred_at event event_signal_id;
    event = some event;
    trade_id = trade.trade_id;
    signal_id = event_signal_id;
    symbol = trade.symbol;
    instrument = instrument_value trade.instrument;
    state = state_value trade.state;
    runner_stage = trade.runner_stage;
    sector = trade.sector;
    trade_json = trade;
  }

  unfoldable pub signal_was_applied : PaperTrade F → String → Bool
  signal_was_applied trade signal_id =
      trade.signal_id == signal_id
      || is_signal signal_id trade.add1_signal_id
      || is_signal signal_id trade.add2_signal_id
      || is_signal signal_id trade.harvest_signal_id

module _ {S F : Type 0} where
  unfoldable pub find_each :
      Client S F
      → String
      → String
      → List InstrumentSelected
      → Op S DynamoError (List (PaperTrade F))
  find_each client account_id symbol [] = return []
  find_each client account_id symbol (selected ∷ rest) =
      attempt (client.get_item (current_key account_id selected symbol))
        (λ code. raise (storage_error code))
        (λ item. do
          results ← find_each client account_id symbol rest
          return (with_found item results))

  unfoldable pub find_open :
      Client S F
      → String
      → String
      → Option InstrumentSelected
      → Op S DynamoError (List (PaperTrade F))
  find_open client account_id symbol instrument =
      find_each client account_id symbol (selected_instruments instrument)
