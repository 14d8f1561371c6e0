-- ===== src/Paper/Dynamo/Operations.antt =====
-- src/daily_alpha/dynamo_ledger.py: the operations. `new_id` stands for `uuid4()`.
use Prim.Native.String.{String}
use text.Mathlib.Text.{◌==◌}
use daily_alpha_engine.Common.{
  not, ◌||◌, Option, none, some, List, [], ◌∷◌, if◌then◌else◌, some_and,
}
use daily_alpha_engine.Common.Int.{pos, ◌+ℤ◌, ltb_ℤ, leb_ℤ}
use daily_alpha_engine.Common.Floats.{Floats, zero_f}
use daily_alpha_engine.Common.Stateful.{Op, return, raise, check, attempt, ◌>>=◌, ◌>>◌}
use daily_alpha_engine.Paper.Ledger.{
  instrument_invalid, quantity_or_price_invalid, risk_basis_invalid, target_below_quantity,
  already_open, not_open, stage_unsupported, stage_out_of_order, target_exceeded,
  exit_price_negative, PaperTrade, Fill, OpenRequest, is_opened, target_or, expected_prior,
}
use daily_alpha_engine.Paper.Ledger.Operations.{
  is_no_instrument, signal_or, opened_trade, added_trade, reduced_trade, closed_trade,
}
use daily_alpha_engine.Paper.Dynamo.{
  key_absent, trade_is, Write, put, delete, Client, DynamoError, refused, no_longer_open,
  update_no_longer_valid, current_key, storage_error, is_conflict, current_item, audit_item,
  signal_was_applied, find_open,
}

module _ {F : Type 0} where
  -- The transaction of `open_trade`.
  unfoldable pub open_writes : String → PaperTrade F → String → String → List (Write F)
  open_writes account_id trade entry_time signal_id =
      put (current_item account_id trade) key_absent
      ∷ put (audit_item account_id "OPEN" trade entry_time signal_id) key_absent
      ∷ []

  -- The transaction of `_replace_current_with_audit`.
  unfoldable pub replace_writes :
      String → PaperTrade F → PaperTrade F → String → String → String → List (Write F)
  replace_writes account_id prior updated event event_signal_id occurred_at =
      put (current_item account_id updated) (trade_is prior.trade_id)
      ∷ put (audit_item account_id event updated occurred_at event_signal_id) key_absent
      ∷ []

  -- The transaction of `close_trade`.
  unfoldable pub close_writes :
      String → PaperTrade F → PaperTrade F → String → String → List (Write F)
  close_writes account_id trade closed exit_time event_signal_id =
      delete (current_key account_id trade.instrument trade.symbol) (trade_is trade.trade_id)
      ∷ put (audit_item account_id "CLOSE" closed exit_time event_signal_id) key_absent
      ∷ []

module _ {S F : Type 0} where
  -- The answer of `open_trade` where a position is found.
  unfoldable pub same_or_refused : PaperTrade F → String → Op S DynamoError (PaperTrade F)
  same_or_refused found signal_id =
      if found.signal_id == signal_id then return found else raise (refused already_open)

  -- What the handler of `open_trade` answers once it has looked again.
  unfoldable pub open_conflict :
      OpenRequest F → String → List (PaperTrade F) → Op S DynamoError (PaperTrade F)
  open_conflict q code [] = raise (storage_error code)
  open_conflict q code (found ∷ _) = same_or_refused found q.signal_id

  -- The handler of `open_trade`.
  unfoldable pub open_failed :
      Client S F → String → OpenRequest F → String → Op S DynamoError (PaperTrade F)
  open_failed client account_id q code =
      if is_conflict code
      then find_open client account_id q.symbol (some q.instrument) >>= open_conflict q code
      else raise (storage_error code)

  -- The part of `open_trade` behind the first `find_open`.
  unfoldable pub open_new :
      Client S F → String → String → OpenRequest F → Op S DynamoError (PaperTrade F)
  open_new client account_id new_id q =
      attempt
        (client.transact_write_items
          (open_writes account_id (opened_trade new_id q) q.entry_time q.signal_id))
        (open_failed client account_id q) (λ _. return (opened_trade new_id q))

  -- The part of `open_trade` behind the guards, by what the first `find_open` found.
  unfoldable pub open_found :
      Client S F
      → String
      → String
      → OpenRequest F
      → List (PaperTrade F)
      → Op S DynamoError (PaperTrade F)
  open_found client account_id new_id q [] = open_new client account_id new_id q
  open_found client account_id new_id q (found ∷ _) = same_or_refused found q.signal_id

  -- What the handler of `_replace_current_with_audit` answers once it has looked again.
  unfoldable pub replace_conflict : String → List (PaperTrade F) → Op S DynamoError (PaperTrade F)
  replace_conflict event_signal_id [] = raise update_no_longer_valid
  replace_conflict event_signal_id (current ∷ _) =
      if signal_was_applied current event_signal_id
      then return current
      else raise update_no_longer_valid

  -- The handler of `_replace_current_with_audit`.
  unfoldable pub replace_failed :
      Client S F → String → PaperTrade F → String → String → Op S DynamoError (PaperTrade F)
  replace_failed client account_id prior event_signal_id code =
      if is_conflict code
      then find_open client account_id prior.symbol (some prior.instrument)
        >>= replace_conflict event_signal_id
      else raise (storage_error code)

  unfoldable pub replace_current_with_audit :
      Client S F
      → String
      → PaperTrade F
      → PaperTrade F
      → String
      → String
      → String
      → Op S DynamoError (PaperTrade F)
  replace_current_with_audit client account_id prior updated event event_signal_id occurred_at =
      attempt
        (client.transact_write_items
          (replace_writes account_id prior updated event event_signal_id occurred_at))
        (replace_failed client account_id prior event_signal_id) (λ _. return updated)

  -- The handler of `close_trade`.
  unfoldable pub close_failed : String → Op S DynamoError (PaperTrade F)
  close_failed code = if is_conflict code then raise no_longer_open else raise (storage_error code)

-- `expected_prior`, which must not be `None`.
unfoldable pub prior_of : {S : Type 0} → Option String → Op S DynamoError String
prior_of none = raise (refused stage_unsupported)
prior_of (some prior) = return prior

module _ {S F : Type 0} ⦃fl : Floats F⦄ where
  unfoldable pub open_trade :
      Client S F → String → String → OpenRequest F → Op S DynamoError (PaperTrade F)
  open_trade client account_id new_id q = do
    check (is_no_instrument q.instrument) (refused instrument_invalid)
    check (leb_ℤ q.quantity (pos 0) || fl.le q.entry_price zero_f)
        (refused quantity_or_price_invalid)
    check (some_and q.initial_risk_basis (λ basis. fl.le basis zero_f)) (refused risk_basis_invalid)
    check (ltb_ℤ (target_or q.target_quantity q.quantity) q.quantity)
        (refused target_below_quantity)
    existing ← find_open client account_id q.symbol (some q.instrument)
    open_found client account_id new_id q existing

  -- The part of `add_trade` behind the test for a signal that was seen.
  unfoldable pub add_unseen :
      Client S F → String → PaperTrade F → String → Fill F → Op S DynamoError (PaperTrade F)
  add_unseen client account_id trade signal_id f = do
    check (leb_ℤ f.quantity (pos 0) || fl.le f.price zero_f) (refused quantity_or_price_invalid)
    prior ← prior_of (expected_prior f.stage)
    check (not (trade.runner_stage == prior)) (refused stage_out_of_order)
    check (ltb_ℤ (target_or trade.target_quantity trade.quantity) (trade.quantity +ℤ f.quantity))
        (refused target_exceeded)
    replace_current_with_audit client account_id trade (added_trade trade signal_id f) "ADD"
        signal_id f.time

  unfoldable pub add_trade :
      Client S F → String → PaperTrade F → String → Fill F → Op S DynamoError (PaperTrade F)
  add_trade client account_id trade signal_id f = do
    check (not (is_opened trade.state)) (refused not_open)
    if some_and trade.add1_signal_id (λ x. x == signal_id)
          || some_and trade.add2_signal_id (λ x. x == signal_id)
        then return trade
        else add_unseen client account_id trade signal_id f

  -- The part of `partial_trade` behind the test for a signal that was seen.
  unfoldable pub partial_unseen :
      Client S F → String → PaperTrade F → String → Fill F → Op S DynamoError (PaperTrade F)
  partial_unseen client account_id trade signal_id f = do
    check (not (f.stage == "HARVEST_3_ATR")) (refused stage_unsupported)
    check (not (trade.runner_stage == "ADD_2_ATR")) (refused stage_out_of_order)
    check (leb_ℤ f.quantity (pos 0) || leb_ℤ trade.quantity f.quantity || fl.lt f.price zero_f)
        (refused quantity_or_price_invalid)
    replace_current_with_audit client account_id trade (reduced_trade trade signal_id f) "PARTIAL"
        signal_id f.time

  unfoldable pub partial_trade :
      Client S F → String → PaperTrade F → String → Fill F → Op S DynamoError (PaperTrade F)
  partial_trade client account_id trade signal_id f = do
    check (not (is_opened trade.state)) (refused not_open)
    if some_and trade.harvest_signal_id (λ x. x == signal_id)
        then return trade
        else partial_unseen client account_id trade signal_id f

  unfoldable pub close_trade :
      Client S F
      → String
      → PaperTrade F
      → F
      → String
      → Option String
      → Op S DynamoError (PaperTrade F)
  close_trade client account_id trade exit_price exit_time signal_id = do
    check (not (is_opened trade.state)) (refused not_open)
    check (fl.lt exit_price zero_f) (refused exit_price_negative)
    attempt
        (client.transact_write_items (
          close_writes account_id trade (closed_trade trade exit_price exit_time) exit_time
            (signal_or signal_id trade.signal_id)))
        close_failed (λ _. return (closed_trade trade exit_price exit_time))
