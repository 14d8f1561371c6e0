-- ===== src/Paper/Dynamo/Answers.antt =====
-- src/daily_alpha/dynamo_ledger.py: what is answered to a repeated signal and to a handle that is stale,
-- while every request of the client gets its answer.
use Prim.Native.String.{String}
use text.Mathlib.Text.{◌==◌}
use daily_alpha_engine.Common.{
  Bool, true, false, ◌≡◌, refl, not, ◌&&◌, ◌||◌, Option, some, [], ok, err, if◌then◌else◌, some_and,
  arith,
}
use daily_alpha_engine.Common.Int.{pos, ltb_ℤ, leb_ℤ}
use daily_alpha_engine.Common.Floats.{Floats, zero_f}
use daily_alpha_engine.Common.Stateful.{check}
use daily_alpha_engine.Paper.Models.{InstrumentSelected}
use daily_alpha_engine.Paper.Ledger.{PaperTrade, OpenRequest, already_open, is_opened, target_or}
use daily_alpha_engine.Paper.Ledger.Operations.{is_no_instrument, closed_trade, signal_or}
use daily_alpha_engine.Paper.Dynamo.{
  Item, trade_is, Client, refused, no_longer_open, current_key, is_conflict, with_found, find_each,
  find_open,
}
use daily_alpha_engine.Paper.Dynamo.Operations.{
  close_writes, same_or_refused, open_found, close_failed, open_trade, close_trade,
}
use daily_alpha_engine.Paper.Dynamo.Table.{Table, holds, all_hold, IsAnswering}

-- A request that `open_trade` does not turn down for its own values.
abbrev pub is_valid : {F : Type 0} → ⦃fl : Floats F⦄ → OpenRequest F → Bool
is_valid ⦃fl⦄ q =
    not (is_no_instrument q.instrument)
    && not (leb_ℤ q.quantity (pos 0) || fl.le q.entry_price zero_f)
    && not (some_and q.initial_risk_basis (λ basis. fl.le basis zero_f))
    && not (ltb_ℤ (target_or q.target_quantity q.quantity) q.quantity)

close_writes-refused :
    {F : Type 0} (account_id : String) (m : Table F) (trade c : PaperTrade F)
    (time signal_id : String)
    → holds (trade_is trade.trade_id) (m (current_key account_id trade.instrument trade.symbol))
      ≡ false
    → all_hold (close_writes account_id trade c time signal_id) m ≡ false
unfolding close_writes all_hold
close_writes-refused account_id m trade c time signal_id stale = rw stale refl

module _ {S F : Type 0} ⦃fl : Floats F⦄ (client : Client S F) (table : S → Table F)
    (answering : IsAnswering client table) (account_id : String) where
  find_open-answers :
      (symbol : String) (i : InstrumentSelected) (s : S)
      → find_open client account_id symbol (some i) s
        ≡ (s, ok (with_found (table s (current_key account_id i symbol)) []))
  unfolding find_open find_each
  find_open-answers symbol i s = rw (answering.get (current_key account_id i symbol) s) refl

  -- Where a position is open, a valid OPEN in its symbol and instrument writes nothing: it returns the
  -- open trade if that came from the same signal, and is refused otherwise.
  pub open_trade-occupied :
      (new_id : String) (q : OpenRequest F) (s : S) (item : Item F)
      → is_valid q ≡ true
      → table s (current_key account_id q.instrument q.symbol) ≡ some item
      → open_trade client account_id new_id q s ≡ (
        s,
        if item.trade_json.signal_id == q.signal_id
            then ok item.trade_json
            else err (refused already_open),
      )
  unfolding open_trade check open_found same_or_refused
  open_trade-occupied new_id q s item valid found =
      ground (arith, find_open-answers q.symbol q.instrument s)

  -- A handle whose position was closed or replaced by another trade's closes nothing: the call says so,
  -- and leaves the table.
  pub close_trade-stale :
      (trade : PaperTrade F) (price : F) (time : String) (signal : Option String) (s : S)
      → is_opened trade.state ≡ true
      → fl.lt price zero_f ≡ false
      → holds
          (trade_is trade.trade_id)
          (table s (current_key account_id trade.instrument trade.symbol))
        ≡ false
      → close_trade client account_id trade price time signal s ≡ (s, err no_longer_open)
  unfolding close_trade check close_failed is_conflict
  close_trade-stale trade price time signal s live positive stale = ground (
    arith,
    answering.cancel
        (close_writes account_id trade (closed_trade trade price time) time
          (signal_or signal trade.signal_id))
        s (close_writes-refused account_id (table s) trade _ time _ stale),
  )
