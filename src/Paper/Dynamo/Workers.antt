-- ===== src/Paper/Dynamo/Workers.antt =====
-- src/daily_alpha/dynamo_ledger.py: the calls of any number of workers, with handles that may be stale,
-- one after the other.
use Prim.Native.String.{String}
use text.Mathlib.Text.{◌==◌}
use daily_alpha_engine.Common.{
  Bool, true, false, ◌≡◌, refl, ◌&&◌, Option, some, List, [], ◌∷◌, arith, All,
}
use daily_alpha_engine.Common.Floats.{Floats}
use daily_alpha_engine.Paper.Ledger.{PaperTrade, Fill, OpenRequest}
use daily_alpha_engine.Paper.Dynamo.{Key, Item, Write, Client, current_key, current_item}
use daily_alpha_engine.Paper.Dynamo.Operations.{
  open_writes, replace_writes, close_writes, open_trade, add_trade, partial_trade, close_trade,
}
use daily_alpha_engine.Paper.Dynamo.Table.{key_eq, Table, IsClient}
use daily_alpha_engine.Paper.Dynamo.Keeps.{spares, written-kept}
use daily_alpha_engine.Paper.Dynamo.Calls.{
  IsSafe, open_trade-Kept, add_trade-Kept, partial_trade-Kept, close_trade-Kept,
}

-- A call of the ledger with its arguments.
pub data Call (F : Type 0) : Type 0 where
  open_call : String → OpenRequest F → Call F
  add_call : PaperTrade F → String → Fill F → Call F
  partial_call : PaperTrade F → String → Fill F → Call F
  close_call : PaperTrade F → F → String → Option String → Call F

module _ {S F : Type 0} ⦃fl : Floats F⦄ where
  -- The state behind a call, whether it returned or raised.
  abbrev pub after_call : Client S F → String → Call F → S → S
  after_call client account_id (open_call new_id q) s = (open_trade client account_id new_id q s).0
  after_call client account_id (add_call t signal_id f) s =
      (add_trade client account_id t signal_id f s).0
  after_call client account_id (partial_call t signal_id f) s =
      (partial_trade client account_id t signal_id f s).0
  after_call client account_id (close_call t price time signal) s =
      (close_trade client account_id t price time signal s).0

  unfoldable pub after_calls : Client S F → String → List (Call F) → S → S
  after_calls client account_id [] s = s
  after_calls client account_id (c ∷ cs) s =
      after_calls client account_id cs (after_call client account_id c s)

-- A call may change this item: it works on the current position of that trade.
abbrev pub may_change : {F : Type 0} → Key → Item F → Call F → Bool
may_change k item (open_call _ _) = false
may_change k item (add_call t _ _) = item.trade_id == t.trade_id && "OPEN" == k.sk
may_change k item (partial_call t _ _) = item.trade_id == t.trade_id && "OPEN" == k.sk
may_change k item (close_call t _ _ _) = item.trade_id == t.trade_id && "OPEN" == k.sk

module _ {F : Type 0} (k : Key) (item : Item F) (account_id : String) where
  open_writes-spares :
      (trade : PaperTrade F) (time signal_id : String)
      → spares (open_writes account_id trade time signal_id) k item ≡ true
  unfolding spares open_writes
  open_writes-spares trade time signal_id = refl

  replace_writes-spares :
      (prior updated : PaperTrade F) (event signal_id time : String)
      → (item.trade_id == prior.trade_id && "OPEN" == k.sk) ≡ false
      → spares (replace_writes account_id prior updated event signal_id time) k item ≡ true
  unfolding spares replace_writes current_item key_eq current_key
  replace_writes-spares prior updated event signal_id time foreign = ground arith

  close_writes-spares :
      (trade closed : PaperTrade F) (time signal_id : String)
      → (item.trade_id == trade.trade_id && "OPEN" == k.sk) ≡ false
      → spares (close_writes account_id trade closed time signal_id) k item ≡ true
  unfolding spares close_writes key_eq current_key
  close_writes-spares trade closed time signal_id foreign = ground arith

module _ {S F : Type 0} ⦃fl : Floats F⦄ (client : Client S F) (table : S → Table F)
    (lawful : IsClient client table) (account_id : String) (k : Key) (item : Item F) where
  abbrev Holds : Table F → Type 0
  Holds m = m k ≡ some item

  spared-IsSafe :
      (ws : List (Write F)) → spares ws k item ≡ true → IsSafe client table lawful Holds ws
  spared-IsSafe ws spared m h holding = written-kept ws m m k item h h holding spared

  after_call-kept :
      (c : Call F) (s : S)
      → may_change k item c ≡ false
      → table s k ≡ some item
      → table (after_call client account_id c s) k ≡ some item
  after_call-kept (open_call new_id q) s foreign h =
      (open_trade-Kept client table lawful Holds account_id new_id q
          (spared-IsSafe _ (open_writes-spares k item account_id _ _ _))).from
        s h
  after_call-kept (add_call t signal_id f) s foreign h =
      (add_trade-Kept client table lawful Holds account_id t signal_id f (λ _.
          spared-IsSafe _ (replace_writes-spares k item account_id t _ "ADD" _ _ foreign))).from
        s h
  after_call-kept (partial_call t signal_id f) s foreign h =
      (partial_trade-Kept client table lawful Holds account_id t signal_id f (λ _.
          spared-IsSafe _ (replace_writes-spares k item account_id t _ "PARTIAL" _ _ foreign))).from
        s h
  after_call-kept (close_call t price time signal) s foreign h =
      (close_trade-Kept client table lawful Holds account_id t price time signal
          (λ _. spared-IsSafe _ (close_writes-spares k item account_id t _ _ _ foreign))).from
        s h

  -- Whatever calls are made and whatever their outcomes, requests that fail among them: an item that
  -- none of them may change is in the table as before. Such are every audit item, and the position of
  -- a trade that none of the calls was given.
  pub after_calls-kept :
      (calls : List (Call F)) (s : S)
      → All (λ c. may_change k item c ≡ false) calls
      → table s k ≡ some item
      → table (after_calls client account_id calls s) k ≡ some item
  unfolding after_calls
  after_calls-kept [] s foreign h = h
  after_calls-kept (c ∷ cs) s foreign h =
      after_calls-kept cs (after_call client account_id c s) foreign.1
        (after_call-kept c s foreign.0 h)
