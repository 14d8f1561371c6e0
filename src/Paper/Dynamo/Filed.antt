-- ===== src/Paper/Dynamo/Filed.antt =====
-- src/daily_alpha/dynamo_ledger.py: under which key a position is filed.
use Prim.Native.String.{String, ◌++◌}
use text.Mathlib.Text.{starts_with}
use text.Mathlib.TextPositions.{starts_with-append}
use mathlib.Core.Bool.{true≢false}
use daily_alpha_engine.Common.{
  true, false, Bool-cases, ◌≡◌, refl, sym, ap, ◌∙◌, subst, inl, inr, Option, none, some, List, [],
  ◌∷◌, if◌then◌else◌, arith,
}
use daily_alpha_engine.Common.Floats.{Floats}
use daily_alpha_engine.Paper.Ledger.{PaperTrade, is_opened}
use daily_alpha_engine.Paper.Ledger.Operations.{
  opened_trade, added_trade, reduced_trade, closed_trade, signal_or,
}
use daily_alpha_engine.Paper.Dynamo.{
  Key, Item, Client, current_key, audit_key, current_item, audit_item,
}
use daily_alpha_engine.Paper.Dynamo.Operations.{open_writes, replace_writes, close_writes}
use daily_alpha_engine.Paper.Dynamo.Table.{key_eq, key_eq_sound, Table, update, written, IsClient}
use daily_alpha_engine.Paper.Dynamo.Calls.{
  open_trade-Kept, add_trade-Kept, partial_trade-Kept, close_trade-Kept,
}
use daily_alpha_engine.Paper.Dynamo.Workers.{
  Call, open_call, add_call, partial_call, close_call, after_call, after_calls,
}

-- A position's item carries an open trade, and is filed under that trade's instrument and symbol.
pub record IsFiled {F : Type 0} (account_id : String) (k : Key) (item : Item F) : Type 0 where
  pub key : k ≡ current_key account_id item.trade_json.instrument item.trade_json.symbol
  pub trade_id : item.trade_id ≡ item.trade_json.trade_id
  pub state : is_opened item.trade_json.state ≡ true

-- So is every position of the table.
abbrev pub AllFiled : {F : Type 0} → String → Table F → Type 0
AllFiled account_id m =
    (k : Key) (item : Item _) → m k ≡ some item → k.sk ≡ "OPEN" → IsFiled account_id k item

pub event-not_open : (rest : String) → "EVENT#" ++ rest ≡ "OPEN" → ⊥
event-not_open rest h =
    true≢false (sym (starts_with-append "EVENT#" rest) ∙ ap (λ t. starts_with t "EVENT#") h)

module _ {F : Type 0} (account_id : String) where
  update-AllFiled :
      (m : Table F) (key : Key) (value : Option (Item F))
      → ((item : Item F) → value ≡ some item → key.sk ≡ "OPEN" → IsFiled account_id key item)
      → AllFiled account_id m
      → AllFiled account_id (update m key value)
  unfolding update
  update-AllFiled m key value new h k item found sk = elim (Bool-cases (key_eq key k)) [
    | inl eq ↦
        subst (λ x. IsFiled account_id x item) (key_eq_sound key k eq)
          (new item (sym (updated eq) ∙ found) (ap (λ x. x.sk) (key_eq_sound key k eq) ∙ sk))
    | inr neq ↦ h k item (sym (left neq) ∙ found) sk
  ]
    where
      updated : key_eq key k ≡ true → (if key_eq key k then value else m k) ≡ value
      updated eq = rw eq refl

      left : key_eq key k ≡ false → (if key_eq key k then value else m k) ≡ m k
      left neq = rw neq refl

  put-AllFiled :
      (m : Table F) (w : Item F)
      → (w.key.sk ≡ "OPEN" → IsFiled account_id w.key w)
      → AllFiled account_id m
      → AllFiled account_id (update m w.key (some w))
  put-AllFiled m w new h =
      update-AllFiled m w.key (some w)
        (λ item eq sk. subst (λ x. IsFiled account_id w.key x) (value_eq item eq) (new sk)) h
    where
      value_eq : (item : Item F) → some w ≡ some item → w ≡ item
      value_eq item eq = cc

  delete-AllFiled :
      (m : Table F) (key : Key) → AllFiled account_id m → AllFiled account_id (update m key none)
  delete-AllFiled m key h = update-AllFiled m key none (λ item eq sk. absurd (ground arith)) h

  current_item-IsFiled :
      (trade : PaperTrade F)
      → is_opened trade.state ≡ true
      → IsFiled account_id (current_item account_id trade).key (current_item account_id trade)
  unfolding current_item
  current_item-IsFiled trade live = record { key = refl; trade_id = refl; state = live }

  audit_item-AllFiled :
      (m : Table F) (event : String) (trade : PaperTrade F) (time signal_id : String)
      → AllFiled account_id m
      → AllFiled account_id (
          update m
            (audit_item account_id event trade time signal_id).key
            (some (audit_item account_id event trade time signal_id)))
  unfolding audit_item audit_key
  audit_item-AllFiled m event trade time signal_id h =
      put-AllFiled m (audit_item account_id event trade time signal_id)
        (λ sk. absurd (event-not_open _ sk)) h

  written_open-AllFiled :
      (m : Table F) (trade : PaperTrade F) (time signal_id : String)
      → is_opened trade.state ≡ true
      → AllFiled account_id m
      → AllFiled account_id (written (open_writes account_id trade time signal_id) m)
  unfolding written open_writes
  written_open-AllFiled m trade time signal_id live h =
      audit_item-AllFiled _ "OPEN" trade time signal_id
        (put-AllFiled m (current_item account_id trade) (λ _. current_item-IsFiled trade live) h)

  written_replace-AllFiled :
      (m : Table F) (prior updated : PaperTrade F) (event signal_id time : String)
      → is_opened updated.state ≡ true
      → AllFiled account_id m
      → AllFiled account_id
          (written (replace_writes account_id prior updated event signal_id time) m)
  unfolding written replace_writes
  written_replace-AllFiled m prior updated event signal_id time live h =
      audit_item-AllFiled _ event updated time signal_id (
        put-AllFiled m (current_item account_id updated) (λ _. current_item-IsFiled updated live) h)

  written_close-AllFiled :
      (m : Table F) (trade closed : PaperTrade F) (time signal_id : String)
      → AllFiled account_id m
      → AllFiled account_id (written (close_writes account_id trade closed time signal_id) m)
  unfolding written close_writes
  written_close-AllFiled m trade closed time signal_id h =
      audit_item-AllFiled _ "CLOSE" closed time signal_id
        (delete-AllFiled m (current_key account_id trade.instrument trade.symbol) h)

module _ {S F : Type 0} ⦃fl : Floats F⦄ (client : Client S F) (table : S → Table F)
    (lawful : IsClient client table) (account_id : String) where
  after_call-AllFiled :
      (c : Call F) (s : S)
      → AllFiled account_id (table s)
      → AllFiled account_id (table (after_call client account_id c s))
  unfolding opened_trade added_trade reduced_trade is_opened
  after_call-AllFiled (open_call new_id q) s h =
      (open_trade-Kept client table lawful (AllFiled account_id) account_id new_id q (λ m filed _.
          written_open-AllFiled account_id m (opened_trade new_id q) q.entry_time q.signal_id refl
            filed)).from
        s h
  after_call-AllFiled (add_call t signal_id f) s h =
      (add_trade-Kept client table lawful (AllFiled account_id) account_id t signal_id f
          (λ live m filed _.
            written_replace-AllFiled account_id m t (added_trade t signal_id f) "ADD" signal_id
              f.time live filed)).from
        s h
  after_call-AllFiled (partial_call t signal_id f) s h =
      (partial_trade-Kept client table lawful (AllFiled account_id) account_id t signal_id f
          (λ live m filed _.
            written_replace-AllFiled account_id m t (reduced_trade t signal_id f) "PARTIAL"
              signal_id f.time live filed)).from
        s h
  after_call-AllFiled (close_call t price time signal) s h =
      (close_trade-Kept client table lawful (AllFiled account_id) account_id t price time signal
          (λ live m filed _.
            written_close-AllFiled account_id m t (closed_trade t price time) time
              (signal_or signal t.signal_id) filed)).from
        s h

  -- Any calls, whatever their outcomes, keep this: every position of the table carries an open trade,
  -- names it by its id, and is filed under its instrument and symbol.
  pub after_calls-AllFiled :
      (calls : List (Call F)) (s : S)
      → AllFiled account_id (table s)
      → AllFiled account_id (table (after_calls client account_id calls s))
  unfolding after_calls
  after_calls-AllFiled [] s h = h
  after_calls-AllFiled (c ∷ cs) s h =
      after_calls-AllFiled cs (after_call client account_id c s) (after_call-AllFiled c s h)
