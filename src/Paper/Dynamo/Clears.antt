-- ===== src/Paper/Dynamo/Clears.antt =====
-- src/daily_alpha/dynamo_ledger.py: which positions a close and a search leave, where they return.
use Prim.Native.String.{String}
use mathlib.Core.Path.{fun_ext}
use daily_alpha_engine.Common.{
  false, Bool-cases, ◌≡◌, refl, sym, ap, ◌∙◌, subst, ◌⊎◌, inl, inr, not, Option, none, some, List,
  [], ◌∷◌, Result, ok, err, arith,
}
use daily_alpha_engine.Common.Floats.{Floats, zero_f}
use daily_alpha_engine.Common.Stateful.{outcome_ok, outcome_done, check_ok}
use daily_alpha_engine.Paper.Models.{InstrumentSelected, option, stock}
use daily_alpha_engine.Paper.Ledger.{PaperTrade, is_opened}
use daily_alpha_engine.Paper.Ledger.Operations.{closed_trade, signal_or}
use daily_alpha_engine.Paper.Dynamo.{
  Key, Item, Write, Client, DynamoError, current_key, audit_key, audit_item, storage_error,
  with_found, find_each, find_open,
}
use daily_alpha_engine.Paper.Dynamo.Operations.{close_writes, close_failed, close_trade}
use daily_alpha_engine.Paper.Dynamo.Table.{
  key_eq, key_eq_sound, key_eq_refl, Table, update, written, IsClient,
}
use daily_alpha_engine.Paper.Dynamo.Filed.{event-not_open}

module _ {F : Type 0} (account_id : String) where
  audit_elsewhere :
      (event : String) (trade : PaperTrade F) (time signal_id : String) (key : Key)
      → key.sk ≡ "OPEN"
      → key_eq (audit_item account_id event trade time signal_id).key key ≡ false
  unfolding audit_item audit_key
  audit_elsewhere event trade time signal_id key sk = elim (Bool-cases _) [
    | inl eq ↦ absurd (
        event-not_open _ (
          ap (λ k. k.sk)
            (key_eq_sound (audit_item account_id event trade time signal_id).key key eq)
          ∙ sk))
    | inr neq ↦ neq
  ]

  emptied :
      (m : Table F) (cleared key : Key)
      → (key ≡ cleared) ⊎ (m key ≡ none)
      → update m cleared none key ≡ none
  unfolding update
  emptied m cleared key (inl eq) = rw (ap (key_eq cleared) eq ∙ key_eq_refl cleared) refl
  emptied m cleared key (inr free) = elim (Bool-cases (key_eq cleared key)) [
    | inl eq ↦ rw eq refl
    | inr neq ↦ rw neq free
  ]

  after_audit :
      (m : Table F) (audit : Item F) (key : Key)
      → key_eq audit.key key ≡ false
      → m key ≡ none
      → update m audit.key (some audit) key ≡ none
  unfolding update
  after_audit m audit key neq free = rw neq free

  -- A close empties the position of its trade, and fills none.
  close_writes-clears :
      (m : Table F) (trade closed : PaperTrade F) (time signal_id : String) (key : Key)
      → key.sk ≡ "OPEN"
      → (key ≡ current_key account_id trade.instrument trade.symbol) ⊎ (m key ≡ none)
      → written (close_writes account_id trade closed time signal_id) m key ≡ none
  unfolding written close_writes
  close_writes-clears m trade c time signal_id key sk at =
      after_audit _ _ key (audit_elsewhere "CLOSE" c time signal_id key sk) (emptied m _ key at)

ok_eq :
    {F : Type 0} {a b : List (PaperTrade F)}
    → ◌≡◌ {A = Result DynamoError (List (PaperTrade F))} (ok a) (ok b)
    → a ≡ b
ok_eq h = cc

module _ {S F : Type 0} where
  raise_never :
      (raised : DynamoError) (s s' : S) (r : List (PaperTrade F))
      → ◌≡◌ {A = S × Result DynamoError (List (PaperTrade F))} (s, err raised) (s', ok r)
      → ⊥
  raise_never raised s s' r h = ground arith

  close_failed_never :
      (code : String) (s s' : S) (r : PaperTrade F) → close_failed code s ≡ (s', ok r) → ⊥
  unfolding close_failed
  close_failed_never code s s' r h = ground arith

module _ {S F : Type 0} ⦃fl : Floats F⦄ (client : Client S F) (table : S → Table F)
    (lawful : IsClient client table) (account_id : String) where
  transacted :
      (ws : List (Write F)) (s s' : S)
      → client.transact_write_items ws s ≡ (s', ok tt)
      → (k : Key) → table s' k ≡ written ws (table s) k
  transacted ws s s' eq k =
      subst (λ x. table x k ≡ written ws (table s) k) (ap (λ p. p.0) eq)
        ((lawful.write_ok ws s (ap (λ p. p.1) eq)).1 k)

  -- Behind a close that returned, the position of its trade is empty, and so are those that were.
  pub close_trade-clears :
      (trade : PaperTrade F) (price : F) (time : String) (signal : Option String) (s s' : S)
      (r : PaperTrade F) (key : Key)
      → close_trade client account_id trade price time signal s ≡ (s', ok r)
      → key.sk ≡ "OPEN"
      → (key ≡ current_key account_id trade.instrument trade.symbol) ⊎ (table s key ≡ none)
      → table s' key ≡ none
  unfolding close_trade
  close_trade-clears trade price time signal s s' r key h sk at =
      let (_, h₁) = check_ok (not (is_opened trade.state)) _ _ s h in
      let (_, h₂) = check_ok (fl.lt price zero_f) _ _ s h₁ in
      let ws =
        close_writes account_id trade (closed_trade trade price time) time
          (signal_or signal trade.signal_id) in
      let (s₁, answer, eq, h₃) =
        outcome_done (client.transact_write_items ws s) _ _
          (λ s₂ code. close_failed_never code s₂ s' r) h₂ in
      subst (λ x. table x key ≡ none) (ap (λ p. p.0) h₃)
        (transacted ws s s₁ eq key
          ∙ close_writes-clears account_id (table s) trade _ time _ key sk at)

  read :
      (key : Key) (s s' : S) (found : Option (Item F))
      → client.get_item key s ≡ (s', ok found)
      → (found ≡ table s key) × ((k : Key) → table s' k ≡ table s k)
  read key s s' found eq = (
    lawful.get_reads key s found (ap (λ p. p.1) eq),
    λ k. subst (λ x. table x k ≡ table s k) (ap (λ p. p.0) eq) (lawful.get_keeps key s k),
  )

  -- The trades of these positions.
  reading : String → List InstrumentSelected → Table F → List (PaperTrade F)
  reading symbol [] m = []
  reading symbol (i ∷ is) m = with_found (m (current_key account_id i symbol)) (reading symbol is m)

  reading_same :
      (symbol : String) (is : List InstrumentSelected) (m m' : Table F)
      → ((k : Key) → m' k ≡ m k)
      → reading symbol is m' ≡ reading symbol is m
  reading_same symbol is m m' same = ap (reading symbol is) (fun_ext same)

  find_each-reads :
      (symbol : String) (is : List InstrumentSelected) (s s' : S) (trades : List (PaperTrade F))
      → find_each client account_id symbol is s ≡ (s', ok trades)
      → (trades ≡ reading symbol is (table s)) × ((k : Key) → table s' k ≡ table s k)
  unfolding find_each reading
  find_each-reads symbol [] s s' trades h = (ground arith, λ k. ap (λ p. table p.0 k) (sym h))
  find_each-reads symbol (i ∷ is) s s' trades h =
      let (s₁, first, eq₁, h₁) =
        outcome_done (client.get_item (current_key account_id i symbol) s) _ _
          (λ s₂ code eq. raise_never (storage_error code) s₂ s' trades eq) h in
      let (s₂, results, eq₂, h₂) = outcome_ok (find_each client account_id symbol is s₁) _ h₁ in
      let (found, same) = read (current_key account_id i symbol) s s₁ first eq₁ in
      let (rest, same') = find_each-reads symbol is s₁ s₂ results eq₂ in
      (
        ok_eq (ap (λ p. p.1) (sym h₂))
            ∙ ap (λ x. with_found x results) found
            ∙ ap (with_found (table s (current_key account_id i symbol)))
                (rest ∙ reading_same symbol is (table s) (table s₁) same),
        λ k. ap (λ p. table p.0 k) (sym h₂) ∙ same' k ∙ same k,
      )

  -- A search for a symbol returns the trades of its two positions.
  pub find_open-reads :
      (symbol : String) (s s' : S) (trades : List (PaperTrade F))
      → find_open client account_id symbol none s ≡ (s', ok trades)
      → (trades
          ≡ with_found
              (table s (current_key account_id option symbol))
              (with_found (table s (current_key account_id stock symbol)) []))
        × ((k : Key) → table s' k ≡ table s k)
  unfolding find_open reading
  find_open-reads symbol s s' trades h = find_each-reads symbol (option ∷ stock ∷ []) s s' trades h
