-- ===== src/Paper/Pipeline/Flat.antt =====
-- src/daily_alpha/pipeline.py on src/daily_alpha/dynamo_ledger.py: what an exit leaves open.
use Prim.Native.String.{String}
use daily_alpha_engine.Common.{
  ◌≡◌, refl, sym, ap, ◌∙◌, subst, ◌⊎◌, inl, inr, not, Option, none, some, List, [], ◌∷◌, ok,
}
use daily_alpha_engine.Common.Floats.{Floats}
use daily_alpha_engine.Common.Stateful.{outcome_ok, wrapped_ok, check_ok}
use daily_alpha_engine.Paper.Models.{InstrumentSelected, option, stock, no_instrument}
use daily_alpha_engine.Paper.Ledger.{PaperTrade}
use daily_alpha_engine.Paper.Dynamo.{
  Key, Item, Client, DynamoError, current_key, with_found, find_open,
}
use daily_alpha_engine.Paper.Dynamo.Operations.{open_trade, add_trade, partial_trade, close_trade}
use daily_alpha_engine.Paper.Dynamo.Table.{Table, IsClient}
use daily_alpha_engine.Paper.Dynamo.Filed.{AllFiled}
use daily_alpha_engine.Paper.Dynamo.Clears.{close_trade-clears, find_open-reads}
use daily_alpha_engine.Paper.Pipeline.{
  PineSignal, LedgerApi, PipelineError, exit_price_missing, ledger_failed, is_exit, time_or,
  price_for,
}
use daily_alpha_engine.Paper.Pipeline.Rounds.{exit_one, for_each, process_exit}
use daily_alpha_engine.Paper.Pipeline.Split.{required_ok}

-- The DynamoDB ledger in the place of the pipeline's ledger.
abbrev pub dynamo_ledger :
    {S F : Type 0} → ⦃fl : Floats F⦄ → Client S F → String → LedgerApi S DynamoError F
dynamo_ledger client account_id = record {
  open_trade = open_trade client account_id;
  add_trade = add_trade client account_id;
  partial_trade = partial_trade client account_id;
  close_trade = close_trade client account_id;
  find_open = λ symbol. find_open client account_id symbol none;
}

price_for_ok :
    {S E F : Type 0} (i : InstrumentSelected) (option_price stock_price : Option F)
    (missing : PipelineError E) (s : S) {s' : S} {price : F}
    → price_for i option_price stock_price missing s ≡ (s', ok price)
    → s ≡ s'
unfolding price_for
price_for_ok option option_price stock_price missing s h = required_ok option_price missing s h
price_for_ok stock option_price stock_price missing s h = required_ok stock_price missing s h
price_for_ok no_instrument option_price stock_price missing s h =
    required_ok stock_price missing s h

-- The position at this key is of one of these trades.
Pending : {F : Type 0} → String → Key → List (PaperTrade F) → Type 0
Pending account_id key [] = ⊥
Pending account_id key (t ∷ ts) =
    (key ≡ current_key account_id t.instrument t.symbol) ⊎ Pending account_id key ts

module _ {S F : Type 0} ⦃fl : Floats F⦄ (client : Client S F) (table : S → Table F)
    (lawful : IsClient client table) (account_id : String) (signal : PineSignal F)
    (option_price stock_price : Option F) where
  exit_one-clears :
      (time : String) (trade : PaperTrade F) (s s' : S) (r : PaperTrade F) (key : Key)
      → exit_one (dynamo_ledger client account_id) signal option_price stock_price time trade s
        ≡ (s', ok r)
      → key.sk ≡ "OPEN"
      → (key ≡ current_key account_id trade.instrument trade.symbol) ⊎ (table s key ≡ none)
      → table s' key ≡ none
  unfolding exit_one
  exit_one-clears time trade s s' r key h sk at =
      let (s₁, price, eq, h₁) =
        outcome_ok (price_for trade.instrument option_price stock_price exit_price_missing s) _ h in
      let same = price_for_ok trade.instrument option_price stock_price exit_price_missing s eq in
      close_trade-clears client table lawful account_id trade price time (some signal.signal_id) s
        s' r key
        (subst
          (λ x.
            close_trade client account_id trade price time (some signal.signal_id) x ≡ (s', ok r))
          (sym same) (wrapped_ok ledger_failed _ h₁))
        sk at

  for_each-clears :
      (time : String) (trades : List (PaperTrade F)) (s s' : S) (rs : List (PaperTrade F))
      (key : Key)
      → for_each
          (exit_one (dynamo_ledger client account_id) signal option_price stock_price time)
          trades
          s
        ≡ (s', ok rs)
      → key.sk ≡ "OPEN"
      → Pending account_id key trades ⊎ (table s key ≡ none)
      → table s' key ≡ none
  unfolding for_each Pending
  for_each-clears time [] s s' rs key h sk (inl at) = absurd at
  for_each-clears time [] s s' rs key h sk (inr free) =
      subst (λ x. table x key ≡ none) (ap (λ p. p.0) h) free
  for_each-clears time (t ∷ ts) s s' rs key h sk at =
      let body = exit_one (dynamo_ledger client account_id) signal option_price stock_price time in
      let (s₁, r, eq, h₁) = outcome_ok (body t s) _ h in
      let (s₂, rest, eq₂, h₂) = outcome_ok (for_each body ts s₁) _ h₁ in
      subst (λ x. table x key ≡ none) (ap (λ p. p.0) h₂)
        (for_each-clears time ts s₁ s₂ rest key eq₂ sk (later s₁ r eq at))
    where
      later :
          (s₁ : S) (r : PaperTrade F)
          → exit_one (dynamo_ledger client account_id) signal option_price stock_price time t s
            ≡ (s₁, ok r)
          → ((key ≡ current_key account_id t.instrument t.symbol) ⊎ Pending account_id key ts)
            ⊎ (table s key ≡ none)
          → Pending account_id key ts ⊎ (table s₁ key ≡ none)
      later s₁ r eq (inl (inl mine)) = inr (exit_one-clears time t s s₁ r key eq sk (inl mine))
      later s₁ r eq (inl (inr theirs)) = inl theirs
      later s₁ r eq (inr free) = inr (exit_one-clears time t s s₁ r key eq sk (inr free))

  -- An item that was found is filed, so that its trade is the one whose position is at the key.
  found-Pending :
      (m : Table F) (key : Key) (found : Option (Item F)) (others : List (PaperTrade F))
      → m key ≡ found
      → AllFiled account_id m
      → key.sk ≡ "OPEN"
      → Pending account_id key (with_found found others) ⊎ (m key ≡ none)
  unfolding Pending
  found-Pending m key none others eq filed sk = inr eq
  found-Pending m key (some item) others eq filed sk = inl (inl (filed key item eq sk).key)

  behind-Pending :
      (key : Key) (found : Option (Item F)) (others : List (PaperTrade F)) (s : S)
      → Pending account_id key others ⊎ (table s key ≡ none)
      → Pending account_id key (with_found found others) ⊎ (table s key ≡ none)
  unfolding Pending
  behind-Pending key none others s at = at
  behind-Pending key (some item) others s (inl at) = inl (inr at)
  behind-Pending key (some item) others s (inr free) = inr free

  ends :
      (time : String) (trades expected : List (PaperTrade F)) (s s₁ s' : S)
      (rs : List (PaperTrade F)) (key : Key)
      → trades ≡ expected
      → table s₁ key ≡ table s key
      → for_each
          (exit_one (dynamo_ledger client account_id) signal option_price stock_price time)
          trades
          s₁
        ≡ (s', ok rs)
      → key.sk ≡ "OPEN"
      → Pending account_id key expected ⊎ (table s key ≡ none)
      → table s' key ≡ none
  ends time trades expected s s₁ s' rs key found same h sk at =
      for_each-clears time trades s₁ s' rs key h sk (moved at)
    where
      moved :
          Pending account_id key expected ⊎ (table s key ≡ none)
          → Pending account_id key trades ⊎ (table s₁ key ≡ none)
      moved (inl pending) = inl (subst (Pending account_id key) (sym found) pending)
      moved (inr free) = inr (same ∙ free)

  -- On a table whose positions are filed as the ledger files them: when `process_exit` on the DynamoDB
  -- ledger returns, the account has no open position in the signal's symbol, neither in the option nor
  -- in the stock.
  pub process_exit-flat :
      (exit_time : Option String) (s s' : S) (rs : List (PaperTrade F))
      → AllFiled account_id (table s)
      → process_exit (dynamo_ledger client account_id) signal option_price stock_price exit_time s
        ≡ (s', ok rs)
      → (table s' (current_key account_id option signal.symbol) ≡ none)
        × (table s' (current_key account_id stock signal.symbol) ≡ none)
  unfolding process_exit current_key
  process_exit-flat exit_time s s' rs filed h =
      let (_, h₁) = check_ok (not (is_exit signal.action)) _ _ s h in
      let (s₁, trades, eq, h₂) = outcome_ok _ _ h₁ in
      let (found, same) =
        find_open-reads client table lawful account_id signal.symbol s s₁ trades
          (wrapped_ok ledger_failed _ eq) in
      let time = time_or exit_time signal.received_at in
      let option_key = current_key account_id option signal.symbol in
      let stock_key = current_key account_id stock signal.symbol in
      (
        ends time trades _ s s₁ s' rs option_key found (same option_key) h₂ refl
            (found-Pending (table s) option_key (table s option_key) _ refl filed refl),
        ends time trades _ s s₁ s' rs stock_key found (same stock_key) h₂ refl (
            behind-Pending stock_key (table s option_key) _ s
              (found-Pending (table s) stock_key (table s stock_key) [] refl filed refl)),
      )
