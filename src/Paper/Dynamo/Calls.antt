-- ===== src/Paper/Dynamo/Calls.antt =====
-- src/daily_alpha/dynamo_ledger.py: a predicate on the table that the transactions keep is kept by every
-- call, whatever its outcome: a success, a refusal, a conflict, or a request that failed.
use Prim.Native.String.{String}
use mathlib.Core.Path.{fun_ext}
use daily_alpha_engine.Common.{
  Bool, true, false, ◌≡◌, refl, sym, subst, inl, inr, not, Option, none, some, List, [], ◌∷◌,
  Result, ok, err, arith,
}
use daily_alpha_engine.Common.Floats.{Floats}
use daily_alpha_engine.Common.Stateful.{
  Leads, Leads_same, Leads_raise, Leads_if, Leads_attempt, guarded,
}
use daily_alpha_engine.Paper.Models.{InstrumentSelected}
use daily_alpha_engine.Paper.Ledger.{PaperTrade, Fill, OpenRequest, is_opened, expected_prior}
use daily_alpha_engine.Paper.Ledger.Operations.{
  opened_trade, added_trade, reduced_trade, closed_trade, signal_or,
}
use daily_alpha_engine.Paper.Dynamo.{Key, Write, Client, current_key, find_each, find_open}
use daily_alpha_engine.Paper.Dynamo.Operations.{
  open_writes, replace_writes, close_writes, same_or_refused, open_conflict, open_failed, open_new,
  open_found, replace_conflict, prior_of, replace_failed, replace_current_with_audit, close_failed,
  open_trade, add_unseen, add_trade, partial_unseen, partial_trade, close_trade,
}
use daily_alpha_engine.Paper.Dynamo.Table.{Table, all_hold, written, Effect, IsClient}

module _ {S F : Type 0} (client : Client S F) (table : S → Table F) (lawful : IsClient client table)
    (P : Table F → Type 0) where
  abbrev Kept : S → Type 0
  Kept s = P (table s)

  -- The transaction keeps the predicate wherever its conditions hold.
  abbrev pub IsSafe : List (Write F) → Type 0
  IsSafe ws = (m : Table F) → P m → all_hold ws m ≡ true → P (written ws m)

  get_item-Kept : (key : Key) → Leads Kept (client.get_item key) Kept
  get_item-Kept key = record { from = λ s h. subst P (sym (fun_ext (lawful.get_keeps key s))) h }

  answered :
      (ws : List (Write F)) (s : S) (answer : Result String (Unit {0}))
      → (client.transact_write_items ws s).1 ≡ answer
      → Effect ws (table s) (table (client.transact_write_items ws s).0)
  answered ws s (ok tt) eq = inr (lawful.write_ok ws s eq)
  answered ws s (err code) eq = lawful.write_failed ws s code eq

  Effect-Kept : (ws : List (Write F)) (m m' : Table F) → IsSafe ws → P m → Effect ws m m' → P m'
  Effect-Kept ws m m' safe h (inl same) = subst P (sym (fun_ext same)) h
  Effect-Kept ws m m' safe h (inr (holding, eq)) = subst P (sym (fun_ext eq)) (safe m h holding)

  transact-Kept :
      (ws : List (Write F)) → IsSafe ws → Leads Kept (client.transact_write_items ws) Kept
  transact-Kept ws safe = record {
    from = λ s h. Effect-Kept ws (table s) _ safe h (answered ws s _ refl);
  }

  find_each-Kept :
      (account_id symbol : String) (instruments : List InstrumentSelected)
      → Leads Kept (find_each client account_id symbol instruments) Kept
  unfolding find_each
  find_each-Kept account_id symbol [] = Leads_same []
  find_each-Kept account_id symbol (selected ∷ rest) =
      Leads_attempt (get_item-Kept (current_key account_id selected symbol)) (λ code. Leads_raise _)
        (λ item.
          Leads_attempt (find_each-Kept account_id symbol rest) Leads_raise
            (λ results. Leads_same _))

  find_open-Kept :
      (account_id symbol : String) (instrument : Option InstrumentSelected)
      → Leads Kept (find_open client account_id symbol instrument) Kept
  unfolding find_open
  find_open-Kept account_id symbol instrument = find_each-Kept account_id symbol _

  same_or_refused-Kept :
      (found : PaperTrade F) (signal_id : String)
      → Leads Kept (same_or_refused found signal_id) Kept
  unfolding same_or_refused
  same_or_refused-Kept found signal_id = Leads_if _ (Leads_same _) (Leads_raise _)

  open_conflict-Kept :
      (q : OpenRequest F) (code : String) (existing : List (PaperTrade F))
      → Leads Kept (open_conflict q code existing) Kept
  unfolding open_conflict
  open_conflict-Kept q code [] = Leads_raise _
  open_conflict-Kept q code (found ∷ _) = same_or_refused-Kept found q.signal_id

  open_failed-Kept :
      (account_id : String) (q : OpenRequest F) (code : String)
      → Leads Kept (open_failed client account_id q code) Kept
  unfolding open_failed
  open_failed-Kept account_id q code =
      Leads_if _
        (Leads_attempt (find_open-Kept account_id q.symbol _) Leads_raise
          (open_conflict-Kept q code))
        (Leads_raise _)

  replace_conflict-Kept :
      (signal_id : String) (current : List (PaperTrade F))
      → Leads Kept (replace_conflict signal_id current) Kept
  unfolding replace_conflict
  replace_conflict-Kept signal_id [] = Leads_raise _
  replace_conflict-Kept signal_id (found ∷ _) = Leads_if _ (Leads_same _) (Leads_raise _)

  replace_failed-Kept :
      (account_id : String) (prior : PaperTrade F) (signal_id code : String)
      → Leads Kept (replace_failed client account_id prior signal_id code) Kept
  unfolding replace_failed
  replace_failed-Kept account_id prior signal_id code =
      Leads_if _
        (Leads_attempt (find_open-Kept account_id prior.symbol _) Leads_raise
          (replace_conflict-Kept signal_id))
        (Leads_raise _)

  close_failed-Kept : (code : String) → Leads Kept (close_failed {F = F} code) Kept
  unfolding close_failed
  close_failed-Kept code = Leads_if _ (Leads_raise _) (Leads_raise _)

  open_new-Kept :
      (account_id new_id : String) (q : OpenRequest F)
      → IsSafe (open_writes account_id (opened_trade new_id q) q.entry_time q.signal_id)
      → Leads Kept (open_new client account_id new_id q) Kept
  unfolding open_new
  open_new-Kept account_id new_id q safe =
      Leads_attempt (transact-Kept _ safe) (open_failed-Kept account_id q) (λ _. Leads_same _)

  open_found-Kept :
      (account_id new_id : String) (q : OpenRequest F) (existing : List (PaperTrade F))
      → IsSafe (open_writes account_id (opened_trade new_id q) q.entry_time q.signal_id)
      → Leads Kept (open_found client account_id new_id q existing) Kept
  unfolding open_found
  open_found-Kept account_id new_id q [] safe = open_new-Kept account_id new_id q safe
  open_found-Kept account_id new_id q (found ∷ _) safe = same_or_refused-Kept found q.signal_id

  replace-Kept :
      (account_id : String) (prior updated : PaperTrade F) (event signal_id time : String)
      → IsSafe (replace_writes account_id prior updated event signal_id time)
      → Leads Kept
          (replace_current_with_audit client account_id prior updated event signal_id time)
          Kept
  unfolding replace_current_with_audit
  replace-Kept account_id prior updated event signal_id time safe =
      Leads_attempt (transact-Kept _ safe) (replace_failed-Kept account_id prior signal_id)
        (λ _. Leads_same _)

  prior_of-Kept : (prior : Option String) → Leads Kept (prior_of {S = S} prior) Kept
  unfolding prior_of
  prior_of-Kept none = Leads_raise _
  prior_of-Kept (some x) = Leads_same _

refuted : (b : Bool) → not b ≡ false → b ≡ true
refuted b h = ground arith

module _ {S F : Type 0} ⦃fl : Floats F⦄ (client : Client S F) (table : S → Table F)
    (lawful : IsClient client table) (P : Table F → Type 0) (account_id : String) where
  pub open_trade-Kept :
      (new_id : String) (q : OpenRequest F)
      → IsSafe client table lawful P
          (open_writes account_id (opened_trade new_id q) q.entry_time q.signal_id)
      → Leads (λ s. P (table s)) (open_trade client account_id new_id q) (λ s. P (table s))
  unfolding open_trade
  open_trade-Kept new_id q safe = guarded _ _ (λ _. guarded _ _ (λ _. guarded _ _ (λ _.
      guarded _ _ (λ _.
        Leads_attempt (find_open-Kept client table lawful P account_id q.symbol (some q.instrument))
          Leads_raise
          (λ existing. open_found-Kept client table lawful P account_id new_id q existing safe)))))

  pub add_trade-Kept :
      (trade : PaperTrade F) (signal_id : String) (f : Fill F)
      → (is_opened trade.state ≡ true
          → IsSafe client table lawful P (
              replace_writes account_id trade
                (added_trade trade signal_id f)
                "ADD"
                signal_id
                f.time))
      → Leads (λ s. P (table s)) (add_trade client account_id trade signal_id f) (λ s. P (table s))
  unfolding add_trade add_unseen
  add_trade-Kept trade signal_id f safe = guarded _ _ (λ is_live. Leads_if _ (Leads_same trade) (
      guarded _ _ (λ _.
        Leads_attempt (prior_of-Kept client table lawful P (expected_prior f.stage)) Leads_raise
          (λ prior. guarded _ _ (λ _. guarded _ _ (λ _.
            replace-Kept client table lawful P account_id trade (added_trade trade signal_id f)
              "ADD" signal_id f.time (safe (refuted _ is_live))))))))

  pub partial_trade-Kept :
      (trade : PaperTrade F) (signal_id : String) (f : Fill F)
      → (is_opened trade.state ≡ true
          → IsSafe client table lawful P (
              replace_writes account_id trade
                (reduced_trade trade signal_id f)
                "PARTIAL"
                signal_id
                f.time))
      → Leads
          (λ s. P (table s))
          (partial_trade client account_id trade signal_id f)
          (λ s. P (table s))
  unfolding partial_trade partial_unseen
  partial_trade-Kept trade signal_id f safe = guarded _ _ (λ is_live.
      Leads_if _ (Leads_same trade) (
        guarded _ _ (λ _. guarded _ _ (λ _. guarded _ _ (λ _.
          replace-Kept client table lawful P account_id trade (reduced_trade trade signal_id f)
            "PARTIAL" signal_id f.time (safe (refuted _ is_live)))))))

  pub close_trade-Kept :
      (trade : PaperTrade F) (price : F) (time : String) (signal : Option String)
      → (is_opened trade.state ≡ true
          → IsSafe client table lawful P (
              close_writes account_id trade
                (closed_trade trade price time)
                time
                (signal_or signal trade.signal_id)))
      → Leads
          (λ s. P (table s))
          (close_trade client account_id trade price time signal)
          (λ s. P (table s))
  unfolding close_trade
  close_trade-Kept trade price time signal safe = guarded _ _ (λ is_live. guarded _ _ (λ _.
      Leads_attempt (transact-Kept client table lawful P _ (safe (refuted _ is_live)))
        (close_failed-Kept client table lawful P) (λ _. Leads_same _)))
