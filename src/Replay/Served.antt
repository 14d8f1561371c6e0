-- ===== src/Replay/Served.antt =====
-- src/daily_alpha/armed_replay.py: what a run of a worker does, on the table alone: a record that is armed
-- and free is leased, replayed and marked, and any other is left as it is.
use Prim.Native.String.{String}
use daily_alpha_engine.Common.{
  ℕ, suc, ◌+◌, ◌≡◌, false, true, List, [], ◌∷◌, length, Result, ok, err,
}
use daily_alpha_engine.Common.Text.{strip}
use daily_alpha_engine.Paper.Dynamo.{Key}
use daily_alpha_engine.Replay.{
  Execution, ArmedRecord, Update, lease_event, mark_event, EventClient, Executor, Outcome,
  event_key, default_lease, retry_of,
}
use daily_alpha_engine.Replay.Table.{EventStore, condition_holds, updated}

-- What the documentation says of a refused update: its condition did not hold.
pub record IsRefusing {S : Type 0} (client : EventClient S) (store : S → EventStore) : Type 0 where
  pub refused :
      (u : Update) (s : S)
      → (client.update_item u s).1 ≡ err "ConditionalCheckFailedException"
      → condition_holds u (store s) ≡ false

-- What the executor answered, or the retry behind an exception.
abbrev pub outcome_of : {I : Type 0} → ArmedRecord I → Result String Execution → Execution
outcome_of r (ok e) = e
outcome_of r (err code) = retry_of r

-- The lease of a record, and the outcome that is written for it.
abbrev pub lease_of : {I : Type 0} → String → ℕ → String → ArmedRecord I → Update
lease_of account_id now token r =
    lease_event (event_key account_id (strip r.persisted_signal_id)) now (now + default_lease) token

abbrev pub mark_of : {I : Type 0} → String → ArmedRecord I → Execution → Update
mark_of account_id r e =
    mark_event (event_key account_id r.persisted_signal_id) (strip e.disposition) (strip e.reason) e

module _ {S I : Type 0} (store : S → EventStore) (account_id : String) (executor : Executor S I)
    (now : ℕ) (tokens : ℕ → String) where
  -- From one state to another, the records are served in their order, with these outcomes and so many
  -- conflicts.
  pub data Served : S → List (ArmedRecord I) → S → List Outcome → ℕ → Type 0 where
    nothing : (s : S) → Served s [] s [] 0
    conflict :
        (s s₁ s' : S) (r : ArmedRecord I) (rs : List (ArmedRecord I)) (os : List Outcome) (n : ℕ)
        → condition_holds (lease_of account_id now (tokens (length rs)) r) (store s) ≡ false
        → ((k : Key) → store s₁ k ≡ store s k)
        → Served s₁ rs s' os n
        → Served s (r ∷ rs) s' os (suc n)
    replayed :
        (s s₁ s₂ s₃ s' : S) (r : ArmedRecord I) (rs : List (ArmedRecord I)) (os : List Outcome)
        (n : ℕ) (e : Execution)
        → condition_holds (lease_of account_id now (tokens (length rs)) r) (store s) ≡ true
        → ((k : Key)
            → store s₁ k ≡ updated (lease_of account_id now (tokens (length rs)) r) (store s) k)
        → (executor.replay_armed r s₁).0 ≡ s₂
        → outcome_of r (executor.replay_armed r s₁).1 ≡ e
        → condition_holds (mark_of account_id r e) (store s₂) ≡ true
        → ((k : Key) → store s₃ k ≡ updated (mark_of account_id r e) (store s₂) k)
        → Served s₃ rs s' os n
        → Served s (r ∷ rs) s' (record { signal_id = r.persisted_signal_id; execution = e } ∷ os) n
