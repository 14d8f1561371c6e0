-- ===== src/Replay.antt =====
-- src/daily_alpha/armed_replay.py, with `mark_execution` of src/daily_alpha/pine_processor.py: workers that
-- replay the events that are armed in the event store, each under a lease of its record. The client of
-- boto3 and the executor are parameters, on a state of their own; an exception of the client is its AWS
-- error code. An epoch is in whole seconds and not negative, and so is the length of a lease. `token`
-- stands for `uuid4().hex`. Of an outcome the fields are kept that the worker reads or makes.
pub mod Table
pub mod Held
pub mod Lease
pub mod Served
pub mod Counts
pub mod Accounts
mod Tests
use Prim.Native.String.{String, ◌++◌}
use text.Mathlib.Text.{◌==◌}
use daily_alpha_engine.Common.{
  ℕ, ◌+◌, ltb, Bool, false, ◌||◌, ◌&&◌, Option, none, some, List, [], ◌∷◌, length, if◌then◌else◌,
}
use daily_alpha_engine.Common.Text.{is_blank, strip}
use daily_alpha_engine.Common.Stateful.{Op, return, raise, check, attempt, ◌>>=◌, ◌>>◌}
use daily_alpha_engine.Paper.Dynamo.{Key}

pub data ReplayError : Type 0 where
  signal_id_required lease_invalid claim_failed outcome_invalid write_failed : ReplayError

abbrev pub armed_disposition : String
armed_disposition = "ARMED_FOR_NEXT_TRADABLE_WINDOW"

abbrev pub default_lease : ℕ
default_lease = 300

abbrev pub max_lease : ℕ
max_lease = 1800

pub record Execution : Type 0 where
  pub disposition : String
  pub reason : String
  pub action : String
  pub symbol : String
  pub paper_execution_triggered : Bool
  pub paper_ledger_updated : Bool

-- An event that `list_armed_ingress` found; `ingress` is the rest of what was received.
pub record ArmedRecord (I : Type 0) : Type 0 where
  pub persisted_signal_id : String
  pub action : String
  pub symbol : String
  pub ingress : I

-- The two updates of a stored event: the lease, with its condition on the record as it is, and the
-- outcome, where there is a record.
pub data Update : Type 0 where
  lease_event : (key : Key) (now_epoch lease_until : ℕ) (token : String) → Update
  mark_event : (key : Key) (disposition reason : String) (execution : Execution) → Update

pub record EventClient (S : Type 0) : Type 0 where
  pub update_item : Update → Op S String (Unit {0})

pub record Executor (S I : Type 0) : Type 0 where
  pub replay_armed : ArmedRecord I → Op S String Execution

unfoldable pub event_key : String → String → Key
event_key account_id signal_id = record {
  pk = "ACCOUNT#" ++ (account_id ++ ("#PINE_EVENT#" ++ signal_id));
  sk = "RECEIVED";
}

pub record Outcome : Type 0 where
  pub signal_id : String
  pub execution : Execution

-- The sums of one run of a worker; `outcome_counts` is by disposition.
pub record Totals : Type 0 where
  pub armed_claimed : ℕ
  pub lease_conflicts : ℕ
  pub outcome_counts : List (String × ℕ)
  pub outcomes : List Outcome

abbrev pub no_totals : Totals
no_totals = record { armed_claimed = 0; lease_conflicts = 0; outcome_counts = []; outcomes = [] }

-- `counts[disposition] = counts.get(disposition, 0) + 1`
unfoldable pub count_one : String → List (String × ℕ) → List (String × ℕ)
count_one disposition [] = (disposition, 1) ∷ []
count_one disposition ((d, n) ∷ counts) =
    let rest = count_one disposition counts in
    if d == disposition then (d, n + 1) ∷ counts else (d, n) ∷ rest

-- `outcomes.append`
unfoldable pub appended : {A : Type 0} → List A → A → List A
appended [] x = x ∷ []
appended (y ∷ ys) x = y ∷ appended ys x

unfoldable pub reported : String → Execution → Totals → Totals
reported signal_id execution t = record t {
  outcome_counts = count_one execution.disposition t.outcome_counts;
  outcomes = appended t.outcomes (record { signal_id = signal_id; execution = execution });
}

unfoldable pub lease_conflict : Totals → Totals
lease_conflict t = record t { lease_conflicts = t.lease_conflicts + 1 }

unfoldable pub claimed_one : Totals → Totals
claimed_one t = record t { armed_claimed = t.armed_claimed + 1 }

-- The outcome of a replay that raised: the event stays armed.
unfoldable pub retry_of : {I : Type 0} → ArmedRecord I → Execution
retry_of r = record {
  disposition = armed_disposition;
  reason = "REPLAY_WORKER_ERROR_RETRY_REQUIRED";
  action = r.action;
  symbol = r.symbol;
  paper_execution_triggered = false;
  paper_ledger_updated = false;
}

module _ {S : Type 0} (client : EventClient S) (account_id : String) where
  -- The handler of the lease: a condition that did not hold is a conflict, and no error.
  unfoldable pub claim_refused : String → Op S ReplayError (Option String)
  claim_refused code =
      if code == "ConditionalCheckFailedException" then return none else raise claim_failed

  -- `signal_id` is stripped before it is tested and used.
  unfoldable pub claim_armed_ingress : String → ℕ → ℕ → String → Op S ReplayError (Option String)
  claim_armed_ingress signal_id now_epoch lease_seconds token = do
    check (is_blank signal_id) signal_id_required
    check (ltb lease_seconds 1 || ltb max_lease lease_seconds) lease_invalid
    attempt
        (client.update_item (
          lease_event (event_key account_id (strip signal_id)) now_epoch (now_epoch + lease_seconds)
            token))
        claim_refused (λ _. return (some token))

  unfoldable pub mark_execution : String → Execution → Op S ReplayError (Unit {0})
  mark_execution signal_id e = do
    check (is_blank e.disposition || is_blank e.reason) outcome_invalid
    attempt
        (client.update_item
          (mark_event (event_key account_id signal_id) (strip e.disposition) (strip e.reason) e))
        (λ code. raise write_failed) return

  module _ {I : Type 0} (executor : Executor S I) where
    -- What follows the claim of a record.
    unfoldable pub replay_claimed : ArmedRecord I → Totals → Option String → Op S ReplayError Totals
    replay_claimed r t none = return (lease_conflict t)
    replay_claimed r t (some token) = do
      execution ← attempt (executor.replay_armed r) (λ code. return (retry_of r)) return
      mark_execution r.persisted_signal_id execution
      return (reported r.persisted_signal_id execution (claimed_one t))

    unfoldable pub replay_one : ℕ → String → ArmedRecord I → Totals → Op S ReplayError Totals
    replay_one now_epoch token r t = do
      lease ← claim_armed_ingress r.persisted_signal_id now_epoch default_lease token
      replay_claimed r t lease

    -- `for stored in records`; the token of a record is that of the number of records behind it.
    unfoldable pub replay_records :
        ℕ → (ℕ → String) → List (ArmedRecord I) → Totals → Op S ReplayError Totals
    replay_records now_epoch tokens [] t = return t
    replay_records now_epoch tokens (r ∷ rs) t = do
      after ← replay_one now_epoch (tokens (length rs)) r t
      replay_records now_epoch tokens rs after
