-- ===== src/Replay/Tests.antt =====
-- Two workers on a table in memory: the second gets the event behind the lease of the first.
use Prim.Native.String.{String}
use daily_alpha_engine.Common.{
  ℕ, ◌+◌, ◌≡◌, ◌<◌, ◌⊎◌, refl, ap, Bool, true, false, Option, none, some, List, [], ◌∷◌, length,
  inl, inr, ok, err, Result, arith, if◌then◌else◌,
}
use daily_alpha_engine.Common.Text.{strip, is_blank}
use daily_alpha_engine.Common.Stateful.{check}
use daily_alpha_engine.Paper.Dynamo.{Key}
use daily_alpha_engine.Paper.Dynamo.Table.{key_eq}
use daily_alpha_engine.Replay.{
  ReplayError, Execution, ArmedRecord, Update, EventClient, Executor, armed_disposition, Totals,
  no_totals, count_one, appended, reported, lease_conflict, claimed_one, retry_of, event_key,
  claim_refused, claim_armed_ingress, mark_execution, replay_claimed, replay_one, replay_records,
}
use daily_alpha_engine.Replay.Table.{
  StoredEvent, EventStore, is_claimable, condition_holds, changed, updated, IsEventClient,
  IsEventServer,
}
use daily_alpha_engine.Replay.Lease.{
  WorkerCall, claim, mark, after_work, after_work-exclusive, claim-resumes,
}
use daily_alpha_engine.Replay.Served.{IsRefusing, Served}
use daily_alpha_engine.Replay.Counts.{count_of, with_disposition}
use daily_alpha_engine.Replay.Accounts.{replay_records-accounts}

abbrev answer : Bool → Update → EventStore → EventStore × Result String (Unit {0})
answer true u m = (updated u m, ok tt)
answer false u m = (m, err "ConditionalCheckFailedException")

abbrev memory : EventClient EventStore
memory = record { update_item = λ u m. answer (condition_holds u m) u m }

abbrev as_is : EventStore → EventStore
as_is m = m

memory-IsEventClient : IsEventClient memory as_is
memory-IsEventClient = record {
  update_ok = λ u m. ok_by (condition_holds u m) u m;
  update_failed = λ u m code. failed_by (condition_holds u m) u m code;
  update_refused = λ u m. refused_by (condition_holds u m) u m;
}
  where
    ok_by :
        (b : Bool) (u : Update) (m : EventStore)
        → (answer b u m).1 ≡ ok tt
        → (b ≡ true) × ((k : Key) → (answer b u m).0 k ≡ updated u m k)
    ok_by true u m h = (refl, λ k. refl)
    ok_by false u m h = absurd (ground arith)

    failed_by :
        (b : Bool) (u : Update) (m : EventStore) (code : String)
        → (answer b u m).1 ≡ err code
        → ((k : Key) → (answer b u m).0 k ≡ m k)
          ⊎ ((b ≡ true) × ((k : Key) → (answer b u m).0 k ≡ updated u m k))
    failed_by true u m code h = inr (refl, λ k. refl)
    failed_by false u m code h = inl (λ k. refl)

    refused_by :
        (b : Bool) (u : Update) (m : EventStore)
        → (answer b u m).1 ≡ err "ConditionalCheckFailedException"
        → (k : Key) → (answer b u m).0 k ≡ m k
    refused_by true u m h = absurd (ground arith)
    refused_by false u m h = λ k. refl

memory-IsEventServer : IsEventServer memory as_is
memory-IsEventServer = record { update_answers = λ u m h. ap (λ b. (answer b u m).1) h }

abbrev armed_event : StoredEvent
armed_event = record {
  disposition = some armed_disposition;
  reason = none;
  execution_json = none;
  replay_lease_until_epoch = none;
  replay_lease_token = none;
}

-- One armed event.
abbrev before : EventStore
before k =
    if key_eq (record { pk = "ACCOUNT#paper#PINE_EVENT#sig-1"; sk = "RECEIVED" }) k
    then some armed_event
    else none

abbrev done : Execution
done = record {
  disposition = "EXECUTED";
  reason = "FILLED";
  action = "EXIT";
  symbol = "ACME";
  paper_execution_triggered = true;
  paper_ledger_updated = true;
}

abbrev still_armed : Execution
still_armed = record done { disposition = armed_disposition }

-- To run the worker in a test.
unfoldable replay_open : Unit {0}
unfolding claim_armed_ingress mark_execution claim_refused event_key condition_holds is_claimable
    updated changed key_eq check after_work replay_claimed replay_one replay_records count_one
    appended reported lease_conflict claimed_one retry_of strip is_blank
replay_open = tt

abbrev first : EventStore × Result ReplayError (Option String)
first = claim_armed_ingress memory "paper" " sig-1 " 1000 300 "one" before

first_claimed :
    claim_armed_ingress memory "paper" " sig-1 " 1000 300 "one" before ≡ (first.0, ok (some "one"))
unfolding replay_open
first_claimed = refl

-- The outcome of the first worker, which leaves the event armed, and a claim that comes too early.
abbrev between : List WorkerCall
between = mark "sig-1" still_armed ∷ claim "sig-1" 1300 300 "two" ∷ []

abbrev second : EventStore × Result ReplayError (Option String)
second =
    claim_armed_ingress memory "paper" "sig-1" 1301 300 "two"
      (after_work memory as_is "paper" between first.0)

second_claimed :
    claim_armed_ingress memory "paper" "sig-1" 1301 300 "two"
      (after_work memory as_is "paper" between first.0)
    ≡ (second.0, ok (some "two"))
unfolding replay_open
second_claimed = refl

same_id : strip " sig-1 " ≡ strip "sig-1"
unfolding replay_open
same_id = refl

after_work-exclusive_example : 1000 + 300 < 1301
after_work-exclusive_example =
    after_work-exclusive memory as_is "paper" memory-IsEventClient " sig-1 " "sig-1" 1000 300 1301
      300 "one" "one" "two" "two" between before first.0 second.0 first_claimed same_id
      second_claimed

claim-resumes_example :
    (s₂ : EventStore) × claim_armed_ingress memory "paper" " sig-1 " 1301 60 "two" first.0
      ≡ (s₂, ok (some "two"))
claim-resumes_example =
    claim-resumes memory as_is "paper" memory-IsEventClient memory-IsEventServer " sig-1 " 1000 300
      1301 60 "one" "one" "two" before first.0 first_claimed (omega arith) (omega arith)
      (omega arith)

abbrev filler : Executor EventStore (Unit {0})
filler = record { replay_armed = λ r s. (s, ok done) }

abbrev tokens : ℕ → String
tokens n = "token"

-- Two armed events, the second of which another worker has leased.
abbrev leased_event : StoredEvent
leased_event = record armed_event {
  replay_lease_until_epoch = some 1200;
  replay_lease_token = some "other";
}

abbrev two_events : EventStore
two_events k =
    if key_eq (record { pk = "ACCOUNT#paper#PINE_EVENT#sig-2"; sk = "RECEIVED" }) k
    then some leased_event
    else before k

abbrev found : List (ArmedRecord (Unit {0}))
found =
    record { persisted_signal_id = "sig-1"; action = "EXIT"; symbol = "ACME"; ingress = tt }
    ∷ record { persisted_signal_id = "sig-2"; action = "EXIT"; symbol = "ACME"; ingress = tt }
    ∷ []

abbrev totals : Totals
totals = record {
  armed_claimed = 1;
  lease_conflicts = 1;
  outcome_counts = ("EXECUTED", 1) ∷ [];
  outcomes = record { signal_id = "sig-1"; execution = done } ∷ [];
}

abbrev end : EventStore × Result ReplayError Totals
end = replay_records memory "paper" filler 1000 tokens found no_totals two_events

run_done :
    replay_records memory "paper" filler 1000 tokens found no_totals two_events ≡ (end.0, ok totals)
unfolding replay_open
run_done = refl

memory-IsRefusing : IsRefusing memory as_is
memory-IsRefusing = record { refused = λ u m. held (condition_holds u m) u m }
  where
    held :
        (b : Bool) (u : Update) (m : EventStore)
        → (answer b u m).1 ≡ err "ConditionalCheckFailedException"
        → b ≡ false
    held true u m h = absurd (ground arith)
    held false u m h = refl

replay_records-accounts_example :
    Served as_is "paper" filler 1000 tokens two_events found end.0 totals.outcomes 1
    × (totals.armed_claimed ≡ length totals.outcomes)
    × (totals.armed_claimed + totals.lease_conflicts ≡ length found)
    × ((d : String) → count_of d totals.outcome_counts ≡ with_disposition d totals.outcomes)
replay_records-accounts_example =
    replay_records-accounts memory as_is "paper" filler memory-IsEventClient memory-IsRefusing 1000
      tokens found totals two_events end.0 run_done
