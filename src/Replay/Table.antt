-- ===== src/Replay/Table.antt =====
-- What DynamoDB documents of the two updates that src/daily_alpha/armed_replay.py and
-- src/daily_alpha/pine_processor.py make of a stored event: an update tests its condition on the record as
-- it stands, and sets the attributes that it names, or changes nothing.
use Prim.Native.String.{String}
use text.Mathlib.Text.{◌==◌}
use daily_alpha_engine.Common.{
  ℕ, ltb, Bool, true, ◌&&◌, ◌≡◌, ◌⊎◌, Option, none, some, is_some, some_and, ok, err, if◌then◌else◌,
}
use daily_alpha_engine.Paper.Dynamo.{Key}
use daily_alpha_engine.Paper.Dynamo.Table.{key_eq}
use daily_alpha_engine.Replay.{
  Execution, Update, lease_event, mark_event, EventClient, armed_disposition,
}

-- The attributes of a stored event that the updates read or set.
pub record StoredEvent : Type 0 where
  pub disposition : Option String
  pub reason : Option String
  pub execution_json : Option Execution
  pub replay_lease_until_epoch : Option ℕ
  pub replay_lease_token : Option String

abbrev pub EventStore : Type 0
EventStore = Key → Option StoredEvent

-- `attribute_not_exists(replay_lease_until_epoch) OR replay_lease_until_epoch < :now_epoch`
abbrev pub is_free : ℕ → Option ℕ → Bool
is_free now none = true
is_free now (some until) = ltb until now

-- The condition of the lease.
unfoldable pub is_claimable : ℕ → StoredEvent → Bool
is_claimable now e =
    some_and e.disposition (λ d. d == armed_disposition) && is_free now e.replay_lease_until_epoch

unfoldable pub condition_holds : Update → EventStore → Bool
condition_holds (lease_event key now until token) m = some_and (m key) (is_claimable now)
condition_holds (mark_event key disposition reason execution) m = is_some (m key)

unfoldable pub changed : Update → Option StoredEvent → Option StoredEvent
changed u none = none
changed (lease_event key now until token) (some e) =
    some (record e { replay_lease_until_epoch = some until; replay_lease_token = some token })
changed (mark_event key disposition reason execution) (some e) = some (record e {
  disposition = some disposition;
  reason = some reason;
  execution_json = some execution;
})

abbrev pub key_of : Update → Key
key_of (lease_event key now until token) = key
key_of (mark_event key disposition reason execution) = key

unfoldable pub updated : Update → EventStore → EventStore
updated u m k = if key_eq (key_of u) k then changed u (m k) else m k

-- What an update may have done, from the outside.
abbrev pub Effect : Update → EventStore → EventStore → Type 0
Effect u m m' =
    ((k : Key) → m' k ≡ m k) ⊎ ((condition_holds u m ≡ true) × ((k : Key) → m' k ≡ updated u m k))

-- A request may fail at any time: one that succeeds was made, one whose condition failed was not, and one
-- that fails otherwise (a lost answer) may have been.
pub record IsEventClient {S : Type 0} (client : EventClient S) (store : S → EventStore)
    : Type 0 where
  pub update_ok :
      (u : Update) (s : S)
      → (client.update_item u s).1 ≡ ok tt
      → (condition_holds u (store s) ≡ true)
        × ((k : Key) → store (client.update_item u s).0 k ≡ updated u (store s) k)
  pub update_failed :
      (u : Update) (s : S) (code : String)
      → (client.update_item u s).1 ≡ err code
      → Effect u (store s) (store (client.update_item u s).0)
  pub update_refused :
      (u : Update) (s : S)
      → (client.update_item u s).1 ≡ err "ConditionalCheckFailedException"
      → (k : Key) → store (client.update_item u s).0 k ≡ store s k

-- While every request gets its answer, an update is made where its condition holds.
pub record IsEventServer {S : Type 0} (client : EventClient S) (store : S → EventStore)
    : Type 0 where
  pub update_answers :
      (u : Update) (s : S) → condition_holds u (store s) ≡ true → (client.update_item u s).1 ≡ ok tt
