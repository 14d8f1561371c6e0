-- ===== src/Replay/Held.antt =====
-- src/daily_alpha/armed_replay.py: a record that is leased, and what one update leaves of its lease.
use Prim.Native.String.{String}
use daily_alpha_engine.Common.{
  ℕ, ◌≤◌, ◌<◌, ◌≡◌, refl, ap, ◌∙◌, subst, ltb, ◌||◌, true, false, Bool-cases, inl, inr, Option,
  none, some, some_and, arith,
}
use daily_alpha_engine.Paper.Dynamo.{Key}
use daily_alpha_engine.Paper.Dynamo.Table.{key_eq, key_eq_sound, key_eq_refl}
use daily_alpha_engine.Replay.{Update, lease_event, mark_event, max_lease}
use daily_alpha_engine.Replay.Table.{
  StoredEvent, EventStore, is_claimable, condition_holds, changed, key_of, updated, Effect,
}

-- The record at `k` is leased, until `t` or later.
unfoldable pub IsHeld : Key → ℕ → EventStore → Type 0
IsHeld k t m =
    (e : StoredEvent) × (u : ℕ) × (m k ≡ some e) × (e.replay_lease_until_epoch ≡ some u) × (t ≤ u)

-- A lease that does not end before it starts.
abbrev pub IsForward : Update → Type 0
IsForward (lease_event key now until token) = now ≤ until
IsForward (mark_event key disposition reason execution) = Unit {0}

pub claimable_free :
    (now u : ℕ) (e : StoredEvent)
    → is_claimable now e ≡ true
    → e.replay_lease_until_epoch ≡ some u
    → u < now
unfolding is_claimable
claimable_free now u e h held = ground arith

changed-IsHeld :
    (u : Update) (k : Key) (t : ℕ) (m : EventStore)
    → IsForward u
    → condition_holds u m ≡ true
    → key_of u ≡ k
    → IsHeld k t m
    → IsHeld k t (λ x. changed u (m x))
unfolding IsHeld changed condition_holds
changed-IsHeld (lease_event key now until token) k t m forward holds same
      (e, u, at, leased, later) =
    let here = subst (λ x. some_and (m x) (is_claimable now) ≡ true) same holds in
    let claimable = subst (λ x. some_and x (is_claimable now) ≡ true) at here in
    let free = claimable_free now u e claimable leased in
    (_, until, ap (changed (lease_event key now until token)) at, refl, omega arith)
changed-IsHeld (mark_event key disposition reason execution) k t m forward holds same
      (e, u, at, leased, later) =
    (_, u, ap (changed (mark_event key disposition reason execution)) at, leased, later)

updated-IsHeld :
    (u : Update) (k : Key) (t : ℕ) (m : EventStore)
    → IsForward u
    → condition_holds u m ≡ true
    → IsHeld k t m
    → IsHeld k t (updated u m)
unfolding IsHeld updated
updated-IsHeld u k t m forward holds held = elim (Bool-cases (key_eq (key_of u) k)) [
  | inl same ↦ rw same (changed-IsHeld u k t m forward holds (key_eq_sound (key_of u) k same) held)
  | inr other ↦ rw other held
]

pub same-IsHeld :
    (k : Key) (t : ℕ) (m m' : EventStore) → ((x : Key) → m' x ≡ m x) → IsHeld k t m → IsHeld k t m'
unfolding IsHeld
same-IsHeld k t m m' same (e, u, at, leased, later) = (e, u, same k ∙ at, leased, later)

pub Effect-IsHeld :
    (u : Update) (k : Key) (t : ℕ) (m m' : EventStore)
    → IsForward u
    → Effect u m m'
    → IsHeld k t m
    → IsHeld k t m'
Effect-IsHeld u k t m m' forward (inl same) held = same-IsHeld k t m m' same held
Effect-IsHeld u k t m m' forward (inr (holds, made)) held =
    same-IsHeld k t (updated u m) m' made (updated-IsHeld u k t m forward holds held)

pub starts-IsHeld :
    (key : Key) (now until : ℕ) (token : String) (m : EventStore) (found : Option StoredEvent)
    → m key ≡ found
    → some_and found (is_claimable now) ≡ true
    → IsHeld key until (updated (lease_event key now until token) m)
unfolding IsHeld updated changed
starts-IsHeld key now until token m none at holds = absurd (ground arith)
starts-IsHeld key now until token m (some e) at holds =
    rw (key_eq_refl key)
      (_, until, ap (changed (lease_event key now until token)) at, refl, omega arith)

-- Behind its end, a lease does not stand in the way of another one.
pub ended_holds :
    (key : Key) (now until later other : ℕ) (token other_token : String) (m : EventStore)
    (found : Option StoredEvent)
    → m key ≡ found
    → some_and found (is_claimable now) ≡ true
    → until < later
    → condition_holds
        (lease_event key later other other_token)
        (updated (lease_event key now until token) m)
      ≡ true
unfolding condition_holds updated changed is_claimable
ended_holds key now until later other token other_token m none at holds late = absurd (ground arith)
ended_holds key now until later other token other_token m (some e) at holds late =
    rw (key_eq_refl key) (rw at (ground arith))

pub holds_same :
    (u : Update) (m m' : EventStore)
    → ((x : Key) → m' x ≡ m x)
    → condition_holds u m ≡ true
    → condition_holds u m' ≡ true
unfolding condition_holds
holds_same (lease_event key now until token) m m' same holds = rw (same key) holds
holds_same (mark_event key disposition reason execution) m m' same holds = rw (same key) holds

pub valid_lease : (n : ℕ) → 1 ≤ n → n ≤ 1800 → (ltb n 1 || ltb max_lease n) ≡ false
valid_lease n positive short = ground arith
