-- ===== src/Replay/Lease.antt =====
-- src/daily_alpha/armed_replay.py: while the lease of an event lasts, no other worker gets it.
use Prim.Native.String.{String}
use daily_alpha_engine.Common.{
  ℕ, ◌+◌, ◌≤◌, ◌<◌, ◌≡◌, refl, sym, ap, ◌∙◌, subst, true, inr, none, some, some_and, List, [], ◌∷◌,
  Result, ok, err, arith,
}
use daily_alpha_engine.Common.Text.{strip}
use daily_alpha_engine.Common.Stateful.{
  outcome, return, Leads, Leads_same, Leads_raise, Leads_if, Leads_attempt, guarded, check_ok,
  check_passes,
}
use daily_alpha_engine.Paper.Dynamo.{Key}
use daily_alpha_engine.Replay.{
  Execution, Update, lease_event, EventClient, event_key, claim_refused, claim_armed_ingress,
  mark_execution,
}
use daily_alpha_engine.Replay.Table.{
  EventStore, is_claimable, condition_holds, updated, Effect, IsEventClient, IsEventServer,
}
use daily_alpha_engine.Replay.Held.{
  IsHeld, IsForward, claimable_free, same-IsHeld, Effect-IsHeld, starts-IsHeld, ended_holds,
  holds_same, valid_lease,
}

-- What a worker may do to the store.
pub data WorkerCall : Type 0 where
  claim : (signal_id : String) (now_epoch lease_seconds : ℕ) (token : String) → WorkerCall
  mark : (signal_id : String) (execution : Execution) → WorkerCall

module _ {S : Type 0} (client : EventClient S) (store : S → EventStore) (account_id : String) where
  -- The calls of any number of workers, in the order in which they come to the store.
  unfoldable pub after_work : List WorkerCall → S → S
  after_work [] s = s
  after_work (claim signal_id now lease token ∷ rest) s =
      after_work rest (claim_armed_ingress client account_id signal_id now lease token s).0
  after_work (mark signal_id execution ∷ rest) s =
      after_work rest (mark_execution client account_id signal_id execution s).0

  module _ (documented : IsEventClient client store) where
    Effect-by :
        (u : Update) (s : S) (r : Result String (Unit {0}))
        → (client.update_item u s).1 ≡ r
        → Effect u (store s) (store (client.update_item u s).0)
    Effect-by u s (ok tt) h = inr (documented.update_ok u s h)
    Effect-by u s (err code) h = documented.update_failed u s code h

    update-IsHeld :
        (u : Update) (k : Key) (t : ℕ)
        → IsForward u
        → Leads (λ s. IsHeld k t (store s)) (client.update_item u) (λ s. IsHeld k t (store s))
    update-IsHeld u k t forward = record {
      from = λ s held. Effect-IsHeld u k t _ _ forward (Effect-by u s _ refl) held;
    }

    claim-IsHeld :
        (k : Key) (t : ℕ) (signal_id : String) (now lease : ℕ) (token : String)
        → Leads
            (λ s. IsHeld k t (store s))
            (claim_armed_ingress client account_id signal_id now lease token)
            (λ s. IsHeld k t (store s))
    unfolding claim_armed_ingress claim_refused
    claim-IsHeld k t signal_id now lease token = guarded _ _ λ _. guarded _ _ λ _.
        Leads_attempt (update-IsHeld _ k t (omega arith))
          (λ code. Leads_if _ (Leads_same none) (Leads_raise _)) (λ _. Leads_same (some token))

    mark-IsHeld :
        (k : Key) (t : ℕ) (signal_id : String) (execution : Execution)
        → Leads
            (λ s. IsHeld k t (store s))
            (mark_execution client account_id signal_id execution)
            (λ s. IsHeld k t (store s))
    unfolding mark_execution
    mark-IsHeld k t signal_id execution =
        guarded _ _
          λ _. Leads_attempt (update-IsHeld _ k t tt) (λ code. Leads_raise _) (λ _. Leads_same tt)

    after_work-IsHeld :
        (k : Key) (t : ℕ) (calls : List WorkerCall) (s : S)
        → IsHeld k t (store s)
        → IsHeld k t (store (after_work calls s))
    unfolding after_work
    after_work-IsHeld k t [] s held = held
    after_work-IsHeld k t (claim signal_id now lease token ∷ rest) s held =
        after_work-IsHeld k t rest _ ((claim-IsHeld k t signal_id now lease token).from s held)
    after_work-IsHeld k t (mark signal_id execution ∷ rest) s held =
        after_work-IsHeld k t rest _ ((mark-IsHeld k t signal_id execution).from s held)

    -- What a claim that got its lease did.
    claimed_by :
        (p : S × Result String (Unit {0})) (token got : String) (s' : S)
        → outcome p (claim_refused client account_id) (λ _. return (some token))
          ≡ (s', ok (some got))
        → (p.1 ≡ ok tt) × (p.0 ≡ s')
    unfolding claim_refused
    claimed_by (s, ok tt) token got s' h = (refl, ap (λ x. x.0) h)
    claimed_by (s, err code) token got s' h = absurd (ground arith)

    pub claim_split :
        (signal_id : String) (now lease : ℕ) (token got : String) (s s' : S)
        → claim_armed_ingress client account_id signal_id now lease token s ≡ (s', ok (some got))
        → let u = lease_event (event_key account_id (strip signal_id)) now (now + lease) token in
          (condition_holds u (store s) ≡ true) × ((k : Key) → store s' k ≡ updated u (store s) k)
    unfolding claim_armed_ingress
    claim_split signal_id now lease token got s s' h =
        let (_, h₁) = check_ok _ _ _ s h in
        let (_, h₂) = check_ok _ _ _ s h₁ in
        let (done, same) = claimed_by _ token got s' h₂ in
        let (holds, made) = documented.update_ok _ s done in
        (holds, λ k. sym (ap (λ x. store x k) same) ∙ made k)

    claim-starts :
        (signal_id : String) (now lease : ℕ) (token got : String) (s s' : S)
        → claim_armed_ingress client account_id signal_id now lease token s ≡ (s', ok (some got))
        → IsHeld (event_key account_id (strip signal_id)) (now + lease) (store s')
    unfolding condition_holds
    claim-starts signal_id now lease token got s s' h =
        let k = event_key account_id (strip signal_id) in
        let (holds, made) = claim_split signal_id now lease token got s s' h in
        same-IsHeld k (now + lease) _ _ made
          (starts-IsHeld k now (now + lease) token (store s) (store s k) refl holds)

    -- A claim that got its lease came behind the end of the one that was there.
    claim-late :
        (signal_id : String) (now lease : ℕ) (token got : String) (s s' : S) (t : ℕ)
        → claim_armed_ingress client account_id signal_id now lease token s ≡ (s', ok (some got))
        → IsHeld (event_key account_id (strip signal_id)) t (store s)
        → t < now
    unfolding IsHeld condition_holds
    claim-late signal_id now lease token got s s' t h (e, u, at, leased, later) =
        let (holds, _) = claim_split signal_id now lease token got s s' h in
        let claimable = subst (λ x. some_and x (is_claimable now) ≡ true) at holds in
        let free = claimable_free now u e claimable leased in omega arith

    -- Whatever claims and outcomes of any workers come in between, and whatever their requests do, a lease
    -- of an event that a worker got is followed by another one of the same event only behind the end of
    -- the first.
    pub after_work-exclusive :
        (signal_id other_id : String) (now lease later other_lease : ℕ)
        (token got other_token other_got : String) (calls : List WorkerCall) (s s₁ s₂ : S)
        → claim_armed_ingress client account_id signal_id now lease token s ≡ (s₁, ok (some got))
        → strip signal_id ≡ strip other_id
        → claim_armed_ingress client account_id other_id later other_lease other_token
            (after_work calls s₁)
          ≡ (s₂, ok (some other_got))
        → now + lease < later
    after_work-exclusive signal_id other_id now lease later other_lease token got other_token
          other_got calls s s₁ s₂ first same second =
        let held = claim-starts signal_id now lease token got s s₁ first in
        let kept = after_work-IsHeld _ (now + lease) calls s₁ held in
        claim-late other_id later other_lease other_token other_got _ s₂ (now + lease) second (
          subst (λ x. IsHeld (event_key account_id x) (now + lease) (store (after_work calls s₁)))
            same kept)

    granted :
        (p : S × Result String (Unit {0})) (token : String)
        → p.1 ≡ ok tt
        → outcome p (claim_refused client account_id) (λ _. return (some token))
          ≡ (p.0, ok (some token))
    granted (s, ok tt) token h = refl
    granted (s, err code) token h = absurd (ground arith)

    -- While requests get their answers, an event whose worker died behind its claim is claimed again by the
    -- first worker that asks for a valid lease behind the end of that one.
    pub claim-resumes :
        (answers : IsEventServer client store) (signal_id : String)
        (now lease later other_lease : ℕ) (token got other_token : String) (s s₁ : S)
        → claim_armed_ingress client account_id signal_id now lease token s ≡ (s₁, ok (some got))
        → now + lease < later
        → 1 ≤ other_lease
        → other_lease ≤ 1800
        → (s₂ : S) × claim_armed_ingress client account_id signal_id later other_lease other_token
              s₁
            ≡ (s₂, ok (some other_token))
    unfolding claim_armed_ingress condition_holds
    claim-resumes answers signal_id now lease later other_lease token got other_token s s₁ first
          late positive short =
        let k = event_key account_id (strip signal_id) in
        let u = lease_event k later (later + other_lease) other_token in
        let (named, _) = check_ok _ _ _ s first in
        let (holds, made) = claim_split signal_id now lease token got s s₁ first in
        let free =
          ended_holds k now (now + lease) later (later + other_lease) token other_token (store s)
            (store s k) refl holds late in
        let open_now = holds_same u _ _ made free in
        let valid = valid_lease other_lease positive short in
        (
          (client.update_item u s₁).0,
          check_passes _ _ _ s₁ named
              ∙ check_passes _ _ _ s₁ valid
              ∙ granted (client.update_item u s₁) other_token
                  (answers.update_answers u s₁ open_now),
        )
