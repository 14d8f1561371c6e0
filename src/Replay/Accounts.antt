-- ===== src/Replay/Accounts.antt =====
-- src/daily_alpha/armed_replay.py: a run of a worker accounts for every record that it was given.
use Prim.Native.String.{String}
use text.Mathlib.Text.{◌==◌}
use daily_alpha_engine.Common.{
  ℕ, suc, ◌+◌, ◌≡◌, refl, sym, ap, ◌∙◌, subst, true, false, Bool-cases, inl, inr, Option, none,
  some, List, [], ◌∷◌, ◌++◌, length, Result, ok, err, arith,
}
use daily_alpha_engine.Common.Stateful.{outcome, outcome_ok, attempt, return, check_ok, wrapped_ok}
use daily_alpha_engine.Paper.Dynamo.{Key}
use daily_alpha_engine.Paper.Dynamo.Table.{is_eq_sound}
use daily_alpha_engine.Replay.{
  ReplayError, write_failed, ArmedRecord, Execution, EventClient, Executor, Totals, Outcome,
  no_totals, retry_of, reported, lease_conflict, claimed_one, claim_refused, claim_armed_ingress,
  mark_execution, default_lease, replay_claimed, replay_one, replay_records,
}
use daily_alpha_engine.Replay.Table.{EventStore, condition_holds, updated, IsEventClient}
use daily_alpha_engine.Replay.Lease.{claim_split}
use daily_alpha_engine.Replay.Served.{
  IsRefusing, outcome_of, lease_of, mark_of, Served, nothing, conflict, replayed,
}
use daily_alpha_engine.Replay.Counts.{
  count_of, with_disposition, append_appended, append_nil, IsCounted, reported-IsCounted,
}

total_eq :
    {S A : Type 0} {s s' : S} {a b : A}
    → ◌≡◌ {A = S × Result ReplayError A} (s, ok a) (s', ok b)
    → a ≡ b
total_eq h = ground arith

module _ {S I : Type 0} (client : EventClient S) (store : S → EventStore) (account_id : String)
    (executor : Executor S I) (documented : IsEventClient client store)
    (refusing : IsRefusing client store) where
  -- A claim without a lease was refused.
  refused_by :
      (p : S × Result String (Unit {0})) (token : String) (s' : S)
      → outcome p (claim_refused client account_id) (λ _. return (some token)) ≡ (s', ok none)
      → (p.1 ≡ err "ConditionalCheckFailedException") × (p.0 ≡ s')
  unfolding claim_refused
  refused_by (s, ok tt) token s' h = absurd (ground arith)
  refused_by (s, err code) token s' h =
      elim (Bool-cases (code == "ConditionalCheckFailedException")) [
        | inl same ↦ (ap (λ c. err c) (is_eq_sound code _ same), ground arith)
        | inr other ↦ absurd (ground arith)
      ]

  refusal_split :
      (now : ℕ) (token : String) (r : ArmedRecord I) (s s' : S)
      → claim_armed_ingress client account_id r.persisted_signal_id now default_lease token s
        ≡ (s', ok none)
      → (condition_holds (lease_of account_id now token r) (store s) ≡ false)
        × ((k : Key) → store s' k ≡ store s k)
  unfolding claim_armed_ingress
  refusal_split now token r s s' h =
      let u = lease_of account_id now token r in
      let (_, h₁) = check_ok _ _ _ s h in
      let (_, h₂) = check_ok _ _ _ s h₁ in
      let (code, same) = refused_by (client.update_item u s) token s' h₂ in
      (
        refusing.refused u s code,
        λ k. sym (ap (λ x. store x k) same) ∙ documented.update_refused u s code k,
      )

  mark_split :
      (r : ArmedRecord I) (e : Execution) (s s' : S)
      → mark_execution client account_id r.persisted_signal_id e s ≡ (s', ok tt)
      → (condition_holds (mark_of account_id r e) (store s) ≡ true)
        × ((k : Key) → store s' k ≡ updated (mark_of account_id r e) (store s) k)
  unfolding mark_execution
  mark_split r e s s' h =
      let u = mark_of account_id r e in
      let (_, h₁) = check_ok _ _ _ s h in
      let done = wrapped_ok (λ code. write_failed) (client.update_item u s) h₁ in
      let (holds, made) = documented.update_ok u s (ap (λ x. x.1) done) in
      (holds, λ k. sym (ap (λ x. store x.0 k) done) ∙ made k)

  executed :
      (r : ArmedRecord I) (p : S × Result String Execution) (s' : S) (e : Execution)
      → outcome {E = ReplayError} p (λ code. return (retry_of r)) return ≡ (s', ok e)
      → (p.0 ≡ s') × (outcome_of r p.1 ≡ e)
  executed r (s, ok a) s' e h = (ground arith, ground arith)
  executed r (s, err code) s' e h = (ground arith, ground arith)

  -- What the totals of a run are made of.
  abbrev IsTotalled : ℕ → (ℕ → String) → List (ArmedRecord I) → Totals → Totals → S → S → Type 0
  IsTotalled now tokens rs t t' s s' =
      (os : List Outcome) × (n : ℕ) × (t'.outcomes ≡ t.outcomes ++ os)
      × (t'.lease_conflicts ≡ t.lease_conflicts + n)
      × (t'.armed_claimed ≡ t.armed_claimed + length os)
      × IsCounted t'
      × Served store account_id executor now tokens s rs s' os n

  -- One record before the rest of a run.
  one_more :
      (now : ℕ) (tokens : ℕ → String) (r : ArmedRecord I) (rs : List (ArmedRecord I))
      (t after t' : Totals) (s s₂ s₁ s' : S) (lease : Option String)
      → IsCounted t
      → claim_armed_ingress client account_id r.persisted_signal_id now default_lease
          (tokens (length rs))
          s
        ≡ (s₂, ok lease)
      → replay_claimed client account_id executor r t lease s₂ ≡ (s₁, ok after)
      → (IsCounted after → IsTotalled now tokens rs after t' s₁ s')
      → IsTotalled now tokens (r ∷ rs) t t' s s'
  unfolding replay_claimed lease_conflict IsCounted reported claimed_one
  one_more now tokens r rs t after t' s s₂ s₁ s' none counted claimed h rest =
      let totals = total_eq h in
      let same = ap (λ x. x.0) h in
      let (os, n, made, conflicts, claims, counts, served) =
        rest (subst IsCounted totals counted) in
      let (fails, kept) = refusal_split now (tokens (length rs)) r s s₂ claimed in
      (
        os,
        suc n,
        made ∙ ap (λ (x : Totals). x.outcomes ++ os) (sym totals),
        omega (arith, conflicts, ap (λ (x : Totals). x.lease_conflicts) totals),
        omega (arith, claims, ap (λ (x : Totals). x.armed_claimed) totals),
        counts,
        conflict s s₁ s' r rs os n fails (λ k. sym (ap (λ x. store x k) same) ∙ kept k) served,
      )
  one_more now tokens r rs t after t' s s₂ s₁ s' (some token) counted claimed h rest =
      let (s₃, e, ran, h₁) =
        outcome_ok (attempt (executor.replay_armed r) (λ code. return (retry_of r)) return s₂) _
          h in
      let (s₄, _, marked, h₂) =
        outcome_ok (mark_execution client account_id r.persisted_signal_id e s₃) _ h₁ in
      let totals = total_eq h₂ in
      let same = ap (λ x. x.0) h₂ in
      let (os, n, made, conflicts, claims, counts, served) =
        rest (subst IsCounted totals (reported-IsCounted r.persisted_signal_id e t counted)) in
      let (holds, leased) =
        claim_split client store account_id documented r.persisted_signal_id now default_lease
          (tokens (length rs)) token s s₂ claimed in
      let (there, answer) = executed r (executor.replay_armed r s₂) s₃ e ran in
      let (found, written) = mark_split r e s₃ s₄ marked in
      let o : Outcome = record { signal_id = r.persisted_signal_id; execution = e } in
      (
        o ∷ os,
        n,
        made ∙ ap (λ (x : Totals). x.outcomes ++ os) (sym totals) ∙ append_appended t.outcomes o os,
        omega (arith, conflicts, ap (λ (x : Totals). x.lease_conflicts) totals),
        omega (arith, claims, ap (λ (x : Totals). x.armed_claimed) totals),
        counts,
        replayed s s₂ s₃ s₁ s' r rs os n e holds leased there answer found
            (λ k. sym (ap (λ x. store x k) same) ∙ written k) served,
      )

  replay_records-IsTotalled :
      (now : ℕ) (tokens : ℕ → String) (rs : List (ArmedRecord I)) (t t' : Totals) (s s' : S)
      → IsCounted t
      → replay_records client account_id executor now tokens rs t s ≡ (s', ok t')
      → IsTotalled now tokens rs t t' s s'
  unfolding replay_records replay_one
  replay_records-IsTotalled now tokens [] t t' s s' counted h =
      let same = ap (λ x. x.0) h in
      let totals = total_eq h in
      subst (λ x. IsTotalled now tokens [] t x s s') totals
        (subst (λ x. IsTotalled now tokens [] t t s x) same
          ([], 0, sym (append_nil t.outcomes), omega arith, omega arith, counted, nothing s))
  replay_records-IsTotalled now tokens (r ∷ rs) t t' s s' counted h =
      let (s₁, after, h₁, h₂) =
        outcome_ok (replay_one client account_id executor now (tokens (length rs)) r t s) _ h in
      let (s₂, lease, claimed, h₃) =
        outcome_ok
          (claim_armed_ingress client account_id r.persisted_signal_id now default_lease
            (tokens (length rs)) s)
          _ h₁ in
      one_more now tokens r rs t after t' s s₂ s₁ s' lease counted claimed h₃
        (λ c. replay_records-IsTotalled now tokens rs after t' s₁ s' c h₂)

  Served-length :
      (now : ℕ) (tokens : ℕ → String) (s s' : S) (rs : List (ArmedRecord I)) (os : List Outcome)
      (n : ℕ)
      → Served store account_id executor now tokens s rs s' os n
      → length os + n ≡ length rs
  Served-length now tokens _ _ _ _ _ (nothing s) = refl
  Served-length now tokens _ _ _ _ _ (conflict s s₁ s' r rs os n a b served) =
      omega (arith, Served-length now tokens s₁ s' rs os n served)
  Served-length now tokens _ _ _ _ _ (replayed s s₁ s₂ s₃ s' r rs os n e a b c d f g served) =
      omega (arith, Served-length now tokens s₃ s' rs os n served)

  -- A run that returns has served its records in their order: each that was armed, and whose lease had
  -- ended or was never made, was leased, given to the executor and marked with what that answered, or
  -- with a retry where it raised; any other was left as it was and is a conflict. The totals are those
  -- of this: the outcomes in their order, a claim for each of them, the conflicts, and under each
  -- disposition the number of outcomes that have it; together there are as many as records.
  pub replay_records-accounts :
      (now : ℕ) (tokens : ℕ → String) (records : List (ArmedRecord I)) (t : Totals) (s s' : S)
      → replay_records client account_id executor now tokens records no_totals s ≡ (s', ok t)
      → Served store account_id executor now tokens s records s' t.outcomes t.lease_conflicts
        × (t.armed_claimed ≡ length t.outcomes)
        × (t.armed_claimed + t.lease_conflicts ≡ length records)
        × ((d : String) → count_of d t.outcome_counts ≡ with_disposition d t.outcomes)
  unfolding IsCounted count_of with_disposition
  replay_records-accounts now tokens records t s s' h =
      let (os, n, made, conflicts, claims, counts, served) =
        replay_records-IsTotalled now tokens records no_totals t s s' (λ d. refl) h in
      let same_count : n ≡ t.lease_conflicts = omega (arith, conflicts) in
      let full =
        subst (λ x. Served store account_id executor now tokens s records s' t.outcomes x)
          same_count
          (subst (λ x. Served store account_id executor now tokens s records s' x n) (sym made)
            served) in
      (
        full,
        omega (arith, claims, ap length made),
        omega (
          arith,
          claims,
          ap length made,
          Served-length now tokens s s' records t.outcomes t.lease_conflicts full,
        ),
        counts,
      )
