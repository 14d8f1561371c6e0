-- ===== src/Lifecycle/History.antt =====
-- What the history of a trade always satisfies.
use Prim.Native.String.{String}
use daily_alpha_engine.Common.{
  ℕ, suc, ◌+◌, ◌≡◌, refl, sym, ap, ◌∙◌, ◌≢◌, true, false, Bool-cases, Option, none, some,
  Option-cases, inl, inr, List, [], ◌∷◌, ◌++◌, ok, length, arith, some_and,
}
use text.Mathlib.TextPositions.{eq_refl}
use daily_alpha_engine.Common.{subst}
use daily_alpha_engine.Common.Text.{is_empty}
use daily_alpha_engine.Lifecycle.{
  TradeState, proposed, TradePlan, TradeEvent, TradeRecord, Request, is_allowed, last_state,
  state_of, create, has_key, event_of, append_event, transition,
}

-- The first state is PROPOSED, and each later one is allowed after the one before.
pub IsNext : Option TradeState → TradeState → Type 0
IsNext none s = s ≡ proposed
IsNext (some p) s = is_allowed p s ≡ true

nonempty-append : {A : Type 0} (xs : List A) (x : A) → xs ++ (x ∷ []) ≢ []
nonempty-append [] x = cc
nonempty-append (y ∷ xs) x = cc

module _ {M : Type 0} where
  -- The events of trade `id` after `n` of them, the last of which left the state `previous`: they are
  -- numbered without a gap, each names the state before it, and each step is allowed.
  pub IsChain : String → ℕ → Option TradeState → List (TradeEvent M) → Type 0
  IsChain id n previous [] = Unit
  IsChain id n previous (e ∷ es) =
      (e.trade_id ≡ id)
      × (e.event_id ≡ record { of_trade = id; number = suc n })
      × (e.sequence ≡ suc n)
      × (e.previous_state ≡ previous)
      × IsNext previous e.state
      × IsChain id (suc n) (some e.state) es

  IsChain-append :
      (id : String) (n k : ℕ) (s : Option TradeState) (es : List (TradeEvent M)) (e : TradeEvent M)
      → k ≡ n + length es
      → IsChain id n s es
      → IsChain id k (last_state s es) (e ∷ [])
      → IsChain id n s (es ++ (e ∷ []))
  unfolding IsChain last_state
  IsChain-append id n k s [] e hk h last = subst (λ m. IsChain id m s (e ∷ [])) (omega arith) last
  IsChain-append id n k s (x ∷ es) e hk (a, b, c, d, f, h) last =
      (a, b, c, d, f, IsChain-append id (suc n) k (some x.state) es e (omega arith) h last)

  key-append :
      (k : String) (es : List (TradeEvent M)) (e : TradeEvent M)
      → e.idempotency_key ≡ some k
      → has_key k (es ++ (e ∷ [])) ≡ true
  unfolding has_key
  key-append k [] e h = rw h (rw (eq_refl k) refl)
  key-append k (x ∷ es) e h = rw (key-append k es e h) (grind arith)

  key-kept :
      (k : String) (es : List (TradeEvent M)) (e : TradeEvent M)
      → has_key k es ≡ true
      → has_key k (es ++ (e ∷ [])) ≡ true
  unfolding has_key
  key-kept k [] e h = cc
  key-kept k (x ∷ es) e h = ground (arith, key-kept k es e)

-- A history: at least one event, in a chain that starts from nothing.
pub record IsHistory {F M : Type 0} (r : TradeRecord F M) : Type 0 where
  pub nonempty : r.events ≢ []
  pub chain : IsChain r.plan.trade_id 0 none r.events

-- The records that the engine can produce for a plan.
pub data IsReached {F M : Type 0} (plan : TradePlan F) : TradeRecord F M → Type 0 where
  created : (now : String) (at : Option String) → IsReached plan (create now plan at)
  moved :
      (r r' : TradeRecord F M) (now : String) (q : Request M)
      → IsReached plan r
      → transition now r q ≡ ok r'
      → IsReached plan r'

-- The records that later accepted transitions can make of `r`.
pub data Follows {F M : Type 0} (r : TradeRecord F M) : TradeRecord F M → Type 0 where
  unchanged : Follows r r
  followed :
      (r₁ r₂ : TradeRecord F M) (now : String) (q : Request M)
      → Follows r r₁
      → transition now r₁ q ≡ ok r₂
      → Follows r r₂

module _ {F : Type 0} where
  created_plan :
      (M : Type 0) (now : String) (plan : TradePlan F) (at : Option String)
      → (create {M = M} now plan at).plan ≡ plan
  unfolding create
  created_plan M now plan at = refl

module _ {F M : Type 0} where
  create-IsHistory :
      (now : String) (plan : TradePlan F) (at : Option String)
      → IsHistory (create {M = M} now plan at)
  unfolding create IsChain IsNext
  create-IsHistory now plan at = record {
    nonempty = cc;
    chain = (refl, refl, refl, refl, refl, tt);
  }

  append_event-ok :
      (now : String) (r r' : TradeRecord F M) (q : Request M)
      → append_event now r q ≡ ok r'
      → (s : TradeState) × (last_state none r.events ≡ some s)
        × (is_allowed s q.new_state ≡ true)
        × (r' ≡ record { plan = r.plan; events = r.events ++ (event_of now r s q ∷ []) })
  unfolding append_event state_of
  append_event-ok now r r' q e = elim (Option-cases (last_state none r.events)) [
    | inl n ↦ ground arith
    | inr (s, h) ↦ elim (Bool-cases (is_allowed s q.new_state)) [
      | inl a ↦ (s, h, a, ground arith)
      | inr n ↦ ground arith
    ]
  ]

  event_of-IsChain :
      (now : String) (r : TradeRecord F M) (q : Request M) (s : TradeState)
      → last_state none r.events ≡ some s
      → is_allowed s q.new_state ≡ true
      → IsChain r.plan.trade_id
          (length r.events)
          (last_state none r.events)
          (event_of now r s q ∷ [])
  unfolding event_of IsChain IsNext
  event_of-IsChain now r q s last allowed =
      subst (λ t. IsChain r.plan.trade_id (length r.events) t (event_of now r s q ∷ [])) (sym last)
        (
          refl,
          ap (λ n. record { of_trade = r.plan.trade_id; number = n }) (omega arith),
          omega arith,
          refl,
          allowed,
          tt,
        )

  append_event-IsHistory :
      (now : String) (r r' : TradeRecord F M) (q : Request M)
      → IsHistory r
      → append_event now r q ≡ ok r'
      → IsHistory r'
  append_event-IsHistory now r r' q h e =
      let (s, last, allowed, eq) = append_event-ok now r r' q e in
      subst IsHistory (sym eq) (record {
        nonempty = nonempty-append r.events (event_of now r s q);
        chain =
            IsChain-append r.plan.trade_id 0 (length r.events) none r.events (event_of now r s q)
              (omega arith) h.chain (event_of-IsChain now r q s last allowed);
      })

  transition-IsHistory :
      (now : String) (r r' : TradeRecord F M) (q : Request M)
      → IsHistory r
      → transition now r q ≡ ok r'
      → IsHistory r'
  unfolding transition
  transition-IsHistory now r r' q h e =
      elim (Bool-cases (some_and q.idempotency_key (λ k. has_key k r.events))) [
        | inl seen ↦ subst IsHistory (ground arith) h
        | inr new ↦ append_event-IsHistory now r r' q h (ground arith)
      ]

  transition-plan :
      (now : String) (r r' : TradeRecord F M) (q : Request M)
      → transition now r q ≡ ok r'
      → r'.plan ≡ r.plan
  unfolding transition append_event state_of
  transition-plan now r r' q e = ground arith

  transition-has_key :
      (now : String) (r r' : TradeRecord F M) (q : Request M) (k : String)
      → transition now r q ≡ ok r'
      → q.idempotency_key ≡ some k
      → has_key k r'.events ≡ true
  unfolding transition event_of
  transition-has_key now r r' q k h hk = elim (Bool-cases (has_key k r.events)) [
    | inl seen ↦
        subst (λ (x : TradeRecord F M). has_key k x.events ≡ true) {x = r} {y = r'} (ground arith)
          seen
    | inr new ↦
        let (s, _, _, eq) = append_event-ok now r r' q (ground arith) in
        subst (λ x. has_key k x.events ≡ true) (sym eq)
          (key-append k r.events (event_of now r s q) hk)
  ]

  -- Every record that `create` and `transition` can produce for a plan has a history: it has events,
  -- all of this trade, numbered from one without a gap, the first is PROPOSED with no state before it,
  -- and every other names the state before it and is reached from it by an allowed transition.
  pub reached-IsHistory :
      (plan : TradePlan F) (r : TradeRecord F M) → IsReached plan r → (r.plan ≡ plan) × IsHistory r
  reached-IsHistory plan _ (created now at) =
      (created_plan M now plan at, create-IsHistory now plan at)
  reached-IsHistory plan _ (moved r r' now q h e) =
      let (same, history) = reached-IsHistory plan r h in
      (transition-plan now r r' q e ∙ same, transition-IsHistory now r r' q history e)

  transition-keeps :
      (now : String) (r r' : TradeRecord F M) (q : Request M) (k : String)
      → transition now r q ≡ ok r'
      → has_key k r.events ≡ true
      → has_key k r'.events ≡ true
  unfolding transition
  transition-keeps now r r' q k h seen =
      elim (Bool-cases (some_and q.idempotency_key (λ x. has_key x r.events))) [
        | inl old ↦
            subst (λ (x : TradeRecord F M). has_key k x.events ≡ true) {x = r} {y = r'}
              (ground arith) seen
        | inr new ↦
            let (s, _, _, eq) = append_event-ok now r r' q (ground arith) in
            subst (λ x. has_key k x.events ≡ true) (sym eq)
              (key-kept k r.events (event_of now r s q) seen)
      ]

  Follows-has_key :
      (r r' : TradeRecord F M) (k : String)
      → has_key k r.events ≡ true
      → Follows r r'
      → has_key k r'.events ≡ true
  Follows-has_key r _ k seen unchanged = seen
  Follows-has_key r _ k seen (followed r₁ r₂ now q before h) =
      transition-keeps now r₁ r₂ q k h (Follows-has_key r r₁ k seen before)

  -- Behind a transition that was made under a key, and any further transitions, a request under the same
  -- key changes nothing, whatever else it asks for, as long as it names an actor.
  pub transition-once :
      (now now' : String) (r r' later : TradeRecord F M) (q q' : Request M) (k : String)
      → transition now r q ≡ ok r'
      → q.idempotency_key ≡ some k
      → Follows r' later
      → q'.idempotency_key ≡ some k
      → is_empty q'.actor ≡ false
      → transition now' later q' ≡ ok later
  unfolding transition
  transition-once now now' r r' later q q' k h hk follows hk' ha =
      let seen = Follows-has_key r' later k (transition-has_key now r r' q k h hk) follows in
      ground arith
