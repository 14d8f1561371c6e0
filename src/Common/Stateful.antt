-- ===== src/Common/Stateful.antt =====
-- Code that changes a state `S` and may raise an `E`: what was written before a raise stays written.
use mathlib.Core.Bool.{Bool, true, false}
use mathlib.Core.Path.{◌≡◌, refl}
use native.Mathlib.Omega.{arith}
use daily_alpha_engine.Common.Tests.{if◌then◌else◌}
use daily_alpha_engine.Common.Results.{Result, ok, err}

abbrev pub Op : Type 0 → Type 0 → Type 0 → Type 0
Op S E A = S → S × Result E A

abbrev pub return : {S E A : Type 0} → A → Op S E A
return result s = (s, ok result)

abbrev pub raise : {S E A : Type 0} → E → Op S E A
raise raised s = (s, err raised)

-- `if test: raise e`
unfoldable pub check : {S E : Type 0} → Bool → E → Op S E (Unit {0})
check true raised s = (s, err raised)
check false raised s = (s, ok tt)

-- What follows a call, by its outcome.
abbrev pub outcome :
    {S E D A B : Type 0} → S × Result D A → (D → Op S E B) → (A → Op S E B) → S × Result E B
outcome (s, ok result) handler rest = rest result s
outcome (s, err raised) handler rest = handler raised s

-- `try: ... except`: the handler runs where the call raises, the rest where it does not.
abbrev pub attempt : {S E D A B : Type 0} → Op S D A → (D → Op S E B) → (A → Op S E B) → Op S E B
attempt call handler rest s = outcome (call s) handler rest

-- A call whose error is reported as one of the caller's.
abbrev pub wrapped : {S D E A : Type 0} → (D → E) → Op S D A → Op S E A
wrapped tag call = attempt call (λ raised. raise (tag raised)) return

-- A computation without a state.
abbrev pub lifted : {S D E A : Type 0} → (D → E) → Result D A → Op S E A
lifted tag (ok result) s = (s, ok result)
lifted tag (err raised) s = (s, err (tag raised))

infixl 5 ◌>>=◌ ◌>>◌
abbrev pub ◌>>=◌ : {S E A B : Type 0} → Op S E A → (A → Op S E B) → Op S E B
call >>= rest = attempt call raise rest

abbrev pub ◌>>◌ : {S E B : Type 0} → Op S E (Unit {0}) → Op S E B → Op S E B
first >> second = first >>= λ _. second

-- A call that starts where `P` holds ends where `Q` does, whatever its outcome.
pub record Leads {S E A : Type 0} (P : S → Type 0) (call : Op S E A) (Q : S → Type 0) : Type 0 where
  pub from : (s : S) → P s → Q (call s).0

pub Leads_same : {S E A : Type 0} {P : S → Type 0} (result : A) → Leads P (return {E = E} result) P
Leads_same result = record { from = λ s h. h }

pub Leads_raise : {S E A : Type 0} {P : S → Type 0} (raised : E) → Leads P (raise {A = A} raised) P
Leads_raise raised = record { from = λ s h. h }

pub Leads_if :
    {S E A : Type 0} {P Q : S → Type 0} (b : Bool) {x y : Op S E A}
    → Leads P x Q
    → Leads P y Q
    → Leads P (if b then x else y) Q
Leads_if true hx hy = hx
Leads_if false hx hy = hy

module _ {S E D A B : Type 0} {R Q : S → Type 0} where
  after_outcome :
      (p : S × Result D A) (handler : D → Op S E B) (rest : A → Op S E B)
      → ((raised : D) → Leads R (handler raised) Q)
      → ((result : A) → Leads R (rest result) Q)
      → R p.0
      → Q (outcome p handler rest).0
  after_outcome (s, ok result) handler rest failed done h = (done result).from s h
  after_outcome (s, err raised) handler rest failed done h = (failed raised).from s h

  pub Leads_attempt :
      {P : S → Type 0} {call : Op S D A} {handler : D → Op S E B} {rest : A → Op S E B}
      → Leads P call R
      → ((raised : D) → Leads R (handler raised) Q)
      → ((result : A) → Leads R (rest result) Q)
      → Leads P (attempt call handler rest) Q
  Leads_attempt {call} {handler} {rest} first failed done = record {
    from = λ s h. after_outcome (call s) handler rest failed done (first.from s h);
  }

-- A test before a call that is made only where the test fails.
pub guarded :
    {S E A : Type 0} {P : S → Type 0} (test : Bool) (raised : E) {rest : Op S E A}
    → (test ≡ false → Leads P rest P)
    → Leads P (check test raised >> rest) P
unfolding check
guarded true raised leads = Leads_raise raised
guarded false raised leads = record { from = (leads refl).from }

-- What came before a result.
pub outcome_ok :
    {S E A B : Type 0} (p : S × Result E A) (rest : A → Op S E B) {s' : S} {b : B}
    → outcome p raise rest ≡ (s', ok b)
    → (s : S) × (a : A) × (p ≡ (s, ok a)) × (rest a s ≡ (s', ok b))
outcome_ok (s, ok a) rest h = (s, a, refl, h)
outcome_ok (s, err raised) rest h = absurd (ground arith)

-- The same where the handler never returns.
pub outcome_done :
    {S E D A B : Type 0} (p : S × Result D A) (handler : D → Op S E B) (rest : A → Op S E B)
    {s' : S} {b : B}
    → ((s : S) (raised : D) → handler raised s ≡ (s', ok b) → ⊥)
    → outcome p handler rest ≡ (s', ok b)
    → (s : S) × (a : A) × (p ≡ (s, ok a)) × (rest a s ≡ (s', ok b))
outcome_done (s, ok a) handler rest never h = (s, a, refl, h)
outcome_done (s, err raised) handler rest never h = absurd (never s raised h)

pub wrapped_ok :
    {S D E A : Type 0} (tag : D → E) (p : S × Result D A) {s' : S} {a : A}
    → outcome p (λ raised. raise (tag raised)) return ≡ (s', ok a)
    → p ≡ (s', ok a)
wrapped_ok tag (s, ok a) h = ground arith
wrapped_ok tag (s, err raised) h = absurd (ground arith)

pub lifted_ok :
    {S D E A : Type 0} (tag : D → E) (r : Result D A) (s : S) {s' : S} {a : A}
    → lifted tag r s ≡ (s', ok a)
    → (r ≡ ok a) × (s ≡ s')
lifted_ok tag (ok a) s h = (ground arith, ground arith)
lifted_ok tag (err raised) s h = absurd (ground arith)

pub check_ok :
    {S E A : Type 0} (test : Bool) (raised : E) (rest : Op S E A) (s : S) {s' : S} {a : A}
    → (check test raised >> rest) s ≡ (s', ok a)
    → (test ≡ false) × (rest s ≡ (s', ok a))
unfolding check
check_ok true raised rest s h = absurd (ground arith)
check_ok false raised rest s h = (refl, h)

pub check_passes :
    {S E A : Type 0} (test : Bool) (raised : E) (rest : Op S E A) (s : S)
    → test ≡ false
    → (check test raised >> rest) s ≡ rest s
unfolding check
check_passes true raised rest s h = absurd (ground arith)
check_passes false raised rest s h = refl
