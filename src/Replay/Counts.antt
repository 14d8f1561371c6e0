-- ===== src/Replay/Counts.antt =====
-- src/daily_alpha/armed_replay.py: the counts of a run, by disposition.
use Prim.Native.String.{String}
use text.Mathlib.Text.{◌==◌}
use text.Mathlib.TextPositions.{eq_refl}
use daily_alpha_engine.Common.{
  ℕ, ◌+◌, ◌≡◌, refl, sym, ap, ◌∙◌, subst, true, false, Bool-cases, inl, inr, List, [], ◌∷◌, ◌++◌,
  if◌then◌else◌, arith,
}
use daily_alpha_engine.Paper.Dynamo.Table.{is_eq_sound}
use daily_alpha_engine.Replay.{
  Execution, Totals, Outcome, count_one, appended, reported, claimed_one,
}

-- `counts.get(disposition, 0)`
unfoldable pub count_of : String → List (String × ℕ) → ℕ
count_of d [] = 0
count_of d ((k, n) ∷ counts) = if k == d then n else count_of d counts

-- How many outcomes have this disposition.
unfoldable pub with_disposition : String → List Outcome → ℕ
with_disposition d [] = 0
with_disposition d (o ∷ os) =
    (if o.execution.disposition == d then 1 else 0) + with_disposition d os

other_key : (k x d : String) → (k == x) ≡ false → (k == d) ≡ true → (x == d) ≡ false
other_key k x d apart same = elim (Bool-cases (x == d)) [
  | inl also ↦
      let equal = is_eq_sound k d same ∙ sym (is_eq_sound x d also) in
      absurd (cc (apart, subst (λ y. (k == y) ≡ true) equal (eq_refl k)))
  | inr apart_too ↦ apart_too
]

count_of-count_one :
    (d x : String) (cs : List (String × ℕ))
    → count_of d (count_one x cs) ≡ count_of d cs + (if x == d then 1 else 0)
unfolding count_of count_one
count_of-count_one d x [] = ground arith
count_of-count_one d x ((k, n) ∷ cs) = elim (Bool-cases (k == x)) [
  | inl same ↦
      subst
        (λ y.
          count_of d (count_one y ((k, n) ∷ cs))
          ≡ count_of d ((k, n) ∷ cs) + (if y == d then 1 else 0))
        (is_eq_sound k x same) (rw (eq_refl k) (ground arith))
  | inr other ↦ rw other (elim (Bool-cases (k == d)) [
    | inl hit ↦ rw (hit, other_key k x d other hit) (omega arith)
    | inr miss ↦ rw miss (count_of-count_one d x cs)
  ])
]

with_disposition-appended :
    (d : String) (os : List Outcome) (o : Outcome)
    → with_disposition d (appended os o)
      ≡ with_disposition d os + (if o.execution.disposition == d then 1 else 0)
unfolding with_disposition appended
with_disposition-appended d [] o = omega arith
with_disposition-appended d (x ∷ os) o = omega (arith, with_disposition-appended d os o)

pub append_appended :
    {A : Type 0} (xs : List A) (x : A) (ys : List A) → appended xs x ++ ys ≡ xs ++ (x ∷ ys)
unfolding appended
append_appended [] x ys = refl
append_appended (z ∷ xs) x ys = ap (λ l. z ∷ l) (append_appended xs x ys)

pub append_nil : {A : Type 0} (xs : List A) → xs ++ [] ≡ xs
append_nil [] = refl
append_nil (x ∷ xs) = ap (λ l. x ∷ l) (append_nil xs)

-- The counts are those of the outcomes.
unfoldable pub IsCounted : Totals → Type 0
IsCounted t = (d : String) → count_of d t.outcome_counts ≡ with_disposition d t.outcomes

pub reported-IsCounted :
    (signal_id : String) (e : Execution) (t : Totals)
    → IsCounted t
    → IsCounted (reported signal_id e (claimed_one t))
unfolding IsCounted reported claimed_one
reported-IsCounted signal_id e t counted d =
    count_of-count_one d e.disposition t.outcome_counts
    ∙ ap (λ n. n + (if e.disposition == d then 1 else 0)) (counted d)
    ∙ sym (with_disposition-appended d t.outcomes (record { signal_id = signal_id; execution = e }))
