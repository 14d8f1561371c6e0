-- ===== src/Common/Scan.antt =====
-- A `for` loop that carries a state and appends one result for each item.
use Prim.Native.Nat.{ℕ, zero, suc, ◌-◌}
use mathlib.Core.Path.{◌≡◌, refl, ap}
use mathlib.Core.List.{List, [], ◌∷◌, ◌++◌}
use mathlib.Core.Option.{Option, none, some}
use daily_alpha_engine.Common.Lists.{length, take, drop}

module _ {S A B : Type 0} where
  unfoldable pub scan : (S → A → B × S) → S → List A → List B
  scan f s [] = []
  scan f s (a ∷ as') = (f s a).0 ∷ scan f (f s a).1 as'

  unfoldable pub scan_state : (S → A → B × S) → S → List A → S
  scan_state f s [] = s
  scan_state f s (a ∷ as') = scan_state f (f s a).1 as'

  pub scan_cons :
      (f : S → A → B × S) (s : S) (a : A) (xs : List A)
      → scan f s (a ∷ xs) ≡ (f s a).0 ∷ scan f (f s a).1 xs
  unfolding scan
  scan_cons f s a xs = refl

  pub length-scan : (f : S → A → B × S) (s : S) (xs : List A) → length (scan f s xs) ≡ length xs
  unfolding scan
  length-scan f s [] = refl
  length-scan f s (x ∷ xs) = ap suc (length-scan f (f s x).1 xs)

  pub scan-append :
      (f : S → A → B × S) (s : S) (xs ys : List A)
      → scan f s (xs ++ ys) ≡ scan f s xs ++ scan f (scan_state f s xs) ys
  unfolding scan scan_state
  scan-append f s [] ys = refl
  scan-append f s (x ∷ xs) ys = ap (λ l. (f s x).0 ∷ l) (scan-append f (f s x).1 xs ys)

-- `out = [None] * n` filled in by `for i in range(n): out[i] = f(i)`.
module _ {B : Type 0} where
  unfoldable pub tabulate : ℕ → ℕ → (ℕ → B) → List B
  tabulate zero i f = []
  tabulate (suc n) i f = f i ∷ tabulate n (suc i) f

-- `values[a:b]`
abbrev pub slice : {A : Type 0} → List A → ℕ → ℕ → List A
slice xs a b = take (b - a) (drop a xs)

-- `None if any(value is None for value in window) else window`
unfoldable pub all_some : {A : Type 0} → List (Option A) → Option (List A)
all_some [] = some []
all_some (none ∷ xs) = none
all_some (some x ∷ xs) = elim (all_some xs) [ none ↦ none | some ys ↦ some (x ∷ ys) ]

abbrev pub zip_with : {A B C : Type 0} → (A → B → C) → List A → List B → List C
zip_with f [] ys = []
zip_with f (x ∷ xs) [] = []
zip_with f (x ∷ xs) (y ∷ ys) = f x y ∷ zip_with f xs ys

-- `l[:-1]`
abbrev pub drop_last : {A : Type 0} → List A → List A
drop_last [] = []
drop_last (x ∷ []) = []
drop_last (x ∷ y ∷ l) = x ∷ drop_last (y ∷ l)

-- To run the loops in a test.
unfoldable pub scan_open : Unit {0}
unfolding scan tabulate all_some
scan_open = tt
