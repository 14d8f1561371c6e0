-- ===== src/Common/Prefixes.antt =====
-- One list begins with another; the loops of this development keep that.
use Prim.Native.Nat.{ℕ, zero, suc, ◌+◌, ◌-◌, ◌≤◌, ◌<◌}
use mathlib.Core.Path.{◌≡◌, refl, sym, ap}
use mathlib.Core.List.{List, [], ◌∷◌, ◌++◌, map}
use mathlib.Core.Option.{some}
use native.Mathlib.Omega.{arith}
use daily_alpha_engine.Common.Lists.{length, get_elem?, take, drop}
use daily_alpha_engine.Common.Scan.{scan, tabulate, slice, zip_with, drop_last}

module _ {A : Type 0} where
  -- `zs` begins with `xs`.
  abbrev pub Begins : List A → List A → Type 0
  Begins [] zs = Unit
  Begins (x ∷ xs) [] = ⊥
  Begins (x ∷ xs) (z ∷ zs) = (x ≡ z) × Begins xs zs

  pub Begins-append : (xs ys : List A) → Begins xs (xs ++ ys)
  Begins-append [] ys = tt
  Begins-append (x ∷ xs) ys = (refl, Begins-append xs ys)

  pub Begins-length : (xs zs : List A) → Begins xs zs → length xs ≤ length zs
  Begins-length [] zs h = omega arith
  Begins-length (x ∷ xs) [] h = absurd h
  Begins-length (x ∷ xs) (z ∷ zs) h = omega (arith, Begins-length xs zs h.1)

  pub Begins-take : (xs zs : List A) → Begins xs zs → take (length xs) zs ≡ xs
  Begins-take [] zs h = refl
  Begins-take (x ∷ xs) [] h = absurd h
  Begins-take (x ∷ xs) (z ∷ zs) h = ground (arith, Begins-take xs zs h.1)

  pub take_of_Begins : (n : ℕ) (xs zs : List A) → Begins xs zs → length xs ≡ n → take n zs ≡ xs
  take_of_Begins n xs zs h e = rw (← e) (Begins-take xs zs h)

  pub get_elem?-Begins :
      (xs zs : List A) (i : ℕ) → Begins xs zs → i < length xs → get_elem? zs i ≡ get_elem? xs i
  get_elem?-Begins [] zs i h lt = elim lt [ ]
  get_elem?-Begins (x ∷ xs) [] i h lt = absurd h
  get_elem?-Begins (x ∷ xs) (z ∷ zs) zero h lt = ap some (sym h.0)
  get_elem?-Begins (x ∷ xs) (z ∷ zs) (suc i) h lt = get_elem?-Begins xs zs i h.1 (omega arith)

  take-Begins : (n : ℕ) (xs zs : List A) → Begins xs zs → n ≤ length xs → take n zs ≡ take n xs
  take-Begins zero xs zs h le = refl
  take-Begins (suc n) [] zs h le = absurd (omega arith)
  take-Begins (suc n) (x ∷ xs) [] h le = absurd h
  take-Begins (suc n) (x ∷ xs) (z ∷ zs) h le = ground (arith, take-Begins n xs zs h.1)

  drop-Begins : (n : ℕ) (xs zs : List A) → Begins xs zs → Begins (drop n xs) (drop n zs)
  drop-Begins zero xs zs h = h
  drop-Begins (suc n) [] zs h = tt
  drop-Begins (suc n) (x ∷ xs) [] h = absurd h
  drop-Begins (suc n) (x ∷ xs) (z ∷ zs) h = drop-Begins n xs zs h.1

  length-drop : (n : ℕ) (xs : List A) → length (drop n xs) ≡ length xs - n
  length-drop zero xs = omega arith
  length-drop (suc n) [] = omega arith
  length-drop (suc n) (x ∷ xs) = omega (arith, length-drop n xs)

  pub slice-Begins :
      (a b : ℕ) (xs zs : List A) → Begins xs zs → b ≤ length xs → slice zs a b ≡ slice xs a b
  slice-Begins a b xs zs h le =
      take-Begins (b - a) (drop a xs) (drop a zs) (drop-Begins a xs zs h)
        (omega (arith, length-drop a xs))

  pub drop_last-Begins : (xs zs : List A) → Begins xs zs → Begins (drop_last xs) (drop_last zs)
  drop_last-Begins [] zs h = tt
  drop_last-Begins (x ∷ []) zs h = tt
  drop_last-Begins (x ∷ y ∷ xs) [] h = absurd h
  drop_last-Begins (x ∷ y ∷ xs) (z ∷ []) h = absurd h.1
  drop_last-Begins (x ∷ y ∷ xs) (z ∷ w ∷ zs) h = (h.0, drop_last-Begins (y ∷ xs) (w ∷ zs) h.1)

  pub length-drop_last : (xs : List A) → length (drop_last xs) ≡ length xs - 1
  length-drop_last [] = omega arith
  length-drop_last (x ∷ []) = omega arith
  length-drop_last (x ∷ y ∷ xs) = omega (arith, length-drop_last (y ∷ xs))

  pub tabulate-Begins :
      (n m i : ℕ) (f g : ℕ → A)
      → n ≤ m
      → ((j : ℕ) → j < i + n → f j ≡ g j)
      → Begins (tabulate n i f) (tabulate m i g)
  unfolding tabulate
  tabulate-Begins zero m i f g le h = tt
  tabulate-Begins (suc n) zero i f g le h = absurd (omega arith)
  tabulate-Begins (suc n) (suc m) i f g le h =
      (h i (omega arith), tabulate-Begins n m (suc i) f g (omega arith) (λ j lt. h j (omega arith)))

  pub length-tabulate : (n i : ℕ) (f : ℕ → A) → length (tabulate n i f) ≡ n
  unfolding tabulate
  length-tabulate zero i f = refl
  length-tabulate (suc n) i f = ap suc (length-tabulate n (suc i) f)

module _ {A B : Type 0} where
  pub map-Begins : (f : A → B) (xs zs : List A) → Begins xs zs → Begins (map f xs) (map f zs)
  map-Begins f [] zs h = tt
  map-Begins f (x ∷ xs) [] h = absurd h
  map-Begins f (x ∷ xs) (z ∷ zs) h = (ap f h.0, map-Begins f xs zs h.1)

module _ {S A B : Type 0} where
  -- A loop that reads only the items so far. Two bodies that agree on the first list may differ later.
  pub scan-Begins :
      (f : S → A → B × S) (s : S) (xs zs : List A)
      → Begins xs zs
      → Begins (scan f s xs) (scan f s zs)
  unfolding scan
  scan-Begins f s [] zs h = tt
  scan-Begins f s (x ∷ xs) [] h = absurd h
  scan-Begins f s (x ∷ xs) (z ∷ zs) (e, h) = rw (← e) (refl, scan-Begins f (f s x).1 xs zs h)

module _ {A B C : Type 0} where
  pub zip_with-Begins :
      (f : A → B → C) (xs zs : List A) (ys ws : List B)
      → Begins xs zs
      → Begins ys ws
      → Begins (zip_with f xs ys) (zip_with f zs ws)
  zip_with-Begins f [] zs ys ws h k = tt
  zip_with-Begins f (x ∷ xs) [] ys ws h k = absurd h
  zip_with-Begins f (x ∷ xs) (z ∷ zs) [] ws h k = tt
  zip_with-Begins f (x ∷ xs) (z ∷ zs) (y ∷ ys) [] h k = absurd k
  zip_with-Begins f (x ∷ xs) (z ∷ zs) (y ∷ ys) (w ∷ ws) h k =
      (cc (h.0, k.0), zip_with-Begins f xs zs ys ws h.1 k.1)

  pub length-zip_with :
      (f : A → B → C) (xs : List A) (ys : List B)
      → length xs ≡ length ys
      → length (zip_with f xs ys) ≡ length xs
  length-zip_with f [] ys h = refl
  length-zip_with f (x ∷ xs) [] h = absurd (omega arith)
  length-zip_with f (x ∷ xs) (y ∷ ys) h = ap suc (length-zip_with f xs ys (omega arith))
