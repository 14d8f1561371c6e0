-- ===== src/Pine/Indicators/Wilder.antt =====
-- `_rma` against TradingView's definition of the Wilder average.
use mathlib.Core.List.{append_assoc}
use daily_alpha_engine.Common.{
  ℕ, zero, suc, ◌+◌, ◌-◌, ◌≡◌, refl, ap, true, false, none, some, List, [], ◌∷◌, ◌++◌, map, length,
  length-append, ◌==◌, arith,
}
use daily_alpha_engine.Common.Int.{pos}
use daily_alpha_engine.Common.Floats.{Floats}
use daily_alpha_engine.Common.Scan.{scan}
use daily_alpha_engine.Pine.Indicators.{Series, rma_step, rma}

abbrev pub missing : {F : Type 0} → ℕ → Series F → Series F
missing zero vs = vs
missing (suc n) vs = none ∷ missing n vs

abbrev pub present : {F : Type 0} → List F → Series F
present vs = map (λ v. some v) vs

same_count : (a b : ℕ) → a ≡ b → (a == b) ≡ true
same_count a b h = ground arith

less_count : (a b c : ℕ) → a + suc c ≡ b → (a == b) ≡ false
less_count a b c h = ground arith

module _ {F : Type 0} ⦃fl : Floats F⦄ where
  abbrev pub mean : ℕ → List F → F
  mean len vs = fl.div (fl.sum vs) (fl.of_int (pos len))

  -- Each value after the seed moves the average by one part in `len`.
  abbrev pub wilder : ℕ → F → List F → List F
  wilder len p [] = []
  wilder len p (v ∷ vs) =
      let q = fl.div (fl.add (fl.mul p (fl.of_int (pos (len - 1)))) v) (fl.of_int (pos len)) in
      q ∷ wilder len q vs

  scan-started :
      (len : ℕ) (seed : List F) (p : F) (vs : List F)
      → scan (rma_step len) (record { seed = seed; previous = some p }) (present vs)
        ≡ present (wilder len p vs)
  unfolding scan rma_step
  scan-started len seed p [] = refl
  scan-started len seed p (v ∷ vs) =
      let q = fl.div (fl.add (fl.mul p (fl.of_int (pos (len - 1)))) v) (fl.of_int (pos len)) in
      ap (λ l. some q ∷ l) (scan-started len seed q vs)

  scan-seeding :
      (len : ℕ) (acc : List F) (v : F) (vs later : List F)
      → length acc + suc (length vs) ≡ len
      → let m = mean len (acc ++ v ∷ vs) in
        scan (rma_step len) (record { seed = acc; previous = none }) (present ((v ∷ vs) ++ later))
        ≡ missing (length vs) (some m ∷ present (wilder len m later))
  unfolding scan rma_step
  scan-seeding len acc v [] later h =
      rw (same_count (length (acc ++ v ∷ [])) len (omega (arith, length-append acc (v ∷ [])))) (
        ap (λ l. some (mean len (acc ++ v ∷ [])) ∷ l)
          (scan-started len (acc ++ v ∷ []) (mean len (acc ++ v ∷ [])) later))
  scan-seeding len acc v (w ∷ vs) later h =
      let whole = append_assoc acc (v ∷ []) (w ∷ vs) in
      rw
        (
          less_count (length (acc ++ v ∷ [])) len (length vs)
              (omega (arith, length-append acc (v ∷ []))),
          ← whole,
        )
        (ap (λ l. none ∷ l)
          (scan-seeding len (acc ++ v ∷ []) w vs later (omega (arith, length-append acc (v ∷ [])))))

  -- Over a series with some missing values in front, then `len` values and later ones, none missing,
  -- `_rma` is missing up to the last of the `len` values, is their mean there, and from there on
  -- follows the recurrence of the Wilder average.
  pub rma-wilder :
      (len gaps : ℕ) (v : F) (vs later : List F)
      → suc (length vs) ≡ len
      → let m = mean len (v ∷ vs) in
        rma (missing gaps (present ((v ∷ vs) ++ later))) len
        ≡ missing gaps (missing (length vs) (some m ∷ present (wilder len m later)))
  unfolding rma scan rma_step
  rma-wilder len zero v vs later h = scan-seeding len [] v vs later (omega arith)
  rma-wilder len (suc gaps) v vs later h = ap (λ l. none ∷ l) (rma-wilder len gaps v vs later h)
