-- ===== src/Pine/Coherent.antt =====
-- The invariant of the position and runner variables of `run_v24_parity`.
use daily_alpha_engine.Common.{
  ℕ, ◌+◌, ◌<◌, ◌≡◌, ◌⊎◌, Bool, true, false, Option, none, some, is_some,
}
use daily_alpha_engine.Pine.State.{RunnerState}

abbrev pub one : Bool → ℕ
one true = 1
one false = 0

-- A bar number that is present lies before `i`.
abbrev pub IsBelow : ℕ → Option ℕ → Type 0
IsBelow i none = Unit
IsBelow i (some b) = b < i

-- Two bar numbers are present, the first below the second.
abbrev pub IsAfter : Option ℕ → Option ℕ → Type 0
IsAfter (some a) (some b) = a < b
IsAfter _ _ = ⊥

-- Before the bar with index `i`: the units held are fixed by the runner's flags, the flags are set in
-- order, and the bars at which they were set are present, in order, and below `i`.
pub record IsCoherent {F : Type 0} (i : ℕ) (s : RunnerState F) : Type 0 where
  pub units :
      (s.position_units ≡ 0)
      ⊎ (s.position_units + one s.harvest_done ≡ 2 + one s.add1_done + one s.add2_done)
  pub add1_first : s.add2_done ≡ true → s.add1_done ≡ true
  pub add2_first : s.harvest_done ≡ true → s.add2_done ≡ true
  pub flat : s.position_units ≡ 0 → s.add1_done ≡ false
  pub priced : 0 < s.position_units → is_some s.position_avg_price ≡ true
  pub entered : 0 < s.position_units → is_some s.entry_signal_bar ≡ true
  pub entry_below : IsBelow i s.entry_signal_bar
  pub add1_below : IsBelow i s.add1_bar
  pub add2_below : IsBelow i s.add2_bar
  pub add1_after : s.add1_done ≡ true → IsAfter s.entry_signal_bar s.add1_bar
  pub add2_after : s.add2_done ≡ true → IsAfter s.add1_bar s.add2_bar
