-- ===== src/Pine/Phases.antt =====
-- The abstract life of a position: which phase follows which, and under which signals.
pub mod Parts
pub mod Refines
use daily_alpha_engine.Common.{
  ℕ, ◌≡◌, ◌≢◌, refl, Bool, true, false, List, [], ◌∷◌, ◌++◌, map, ◌==◌, if◌then◌else◌,
}
use daily_alpha_engine.Pine.State.{
  Action, entry_long, add, partial, exit, RunnerState, ParitySignal,
}

-- Flat, or 2, 3, 4 and again 3 units held.
pub data Phase : Type 0 where
  flat starter added full harvested : Phase

unfoldable pub phase_of : {F : Type 0} → RunnerState F → Phase
phase_of s =
    if s.position_units == 0
    then flat
    else if s.harvest_done
    then harvested
    else if s.add2_done
    then full
    else if s.add1_done
    then added
    else starter

abbrev pub actions_of : {F : Type 0} → List (ParitySignal F) → List Action
actions_of signals = map (λ s. s.action) signals

-- One stage of the runner, with its signal.
pub data Stage : Phase → Action → Phase → Type 0 where
  first_add : Stage starter add added
  second_add : Stage added add full
  harvest : Stage full partial harvested

-- What one bar may do: nothing, an entry from flat, one stage, an exit from a position that is held,
-- or one stage and an exit.
pub data BarMove : Phase → List Action → Phase → Type 0 where
  rest : (ph : Phase) → BarMove ph [] ph
  enter : BarMove flat (entry_long ∷ []) starter
  advance : {ph qh : Phase} {a : Action} → Stage ph a qh → BarMove ph (a ∷ []) qh
  leave : {ph : Phase} → ph ≢ flat → BarMove ph (exit ∷ []) flat
  advance_leave : {ph qh : Phase} {a : Action} → Stage ph a qh → BarMove ph (a ∷ exit ∷ []) flat

abbrev pub units_of : Phase → ℕ
units_of flat = 0
units_of starter = 2
units_of added = 3
units_of full = 4
units_of harvested = 3
