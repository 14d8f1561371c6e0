-- ===== src/Pine/Fills/Flow.antt =====
-- The quantities of the signals of one bar against the units held.
use Prim.Native.String.{String}
use daily_alpha_engine.Common.{ℕ, ◌+◌, ◌≡◌, Bool, false, List, [], ◌∷◌, arith}
use daily_alpha_engine.Common.Floats.{Floats}
use daily_alpha_engine.Pine.Bars.{V24Parameters}
use daily_alpha_engine.Pine.State.{
  entry_long, add, partial, exit, RunnerState, BarContext, ParitySignal,
}
use daily_alpha_engine.Pine.Gap.{GapView}
use daily_alpha_engine.Pine.Entry.{EntryView}
use daily_alpha_engine.Pine.Runner.{RunnerView, begin_entry, mark_add1, mark_add2, mark_harvest}
use daily_alpha_engine.Pine.Runner.Marks.{RunnerCase, entered, kept, added1, added2, harvested}
use daily_alpha_engine.Pine.Coherent.{IsCoherent}
use daily_alpha_engine.Pine.Fills.{
  entry_signal, add1_order, add2_order, harvest_order, exit_order, long_exit, signals_of,
  fill_entry, fill_add, fill_harvest, forget_runner, flatten, fill_exit, fill_end, drop_stale,
  fills,
}
use daily_alpha_engine.Pine.Phases.Parts.{
  closes_at_end_holds, closes_at_end_flat, long_exit-no_reasons,
}

-- Units that the signals buy, and units that they sell.
pub bought : {F : Type 0} → List (ParitySignal F) → ℕ
bought [] = 0
bought (s ∷ l) =
    elim s.action [ entry_long ↦ s.quantity_units | add ↦ s.quantity_units | _ ↦ 0 ] + bought l

pub sold : {F : Type 0} → List (ParitySignal F) → ℕ
sold [] = 0
sold (s ∷ l) =
    elim s.action [ partial ↦ s.quantity_units | exit ↦ s.quantity_units | _ ↦ 0 ] + sold l

-- An exit on the bar of an add, or on the bar of a harvest.
pub exits_behind_add : {F : Type 0} → List (ParitySignal F) → ℕ
exits_behind_add (s ∷ t ∷ l) = elim s.action [ add ↦ 1 | _ ↦ 0 ]
exits_behind_add _ = 0

pub exits_behind_harvest : {F : Type 0} → List (ParitySignal F) → ℕ
exits_behind_harvest (s ∷ t ∷ l) = elim s.action [ partial ↦ 1 | _ ↦ 0 ]
exits_behind_harvest _ = 0

module _ {F : Type 0} ⦃fl : Floats F⦄ (symbol : String) (p : V24Parameters F) (c : BarContext F)
    (g : GapView F) (in_window : Bool) (e : EntryView) (s : RunnerState F) (r : RunnerView F)
    (coherent : IsCoherent c.index s)
    (exits_held : s.position_units ≡ 0 → r.exit_reasons ≡ []) where
  abbrev emitted : List (ParitySignal F)
  emitted = signals_of symbol p c g in_window e r s

  abbrev Flows : Type 0
  Flows =
      s.position_units + bought emitted + exits_behind_harvest emitted
      ≡ (fills p c in_window e r s).position_units + sold emitted + exits_behind_add emitted

  program : Unit {0}
  unfolding bought sold exits_behind_add exits_behind_harvest entry_signal add1_order add2_order
      harvest_order exit_order signals_of fill_entry fill_add fill_harvest forget_runner flatten
      fill_exit fill_end drop_stale fills
  program = tt

  pub fills-flow : RunnerCase c e s r → Flows
  unfolding program begin_entry mark_add1 mark_add2 mark_harvest
  fills-flow (entered x z f m) =
      let no_exit = long_exit-no_reasons in_window r (exits_held z) in
      let no_end = closes_at_end_flat p c s false z in
      simp (x, f.add1, f.add2, f.harvest, m, no_exit, no_end) (ground arith)
  fills-flow (kept x f m) =
      simp (x, f.add1, f.add2, f.harvest, m)
        (ground (arith, closes_at_end_holds p c s (long_exit in_window r)))
  fills-flow (added1 x held fresh f m) =
      simp (x, f.add1, f.add2, f.harvest, m)
        (ground (arith, closes_at_end_holds p c s (long_exit in_window r)))
  fills-flow (added2 x held first fresh f m) =
      simp (x, f.add1, f.add2, f.harvest, m)
        (ground (arith, closes_at_end_holds p c s (long_exit in_window r)))
  fills-flow (harvested x held full fresh f m) =
      simp (x, f.add1, f.add2, f.harvest, m)
        (ground (arith, closes_at_end_holds p c s (long_exit in_window r)))
