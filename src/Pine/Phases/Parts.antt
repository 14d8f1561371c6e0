-- ===== src/Pine/Phases/Parts.antt =====
-- The phases and actions of the parts of one bar.
use mathlib.Core.List.{map-append}
use Prim.Native.String.{String}
use daily_alpha_engine.Common.{
  ℕ, ◌<◌, ◌≡◌, refl, Bool, true, false, [], ◌++◌, map, if◌then◌else◌, when, arith,
}
use daily_alpha_engine.Common.Floats.{Floats}
use daily_alpha_engine.Pine.Bars.{V24Parameters}
use daily_alpha_engine.Pine.State.{entry_long, add, partial, exit, RunnerState, BarContext}
use daily_alpha_engine.Pine.Gap.{GapView}
use daily_alpha_engine.Pine.Entry.{EntryView}
use daily_alpha_engine.Pine.Runner.{RunnerView, begin_entry, mark_add1, mark_add2, mark_harvest}
use daily_alpha_engine.Pine.Runner.Marks.{Fires}
use daily_alpha_engine.Pine.Coherent.{IsCoherent}
use daily_alpha_engine.Pine.Fills.{
  signals_of, entry_signal, add1_order, add2_order, harvest_order, exit_order, long_exit,
  closes_at_end, fill_entry, fill_add, fill_harvest, forget_runner, flatten, fill_exit, fill_end,
  drop_stale, fills,
}
use daily_alpha_engine.Pine.Phases.{
  Phase, flat, starter, added, full, phase_of, actions_of, units_of,
}

map-when : {A B : Type 0} (f : A → B) (b : Bool) (a : A) → map f (when b a) ≡ when b (f a)
map-when f true a = refl
map-when f false a = refl

phase_of-drop_stale :
    {F : Type 0} (p : V24Parameters F) (c : BarContext F) (done : Bool) (s : RunnerState F)
    → phase_of (drop_stale p c done s) ≡ phase_of s
unfolding phase_of drop_stale forget_runner
phase_of-drop_stale p c done s = ground arith

phase_of-fill_exit :
    {F : Type 0} (b : Bool) (s : RunnerState F)
    → phase_of (fill_exit b s) ≡ (if b then flat else phase_of s)
unfolding phase_of fill_exit flatten forget_runner
phase_of-fill_exit b s = ground arith

phase_of-fill_end :
    {F : Type 0} (b : Bool) (s : RunnerState F)
    → phase_of (fill_end b s) ≡ (if b then flat else phase_of s)
unfolding phase_of fill_end flatten forget_runner
phase_of-fill_end b s = ground arith

-- The actions of one bar, in the order in which they are emitted.
pub actions_of-signals_of :
    {F : Type 0} ⦃fl : Floats F⦄ (symbol : String) (p : V24Parameters F) (c : BarContext F)
    (g : GapView F) (in_window : Bool) (e : EntryView) (r : RunnerView F) (s : RunnerState F)
    → actions_of (signals_of symbol p c g in_window e r s)
      ≡ when e.long_entry entry_long
        ++ (when r.add1 add
            ++ (when r.add2 add
                ++ (when r.harvest partial
                    ++ (when (long_exit in_window r) exit
                        ++ when (closes_at_end p c s (long_exit in_window r)) exit))))
unfolding signals_of entry_signal add1_order add2_order harvest_order exit_order
actions_of-signals_of symbol p c g in_window e r s = simp (map-append, map-when)

-- The phase before the exits of the bar, and how the exits end it.
pub open_phase : {F : Type 0} ⦃fl : Floats F⦄ → BarContext F → EntryView → RunnerView F → Phase
open_phase c e r = phase_of (
    fill_harvest r.harvest
      (fill_add c r.add2 (fill_add c r.add1 (fill_entry c e.long_entry r.marked))))

pub phase_of-fills :
    {F : Type 0} ⦃fl : Floats F⦄ (p : V24Parameters F) (c : BarContext F) (in_window : Bool)
    (e : EntryView) (r : RunnerView F) (s : RunnerState F)
    → phase_of (fills p c in_window e r s) ≡ (
        if closes_at_end p c s (long_exit in_window r)
        then flat
        else if long_exit in_window r
        then flat
        else open_phase c e r)
unfolding fills open_phase
phase_of-fills p c in_window e r s =
    rw (phase_of-drop_stale, phase_of-fill_end, phase_of-fill_exit) refl

pub closes_at_end_holds :
    {F : Type 0} (p : V24Parameters F) (c : BarContext F) (s : RunnerState F) (exits : Bool)
    → closes_at_end p c s exits ≡ true
    → (0 < s.position_units) × (exits ≡ false)
unfolding closes_at_end
closes_at_end_holds p c s exits h = ground arith

pub closes_at_end_flat :
    {F : Type 0} (p : V24Parameters F) (c : BarContext F) (s : RunnerState F) (exits : Bool)
    → s.position_units ≡ 0
    → closes_at_end p c s exits ≡ false
unfolding closes_at_end
closes_at_end_flat p c s exits h = ground arith

pub long_exit-no_reasons :
    {F : Type 0} (in_window : Bool) (r : RunnerView F)
    → r.exit_reasons ≡ []
    → long_exit in_window r ≡ false
unfolding long_exit
long_exit-no_reasons in_window r h = ground arith

module _ {F : Type 0} ⦃fl : Floats F⦄ (c : BarContext F) (e : EntryView) (s : RunnerState F)
    (r : RunnerView F) (coherent : IsCoherent c.index s) (f : Fires r false false false) where
  pub open_phase-entered :
      e.long_entry ≡ true
      → s.position_units ≡ 0
      → r.marked ≡ begin_entry c e s
      → (phase_of s ≡ flat) × (open_phase c e r ≡ starter)
  unfolding open_phase phase_of fill_harvest fill_add fill_entry begin_entry
  open_phase-entered x z m = rw (f.add1, f.add2, f.harvest, m, x) (ground arith)

  pub open_phase-kept : e.long_entry ≡ false → r.marked ≡ s → open_phase c e r ≡ phase_of s
  unfolding open_phase fill_harvest fill_add fill_entry
  open_phase-kept x m = rw (f.add1, f.add2, f.harvest, m, x) refl

module _ {F : Type 0} ⦃fl : Floats F⦄ (c : BarContext F) (e : EntryView) (s : RunnerState F)
    (r : RunnerView F) (coherent : IsCoherent c.index s) (x : e.long_entry ≡ false)
    (held : 0 < s.position_units) where
  pub open_phase-added1 :
      s.add1_done ≡ false
      → Fires r true false false
      → r.marked ≡ mark_add1 c true s
      → (phase_of s ≡ starter) × (open_phase c e r ≡ added)
  unfolding open_phase phase_of fill_harvest fill_add fill_entry mark_add1
  open_phase-added1 z f m = rw (f.add1, f.add2, f.harvest, m, x) (ground arith)

  pub open_phase-added2 :
      s.add1_done ≡ true
      → s.add2_done ≡ false
      → Fires r false true false
      → r.marked ≡ mark_add2 c true s
      → (phase_of s ≡ added) × (open_phase c e r ≡ full)
  unfolding open_phase phase_of fill_harvest fill_add fill_entry mark_add2
  open_phase-added2 y z f m = rw (f.add1, f.add2, f.harvest, m, x) (ground arith)

  pub open_phase-harvested :
      s.add2_done ≡ true
      → s.harvest_done ≡ false
      → Fires r false false true
      → r.marked ≡ mark_harvest true s
      → (phase_of s ≡ full) × (open_phase c e r ≡ Phase.harvested)
  unfolding open_phase phase_of fill_harvest fill_add fill_entry mark_harvest
  open_phase-harvested y z f m = rw (f.add1, f.add2, f.harvest, m, x) (ground arith)

-- In a coherent state the phase fixes the units.
pub phase_of-units :
    {F : Type 0} {i : ℕ} (s : RunnerState F)
    → IsCoherent i s
    → s.position_units ≡ units_of (phase_of s)
unfolding phase_of
phase_of-units s h = ground arith
