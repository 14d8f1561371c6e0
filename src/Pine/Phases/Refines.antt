-- ===== src/Pine/Phases/Refines.antt =====
-- The signals and fills of one bar refine the abstract life of a position.
use Prim.Native.String.{String}
use mathlib.Core.Bool.{false≢true}
use daily_alpha_engine.Common.{
  ◌<◌, ◌≡◌, ◌≢◌, refl, sym, Bool, true, false, [], ◌∷◌, ◌++◌, if◌then◌else◌, when, arith,
}
use daily_alpha_engine.Common.Floats.{Floats}
use daily_alpha_engine.Pine.Bars.{V24Parameters}
use daily_alpha_engine.Pine.State.{Action, exit, RunnerState, BarContext}
use daily_alpha_engine.Pine.Gap.{GapView}
use daily_alpha_engine.Pine.Entry.{EntryView}
use daily_alpha_engine.Pine.Runner.{RunnerView}
use daily_alpha_engine.Pine.Runner.Marks.{entered, kept, added1, added2, harvested, RunnerCase}
use daily_alpha_engine.Pine.Coherent.{IsCoherent}
use daily_alpha_engine.Pine.Fills.{signals_of, long_exit, closes_at_end, fills}
use daily_alpha_engine.Pine.Phases.{
  Phase, flat, Stage, BarMove, rest, enter, advance, leave, advance_leave, phase_of, actions_of,
  first_add, second_add, harvest,
}
use daily_alpha_engine.Pine.Phases.Parts.{
  actions_of-signals_of, phase_of-fills, closes_at_end_holds, closes_at_end_flat,
  long_exit-no_reasons, open_phase-entered, open_phase-kept, open_phase-added1, open_phase-added2,
  open_phase-harvested,
}

-- The exits behind one stage: at most one of the two kinds is emitted.
Stage-move :
    {ph qh : Phase} {a : Action} (x y : Bool)
    → Stage ph a qh
    → (y ≡ true → x ≡ false)
    → BarMove ph (a ∷ (when x exit ++ when y exit)) (if y then flat else if x then flat else qh)
Stage-move true true st h = absurd (false≢true (sym (h refl)))
Stage-move true false st h = advance_leave st
Stage-move false true st h = advance_leave st
Stage-move false false st h = advance st

-- The same with no stage.
rest_move :
    {ph : Phase} (x y : Bool)
    → (x ≡ true → ph ≢ flat)
    → (y ≡ true → ph ≢ flat)
    → (y ≡ true → x ≡ false)
    → BarMove ph (when x exit ++ when y exit) (if y then flat else if x then flat else ph)
rest_move true true hx hy h = absurd (false≢true (sym (h refl)))
rest_move true false hx hy h = leave (hx refl)
rest_move false true hx hy h = leave (hy refl)
rest_move {ph} false false hx hy h = rest ph

phase_of_held : {F : Type 0} (s : RunnerState F) → 0 < s.position_units → phase_of s ≢ flat
unfolding phase_of
phase_of_held s h = ground arith

module _ {F : Type 0} ⦃fl : Floats F⦄ (symbol : String) (p : V24Parameters F) (c : BarContext F)
    (g : GapView F) (in_window : Bool) (e : EntryView) (s : RunnerState F) (r : RunnerView F)
    (coherent : IsCoherent c.index s)
    (exits_held : s.position_units ≡ 0 → r.exit_reasons ≡ []) where
  leaves : Bool
  leaves = long_exit in_window r

  ends : Bool
  ends = closes_at_end p c s (long_exit in_window r)

  leaves_held : leaves ≡ true → phase_of s ≢ flat
  unfolding leaves
  leaves_held h = phase_of_held s (ground (arith, exits_held, long_exit-no_reasons in_window r))

  ends_held : ends ≡ true → phase_of s ≢ flat
  unfolding ends
  ends_held h = phase_of_held s (closes_at_end_holds p c s _ h).0

  ends_alone : ends ≡ true → leaves ≡ false
  unfolding ends leaves
  ends_alone h = (closes_at_end_holds p c s _ h).1

  pub fills-move :
      RunnerCase c e s r
      → BarMove
          (phase_of s)
          (actions_of (signals_of symbol p c g in_window e r s))
          (phase_of (fills p c in_window e r s))
  unfolding leaves ends
  fills-move (entered x z f m) =
      let (before, after) = open_phase-entered c e s r coherent f x z m in
      let no_exit = long_exit-no_reasons in_window r (exits_held z) in
      let no_end = closes_at_end_flat p c s false z in
      simp
        (
          actions_of-signals_of symbol p c g in_window e r s,
          phase_of-fills p c in_window e r s,
          x,
          f.add1,
          f.add2,
          f.harvest,
          no_end,
          no_exit,
          before,
          after,
        )
        enter
  fills-move (kept x f m) =
      simp
        (
          actions_of-signals_of symbol p c g in_window e r s,
          phase_of-fills p c in_window e r s,
          x,
          f.add1,
          f.add2,
          f.harvest,
          open_phase-kept c e s r coherent f x m,
        )
        (rest_move leaves ends leaves_held ends_held ends_alone)
  fills-move (added1 x held fresh f m) =
      let (before, after) = open_phase-added1 c e s r coherent x held fresh f m in
      simp
        (
          actions_of-signals_of symbol p c g in_window e r s,
          phase_of-fills p c in_window e r s,
          x,
          f.add1,
          f.add2,
          f.harvest,
          before,
          after,
        )
        (Stage-move leaves ends first_add ends_alone)
  fills-move (added2 x held first fresh f m) =
      let (before, after) = open_phase-added2 c e s r coherent x held first fresh f m in
      simp
        (
          actions_of-signals_of symbol p c g in_window e r s,
          phase_of-fills p c in_window e r s,
          x,
          f.add1,
          f.add2,
          f.harvest,
          before,
          after,
        )
        (Stage-move leaves ends second_add ends_alone)
  fills-move (harvested x held done fresh f m) =
      let (before, after) = open_phase-harvested c e s r coherent x held done fresh f m in
      simp
        (
          actions_of-signals_of symbol p c g in_window e r s,
          phase_of-fills p c in_window e r s,
          x,
          f.add1,
          f.add2,
          f.harvest,
          before,
          after,
        )
        (Stage-move leaves ends harvest ends_alone)
