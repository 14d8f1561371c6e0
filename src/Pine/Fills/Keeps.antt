-- ===== src/Pine/Fills/Keeps.antt =====
-- The fills of one bar keep the position and runner variables coherent.
use daily_alpha_engine.Common.{ℕ, ◌+◌, Bool, arith}
use daily_alpha_engine.Common.Floats.{Floats}
use daily_alpha_engine.Pine.Bars.{V24Parameters}
use daily_alpha_engine.Pine.State.{RunnerState, BarContext}
use daily_alpha_engine.Pine.Entry.{EntryView}
use daily_alpha_engine.Pine.Runner.{RunnerView, begin_entry, mark_add1, mark_add2, mark_harvest}
use daily_alpha_engine.Pine.Runner.Marks.{RunnerCase, entered, kept, added1, added2, harvested}
use daily_alpha_engine.Pine.Coherent.{IsCoherent}
use daily_alpha_engine.Pine.Fills.{
  fill_entry, fill_add, fill_harvest, flatten, forget_runner, fill_exit, fill_end, drop_stale,
  fills,
}

module _ {F : Type 0} ⦃fl : Floats F⦄ where
  flatten-IsCoherent : (i : ℕ) (s : RunnerState F) → IsCoherent i (flatten s)
  unfolding flatten forget_runner
  flatten-IsCoherent i s = ground arith

  fill_exit-IsCoherent :
      (i : ℕ) (fired : Bool) (s : RunnerState F) → IsCoherent i s → IsCoherent i (fill_exit fired s)
  unfolding fill_exit
  fill_exit-IsCoherent i fired s h = ground (arith, flatten-IsCoherent i s)

  fill_end-IsCoherent :
      (i : ℕ) (fired : Bool) (s : RunnerState F) → IsCoherent i s → IsCoherent i (fill_end fired s)
  unfolding fill_end
  fill_end-IsCoherent i fired s h = ground (arith, flatten-IsCoherent i s)

  drop_stale-IsCoherent :
      (i : ℕ) (p : V24Parameters F) (c : BarContext F) (done : Bool) (s : RunnerState F)
      → IsCoherent i s
      → IsCoherent i (drop_stale p c done s)
  unfolding drop_stale forget_runner
  drop_stale-IsCoherent i p c done s h = ground arith

  module _ (c : BarContext F) (e : EntryView) where
    open_fills : RunnerView F → RunnerState F
    open_fills r =
        fill_harvest r.harvest
          (fill_add c r.add2 (fill_add c r.add1 (fill_entry c e.long_entry r.marked)))

    open_fills-IsCoherent :
        (s : RunnerState F) (r : RunnerView F)
        → IsCoherent c.index s
        → RunnerCase c e s r
        → IsCoherent (c.index + 1) (open_fills r)
    unfolding open_fills fill_harvest fill_add fill_entry begin_entry mark_add1 mark_add2
        mark_harvest
    open_fills-IsCoherent s r h (entered x flat f m) =
        rw (f.add1, f.add2, f.harvest, m, x) (ground arith)
    open_fills-IsCoherent s r h (kept x f m) = rw (f.add1, f.add2, f.harvest, m, x) (ground arith)
    open_fills-IsCoherent s r h (added1 x held fresh f m) =
        rw (f.add1, f.add2, f.harvest, m, x) (ground arith)
    open_fills-IsCoherent s r h (added2 x held first fresh f m) =
        rw (f.add1, f.add2, f.harvest, m, x) (ground arith)
    open_fills-IsCoherent s r h (harvested x held full fresh f m) =
        rw (f.add1, f.add2, f.harvest, m, x) (ground arith)

    pub fills-IsCoherent :
        (p : V24Parameters F) (in_window : Bool) (s : RunnerState F) (r : RunnerView F)
        → IsCoherent c.index s
        → RunnerCase c e s r
        → IsCoherent (c.index + 1) (fills p c in_window e r s)
    unfolding fills open_fills
    fills-IsCoherent p in_window s r h k =
        drop_stale-IsCoherent _ p c _ _
          (fill_end-IsCoherent _ _ _ (fill_exit-IsCoherent _ _ _ (open_fills-IsCoherent s r h k)))
