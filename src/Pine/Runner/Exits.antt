-- ===== src/Pine/Runner/Exits.antt =====
-- A round that begins flat computes no exit.
use daily_alpha_engine.Common.{◌≡◌, refl, ◌∙◌, Bool, false, [], arith}
use daily_alpha_engine.Common.Floats.{Floats}
use daily_alpha_engine.Pine.Bars.{V24Parameters}
use daily_alpha_engine.Pine.State.{TrendState, RunnerState, BarContext}
use daily_alpha_engine.Pine.Trend.{TrendView}
use daily_alpha_engine.Pine.Entry.{EntryView}
use daily_alpha_engine.Pine.Runner.{
  begin_entry, mark_add1, mark_add2, mark_harvest, failed_breakout, break_even, exit_reasons_of,
  runner_view,
}

module _ {F : Type 0} ⦃fl : Floats F⦄ (p : V24Parameters F) (c : BarContext F) where
  failed_breakout_flat : (s : RunnerState F) → s.position_units ≡ 0 → failed_breakout p c s ≡ false
  unfolding failed_breakout
  failed_breakout_flat s h = ground arith

  exit_reasons_flat :
      (v : TrendView F) (failed : Bool) (s : RunnerState F)
      → failed ≡ false
      → s.position_units ≡ 0
      → exit_reasons_of p c v failed s ≡ []
  unfolding exit_reasons_of break_even
  exit_reasons_flat v failed s q h = rw (q, h) refl

  marks_keep_units :
      (e : EntryView) (a1 a2 h : Bool) (s : RunnerState F)
      → (mark_harvest h (mark_add2 c a2 (mark_add1 c a1 (begin_entry c e s)))).position_units
        ≡ s.position_units
  unfolding begin_entry mark_add1 mark_add2 mark_harvest
  marks_keep_units e a1 a2 h s = ground arith

  begin_entry_keeps_units :
      (e : EntryView) (s : RunnerState F) → (begin_entry c e s).position_units ≡ s.position_units
  unfolding begin_entry
  begin_entry_keeps_units e s = ground arith

  pub runner_view-exits :
      (t : TrendState F) (v : TrendView F) (e : EntryView) (s : RunnerState F)
      → s.position_units ≡ 0
      → (runner_view p c t v e s).exit_reasons ≡ []
  unfolding runner_view
  runner_view-exits t v e s h =
      exit_reasons_flat v _ _
        (failed_breakout_flat (begin_entry c e s) (begin_entry_keeps_units e s ∙ h))
        (marks_keep_units e _ _ _ s ∙ h)
