-- ===== src/Pine/Run/Flow.antt =====
-- The signals of a whole replay account for the units that it holds.
use Prim.Native.String.{String}
use daily_alpha_engine.Common.{ℕ, ◌+◌, ◌≡◌, sym, subst, List, [], ◌∷◌, ok}
use daily_alpha_engine.Common.Floats.{Floats}
use daily_alpha_engine.Common.Scan.{scan}
use daily_alpha_engine.Pine.Bars.{DailyBar, V24Parameters, check_parameters}
use daily_alpha_engine.Pine.Coherent.{IsCoherent}
use daily_alpha_engine.Pine.State.{BarContext, V24BarResult}
use daily_alpha_engine.Pine.Entry.Gates.{entry-flat}
use daily_alpha_engine.Pine.Runner.Exits.{runner_view-exits}
use daily_alpha_engine.Pine.Runner.Marks.{runner_view-cases}
use daily_alpha_engine.Pine.Fills.Flow.{
  bought, sold, exits_behind_add, exits_behind_harvest, fills-flow,
}
use daily_alpha_engine.Pine.Run.{
  SeriesSet, LoopState, loop_start, bar_context, bar_step, run_round, run_v24_parity,
}
use daily_alpha_engine.Pine.Run.Life.{bar_step-IsCoherent, runner_start-IsCoherent}
use daily_alpha_engine.Pine.Run.Outcome.{series_of, ran_means}

-- With `held` units before the first bar: on each bar the units before it and those that its signals
-- buy are the units after it and those that its signals sell, but that an exit is for one unit too few
-- on the bar of an add, and for one unit too many on the bar of a harvest.
abbrev pub IsBalanced : {F : Type 0} → ℕ → List (V24BarResult F) → Type 0
IsBalanced held [] = Unit
IsBalanced held (b ∷ bs) =
    (held + bought b.signals + exits_behind_harvest b.signals
      ≡ b.position_units_after_close + sold b.signals + exits_behind_add b.signals)
    × IsBalanced b.position_units_after_close bs

module _ {F : Type 0} ⦃fl : Floats F⦄ where
  bar_step-flow :
      (symbol : String) (p : V24Parameters F) (c : BarContext F) (l : LoopState F)
      → IsCoherent c.index l.runner
      → let (report, after) = bar_step symbol p c l in
        l.runner.position_units + bought report.signals + exits_behind_harvest report.signals
        ≡ report.position_units_after_close + sold report.signals + exits_behind_add report.signals
  unfolding bar_step
  bar_step-flow symbol p c l coherent =
      fills-flow symbol p c _ _ _ l.runner _ coherent (runner_view-exits p c _ _ _ l.runner)
        (runner_view-cases p c _ _ _ l.runner coherent (entry-flat p c _ _ l.runner _))

  rounds-IsBalanced :
      (symbol : String) (p : V24Parameters F) (r : SeriesSet F) (bars : List (DailyBar F))
      (l : LoopState F) (later : List (DailyBar F))
      → IsCoherent l.index l.runner
      → IsBalanced l.runner.position_units (scan (run_round symbol p r bars) l later)
  unfolding scan run_round bar_context bar_step
  rounds-IsBalanced symbol p r bars l [] h = tt
  rounds-IsBalanced symbol p r bars l (b ∷ later) h =
      let c = bar_context r bars l.index b in
      (
        bar_step-flow symbol p c l h,
        rounds-IsBalanced symbol p r bars (bar_step symbol p c l).1 later
            (bar_step-IsCoherent symbol p c l h),
      )

  -- Over a whole replay the signals account for the units held, bar by bar: an entry is for 2 units,
  -- an add and a harvest for 1, and an exit for the units held before its bar. So an exit that falls on
  -- the bar of an add is for one unit too few, and on the bar of a harvest for one unit too many.
  pub run_v24_parity-IsBalanced :
      (symbol : String) (p : V24Parameters F) (bars : List (DailyBar F))
      (results : List (V24BarResult F))
      → check_parameters p ≡ ok tt
      → run_v24_parity symbol p bars ≡ ok results
      → IsBalanced 0 results
  run_v24_parity-IsBalanced symbol p bars results checked ran =
      subst (IsBalanced 0) (sym (ran_means symbol p bars results checked ran).2)
        (rounds-IsBalanced symbol p (series_of p bars) bars loop_start bars runner_start-IsCoherent)
