-- ===== src/Pine/Run/Life.antt =====
-- A whole replay lives the abstract life of a position, from flat.
use Prim.Native.String.{String}
use daily_alpha_engine.Common.{◌+◌, ◌≡◌, refl, ◌∙◌, List, [], ◌∷◌, arith}
use daily_alpha_engine.Common.Floats.{Floats}
use daily_alpha_engine.Common.Scan.{scan}
use daily_alpha_engine.Pine.Bars.{DailyBar, V24Parameters}
use daily_alpha_engine.Pine.State.{BarContext, V24BarResult, runner_start}
use daily_alpha_engine.Pine.Entry.Gates.{entry-flat}
use daily_alpha_engine.Pine.Runner.Exits.{runner_view-exits}
use daily_alpha_engine.Pine.Runner.Marks.{runner_view-cases}
use daily_alpha_engine.Pine.Coherent.{IsCoherent}
use daily_alpha_engine.Pine.Fills.Keeps.{fills-IsCoherent}
use daily_alpha_engine.Pine.Phases.{Phase, BarMove, phase_of, actions_of, units_of}
use daily_alpha_engine.Pine.Phases.Parts.{phase_of-units}
use daily_alpha_engine.Pine.Phases.Refines.{fills-move}
use daily_alpha_engine.Pine.Run.{SeriesSet, LoopState, bar_context, bar_step, run_round}

-- The reports of a replay that begins in the phase `ph`: each bar makes one move of the life, and
-- reports the units of the phase that it ends in.
pub data IsLife {F : Type 0} : Phase → List (V24BarResult F) → Type 0 where
  done : (ph : Phase) → IsLife ph []
  bar :
      {ph qh : Phase} (b : V24BarResult F) {bs : List (V24BarResult F)}
      → BarMove ph (actions_of b.signals) qh
      → b.position_units_after_close ≡ units_of qh
      → IsLife qh bs
      → IsLife ph (b ∷ bs)

pub runner_start-IsCoherent : {F : Type 0} → IsCoherent {F = F} 0 runner_start
runner_start-IsCoherent = ground arith

module _ {F : Type 0} ⦃fl : Floats F⦄ where
  pub bar_step-index :
      (symbol : String) (p : V24Parameters F) (c : BarContext F) (l : LoopState F)
      → (bar_step symbol p c l).1.index ≡ l.index + 1
  unfolding bar_step
  bar_step-index symbol p c l = refl

  module _ (symbol : String) (p : V24Parameters F) (c : BarContext F) (l : LoopState F)
      (coherent : IsCoherent c.index l.runner) where
    pub bar_step-IsCoherent : IsCoherent (c.index + 1) (bar_step symbol p c l).1.runner
    unfolding bar_step
    bar_step-IsCoherent =
        fills-IsCoherent c _ p _ l.runner _ coherent
          (runner_view-cases p c _ _ _ l.runner coherent (entry-flat p c _ _ l.runner _))

    pub bar_step-move :
        let (report, after) = bar_step symbol p c l in
        BarMove (phase_of l.runner) (actions_of report.signals) (phase_of after.runner)
    unfolding bar_step
    bar_step-move =
        fills-move symbol p c _ _ _ l.runner _ coherent (runner_view-exits p c _ _ _ l.runner)
          (runner_view-cases p c _ _ _ l.runner coherent (entry-flat p c _ _ l.runner _))

    bar_step-units :
        (bar_step symbol p c l).0.position_units_after_close
        ≡ (bar_step symbol p c l).1.runner.position_units
    unfolding bar_step
    bar_step-units = refl

  -- One round, at the loop's own index.
  module _ (symbol : String) (p : V24Parameters F) (r : SeriesSet F)
      (bars : List (DailyBar F)) where
    pub rounds-IsLife :
        (l : LoopState F) (later : List (DailyBar F))
        → IsCoherent l.index l.runner
        → IsLife (phase_of l.runner) (scan (run_round symbol p r bars) l later)
    unfolding scan run_round bar_context
    rounds-IsLife l [] h = done (phase_of l.runner)
    rounds-IsLife l (b ∷ later) h =
        let c = bar_context r bars l.index b in
        let kept = bar_step-IsCoherent symbol p c l h in
        bar (bar_step symbol p c l).0 (bar_step-move symbol p c l h)
          (bar_step-units symbol p c l h ∙ phase_of-units _ kept)
          (rounds-IsLife (bar_step symbol p c l).1 later (rw (bar_step-index symbol p c l) kept))
