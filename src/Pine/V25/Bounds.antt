-- ===== src/Pine/V25/Bounds.antt =====
-- src/daily_alpha/pine_v25_parity.py: how many units a replay can hold.
use Prim.Native.String.{String}
use daily_alpha_engine.Common.{
  ℕ, ◌+◌, ◌≤◌, ◌≡◌, refl, sym, ap, subst, Bool, true, false, not, ◌&&◌, List, [], ◌∷◌, All, length,
  suc, ◌∙◌, ok, raise_if, if◌then◌else◌, arith,
}
use daily_alpha_engine.Common.Floats.{Floats}
use daily_alpha_engine.Pine.Bars.{DailyBar, V24Parameters}
use daily_alpha_engine.Pine.Indicators.{Series}
use daily_alpha_engine.Pine.State.{TrendState, RunnerState, BarContext}
use daily_alpha_engine.Pine.Trend.{TrendView}
use daily_alpha_engine.Pine.Runner.{
  mark_add1, mark_add2, mark_harvest, add1_signal, add2_signal, RunnerView,
}
use daily_alpha_engine.Pine.Fills.{fill_entry, fill_add, fill_harvest, flatten, forget_runner}
use daily_alpha_engine.Pine.V25.{
  V25Parameters, V25BarResult, V25Context, V25LoopState, shared_parameters, armed_parameters,
  of_parity, of_armed,
}
use daily_alpha_engine.Pine.V25.Run.{
  v25_start, v25_settle, v25_round, v25_context, v25_rounds, v25_replay, run_v25_parity,
}
use daily_alpha_engine.Pine.V25.Origin.{bind_ok, pair_eq, round_split}
use daily_alpha_engine.Pine.Run.{SeriesSet, is_chronological, all_series}
use daily_alpha_engine.Pine.Armed.{check_armed_parameters}
use daily_alpha_engine.Common.Text.{is_blank}
use daily_alpha_engine.Pine.V25.Entry.{V25EntryView}
use daily_alpha_engine.Pine.V25.Exits.{
  begin_v25_entry, fill_v25_exit, fill_v25_end, v25_runner_view, v25_fills,
}

one_if : Bool → ℕ
one_if true = 1
one_if false = 0

-- With `k` units to be added, the position is no more than the starter and the adds marked as done.
IsBacked : {F : Type 0} → ℕ → RunnerState F → Type 0
IsBacked k s = s.position_units + k ≤ 2 + one_if s.add1_done + one_if s.add2_done

-- The same for a bar that may open a position.
IsStarting : {F : Type 0} → Bool → ℕ → RunnerState F → Type 0
IsStarting entered k s =
    (if entered then 2 else s.position_units) + k ≤ 2 + one_if s.add1_done + one_if s.add2_done

module _ {F : Type 0} where
  begin-IsStarting :
      (c : BarContext F) (e : V25EntryView F) (s : RunnerState F)
      → IsBacked 0 s
      → IsStarting e.long_entry 0 (begin_v25_entry c e s)
  unfolding IsBacked IsStarting begin_v25_entry one_if
  begin-IsStarting c e s h = ground arith

  mark_add1-IsStarting :
      (entered fired : Bool) (k : ℕ) (c : BarContext F) (s : RunnerState F)
      → fired && s.add1_done ≡ false
      → IsStarting entered k s
      → IsStarting entered (k + one_if fired) (mark_add1 c fired s)
  unfolding IsStarting mark_add1 one_if
  mark_add1-IsStarting entered fired k c s fresh h = ground arith

  mark_add2-IsStarting :
      (entered fired : Bool) (k : ℕ) (c : BarContext F) (s : RunnerState F)
      → fired && s.add2_done ≡ false
      → IsStarting entered k s
      → IsStarting entered (k + one_if fired) (mark_add2 c fired s)
  unfolding IsStarting mark_add2 one_if
  mark_add2-IsStarting entered fired k c s fresh h = ground arith

  mark_harvest-IsStarting :
      (entered fired : Bool) (k : ℕ) (s : RunnerState F)
      → IsStarting entered k s
      → IsStarting entered k (mark_harvest fired s)
  unfolding IsStarting mark_harvest
  mark_harvest-IsStarting entered fired k s h = ground arith

  fill_entry-IsBacked :
      (entered : Bool) (k : ℕ) (c : BarContext F) (s : RunnerState F)
      → IsStarting entered k s
      → IsBacked k (fill_entry c entered s)
  unfolding IsStarting IsBacked fill_entry
  fill_entry-IsBacked entered k c s h = ground arith

  fill_harvest-IsBacked :
      (fired : Bool) (s : RunnerState F) → IsBacked 0 s → IsBacked 0 (fill_harvest fired s)
  unfolding IsBacked fill_harvest
  fill_harvest-IsBacked fired s h = ground arith

  fill_v25_exit-IsBacked :
      (fired : Bool) (s : RunnerState F) → IsBacked 0 s → IsBacked 0 (fill_v25_exit fired s)
  unfolding IsBacked fill_v25_exit flatten forget_runner one_if
  fill_v25_exit-IsBacked fired s h = ground arith

  fill_v25_end-IsBacked :
      (fired : Bool) (s : RunnerState F) → IsBacked 0 s → IsBacked 0 (fill_v25_end fired s)
  unfolding IsBacked fill_v25_end
  fill_v25_end-IsBacked fired s h = ground arith

module _ {F : Type 0} ⦃fl : Floats F⦄ where
  fill_add-IsBacked :
      (fired : Bool) (k : ℕ) (c : BarContext F) (s : RunnerState F)
      → IsBacked (k + one_if fired) s
      → IsBacked k (fill_add c fired s)
  unfolding IsBacked fill_add one_if
  fill_add-IsBacked fired k c s h = ground arith

  add1-fresh :
      (p : V24Parameters F) (c : BarContext F) (trend_ok : Bool) (s : RunnerState F)
      → add1_signal p c trend_ok s && s.add1_done ≡ false
  unfolding add1_signal
  add1-fresh p c trend_ok s = ground arith

  add2-fresh :
      (p : V24Parameters F) (c : BarContext F) (trend_ok : Bool) (s : RunnerState F)
      → add2_signal p c trend_ok s && s.add2_done ≡ false
  unfolding add2_signal
  add2-fresh p c trend_ok s = ground arith

  marked-IsStarting :
      (p : V25Parameters F) (c : V25Context F) (t : TrendState F) (v : TrendView F)
      (e : V25EntryView F) (count : ℕ) (s : RunnerState F)
      → IsBacked 0 s
      → IsStarting e.long_entry
          (0
            + one_if (v25_runner_view p c t v e count s).add1
            + one_if (v25_runner_view p c t v e count s).add2)
          (v25_runner_view p c t v e count s).marked
  unfolding v25_runner_view
  marked-IsStarting p c t v e count s h = mark_harvest-IsStarting e.long_entry _ _ _ (
      mark_add2-IsStarting e.long_entry _ _ c.shared _
        (add2-fresh (shared_parameters p) c.shared _ _)
        (mark_add1-IsStarting e.long_entry _ 0 c.shared _
          (add1-fresh (shared_parameters p) c.shared _ _) (begin-IsStarting c.shared e s h)))

  v25_fills-IsBacked :
      (p : V25Parameters F) (c : V25Context F) (t : TrendState F) (v : TrendView F)
      (e : V25EntryView F) (count : ℕ) (in_window : Bool) (s : RunnerState F)
      → IsBacked 0 s
      → IsBacked 0 (v25_fills p c.shared in_window e (v25_runner_view p c t v e count s) s)
  unfolding v25_fills
  v25_fills-IsBacked p c t v e count in_window s h =
      let r = v25_runner_view p c t v e count s in
      fill_v25_end-IsBacked _ _ (
        fill_v25_exit-IsBacked _ _ (
          fill_harvest-IsBacked r.harvest _ (
            fill_add-IsBacked r.add2 0 c.shared _ (
              fill_add-IsBacked r.add1 (0 + one_if r.add2) c.shared _ (
                fill_entry-IsBacked e.long_entry _ c.shared r.marked
                  (swapped r (marked-IsStarting p c t v e count s h)))))))
    where
      swapped :
          (r : RunnerView F)
          → IsStarting e.long_entry (0 + one_if r.add1 + one_if r.add2) r.marked
          → IsStarting e.long_entry (0 + one_if r.add2 + one_if r.add1) r.marked
      swapped r h = subst (λ k. IsStarting e.long_entry k r.marked) (omega arith) h

  v25_round-IsBacked :
      (symbol : String) (p : V25Parameters F) (c : V25Context F) (l l' : V25LoopState F)
      (report : V25BarResult F)
      → v25_round symbol p c l ≡ ok (report, l')
      → IsBacked 0 l.runner
      → IsBacked 0 l'.runner × (report.position_units_after_close ≡ l'.runner.position_units)
  unfolding v25_settle
  v25_round-IsBacked symbol p c l l' report h backed =
      let (armed, machine, _, settled) = round_split symbol p c l l' report h in
      (
        subst (λ x. IsBacked 0 x.1.runner) settled
            (v25_fills-IsBacked p c _ _ _ _ _ l.runner backed),
        ap (λ x. x.0.position_units_after_close) (sym settled)
            ∙ ap (λ x. x.1.runner.position_units) settled,
      )

  at_most_four : (s : RunnerState F) → IsBacked 0 s → s.position_units ≤ 4
  unfolding IsBacked one_if
  at_most_four s h = ground arith

  IsSmall : V25BarResult F → Type 0
  IsSmall report = report.position_units_after_close ≤ 4

  v25_rounds-IsSmall :
      (symbol : String) (p : V25Parameters F) (r : SeriesSet F) (structural : Series F)
      (bars rest : List (DailyBar F)) (l : V25LoopState F) (results : List (V25BarResult F))
      → IsBacked 0 l.runner
      → v25_rounds symbol p r structural bars rest l ≡ ok results
      → All IsSmall results × (length results ≡ length rest)
  unfolding v25_rounds IsSmall
  v25_rounds-IsSmall symbol p r structural bars [] l results backed h =
      subst (λ x. All IsSmall x × (length x ≡ 0)) (pair_eq h) (tt, refl)
  v25_rounds-IsSmall symbol p r structural bars (bar ∷ rest) l results backed h =
      let (done, e₁, h₁) =
        bind_ok (v25_round symbol p (v25_context r structural bars l.index bar) l) _ h in
      let (others, e₂, h₂) = bind_ok (v25_rounds symbol p r structural bars rest done.1) _ h₁ in
      let (after, reported) = v25_round-IsBacked symbol p _ l done.1 done.0 e₁ backed in
      let (small, count) =
        v25_rounds-IsSmall symbol p r structural bars rest done.1 others after e₂ in
      subst (λ x. All IsSmall x × (length x ≡ suc (length rest))) (pair_eq h₂)
        (
          (subst (λ n. n ≤ 4) (sym reported) (at_most_four done.1.runner after), small),
          ap suc count,
        )

  -- A replay that returns has one report for each bar, and none of them holds more than 4 units: the
  -- starter and the two adds.
  pub run_v25_parity-bounded :
      (symbol : String) (p : V25Parameters F) (bars : List (DailyBar F))
      (results : List (V25BarResult F))
      → run_v25_parity symbol p bars ≡ ok results
      → All (λ report. report.position_units_after_close ≤ 4) results
        × (length results ≡ length bars)
  unfolding run_v25_parity v25_replay IsSmall IsBacked one_if
  run_v25_parity-bounded symbol p [] results h =
      let (_, _, h₁) = bind_ok (raise_if (is_blank symbol) _) _ h in
      subst (λ x. All IsSmall x × (length x ≡ 0)) (pair_eq h₁) (tt, refl)
  run_v25_parity-bounded symbol p (b ∷ bs) results h =
      let (_, _, h₁) = bind_ok (raise_if (is_blank symbol) _) _ h in
      let (_, _, h₂) = bind_ok (raise_if (not (is_chronological (b ∷ bs))) _) _ h₁ in
      let (r, _, h₃) = bind_ok (of_parity (all_series (shared_parameters p) (b ∷ bs))) _ h₂ in
      let (_, _, h₄) = bind_ok (of_armed (check_armed_parameters (armed_parameters p))) _ h₃ in
      v25_rounds-IsSmall symbol p r _ (b ∷ bs) (b ∷ bs) v25_start results (omega arith) h₄
