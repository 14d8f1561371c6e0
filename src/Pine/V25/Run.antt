-- ===== src/Pine/V25/Run.antt =====
-- src/daily_alpha/pine_v25_parity.py, `run_v25_parity`: one round of the loop, and the loop, which ends
-- where the armed breakout raises.
use Prim.Native.String.{String}
use daily_alpha_engine.Common.{
  ℕ, ◌+◌, not, ◌&&◌, none, List, [], ◌∷◌, Result, ok, ◌>>=◌, ◌>>◌, raise_if, if◌then◌else◌,
}
use daily_alpha_engine.Common.Floats.{Floats}
use daily_alpha_engine.Common.Text.{is_blank}
use daily_alpha_engine.Pine.Bars.{DailyBar, symbol_missing, not_chronological}
use daily_alpha_engine.Pine.Indicators.{Series, prior_lowest}
use daily_alpha_engine.Pine.State.{TrendState, trend_start, runner_start}
use daily_alpha_engine.Pine.Trend.{TrendView, trend_step, trend_view}
use daily_alpha_engine.Pine.Gap.{GapView, gap_view, class_of}
use daily_alpha_engine.Pine.Entry.{EntryGates}
use daily_alpha_engine.Pine.Fills.{long_exit, fill_entry, fill_add, fill_harvest}
use daily_alpha_engine.Pine.Run.{SeriesSet, at, bar_context, is_chronological, all_series}
use daily_alpha_engine.Pine.Armed.{
  V25ArmedInputs, V25ArmedSnapshot, ArmedState, unarmed, check_armed_parameters, check_inputs, step,
}
use daily_alpha_engine.Pine.V25.{
  V25Parameters, V25Error, parity_failed, V25BarResult, V25Context, V25LoopState, shared_parameters,
  armed_parameters, of_parity, of_armed,
}
use daily_alpha_engine.Pine.V25.Entry.{
  arm_events, armed_inputs, v25_gates, v25_entry_view, v25_rejections,
}
use daily_alpha_engine.Pine.V25.Exits.{
  next_break_count, v25_runner_view, v25_signals, v25_fills, break_count_after,
}

abbrev pub v25_start : {F : Type 0} → V25LoopState F
v25_start = record {
  index = 0;
  trend = trend_start;
  runner = runner_start;
  structural_break_count = 0;
  machine = unarmed;
}

module _ {F : Type 0} ⦃fl : Floats F⦄ where
  abbrev trend_of : V25Parameters F → V25Context F → V25LoopState F → TrendState F
  trend_of p c l = trend_step (shared_parameters p) c.shared l.trend

  abbrev trend_view_of : V25Parameters F → V25Context F → V25LoopState F → TrendView F
  trend_view_of p c l = trend_view (shared_parameters p) c.shared l.trend (trend_of p c l)

  abbrev gap_of : V25Parameters F → V25Context F → V25LoopState F → GapView F
  gap_of p c l = gap_view (shared_parameters p) c.shared (trend_of p c l).trend_state

  abbrev gates_of : V25Parameters F → V25Context F → V25LoopState F → EntryGates
  gates_of p c l = v25_gates p c.shared (trend_of p c l) (trend_view_of p c l) l.runner

  -- What the armed breakout is told at this round.
  unfoldable pub inputs_of : V25Parameters F → V25Context F → V25LoopState F → V25ArmedInputs F
  inputs_of p c l = armed_inputs c.shared (trend_of p c l) (gates_of p c l) (gap_of p c l)

  -- The rest of a round, behind the step of the machine.
  unfoldable pub v25_settle :
      String
      → V25Parameters F
      → V25Context F
      → V25LoopState F
      → V25ArmedSnapshot F
      → ArmedState F
      → V25BarResult F × V25LoopState F
  v25_settle symbol p c l armed machine =
      let b = c.shared in
      let t = trend_of p c l in
      let v = trend_view_of p c l in
      let w = gap_of p c l in
      let g = gates_of p c l in
      let e = v25_entry_view p b g w armed in
      let count = next_break_count c l.runner l.structural_break_count in
      let r = v25_runner_view p c t v e count l.runner in
      let exits = long_exit g.in_window r in
      let before_exit =
        fill_harvest r.harvest
          (fill_add b r.add2 (fill_add b r.add1 (fill_entry b e.long_entry r.marked))) in
      let after = v25_fills p b g.in_window e r l.runner in
      (
        record {
          symbol = symbol;
          bar_index = b.index;
          bar_time = b.bar.time;
          upper20 = b.upper20;
          lower10 = b.lower10;
          structural_lower = c.structural_lower;
          atr = b.atr;
          efficiency = b.efficiency;
          rsi = b.rsi;
          adx = b.adx;
          trend_state = t.trend_state;
          trend_stop = v.trend_stop;
          fresh_long_breakout = v.fresh_long_breakout;
          earnings_gap_class = class_of w;
          entry_type = e.entry_type;
          breakout_armed = armed.breakout_armed && not e.long_entry;
          armed_age = armed.armed_age;
          armed_breakout_level = armed.armed_breakout_level;
          armed_max_price = armed.armed_max_price;
          armed_invalidation_level = armed.armed_invalidation_level;
          arm_events = arm_events armed;
          rejection_reasons = v25_rejections p b g w armed e;
          entry_selected_breakout_level = if e.long_entry then e.selected_breakout_level else none;
          entry_armed_age = if e.long_entry then e.selected_armed_age else none;
          entry_replay_max_price = if e.long_entry then e.replay_max_price else none;
          signals = v25_signals symbol p c w g.in_window e r l.runner;
          position_units_after_close = after.position_units;
          position_avg_price_after_close = after.position_avg_price;
        },
        record {
          index = l.index + 1;
          trend = t;
          runner = after;
          structural_break_count = break_count_after exits before_exit count;
          machine = if e.long_entry then unarmed else machine;
        },
      )

  -- The body of the loop, at what it reads.
  unfoldable pub v25_round :
      String
      → V25Parameters F
      → V25Context F
      → V25LoopState F
      → Result V25Error (V25BarResult F × V25LoopState F)
  v25_round symbol p c l = do
    of_armed (check_inputs (inputs_of p c l))
    stepped ← of_armed (step (armed_parameters p) (inputs_of p c l) l.machine)
    ok (v25_settle symbol p c l stepped.0 stepped.1)

  -- What a round reads of the series.
  unfoldable pub v25_context :
      SeriesSet F → Series F → List (DailyBar F) → ℕ → DailyBar F → V25Context F
  v25_context r structural bars i bar = record {
    shared = bar_context r bars i bar;
    structural_lower = at structural i;
  }

  -- `for i, bar in enumerate(bars)`
  unfoldable pub v25_rounds :
      String
      → V25Parameters F
      → SeriesSet F
      → Series F
      → List (DailyBar F)
      → List (DailyBar F)
      → V25LoopState F
      → Result V25Error (List (V25BarResult F))
  v25_rounds symbol p r structural bars [] l = ok []
  v25_rounds symbol p r structural bars (bar ∷ rest) l = do
    done ← v25_round symbol p (v25_context r structural bars l.index bar) l
    results ← v25_rounds symbol p r structural bars rest done.1
    ok (done.0 ∷ results)

  unfoldable pub v25_replay :
      String → V25Parameters F → List (DailyBar F) → Result V25Error (List (V25BarResult F))
  v25_replay symbol p [] = ok []
  v25_replay symbol p (b ∷ bs) = do
    raise_if (not (is_chronological (b ∷ bs))) (parity_failed not_chronological)
    r ← of_parity (all_series (shared_parameters p) (b ∷ bs))
    of_armed (check_armed_parameters (armed_parameters p))
    v25_rounds symbol p r (prior_lowest (b ∷ bs) p.structural_exit_len) (b ∷ bs) (b ∷ bs) v25_start

  unfoldable pub run_v25_parity :
      String → V25Parameters F → List (DailyBar F) → Result V25Error (List (V25BarResult F))
  run_v25_parity symbol p bars = do
    raise_if (is_blank symbol) (parity_failed symbol_missing)
    v25_replay symbol p bars
