-- ===== src/Pine/Runner.antt =====
-- src/daily_alpha/pine_v24_parity.py, lines 616 to 706: the runner's signals and the exits of one bar.
-- Each assignment that is made before the orders are filled is a function of the state.
pub mod Marks
pub mod Exits
use daily_alpha_engine.Common.{
  ◌-◌, Bool, true, false, not, ◌&&◌, none, some, List, ◌++◌, ltb, leb, if◌then◌else◌, some_and,
  when,
}
use daily_alpha_engine.Common.Floats.{Floats}
use daily_alpha_engine.Pine.Bars.{V24Parameters}
use daily_alpha_engine.Pine.State.{
  ExitReason, break_even_exit, failed_breakout_exit, turtle_exit, trend_exit, TrendState,
  RunnerState, BarContext,
}
use daily_alpha_engine.Pine.Trend.{is_bullish, TrendView}
use daily_alpha_engine.Pine.Entry.{EntryView, adx_passes}

abbrev pub holds : {F : Type 0} → RunnerState F → Bool
holds s = ltb 0 s.position_units

module _ {F : Type 0} where
  -- `if long_entry:` before the exits are computed.
  unfoldable pub begin_entry : BarContext F → EntryView → RunnerState F → RunnerState F
  begin_entry c e s =
      if e.long_entry
      then record s {
        entry_breakout_level = c.upper20;
        entry_signal_bar = some c.index;
        runner_base_entry = some c.bar.close;
        runner_base_atr = c.atr;
        add1_done = false;
        add2_done = false;
        harvest_done = false;
        add1_bar = none;
        add2_bar = none;
        break_even_level = none;
        active_entry_type = e.entry_type;
      }
      else s

  unfoldable pub mark_add1 : BarContext F → Bool → RunnerState F → RunnerState F
  mark_add1 c fired s = if fired then record s { add1_done = true; add1_bar = some c.index } else s

  unfoldable pub mark_add2 : BarContext F → Bool → RunnerState F → RunnerState F
  mark_add2 c fired s = if fired then record s { add2_done = true; add2_bar = some c.index } else s

  -- The average price is still that of before the bar: no order has been filled yet.
  unfoldable pub mark_harvest : Bool → RunnerState F → RunnerState F
  mark_harvest fired s =
      if fired then record s { break_even_level = s.position_avg_price; harvest_done = true } else s

module _ {F : Type 0} ⦃fl : Floats F⦄ where
  pub failed_breakout : V24Parameters F → BarContext F → RunnerState F → Bool
  failed_breakout p c s =
      holds s
      && p.use_failed_breakout_exit
      && some_and s.entry_breakout_level (λ level.
        some_and s.entry_signal_bar
          (λ since. leb 1 (c.index - since) && leb (c.index - since) p.failed_breakout_bars)
        && fl.lt c.bar.close level)

  pub runner_trend_ok : V24Parameters F → BarContext F → TrendState F → Bool
  runner_trend_ok p c t = is_bullish t.trend_state && adx_passes p c

  -- `close >= runner_base_entry + runner_base_atr * multiple`, with both values present.
  pub reached : BarContext F → RunnerState F → F → Bool
  reached c s multiple =
      some_and s.runner_base_entry
        λ base. some_and s.runner_base_atr λ a. fl.le (fl.add base (fl.mul a multiple)) c.bar.close

  unfoldable pub add1_signal : V24Parameters F → BarContext F → Bool → RunnerState F → Bool
  add1_signal p c trend_ok s =
      p.use_runner_management && holds s && not s.add1_done && trend_ok && reached c s p.add1_atr

  unfoldable pub add2_signal : V24Parameters F → BarContext F → Bool → RunnerState F → Bool
  add2_signal p c trend_ok s =
      p.use_runner_management
      && holds s
      && s.add1_done
      && not s.add2_done
      && some_and s.add1_bar (λ b. ltb b c.index)
      && trend_ok
      && reached c s p.add2_atr

  pub harvest_signal : V24Parameters F → BarContext F → RunnerState F → Bool
  harvest_signal p c s =
      p.use_runner_management
      && holds s
      && s.add2_done
      && not s.harvest_done
      && some_and s.add2_bar (λ b. ltb b c.index)
      && reached c s p.harvest_atr

  pub break_even : V24Parameters F → BarContext F → RunnerState F → Bool
  break_even p c s =
      holds s
      && p.use_runner_management
      && p.use_break_even_after_harvest
      && s.harvest_done
      && some_and s.break_even_level (λ level. fl.le c.bar.close level)

  -- `failed` was computed before the runner's marks were made.
  pub exit_reasons_of :
      V24Parameters F → BarContext F → TrendView F → Bool → RunnerState F → List ExitReason
  exit_reasons_of p c v failed s =
      when (break_even p c s) break_even_exit
      ++ (when failed failed_breakout_exit
          ++ (when (holds s && some_and c.lower10 (λ l. fl.lt c.bar.close l)) turtle_exit
              ++ when (holds s && p.use_trend_exit && v.bear_flip) trend_exit))

-- What the runner decides at one bar, and the state with its marks.
pub record RunnerView (F : Type 0) : Type 0 where
  pub add1 : Bool
  pub add2 : Bool
  pub harvest : Bool
  pub exit_reasons : List ExitReason
  pub marked : RunnerState F

module _ {F : Type 0} ⦃fl : Floats F⦄ where
  pub runner_view :
      V24Parameters F
      → BarContext F
      → TrendState F
      → TrendView F
      → EntryView
      → RunnerState F
      → RunnerView F
  runner_view p c t v e s =
      let s1 = begin_entry c e s in
      let failed = failed_breakout p c s1 in
      let trend_ok = runner_trend_ok p c t in
      let add1 = add1_signal p c trend_ok s1 in
      let s2 = mark_add1 c add1 s1 in
      let add2 = add2_signal p c trend_ok s2 in
      let s3 = mark_add2 c add2 s2 in
      let harvest = harvest_signal p c s3 in
      let s4 = mark_harvest harvest s3 in
      record {
        add1 = add1;
        add2 = add2;
        harvest = harvest;
        exit_reasons = exit_reasons_of p c v failed s4;
        marked = s4;
      }

-- To run this part in a test.
unfoldable pub runner_open : Unit {0}
unfolding begin_entry failed_breakout runner_trend_ok reached add1_signal mark_add1 add2_signal
    mark_add2 harvest_signal mark_harvest break_even exit_reasons_of runner_view
runner_open = tt
