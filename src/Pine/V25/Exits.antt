-- ===== src/Pine/V25/Exits.antt =====
-- src/daily_alpha/pine_v25_parity.py, lines 497 to 613 and 663 to 785: the runner of one bar, its exit, its
-- signals, and the orders that are filled at its close.
use Prim.Native.String.{String}
use daily_alpha_engine.Common.{
  ℕ, ◌+◌, Bool, false, ◌&&◌, Option, none, some, List, [], ◌∷◌, ◌++◌, leb, if◌then◌else◌, some_and,
  when,
}
use daily_alpha_engine.Common.Floats.{Floats}
use daily_alpha_engine.Pine.State.{
  no_entry, ExitReason, break_even_exit, failed_breakout_exit, turtle_exit, structural_exit,
  adaptive_trend_exit, backtest_end, TrendState, RunnerState, BarContext, ParitySignal,
}
use daily_alpha_engine.Pine.Trend.{TrendView}
use daily_alpha_engine.Pine.Gap.{GapView}
use daily_alpha_engine.Pine.Entry.{EntryView}
use daily_alpha_engine.Pine.Runner.{
  holds, mark_add1, mark_add2, mark_harvest, failed_breakout, runner_trend_ok, add1_signal,
  add2_signal, harvest_signal, RunnerView,
}
use daily_alpha_engine.Pine.Fills.{
  long_exit, fill_entry, fill_add, fill_harvest, flatten, closes_at_end, entry_signal, add1_order,
  add2_order, harvest_order, exit_order,
}
use daily_alpha_engine.Pine.V25.{V25Parameters, V25Context, shared_parameters}
use daily_alpha_engine.Pine.V25.Entry.{V25EntryView}

abbrev reason_list : Option ExitReason → List ExitReason
reason_list none = []
reason_list (some reason) = reason ∷ []

module _ {F : Type 0} where
  -- `if long_entry:` before the exits are computed; `e.selected_breakout_level` is that of the arm, or
  -- the channel's.
  unfoldable pub begin_v25_entry : BarContext F → V25EntryView F → RunnerState F → RunnerState F
  begin_v25_entry c e s =
      if e.long_entry
      then record s {
        entry_breakout_level = e.selected_breakout_level;
        entry_signal_bar = some c.index;
        runner_base_entry = some c.bar.close;
        runner_base_atr = c.atr;
        active_entry_type = e.entry_type;
        add1_done = false;
        add2_done = false;
        harvest_done = false;
        add1_bar = none;
        add2_bar = none;
        break_even_level = none;
      }
      else s

  -- The state behind `long_exit`, without the count of structural breaks.
  unfoldable pub fill_v25_exit : Bool → RunnerState F → RunnerState F
  fill_v25_exit fired s =
      if fired && holds s then record (flatten s) { active_entry_type = no_entry } else s

  -- The state behind a signal `BACKTEST_END`, which forgets nothing of the runner.
  unfoldable pub fill_v25_end : Bool → RunnerState F → RunnerState F
  fill_v25_end fired s =
      if fired then record s { position_units = 0; position_avg_price = none } else s

module _ {F : Type 0} ⦃fl : Floats F⦄ where
  unfoldable pub structural_break_now : V25Context F → RunnerState F → Bool
  structural_break_now c s =
      holds s && some_and c.structural_lower (λ low. fl.lt c.shared.bar.close low)

  unfoldable pub next_break_count : V25Context F → RunnerState F → ℕ → ℕ
  next_break_count c s count = if structural_break_now c s then count + 1 else 0

  unfoldable pub v25_break_even : V25Parameters F → BarContext F → RunnerState F → Bool
  v25_break_even p c s =
      holds s
      && p.use_break_even_after_harvest
      && s.harvest_done
      && some_and s.break_even_level (λ level. fl.le c.bar.close level)

  -- The first of the exits that apply; none is the text NONE. `failed` was computed before the runner's
  -- marks were made, and `count` is that behind the bar.
  unfoldable pub exit_reason_of :
      V25Parameters F → V25Context F → TrendView F → Bool → ℕ → RunnerState F → Option ExitReason
  exit_reason_of p c v failed count s =
      if holds s && p.use_structural_runner_exit && leb p.structural_confirm_bars count
      then some structural_exit
      else if failed
      then some failed_breakout_exit
      else if v25_break_even p c.shared s
      then some break_even_exit
      else if holds s
          && p.use_legacy_turtle_exit
          && some_and c.shared.lower10 (λ l. fl.lt c.shared.bar.close l)
      then some turtle_exit
      else if holds s && p.use_legacy_adaptive_exit && v.bear_flip
      then some adaptive_trend_exit
      else none

  -- What the runner decides at one bar, and the state with its marks; no order has been filled yet.
  unfoldable pub v25_runner_view :
      V25Parameters F
      → V25Context F
      → TrendState F
      → TrendView F
      → V25EntryView F
      → ℕ
      → RunnerState F
      → RunnerView F
  v25_runner_view p c t v e count s =
      let q = shared_parameters p in
      let s1 = begin_v25_entry c.shared e s in
      let failed = failed_breakout q c.shared s1 in
      let trend_ok = runner_trend_ok q c.shared t in
      let add1 = add1_signal q c.shared trend_ok s1 in
      let s2 = mark_add1 c.shared add1 s1 in
      let add2 = add2_signal q c.shared trend_ok s2 in
      let s3 = mark_add2 c.shared add2 s2 in
      let harvest = harvest_signal q c.shared s3 in
      let s4 = mark_harvest harvest s3 in
      record {
        add1 = add1;
        add2 = add2;
        harvest = harvest;
        exit_reasons = reason_list (exit_reason_of p c v failed count s4);
        marked = s4;
      }

  -- What the shared signals read of the entry.
  abbrev shared_entry : V25EntryView F → EntryView
  shared_entry e = record {
    normal_base_setup = false;
    long_entry = e.long_entry;
    entry_type = e.entry_type;
  }

  -- `s` is the state before the bar.
  unfoldable pub v25_signals :
      String
      → V25Parameters F
      → V25Context F
      → GapView F
      → Bool
      → V25EntryView F
      → RunnerView F
      → RunnerState F
      → List (ParitySignal F)
  v25_signals symbol p c g in_window e r s =
      let b = c.shared in
      let exits = long_exit in_window r in
      when e.long_entry (record (entry_signal symbol b g (shared_entry e)) {
        stock_stop_price = c.structural_lower;
      })
      ++ (when r.add1 (add1_order symbol b r.marked)
          ++ (when r.add2 (add2_order symbol b r.marked)
              ++ (when r.harvest (harvest_order symbol b r.marked)
                  ++ (when exits (exit_order symbol b r.marked s.position_units r.exit_reasons)
                      ++ when (closes_at_end (shared_parameters p) b s exits)
                          (exit_order symbol b r.marked s.position_units (backtest_end ∷ []))))))

  -- The orders of one bar, in the source's order. `s` is the state before the bar.
  unfoldable pub v25_fills :
      V25Parameters F
      → BarContext F
      → Bool
      → V25EntryView F
      → RunnerView F
      → RunnerState F
      → RunnerState F
  v25_fills p c in_window e r s =
      let exits = long_exit in_window r in
      let entered = fill_entry c e.long_entry r.marked in
      let added = fill_add c r.add2 (fill_add c r.add1 entered) in
      let closed = fill_v25_exit exits (fill_harvest r.harvest added) in
      fill_v25_end (closes_at_end (shared_parameters p) c s exits) closed

-- `structural_break_count` behind the orders: an exit that closes units sets it to zero.
unfoldable pub break_count_after : {F : Type 0} → Bool → RunnerState F → ℕ → ℕ
break_count_after exits before_exit count = if exits && holds before_exit then 0 else count
