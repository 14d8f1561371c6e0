-- ===== src/Pine/Fills.antt =====
-- src/daily_alpha/pine_v24_parity.py, lines 706 to 858: the signals of one bar, and the orders that
-- are filled at its close.
pub mod Keeps
pub mod Flow
use Prim.Native.String.{String}
use daily_alpha_engine.Common.{
  ℕ, ◌+◌, ◌-◌, Bool, true, false, not, ◌&&◌, Option, none, some, List, [], ◌∷◌, ◌++◌, ltb, ◌==◌,
  if◌then◌else◌, some_and, when,
}
use daily_alpha_engine.Common.Int.{pos}
use daily_alpha_engine.Common.Floats.{Floats, zero_f}
use daily_alpha_engine.Pine.Bars.{V24Parameters}
use daily_alpha_engine.Pine.State.{
  no_gap, no_entry, ExitReason, backtest_end, Action, entry_long, add, partial, exit, RunnerStage,
  add_1_atr, add_2_atr, harvest_3_atr, RunnerState, BarContext, ParitySignal,
}
use daily_alpha_engine.Pine.Gap.{GapView, class_of}
use daily_alpha_engine.Pine.Entry.{EntryView}
use daily_alpha_engine.Pine.Runner.{holds, RunnerView}

-- `position_avg_price or 0.0`
abbrev avg_or_zero : {F : Type 0} ⦃fl : Floats F⦄ → Option F → F
avg_or_zero none = zero_f
avg_or_zero (some a) = a

abbrev is_nil : {A : Type 0} → List A → Bool
is_nil [] = true
is_nil (x ∷ xs) = false

module _ {F : Type 0} where
  unfoldable pub long_exit : Bool → RunnerView F → Bool
  long_exit in_window r = in_window && not (is_nil r.exit_reasons)

  unfoldable pub fill_entry : BarContext F → Bool → RunnerState F → RunnerState F
  fill_entry c fired s =
      if fired then record s { position_units = 2; position_avg_price = some c.bar.close } else s

  unfoldable pub fill_harvest : Bool → RunnerState F → RunnerState F
  fill_harvest fired s =
      if fired && holds s
      then record s {
        position_units = s.position_units - 1;
        position_avg_price = if (s.position_units - 1) == 0 then none else s.position_avg_price;
      }
      else s

  -- The assignments that forget the runner.
  unfoldable pub forget_runner : RunnerState F → RunnerState F
  forget_runner s = record s {
    entry_breakout_level = none;
    entry_signal_bar = none;
    runner_base_entry = none;
    runner_base_atr = none;
    add1_done = false;
    add2_done = false;
    harvest_done = false;
    add1_bar = none;
    add2_bar = none;
    break_even_level = none;
  }

  unfoldable pub flatten : RunnerState F → RunnerState F
  flatten s = record (forget_runner s) { position_units = 0; position_avg_price = none }

  unfoldable pub fill_exit : Bool → RunnerState F → RunnerState F
  fill_exit fired s = if fired && holds s then flatten s else s

  unfoldable pub fill_end : Bool → RunnerState F → RunnerState F
  fill_end fired s = if fired then flatten s else s

  unfoldable pub drop_stale : V24Parameters F → BarContext F → Bool → RunnerState F → RunnerState F
  drop_stale p c entered s =
      if s.position_units == 0
        && not entered
        && some_and s.entry_signal_bar (λ since. ltb (since + p.failed_breakout_bars) c.index)
      then record (forget_runner s) { active_entry_type = no_entry }
      else s

  -- `bar.time > params.end_time and pre_position_units > 0 and not long_exit`
  unfoldable pub closes_at_end : V24Parameters F → BarContext F → RunnerState F → Bool → Bool
  closes_at_end p c s exits = ltb p.end_time.instant c.bar.time.instant && holds s && not exits

module _ {F : Type 0} ⦃fl : Floats F⦄ where
  -- A signal with the defaults of the fields that its kind does not set.
  abbrev signal_of :
      String
      → BarContext F
      → Action
      → RunnerState F
      → ℕ
      → Option RunnerStage
      → Option F
      → List ExitReason
      → ParitySignal F
  signal_of symbol c action s quantity stage fraction reasons = record {
    symbol = symbol;
    bar_index = c.index;
    bar_time = c.bar.time;
    action = action;
    price = c.bar.close;
    entry_type = s.active_entry_type;
    quantity_units = quantity;
    runner_stage = stage;
    position_fraction = fraction;
    stock_stop_price = none;
    average_daily_dollar_volume = none;
    earnings_gap_class = no_gap;
    earnings_gap_pct = zero_f;
    earnings_gap_atr = zero_f;
    earnings_close_location = zero_f;
    earnings_gap_retention = zero_f;
    earnings_relative_volume = zero_f;
    exit_reasons = reasons;
  }

  unfoldable pub entry_signal : String → BarContext F → GapView F → EntryView → ParitySignal F
  entry_signal symbol c g e = record {
    symbol = symbol;
    bar_index = c.index;
    bar_time = c.bar.time;
    action = entry_long;
    price = c.bar.close;
    entry_type = e.entry_type;
    quantity_units = 2;
    runner_stage = none;
    position_fraction = none;
    stock_stop_price = c.lower10;
    average_daily_dollar_volume = c.average_dollar_volume;
    earnings_gap_class = class_of g;
    earnings_gap_pct = g.gap_pct;
    earnings_gap_atr = g.gap_atr;
    earnings_close_location = g.close_location;
    earnings_gap_retention = g.gap_retention;
    earnings_relative_volume = g.relative_volume;
    exit_reasons = [];
  }

  unfoldable pub add1_order : String → BarContext F → RunnerState F → ParitySignal F
  add1_order symbol c s = signal_of symbol c add s 1 (some add_1_atr) (some (fl.dec 25 2)) []

  unfoldable pub add2_order : String → BarContext F → RunnerState F → ParitySignal F
  add2_order symbol c s = signal_of symbol c add s 1 (some add_2_atr) (some (fl.dec 25 2)) []

  unfoldable pub harvest_order : String → BarContext F → RunnerState F → ParitySignal F
  harvest_order symbol c s =
      signal_of symbol c partial s 1 (some harvest_3_atr) (some (fl.dec 25 2)) []

  -- An exit is for the units that were held before the bar.
  unfoldable pub exit_order :
      String → BarContext F → RunnerState F → ℕ → List ExitReason → ParitySignal F
  exit_order symbol c s units reasons = signal_of symbol c exit s units none none reasons

  -- `s` is the state before the bar.
  unfoldable pub signals_of :
      String
      → V24Parameters F
      → BarContext F
      → GapView F
      → Bool
      → EntryView
      → RunnerView F
      → RunnerState F
      → List (ParitySignal F)
  signals_of symbol p c g in_window e r s =
      let exits = long_exit in_window r in
      when e.long_entry (entry_signal symbol c g e)
      ++ (when r.add1 (add1_order symbol c r.marked)
          ++ (when r.add2 (add2_order symbol c r.marked)
              ++ (when r.harvest (harvest_order symbol c r.marked)
                  ++ (when exits (exit_order symbol c r.marked s.position_units r.exit_reasons)
                      ++ when (closes_at_end p c s exits)
                          (exit_order symbol c r.marked s.position_units (backtest_end ∷ []))))))

  unfoldable pub fill_add : BarContext F → Bool → RunnerState F → RunnerState F
  fill_add c fired s =
      if fired && holds s
      then record s {
        position_units = s.position_units + 1;
        position_avg_price = some (
            fl.div
              (fl.add (fl.mul (avg_or_zero s.position_avg_price) (fl.of_int (pos s.position_units)))
                c.bar.close)
              (fl.of_int (pos (s.position_units + 1))));
      }
      else s

  -- The orders of one bar, in the source's order. `s` is the state before the bar.
  unfoldable pub fills :
      V24Parameters F
      → BarContext F
      → Bool
      → EntryView
      → RunnerView F
      → RunnerState F
      → RunnerState F
  fills p c in_window e r s =
      let exits = long_exit in_window r in
      let entered = fill_entry c e.long_entry r.marked in
      let added = fill_add c r.add2 (fill_add c r.add1 entered) in
      let closed = fill_exit exits (fill_harvest r.harvest added) in
      drop_stale p c e.long_entry (fill_end (closes_at_end p c s exits) closed)

-- To run this part in a test.
unfoldable pub fills_open : Unit {0}
unfolding entry_signal add1_order add2_order harvest_order exit_order long_exit closes_at_end
    signals_of fill_entry fill_add fill_harvest forget_runner flatten fill_exit fill_end drop_stale
    fills
fills_open = tt
