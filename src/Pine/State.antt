-- ===== src/Pine/State.antt =====
-- src/daily_alpha/pine_v24_parity.py: the variables of `run_v24_parity`, what it reads at one bar, and
-- what it reports.
use Prim.Native.String.{String}
use daily_alpha_engine.Common.{ℕ, Bool, false, Option, none, List}
use daily_alpha_engine.Pine.Bars.{Datetime, DailyBar}

-- `trend_state`, which is 1 or -1.
pub data Direction : Type 0 where
  bullish bearish : Direction

pub data GapClass : Type 0 where
  gap_go gap_go_early gap_crap earnings_wait no_gap : GapClass

-- The texts of both engines; `armed_breakout_confirm` is of src/daily_alpha/pine_v25_parity.py only.
pub data EntryType : Type 0 where
  earnings_gap_go normal_breakout no_entry armed_breakout_confirm : EntryType

pub data Rejection : Type 0 where
  gap_rejected : GapClass → Rejection
  price_below_floor trend_not_bullish trend_not_mature bull_flip_too_old : Rejection
  low_trend_efficiency rsi_extended adx_too_low : Rejection

-- The last two are of src/daily_alpha/pine_v25_parity.py.
pub data ExitReason : Type 0 where
  break_even_exit failed_breakout_exit turtle_exit trend_exit backtest_end : ExitReason
  structural_exit adaptive_trend_exit : ExitReason

pub data Action : Type 0 where
  entry_long add partial exit : Action

pub data RunnerStage : Type 0 where
  add_1_atr add_2_atr harvest_3_atr : RunnerStage

-- The variables of the trend filter.
pub record TrendState (F : Type 0) : Type 0 where
  pub final_upper : Option F
  pub final_lower : Option F
  pub trend_state : Direction
  pub bullish_trend_bars : ℕ
  pub last_bull_flip_index : Option ℕ
  pub previous_breakout : Bool

-- The variables of the position and of its runner.
pub record RunnerState (F : Type 0) : Type 0 where
  pub position_units : ℕ
  pub position_avg_price : Option F
  pub entry_breakout_level : Option F
  pub entry_signal_bar : Option ℕ
  pub runner_base_entry : Option F
  pub runner_base_atr : Option F
  pub add1_done : Bool
  pub add2_done : Bool
  pub harvest_done : Bool
  pub add1_bar : Option ℕ
  pub add2_bar : Option ℕ
  pub break_even_level : Option F
  pub active_entry_type : EntryType

-- What a round of the loop reads: its index, its bar, the bar before it, and the series there.
pub record BarContext (F : Type 0) : Type 0 where
  pub index : ℕ
  pub bar : DailyBar F
  pub previous_bar : Option (DailyBar F)
  pub previous_atr : Option F
  pub upper20 : Option F
  pub lower10 : Option F
  pub atr : Option F
  pub efficiency : Option F
  pub rsi : Option F
  pub adx : Option F
  pub average_volume_prior : Option F
  pub average_dollar_volume : Option F

pub record ParitySignal (F : Type 0) : Type 0 where
  pub symbol : String
  pub bar_index : ℕ
  pub bar_time : Datetime
  pub action : Action
  pub price : F
  pub entry_type : EntryType
  pub quantity_units : ℕ
  pub runner_stage : Option RunnerStage
  pub position_fraction : Option F
  pub stock_stop_price : Option F
  pub average_daily_dollar_volume : Option F
  pub earnings_gap_class : GapClass
  pub earnings_gap_pct : F
  pub earnings_gap_atr : F
  pub earnings_close_location : F
  pub earnings_gap_retention : F
  pub earnings_relative_volume : F
  pub exit_reasons : List ExitReason

pub record V24BarResult (F : Type 0) : Type 0 where
  pub symbol : String
  pub bar_index : ℕ
  pub bar_time : Datetime
  pub upper20 : Option F
  pub lower10 : Option F
  pub atr : Option F
  pub efficiency : Option F
  pub rsi : Option F
  pub adx : Option F
  pub trend_state : Direction
  pub trend_stop : Option F
  pub fresh_long_breakout : Bool
  pub earnings_gap_class : GapClass
  pub entry_type : EntryType
  pub rejection_reasons : List Rejection
  pub signals : List (ParitySignal F)
  pub position_units_after_close : ℕ
  pub position_avg_price_after_close : Option F

abbrev pub trend_start : {F : Type 0} → TrendState F
trend_start = record {
  final_upper = none;
  final_lower = none;
  trend_state = bullish;
  bullish_trend_bars = 0;
  last_bull_flip_index = none;
  previous_breakout = false;
}

abbrev pub runner_start : {F : Type 0} → RunnerState F
runner_start = record {
  position_units = 0;
  position_avg_price = none;
  entry_breakout_level = none;
  entry_signal_bar = none;
  runner_base_entry = none;
  runner_base_atr = none;
  add1_done = false;
  add2_done = false;
  harvest_done = false;
  add1_bar = none;
  add2_bar = none;
  break_even_level = none;
  active_entry_type = no_entry;
}
