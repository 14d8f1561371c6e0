-- ===== src/Pine/V25.antt =====
-- src/daily_alpha/pine_v25_parity.py: the parameters of the challenger, its reports, and what it shares
-- with the engine of version 2.4. Integers are natural numbers here, as in Pine/Bars.
pub mod Entry
pub mod Exits
pub mod Run
pub mod Origin
pub mod Causal
pub mod Bounds
mod Tests
use Prim.Native.String.{String}
use daily_alpha_engine.Common.{
  ℕ, Bool, true, false, not, ◌||◌, Option, List, ltb, leb, Result, ok, err, ◌>>=◌, ◌>>◌, raise_if,
}
use daily_alpha_engine.Common.Int.{ℤ}
use daily_alpha_engine.Common.Floats.{Floats, zero_f}
use daily_alpha_engine.Pine.Bars.{
  Datetime, V24Parameters, BreakoutMode, close_mode, is_other, ParityError, parameter_not_positive,
  breakout_mode_unknown, window_naive, window_empty,
}
use daily_alpha_engine.Pine.State.{
  Direction, GapClass, EntryType, ParitySignal, TrendState, RunnerState, BarContext,
}
use daily_alpha_engine.Pine.Armed.{ArmedError, ArmedState, V25ArmedParameters}

pub record V25Parameters (F : Type 0) : Type 0 where
  pub entry_len : ℕ
  pub exit_len : ℕ
  pub breakout_mode : BreakoutMode
  pub atr_len : ℕ
  pub min_factor : F
  pub max_factor : F
  pub efficiency_len : ℕ
  pub require_fresh_bull_flip : Bool
  pub max_bull_flip_age : ℕ
  pub min_prior_bull_bars : ℕ
  pub use_rsi_cap : Bool
  pub rsi_len : ℕ
  pub max_entry_rsi : F
  pub use_failed_breakout_exit : Bool
  pub failed_breakout_bars : ℕ
  pub use_adx_filter : Bool
  pub adx_di_len : ℕ
  pub adx_smooth : ℕ
  pub min_adx : F
  pub use_efficiency_gate : Bool
  pub min_trend_efficiency : F
  pub use_price_floor : Bool
  pub min_underlying_price : F
  pub use_earnings_gap_sleeve : Bool
  pub min_earnings_gap_pct : F
  pub min_earnings_gap_atr : F
  pub min_gap_close_location : F
  pub min_early_gap_close_location : F
  pub min_gap_retention : F
  pub min_gap_relative_volume : F
  pub max_earnings_rsi : F
  pub crap_close_location : F
  pub crap_gap_retention : F
  pub use_persistent_armed_entry : Bool
  pub armed_max_bars : ℕ
  pub max_chase_atr : F
  pub arm_invalidation_atr : F
  pub use_runner_management : Bool
  pub add1_atr : F
  pub add2_atr : F
  pub harvest_atr : F
  pub use_structural_runner_exit : Bool
  pub structural_exit_len : ℕ
  pub structural_confirm_bars : ℕ
  pub use_break_even_after_harvest : Bool
  pub use_legacy_adaptive_exit : Bool
  pub use_legacy_turtle_exit : Bool
  pub start_time : Datetime
  pub end_time : Datetime
  pub enable_shadow_forward_test : Bool
  pub shadow_forward_start : Datetime

-- The errors of the engine of version 2.4, those of the armed breakout, and two of its own.
pub data V25Error : Type 0 where
  parity_failed : ParityError → V25Error
  armed_failed : ArmedError → V25Error
  shadow_start_naive armed_distance_negative : V25Error

pub data ArmEvent : Type 0 where
  breakout_armed_event arm_expired arm_invalidated : ArmEvent

pub data V25Rejection : Type 0 where
  armed_extended_no_chase armed_wait_trend armed_wait_price armed_wait_efficiency : V25Rejection
  armed_wait_rsi armed_wait_adx armed_bull_flip_too_old armed_wait_above_breakout : V25Rejection
  expired_arm invalidated_arm persistent_arm_disabled price_under_floor : V25Rejection
  gap_turned_down : GapClass → V25Rejection

pub record V25BarResult (F : Type 0) : Type 0 where
  pub symbol : String
  pub bar_index : ℕ
  pub bar_time : Datetime
  pub upper20 : Option F
  pub lower10 : Option F
  pub structural_lower : Option F
  pub atr : Option F
  pub efficiency : Option F
  pub rsi : Option F
  pub adx : Option F
  pub trend_state : Direction
  pub trend_stop : Option F
  pub fresh_long_breakout : Bool
  pub earnings_gap_class : GapClass
  pub entry_type : EntryType
  pub breakout_armed : Bool
  pub armed_age : Option ℤ
  pub armed_breakout_level : Option F
  pub armed_max_price : Option F
  pub armed_invalidation_level : Option F
  pub arm_events : List ArmEvent
  pub rejection_reasons : List V25Rejection
  pub entry_selected_breakout_level : Option F
  pub entry_armed_age : Option ℤ
  pub entry_replay_max_price : Option F
  pub signals : List (ParitySignal F)
  pub position_units_after_close : ℕ
  pub position_avg_price_after_close : Option F

-- What a round reads, with the low of the structural exit beside what the other engine reads.
pub record V25Context (F : Type 0) : Type 0 where
  pub shared : BarContext F
  pub structural_lower : Option F

-- What one round hands to the next; `index` is the next bar's.
pub record V25LoopState (F : Type 0) : Type 0 where
  pub index : ℕ
  pub trend : TrendState F
  pub runner : RunnerState F
  pub structural_break_count : ℕ
  pub machine : ArmedState F

module _ {F : Type 0} where
  -- The parameters of the parts that the engines share; `use_legacy_adaptive_exit` is read where
  -- version 2.4 reads `use_trend_exit`.
  abbrev pub shared_parameters : V25Parameters F → V24Parameters F
  shared_parameters p = record {
    entry_len = p.entry_len;
    exit_len = p.exit_len;
    breakout_mode = p.breakout_mode;
    atr_len = p.atr_len;
    min_factor = p.min_factor;
    max_factor = p.max_factor;
    efficiency_len = p.efficiency_len;
    require_fresh_bull_flip = p.require_fresh_bull_flip;
    max_bull_flip_age = p.max_bull_flip_age;
    min_prior_bull_bars = p.min_prior_bull_bars;
    use_trend_exit = p.use_legacy_adaptive_exit;
    use_rsi_cap = p.use_rsi_cap;
    rsi_len = p.rsi_len;
    max_entry_rsi = p.max_entry_rsi;
    use_failed_breakout_exit = p.use_failed_breakout_exit;
    failed_breakout_bars = p.failed_breakout_bars;
    use_adx_filter = p.use_adx_filter;
    adx_di_len = p.adx_di_len;
    adx_smooth = p.adx_smooth;
    min_adx = p.min_adx;
    use_efficiency_gate = p.use_efficiency_gate;
    min_trend_efficiency = p.min_trend_efficiency;
    use_price_floor = p.use_price_floor;
    min_underlying_price = p.min_underlying_price;
    use_earnings_gap_sleeve = p.use_earnings_gap_sleeve;
    min_earnings_gap_pct = p.min_earnings_gap_pct;
    min_earnings_gap_atr = p.min_earnings_gap_atr;
    min_gap_close_location = p.min_gap_close_location;
    min_early_gap_close_location = p.min_early_gap_close_location;
    min_gap_retention = p.min_gap_retention;
    min_gap_relative_volume = p.min_gap_relative_volume;
    max_earnings_rsi = p.max_earnings_rsi;
    crap_close_location = p.crap_close_location;
    crap_gap_retention = p.crap_gap_retention;
    use_runner_management = p.use_runner_management;
    add1_atr = p.add1_atr;
    add2_atr = p.add2_atr;
    harvest_atr = p.harvest_atr;
    use_break_even_after_harvest = p.use_break_even_after_harvest;
    start_time = p.start_time;
    end_time = p.end_time;
  }

  -- The arguments of `V25ArmedParameters`.
  abbrev pub armed_parameters : V25Parameters F → V25ArmedParameters F
  armed_parameters p = record {
    use_persistent_armed_entry = p.use_persistent_armed_entry;
    armed_max_bars = p.armed_max_bars;
    max_chase_atr = p.max_chase_atr;
    arm_invalidation_atr = p.arm_invalidation_atr;
  }

-- An error of a part, as one of the engine's.
abbrev pub of_parity : {A : Type 0} → Result ParityError A → Result V25Error A
of_parity (ok result) = ok result
of_parity (err raised) = err (parity_failed raised)

abbrev pub of_armed : {A : Type 0} → Result ArmedError A → Result V25Error A
of_armed (ok result) = ok result
of_armed (err raised) = err (armed_failed raised)

module _ {F : Type 0} ⦃fl : Floats F⦄ where
  abbrev pub default_v25_parameters : V25Parameters F
  default_v25_parameters = record {
    entry_len = 20;
    exit_len = 10;
    breakout_mode = close_mode;
    atr_len = 10;
    min_factor = fl.dec 20 1;
    max_factor = fl.dec 40 1;
    efficiency_len = 20;
    require_fresh_bull_flip = false;
    max_bull_flip_age = 5;
    min_prior_bull_bars = 2;
    use_rsi_cap = true;
    rsi_len = 14;
    max_entry_rsi = fl.dec 800 1;
    use_failed_breakout_exit = true;
    failed_breakout_bars = 3;
    use_adx_filter = true;
    adx_di_len = 14;
    adx_smooth = 14;
    min_adx = fl.dec 250 1;
    use_efficiency_gate = true;
    min_trend_efficiency = fl.dec 20 2;
    use_price_floor = true;
    min_underlying_price = fl.dec 250 1;
    use_earnings_gap_sleeve = true;
    min_earnings_gap_pct = fl.dec 50 1;
    min_earnings_gap_atr = fl.dec 15 1;
    min_gap_close_location = fl.dec 70 2;
    min_early_gap_close_location = fl.dec 60 2;
    min_gap_retention = fl.dec 70 2;
    min_gap_relative_volume = fl.dec 15 1;
    max_earnings_rsi = fl.dec 850 1;
    crap_close_location = fl.dec 50 2;
    crap_gap_retention = fl.dec 50 2;
    use_persistent_armed_entry = true;
    armed_max_bars = 10;
    max_chase_atr = fl.dec 10 1;
    arm_invalidation_atr = fl.dec 50 2;
    use_runner_management = true;
    add1_atr = fl.dec 10 1;
    add2_atr = fl.dec 20 1;
    harvest_atr = fl.dec 30 1;
    use_structural_runner_exit = true;
    structural_exit_len = 20;
    structural_confirm_bars = 1;
    use_break_even_after_harvest = false;
    use_legacy_adaptive_exit = false;
    use_legacy_turtle_exit = false;
    start_time = record { aware = true; instant = 63_839_682_000_000_000 };
    end_time = record { aware = true; instant = 66_238_059_540_000_000 };
    enable_shadow_forward_test = true;
    shadow_forward_start = record { aware = true; instant = 63_922_708_800_000_000 };
  }

  -- `V25Parameters.__post_init__`
  unfoldable pub check_v25_parameters : V25Parameters F → Result V25Error (Unit {0})
  check_v25_parameters p = do
    raise_if (ltb p.entry_len 1) (parity_failed parameter_not_positive)
    raise_if (ltb p.exit_len 1) (parity_failed parameter_not_positive)
    raise_if (ltb p.atr_len 1) (parity_failed parameter_not_positive)
    raise_if (ltb p.efficiency_len 1) (parity_failed parameter_not_positive)
    raise_if (ltb p.min_prior_bull_bars 1) (parity_failed parameter_not_positive)
    raise_if (ltb p.rsi_len 1) (parity_failed parameter_not_positive)
    raise_if (ltb p.failed_breakout_bars 1) (parity_failed parameter_not_positive)
    raise_if (ltb p.adx_di_len 1) (parity_failed parameter_not_positive)
    raise_if (ltb p.adx_smooth 1) (parity_failed parameter_not_positive)
    raise_if (ltb p.armed_max_bars 1) (parity_failed parameter_not_positive)
    raise_if (ltb p.structural_exit_len 1) (parity_failed parameter_not_positive)
    raise_if (ltb p.structural_confirm_bars 1) (parity_failed parameter_not_positive)
    raise_if (is_other p.breakout_mode) (parity_failed breakout_mode_unknown)
    raise_if (not p.start_time.aware || not p.end_time.aware) (parity_failed window_naive)
    raise_if (not p.shadow_forward_start.aware) shadow_start_naive
    raise_if (leb p.end_time.instant p.start_time.instant) (parity_failed window_empty)
    raise_if (fl.lt p.max_chase_atr zero_f || fl.lt p.arm_invalidation_atr zero_f)
        armed_distance_negative
    ok tt
