-- ===== src/Pine/Bars.antt =====
-- src/daily_alpha/pine_v24_parity.py: DailyBar and V24Parameters, with the checks that their
-- constructors make.
pub mod Checks
use daily_alpha_engine.Common.{
  ℕ, Bool, true, false, not, ◌||◌, Option, ltb, leb, Result, ok, ◌>>◌, raise_if, some_and,
}
use daily_alpha_engine.Common.Floats.{Floats, zero_f}

-- A datetime: whether it has a timezone, and its instant, in microseconds from the start of year 1.
pub record Datetime : Type 0 where
  pub aware : Bool
  pub instant : ℕ

pub data ParityError : Type 0 where
  time_naive value_not_finite high_below_low volume_negative earnings_not_finite : ParityError
  parameter_not_positive breakout_mode_unknown window_naive window_empty : ParityError
  symbol_missing not_chronological length_not_positive : ParityError

pub record DailyBar (F : Type 0) : Type 0 where
  pub time : Datetime
  pub open_price : F
  pub high : F
  pub low : F
  pub close : F
  pub volume : F
  pub earnings_actual : Option F

-- The texts that `breakout_mode` is compared with; `other_mode` is any other text.
pub data BreakoutMode : Type 0 where
  close_mode high_mode other_mode : BreakoutMode

pub record V24Parameters (F : Type 0) : Type 0 where
  pub entry_len : ℕ
  pub exit_len : ℕ
  pub breakout_mode : BreakoutMode
  pub atr_len : ℕ
  pub min_factor : F
  pub max_factor : F
  pub efficiency_len : ℕ
  pub require_fresh_bull_flip : Bool
  pub max_bull_flip_age : ℕ
  pub min_prior_bull_bars : ℕ
  pub use_trend_exit : Bool
  pub use_rsi_cap : Bool
  pub rsi_len : ℕ
  pub max_entry_rsi : F
  pub use_failed_breakout_exit : Bool
  pub failed_breakout_bars : ℕ
  pub use_adx_filter : Bool
  pub adx_di_len : ℕ
  pub adx_smooth : ℕ
  pub min_adx : F
  pub use_efficiency_gate : Bool
  pub min_trend_efficiency : F
  pub use_price_floor : Bool
  pub min_underlying_price : F
  pub use_earnings_gap_sleeve : Bool
  pub min_earnings_gap_pct : F
  pub min_earnings_gap_atr : F
  pub min_gap_close_location : F
  pub min_early_gap_close_location : F
  pub min_gap_retention : F
  pub min_gap_relative_volume : F
  pub max_earnings_rsi : F
  pub crap_close_location : F
  pub crap_gap_retention : F
  pub use_runner_management : Bool
  pub add1_atr : F
  pub add2_atr : F
  pub harvest_atr : F
  pub use_break_even_after_harvest : Bool
  pub start_time : Datetime
  pub end_time : Datetime

abbrev pub is_other : BreakoutMode → Bool
is_other other_mode = true
is_other _ = false

module _ {F : Type 0} ⦃fl : Floats F⦄ where
  abbrev pub default_parameters : V24Parameters F
  default_parameters = record {
    entry_len = 20;
    exit_len = 10;
    breakout_mode = close_mode;
    atr_len = 10;
    min_factor = fl.dec 20 1;
    max_factor = fl.dec 40 1;
    efficiency_len = 20;
    require_fresh_bull_flip = false;
    max_bull_flip_age = 5;
    min_prior_bull_bars = 2;
    use_trend_exit = true;
    use_rsi_cap = true;
    rsi_len = 14;
    max_entry_rsi = fl.dec 800 1;
    use_failed_breakout_exit = true;
    failed_breakout_bars = 3;
    use_adx_filter = true;
    adx_di_len = 14;
    adx_smooth = 14;
    min_adx = fl.dec 250 1;
    use_efficiency_gate = true;
    min_trend_efficiency = fl.dec 20 2;
    use_price_floor = true;
    min_underlying_price = fl.dec 250 1;
    use_earnings_gap_sleeve = true;
    min_earnings_gap_pct = fl.dec 50 1;
    min_earnings_gap_atr = fl.dec 15 1;
    min_gap_close_location = fl.dec 70 2;
    min_early_gap_close_location = fl.dec 60 2;
    min_gap_retention = fl.dec 70 2;
    min_gap_relative_volume = fl.dec 15 1;
    max_earnings_rsi = fl.dec 850 1;
    crap_close_location = fl.dec 50 2;
    crap_gap_retention = fl.dec 50 2;
    use_runner_management = true;
    add1_atr = fl.dec 10 1;
    add2_atr = fl.dec 20 1;
    harvest_atr = fl.dec 30 1;
    use_break_even_after_harvest = true;
    start_time = record { aware = true; instant = 63_839_682_000_000_000 };
    end_time = record { aware = true; instant = 66_238_059_540_000_000 };
  }

  -- `DailyBar.__post_init__`
  unfoldable pub check_bar : DailyBar F → Result ParityError (Unit {0})
  check_bar b = do
    raise_if (not b.time.aware) time_naive
    raise_if (not (fl.is_finite b.open_price)) value_not_finite
    raise_if (not (fl.is_finite b.high)) value_not_finite
    raise_if (not (fl.is_finite b.low)) value_not_finite
    raise_if (not (fl.is_finite b.close)) value_not_finite
    raise_if (not (fl.is_finite b.volume)) value_not_finite
    raise_if (fl.lt b.high b.low) high_below_low
    raise_if (fl.lt b.volume zero_f) volume_negative
    raise_if (some_and b.earnings_actual (λ e. not (fl.is_finite e))) earnings_not_finite
    ok tt

  -- `V24Parameters.__post_init__`
  unfoldable pub check_parameters : V24Parameters F → Result ParityError (Unit {0})
  check_parameters p = do
    raise_if (ltb p.entry_len 1) parameter_not_positive
    raise_if (ltb p.exit_len 1) parameter_not_positive
    raise_if (ltb p.atr_len 1) parameter_not_positive
    raise_if (ltb p.efficiency_len 1) parameter_not_positive
    raise_if (ltb p.rsi_len 1) parameter_not_positive
    raise_if (ltb p.failed_breakout_bars 1) parameter_not_positive
    raise_if (ltb p.adx_di_len 1) parameter_not_positive
    raise_if (ltb p.adx_smooth 1) parameter_not_positive
    raise_if (ltb p.min_prior_bull_bars 1) parameter_not_positive
    raise_if (is_other p.breakout_mode) breakout_mode_unknown
    raise_if (not p.start_time.aware || not p.end_time.aware) window_naive
    raise_if (leb p.end_time.instant p.start_time.instant) window_empty
    ok tt
