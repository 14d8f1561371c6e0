-- ===== src/Pine/Armed/Tests.antt =====
-- A breakout that arms on one bar and is entered on the next.
use daily_alpha_engine.Common.{ℕ, ◌≡◌, refl, true, false, none, some, [], ◌∷◌, ok}
use daily_alpha_engine.Common.Fixed.{Fixed, fixed_floats, fixed_open}
use daily_alpha_engine.Pine.State.{bullish}
use daily_alpha_engine.Pine.Armed.{
  V25ArmedParameters, V25ArmedInputs, ArmedState, unarmed, wants_arm, new_arm_of, arm, age_of,
  max_price_of, invalidation_of, is_timed_out, is_invalid, snapshot_of, settle, step,
}
use daily_alpha_engine.Pine.Armed.Origin.{started, stepped, IsConfirmed, step-IsConfirmed}

abbrev price : ℕ → Fixed
price n = fixed_floats.dec n 0

abbrev parameters : V25ArmedParameters Fixed
parameters = record {
  use_persistent_armed_entry = true;
  armed_max_bars = 3;
  max_chase_atr = price 1;
  arm_invalidation_atr = price 1;
}

-- The breakout candidate, whose own bar does not enter.
abbrev first_bar : V25ArmedInputs Fixed
first_bar = record {
  bar_index = 5;
  close = price 99;
  upper20 = some (price 100);
  atr = some (price 2);
  position_is_flat = true;
  normal_breakout_candidate = true;
  same_bar_normal_entry = false;
  trend_state = bullish;
  normal_trend_mature = true;
  fresh_trend_ok = true;
  quality_entry_ok = true;
  bar_confirmed = true;
}

-- The next bar closes above the level and below the chase limit.
abbrev second_bar : V25ArmedInputs Fixed
second_bar = record first_bar {
  bar_index = 6;
  close = price 101;
  upper20 = none;
  normal_breakout_candidate = false;
}

abbrev armed : ArmedState Fixed
armed = record {
  breakout_armed = true;
  armed_breakout_level = some (price 100);
  armed_atr = some (price 2);
  armed_bar = some 5;
}

first_step :
    step parameters first_bar unarmed ≡ ok (snapshot_of parameters first_bar true armed, armed)
unfolding step arm wants_arm new_arm_of settle snapshot_of age_of max_price_of invalidation_of
    is_timed_out is_invalid fixed_open
first_step = refl

second_step :
    step parameters second_bar armed ≡ ok (snapshot_of parameters second_bar false armed, unarmed)
unfolding step arm wants_arm new_arm_of settle snapshot_of age_of max_price_of invalidation_of
    is_timed_out is_invalid fixed_open
second_step = refl

second_enters : (snapshot_of parameters second_bar false armed).armed_confirmed_entry ≡ true
unfolding snapshot_of age_of max_price_of invalidation_of is_timed_out is_invalid fixed_open
second_enters = refl

step-IsConfirmed_example :
    IsConfirmed parameters second_bar (first_bar ∷ []) × (unarmed {F = Fixed} ≡ unarmed)
step-IsConfirmed_example =
    step-IsConfirmed parameters (first_bar ∷ []) armed unarmed second_bar
      (snapshot_of parameters second_bar false armed)
      (stepped [] unarmed armed first_bar (snapshot_of parameters first_bar true armed) started
        first_step)
      second_step second_enters
