-- ===== src/Pine/Armed.antt =====
-- src/daily_alpha/pine_v25_armed_parity.py: the breakout that stays armed over later bars. Integers are
-- natural numbers here, so that a negative bar index or a negative `armed_max_bars`, which the checks
-- refuse, is not represented; an age is an integer.
pub mod Steps
pub mod Origin
mod Tests
use daily_alpha_engine.Common.{
  ℕ, Bool, true, false, not, ◌&&◌, ◌||◌, Option, none, some, Result, ok, err, ◌>>=◌, ◌>>◌, raise_if,
  ltb, if◌then◌else◌, some_and,
}
use daily_alpha_engine.Common.Int.{ℤ, pos, ◌-ℤ◌, ltb_ℤ, leb_ℤ}
use daily_alpha_engine.Common.Floats.{Floats, zero_f}
use daily_alpha_engine.Pine.State.{Direction}
use daily_alpha_engine.Pine.Trend.{is_bullish}

pub data ArmedError : Type 0 where
  max_bars_not_positive chase_negative invalidation_negative : ArmedError
  close_not_finite upper_not_finite atr_invalid : ArmedError
  arming_needs_upper_and_atr : ArmedError

pub record V25ArmedParameters (F : Type 0) : Type 0 where
  pub use_persistent_armed_entry : Bool
  pub armed_max_bars : ℕ
  pub max_chase_atr : F
  pub arm_invalidation_atr : F

pub record V25ArmedInputs (F : Type 0) : Type 0 where
  pub bar_index : ℕ
  pub close : F
  pub upper20 : Option F
  pub atr : Option F
  pub position_is_flat : Bool
  pub normal_breakout_candidate : Bool
  pub same_bar_normal_entry : Bool
  pub trend_state : Direction
  pub normal_trend_mature : Bool
  pub fresh_trend_ok : Bool
  pub quality_entry_ok : Bool
  pub bar_confirmed : Bool

pub record V25ArmedSnapshot (F : Type 0) : Type 0 where
  pub breakout_armed : Bool
  pub armed_breakout_level : Option F
  pub armed_atr : Option F
  pub armed_bar : Option ℕ
  pub armed_age : Option ℤ
  pub armed_max_price : Option F
  pub armed_invalidation_level : Option F
  pub new_arm : Bool
  pub arm_expired_event : Bool
  pub arm_invalidated_event : Bool
  pub armed_active : Bool
  pub armed_above_breakout : Bool
  pub armed_within_chase : Bool
  pub armed_trend_ready : Bool
  pub armed_confirmed_entry : Bool

-- The fields of `V25ArmedBreakoutMachine`.
pub record ArmedState (F : Type 0) : Type 0 where
  pub breakout_armed : Bool
  pub armed_breakout_level : Option F
  pub armed_atr : Option F
  pub armed_bar : Option ℕ

-- `reset`
abbrev pub unarmed : {F : Type 0} → ArmedState F
unarmed = record {
  breakout_armed = false;
  armed_breakout_level = none;
  armed_atr = none;
  armed_bar = none;
}

module _ {F : Type 0} where
  -- The test of `if` for a new arm.
  unfoldable pub wants_arm : V25ArmedParameters F → V25ArmedInputs F → Bool
  wants_arm p x =
      p.use_persistent_armed_entry
      && x.position_is_flat
      && x.normal_breakout_candidate
      && not x.same_bar_normal_entry

  unfoldable pub new_arm_of :
      V25ArmedInputs F → Option F → Option F → Result ArmedError (ArmedState F)
  new_arm_of x none atr = err arming_needs_upper_and_atr
  new_arm_of x (some level) none = err arming_needs_upper_and_atr
  new_arm_of x (some level) (some a) = ok (record {
    breakout_armed = true;
    armed_breakout_level = some level;
    armed_atr = some a;
    armed_bar = some x.bar_index;
  })

  -- The state behind the arming.
  unfoldable pub arm :
      V25ArmedParameters F → V25ArmedInputs F → ArmedState F → Result ArmedError (ArmedState F)
  arm p x s = let armed = new_arm_of x x.upper20 x.atr in if wants_arm p x then armed else ok s

  unfoldable pub age_of : V25ArmedInputs F → ArmedState F → Option ℤ
  age_of x s =
      if s.breakout_armed
      then elim s.armed_bar [ none ↦ none | some b ↦ some (pos x.bar_index -ℤ pos b) ]
      else none

module _ {F : Type 0} ⦃fl : Floats F⦄ where
  -- `V25ArmedParameters.__post_init__`
  unfoldable pub check_armed_parameters : V25ArmedParameters F → Result ArmedError (Unit {0})
  check_armed_parameters p = do
    raise_if (ltb p.armed_max_bars 1) max_bars_not_positive
    raise_if (fl.lt p.max_chase_atr zero_f) chase_negative
    raise_if (fl.lt p.arm_invalidation_atr zero_f) invalidation_negative
    ok tt

  -- `V25ArmedInputs.__post_init__`; a direction is 1 or -1.
  unfoldable pub check_inputs : V25ArmedInputs F → Result ArmedError (Unit {0})
  check_inputs x = do
    raise_if (not (fl.is_finite x.close)) close_not_finite
    raise_if (some_and x.upper20 (λ u. not (fl.is_finite u))) upper_not_finite
    raise_if (some_and x.atr (λ a. not (fl.is_finite a) || fl.lt a zero_f)) atr_invalid
    ok tt

  -- `level + atr * multiple`, while armed with both present.
  unfoldable pub max_price_of : V25ArmedParameters F → ArmedState F → Option F
  max_price_of p s =
      if s.breakout_armed
      then elim s.armed_breakout_level [
        | none ↦ none
        | some level ↦ elim s.armed_atr [
          | none ↦ none
          | some a ↦ some (fl.add level (fl.mul a p.max_chase_atr))
        ]
      ]
      else none

  unfoldable pub invalidation_of : V25ArmedParameters F → ArmedState F → Option F
  invalidation_of p s =
      if s.breakout_armed
      then elim s.armed_breakout_level [
        | none ↦ none
        | some level ↦ elim s.armed_atr [
          | none ↦ none
          | some a ↦ some (fl.sub level (fl.mul a p.arm_invalidation_atr))
        ]
      ]
      else none

  unfoldable pub is_timed_out : V25ArmedParameters F → V25ArmedInputs F → ArmedState F → Bool
  is_timed_out p x s =
      s.breakout_armed && some_and (age_of x s) (λ age. ltb_ℤ (pos p.armed_max_bars) age)

  unfoldable pub is_invalid : V25ArmedParameters F → V25ArmedInputs F → ArmedState F → Bool
  is_invalid p x s =
      s.breakout_armed && some_and (invalidation_of p s) (λ level. fl.lt x.close level)

  -- The snapshot of a bar, from the state `s` behind the arming.
  unfoldable pub snapshot_of :
      V25ArmedParameters F → V25ArmedInputs F → Bool → ArmedState F → V25ArmedSnapshot F
  snapshot_of p x new_arm s =
      let expired = x.position_is_flat && is_timed_out p x s in
      let invalidated =
        x.position_is_flat && (s.breakout_armed && not expired) && is_invalid p x s in
      let armed = s.breakout_armed && not expired && not invalidated in
      let active =
        p.use_persistent_armed_entry
        && x.position_is_flat
        && armed
        && some_and (age_of x s) (λ age. leb_ℤ age (pos p.armed_max_bars)) in
      let above = active && some_and s.armed_breakout_level (λ level. fl.le level x.close) in
      let chase = active && some_and (max_price_of p s) (λ top. fl.le x.close top) in
      let ready = active && is_bullish x.trend_state && x.normal_trend_mature && x.fresh_trend_ok in
      record {
        breakout_armed = armed;
        armed_breakout_level = s.armed_breakout_level;
        armed_atr = s.armed_atr;
        armed_bar = s.armed_bar;
        armed_age = age_of x s;
        armed_max_price = max_price_of p s;
        armed_invalidation_level = invalidation_of p s;
        new_arm = new_arm;
        arm_expired_event = expired;
        arm_invalidated_event = invalidated;
        armed_active = active;
        armed_above_breakout = above;
        armed_within_chase = chase;
        armed_trend_ready = ready;
        armed_confirmed_entry = x.bar_confirmed && ready && above && chase && x.quality_entry_ok;
      }

  -- The part of `step` behind the arming: the snapshot, and the fields after it.
  unfoldable pub settle :
      V25ArmedParameters F → V25ArmedInputs F → ArmedState F → V25ArmedSnapshot F × ArmedState F
  settle p x armed =
      let snapshot = snapshot_of p x (wants_arm p x) armed in
      (
        snapshot,
        if snapshot.armed_confirmed_entry
            then unarmed
            else record armed { breakout_armed = snapshot.breakout_armed },
      )

  unfoldable pub step :
      V25ArmedParameters F
      → V25ArmedInputs F
      → ArmedState F
      → Result ArmedError (V25ArmedSnapshot F × ArmedState F)
  step p x s = do armed ← arm p x s; ok (settle p x armed)
