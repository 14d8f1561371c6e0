-- ===== src/Pine/Armed/Steps.antt =====
-- What one step of the armed machine does, by case.
use daily_alpha_engine.Common.{
  ℕ, ◌≡◌, refl, ◌⊎◌, inl, inr, Bool, true, false, Bool-cases, ◌&&◌, Option, none, some, Result, ok,
  err, ◌>>=◌, arith,
}
use daily_alpha_engine.Common.Int.{pos, ◌-ℤ◌, ltb_ℤ, leb_ℤ}
use daily_alpha_engine.Common.Floats.{Floats}
use daily_alpha_engine.Pine.Trend.{is_bullish}
use daily_alpha_engine.Pine.Armed.{
  V25ArmedParameters, V25ArmedInputs, V25ArmedSnapshot, ArmedState, unarmed, wants_arm, new_arm_of,
  arm, age_of, max_price_of, invalidation_of, is_timed_out, is_invalid, snapshot_of, settle,
  ArmedError,
}

module _ {F : Type 0} ⦃fl : Floats F⦄ where
  -- A bar that does not end the arm of bar `b`: it is in a position, or it is not too old and does not
  -- close below the invalidation level.
  pub IsHeld : V25ArmedParameters F → ℕ → F → F → V25ArmedInputs F → Type 0
  IsHeld p b level a y =
      (y.position_is_flat ≡ false)
      ⊎ (ltb_ℤ (pos p.armed_max_bars) (pos y.bar_index -ℤ pos b) ≡ false)
        × (fl.lt y.close (fl.sub level (fl.mul a p.arm_invalidation_atr)) ≡ false)

  unfoldable pub armed_state : F → F → ℕ → ArmedState F
  armed_state level a b = record {
    breakout_armed = true;
    armed_breakout_level = some level;
    armed_atr = some a;
    armed_bar = some b;
  }

  new_arm_of-ok :
      (x : V25ArmedInputs F) (u v : Option F) (s1 : ArmedState F)
      → new_arm_of x u v ≡ ok s1
      → (level : F) × (a : F) × (u ≡ some level)
        × (v ≡ some a)
        × (s1 ≡ armed_state level a x.bar_index)
  unfolding new_arm_of armed_state
  new_arm_of-ok x none v s1 h = cc
  new_arm_of-ok x (some level) none s1 h = cc
  new_arm_of-ok x (some level) (some a) s1 h = (level, a, refl, refl, ground arith)

  -- What arming does, by case.
  pub arm-cases :
      (p : V25ArmedParameters F) (x : V25ArmedInputs F) (s s1 : ArmedState F)
      → arm p x s ≡ ok s1
      → (wants_arm p x ≡ false) × (s1 ≡ s)
        ⊎ (wants_arm p x ≡ true)
          × ((level : F) × (a : F) × (x.upper20 ≡ some level)
              × (x.atr ≡ some a)
              × (s1 ≡ armed_state level a x.bar_index))
  unfolding arm
  arm-cases p x s s1 h = elim (Bool-cases (wants_arm p x)) [
    | inl w ↦ inr (w, new_arm_of-ok x x.upper20 x.atr s1 (ground arith))
    | inr w ↦ inl (w, ground arith)
  ]

  -- A bar behind which an arm still stands holds it.
  pub snapshot-IsHeld :
      (p : V25ArmedParameters F) (x : V25ArmedInputs F) (new : Bool) (level a : F) (b : ℕ)
      → (snapshot_of p x new (armed_state level a b)).breakout_armed ≡ true
      → IsHeld p b level a x
  unfolding snapshot_of armed_state is_timed_out is_invalid age_of invalidation_of IsHeld
  snapshot-IsHeld p x new level a b h = ground arith

  pub snapshot-confirmed :
      (p : V25ArmedParameters F) (x : V25ArmedInputs F) (new : Bool) (level a : F) (b : ℕ)
      → (snapshot_of p x new (armed_state level a b)).armed_confirmed_entry ≡ true
      → (leb_ℤ (pos x.bar_index -ℤ pos b) (pos p.armed_max_bars) ≡ true)
        × (fl.le level x.close ≡ true)
        × (fl.le x.close (fl.add level (fl.mul a p.max_chase_atr)) ≡ true)
        × ((snapshot_of p x new (armed_state level a b)).breakout_armed ≡ true)
        × (x.position_is_flat && x.quality_entry_ok && x.bar_confirmed ≡ true)
        × (is_bullish x.trend_state && x.normal_trend_mature && x.fresh_trend_ok ≡ true)
  unfolding snapshot_of armed_state age_of max_price_of
  snapshot-confirmed p x new level a b h = ground arith

  pub snapshot-unarmed :
      (p : V25ArmedParameters F) (x : V25ArmedInputs F) (new : Bool) (s : ArmedState F)
      → s.breakout_armed ≡ false
      → ((snapshot_of p x new s).breakout_armed ≡ false)
        × ((snapshot_of p x new s).armed_confirmed_entry ≡ false)
  unfolding snapshot_of
  snapshot-unarmed p x new s h = ground arith

  pub settle-cases :
      (p : V25ArmedParameters F) (x : V25ArmedInputs F) (level a : F) (b : ℕ)
      → ((settle p x (armed_state level a b)).1.breakout_armed ≡ false)
        ⊎ ((settle p x (armed_state level a b)).1 ≡ armed_state level a b)
          × ((snapshot_of p x (wants_arm p x) (armed_state level a b)).breakout_armed ≡ true)
  unfolding settle armed_state
  settle-cases p x level a b = ground arith

  pub settle-unarmed :
      (p : V25ArmedParameters F) (x : V25ArmedInputs F) (s : ArmedState F)
      → s.breakout_armed ≡ false
      → (settle p x s).1.breakout_armed ≡ false
  unfolding settle
  settle-unarmed p x s h = ground (arith, snapshot-unarmed p x (wants_arm p x) s h)

  pub step_split :
      (p : V25ArmedParameters F) (x : V25ArmedInputs F) (m : Result ArmedError (ArmedState F))
      (r : V25ArmedSnapshot F × ArmedState F)
      → (m >>= λ armed. ok (settle p x armed)) ≡ ok r
      → (s1 : ArmedState F) × (m ≡ ok s1) × (settle p x s1 ≡ r)
  step_split p x (ok s1) r h = (s1, refl, ground arith)
  step_split p x (err e) r h = cc

  pub settle-shot :
      (p : V25ArmedParameters F) (x : V25ArmedInputs F) (s1 : ArmedState F)
      → ((settle p x s1).0 ≡ snapshot_of p x (wants_arm p x) s1)
        × (((settle p x s1).0.armed_confirmed_entry ≡ false) ⊎ ((settle p x s1).1 ≡ unarmed))
  unfolding settle
  settle-shot p x s1 = ground arith
