-- ===== src/Pine/Run/Enter.antt =====
-- src/daily_alpha/pine_v24_parity.py, the body of `run_v24_parity`: which bars are entered, and as what.
use Prim.Native.String.{String}
use daily_alpha_engine.Common.{
  sym, subst, ◌-◌, ◌≤◌, ◌≡◌, ◌↔◌, refl, Bool, true, false, not, ◌||◌, Option, none, some, some_and,
  leb,
}
use daily_alpha_engine.Common.Floats.{Floats}
use daily_alpha_engine.Pine.Bars.{
  DailyBar, V24Parameters, BreakoutMode, close_mode, high_mode, other_mode,
}
use daily_alpha_engine.Pine.State.{bullish, BarContext}
use daily_alpha_engine.Pine.Trend.{trend_step}
use daily_alpha_engine.Pine.Run.{LoopState}

-- A filter that is switched off, or a value that is there and passes it.
pub IsPassed : {F : Type 0} → Bool → Option F → (F → Bool) → Type 0
IsPassed {F} use_it x test = use_it ≡ true → (a : F) × (x ≡ some a) × (test a ≡ true)

pub passed :
    {F : Type 0} (use_it : Bool) (x : Option F) (test : F → Bool)
    → (not use_it || some_and x test ≡ true) ↔ IsPassed use_it x test
unfolding IsPassed
passed true none test = (λ h. absurd (cc), λ h. absurd (no_value (h refl)))
  where
    no_value : {F : Type 0} {test : F → Bool} → ((a : F) × (none ≡ some a) × (test a ≡ true)) → ⊥
    no_value (a, eq, t) = cc
passed true (some a) test = (
  λ h on. (a, refl, h),
  λ h. let (b, eq, t) = h refl in subst (λ x. some_and x test ≡ true) (sym eq) t,
)
passed false x test = (λ h on. absurd (cc), λ h. refl)

module _ {F : Type 0} ⦃fl : Floats F⦄ where
  -- The bar is above the level, as the mode of the breakout has it.
  pub IsAbove : BreakoutMode → F → DailyBar F → Type 0
  IsAbove close_mode level bar = fl.lt level bar.close ≡ true
  IsAbove high_mode level bar = fl.lt level bar.high ≡ true
  IsAbove other_mode level bar = fl.lt level bar.high ≡ true

  -- A bar in the window, without a position, that is the first to break out above the channel, and is
  -- not below the price floor.
  pub IsOpening : V24Parameters F → BarContext F → LoopState F → Type 0
  IsOpening p c l =
      (p.start_time.instant ≤ c.bar.time.instant)
      × (c.bar.time.instant ≤ p.end_time.instant)
      × (l.runner.position_units ≡ 0)
      × (l.trend.previous_breakout ≡ false)
      × ((level : F) × (c.upper20 ≡ some level) × IsAbove p.breakout_mode level c.bar)
      × (p.use_price_floor ≡ true → fl.le p.min_underlying_price c.bar.close ≡ true)

  -- What a normal breakout needs beyond that: a bullish trend behind enough bullish bars and, where that
  -- is asked for, not long after its flip, and the filters that are on.
  pub IsNormal : V24Parameters F → BarContext F → LoopState F → Type 0
  IsNormal p c l =
      let t = trend_step p c l.trend in
      (t.trend_state ≡ bullish)
      × (p.min_prior_bull_bars ≤ l.trend.bullish_trend_bars)
      × IsPassed p.require_fresh_bull_flip t.last_bull_flip_index
          (λ flip. leb (c.index - flip) p.max_bull_flip_age)
      × IsPassed p.use_efficiency_gate c.efficiency (λ e. fl.le p.min_trend_efficiency e)
      × IsPassed p.use_rsi_cap c.rsi (λ r. fl.le r p.max_entry_rsi)
      × IsPassed p.use_adx_filter c.adx (λ a. fl.le p.min_adx a)
