-- ===== src/Pine/Trend.antt =====
-- src/daily_alpha/pine_v24_parity.py, lines 378 to 458: the adaptive bands, the trend filter and the
-- breakout test of one bar.
pub mod Bands
use daily_alpha_engine.Common.{
  ◌+◌, ◌-◌, Bool, true, false, not, ◌&&◌, ◌||◌, Option, none, some, leb, if◌then◌else◌, some_and,
}
use daily_alpha_engine.Common.Floats.{Floats}
use daily_alpha_engine.Pine.Bars.{DailyBar, V24Parameters, close_mode}
use daily_alpha_engine.Pine.State.{Direction, bullish, bearish, TrendState, BarContext}

abbrev pub is_bullish : Direction → Bool
is_bullish bullish = true
is_bullish bearish = false

-- The locals of the trend part that later parts read.
pub record TrendView (F : Type 0) : Type 0 where
  pub bear_flip : Bool
  pub fresh_trend_ok : Bool
  pub normal_trend_mature : Bool
  pub trend_stop : Option F
  pub fresh_long_breakout : Bool

module _ {F : Type 0} ⦃fl : Floats F⦄ where
  abbrev midpoint : DailyBar F → F
  midpoint b = fl.div (fl.add b.high b.low) (fl.dec 2 0)

  abbrev band_width : V24Parameters F → F → F → F
  band_width p atr eff =
      fl.mul atr (fl.sub p.max_factor (fl.mul eff (fl.sub p.max_factor p.min_factor)))

  pub basic_upper : V24Parameters F → BarContext F → Option F
  basic_upper p c = elim c.atr [
    | none ↦ none
    | some a ↦ elim c.efficiency [
      | none ↦ none
      | some e ↦ some (fl.add (midpoint c.bar) (band_width p a e))
    ]
  ]

  pub basic_lower : V24Parameters F → BarContext F → Option F
  basic_lower p c = elim c.atr [
    | none ↦ none
    | some a ↦ elim c.efficiency [
      | none ↦ none
      | some e ↦ some (fl.sub (midpoint c.bar) (band_width p a e))
    ]
  ]

  -- The arguments are the basic band, the final band of the bar before, and the close before.
  pub next_final_upper : Option F → Option F → Option F → Option F
  next_final_upper none previous close = previous
  next_final_upper (some b) none close = some b
  next_final_upper (some b) (some u) close =
      if fl.lt b u || some_and close (λ x. fl.lt u x) then some b else some u

  pub next_final_lower : Option F → Option F → Option F → Option F
  next_final_lower none previous close = previous
  next_final_lower (some b) none close = some b
  next_final_lower (some b) (some l) close =
      if fl.lt l b || some_and close (λ x. fl.lt x l) then some b else some l

  pub next_direction : Direction → Option F → Option F → F → Direction
  next_direction bearish upper lower close =
      if some_and upper (λ u. fl.lt u close) then bullish else bearish
  next_direction bullish upper lower close =
      if some_and lower (λ l. fl.lt close l) then bearish else bullish

  abbrev breakout_now : V24Parameters F → BarContext F → Bool
  breakout_now p c =
      some_and c.upper20
        λ u. elim p.breakout_mode [ close_mode ↦ fl.lt u c.bar.close | _ ↦ fl.lt u c.bar.high ]

  -- The trend variables after the bar.
  pub trend_step : V24Parameters F → BarContext F → TrendState F → TrendState F
  trend_step p c s =
      let close_before : Option F = elim c.previous_bar [ none ↦ none | some b ↦ some b.close ] in
      let direction = next_direction s.trend_state s.final_upper s.final_lower c.bar.close in
      record {
        final_upper = next_final_upper (basic_upper p c) s.final_upper close_before;
        final_lower = next_final_lower (basic_lower p c) s.final_lower close_before;
        trend_state = direction;
        bullish_trend_bars = if is_bullish direction then s.bullish_trend_bars + 1 else 0;
        last_bull_flip_index =
            if is_bullish direction && not (is_bullish s.trend_state)
            then some c.index
            else s.last_bull_flip_index;
        previous_breakout = breakout_now p c;
      }

  -- The locals, from the variables before (`s`) and after (`t`) the bar.
  pub trend_view : V24Parameters F → BarContext F → TrendState F → TrendState F → TrendView F
  trend_view p c s t = record {
    bear_flip = not (is_bullish t.trend_state) && is_bullish s.trend_state;
    fresh_trend_ok =
        not p.require_fresh_bull_flip
        || some_and t.last_bull_flip_index (λ flip. leb (c.index - flip) p.max_bull_flip_age);
    normal_trend_mature = leb p.min_prior_bull_bars s.bullish_trend_bars;
    trend_stop = if is_bullish t.trend_state then t.final_lower else t.final_upper;
    fresh_long_breakout = t.previous_breakout && not s.previous_breakout;
  }

-- To run this part in a test.
unfoldable pub trend_open : Unit {0}
unfolding basic_upper basic_lower next_final_upper next_final_lower next_direction trend_step
    trend_view
trend_open = tt
