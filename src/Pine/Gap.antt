-- ===== src/Pine/Gap.antt =====
-- src/daily_alpha/pine_v24_parity.py, lines 460 to 551: the earnings-gap sleeve of one bar.
pub mod Classes
use daily_alpha_engine.Common.{
  Bool, false, not, ◌&&◌, ◌||◌, Option, none, some, if◌then◌else◌, is_some, some_and,
}
use daily_alpha_engine.Common.Floats.{Floats, zero_f}
use daily_alpha_engine.Pine.Bars.{DailyBar, V24Parameters}
use daily_alpha_engine.Pine.State.{
  Direction, GapClass, gap_go, gap_go_early, gap_crap, earnings_wait, no_gap, BarContext,
}
use daily_alpha_engine.Pine.Trend.{is_bullish}

-- The measures of the gap, and how it is classed.
pub record GapView (F : Type 0) : Type 0 where
  pub gap_pct : F
  pub gap_atr : F
  pub close_location : F
  pub gap_retention : F
  pub relative_volume : F
  pub is_earnings_upside_gap : Bool
  pub earnings_gap_go : Bool
  pub earnings_gap_go_early : Bool
  pub earnings_gap_crap : Bool
  pub wait : Bool

module _ {F : Type 0} ⦃fl : Floats F⦄ where
  abbrev epsilon : F
  epsilon = fl.dec 1 6

  -- `x / y if y is not None and y > 0 else 0.0`
  abbrev ratio_or_zero : F → Option F → F
  ratio_or_zero x none = zero_f
  ratio_or_zero x (some y) = if fl.lt zero_f y then fl.div x y else zero_f

  -- The measures, for a bar `b` behind a bar `prev`; the class is filled in below.
  abbrev measures : BarContext F → DailyBar F → GapView F
  measures c prev =
      let b = c.bar in
      let gap_dollars = fl.sub b.open_price prev.close in
      let day_range = fl.sub b.high b.low in
      record {
        gap_pct =
            if fl.lt zero_f prev.close
            then fl.mul (fl.div gap_dollars prev.close) (fl.dec 100 0)
            else zero_f;
        gap_atr = ratio_or_zero gap_dollars c.previous_atr;
        close_location =
            if fl.lt zero_f day_range then fl.div (fl.sub b.close b.low) day_range else zero_f;
        gap_retention =
            if fl.lt zero_f gap_dollars
            then fl.div (fl.sub b.close prev.close) gap_dollars
            else zero_f;
        relative_volume = ratio_or_zero b.volume c.average_volume_prior;
        is_earnings_upside_gap = false;
        earnings_gap_go = false;
        earnings_gap_go_early = false;
        earnings_gap_crap = false;
        wait = false;
      }

  pub is_upside_gap : V24Parameters F → BarContext F → DailyBar F → GapView F → Bool
  is_upside_gap p c prev m =
      p.use_earnings_gap_sleeve
      && (is_some c.bar.earnings_actual || is_some prev.earnings_actual)
      && fl.lt zero_f (fl.sub c.bar.open_price prev.close)
      && (fl.le p.min_earnings_gap_pct m.gap_pct || fl.le p.min_earnings_gap_atr m.gap_atr)

  pub common_quality : V24Parameters F → BarContext F → Direction → GapView F → Bool
  common_quality p c trend m =
      fl.le c.bar.open_price c.bar.close
      && fl.le p.min_gap_retention m.gap_retention
      && fl.le p.min_gap_relative_volume m.relative_volume
      && some_and c.rsi (λ r. fl.le r p.max_earnings_rsi)
      && is_bullish trend
      && some_and c.upper20 (λ u. fl.lt u c.bar.close)

  abbrev crap_close : V24Parameters F → BarContext F → DailyBar F → GapView F → Bool
  crap_close p c prev m =
      fl.lt c.bar.close prev.close
      || fl.lt m.gap_retention p.crap_gap_retention
      || (fl.lt c.bar.close c.bar.open_price && fl.lt m.close_location p.crap_close_location)

  abbrev classed : V24Parameters F → GapView F → Bool → Bool → Bool → GapView F
  classed p m upside quality crap =
      let full = fl.sub p.min_gap_close_location epsilon in
      let early = fl.sub p.min_early_gap_close_location epsilon in
      let go = upside && quality && fl.le full m.close_location in
      let go_early =
        upside && quality && fl.le early m.close_location && fl.lt m.close_location full in
      let bad = upside && not go && not go_early && crap in
      record m {
        is_earnings_upside_gap = upside;
        earnings_gap_go = go;
        earnings_gap_go_early = go_early;
        earnings_gap_crap = bad;
        wait = upside && not go && not go_early && not bad;
      }

  abbrev gap_zero : GapView F
  gap_zero = record {
    gap_pct = zero_f;
    gap_atr = zero_f;
    close_location = zero_f;
    gap_retention = zero_f;
    relative_volume = zero_f;
    is_earnings_upside_gap = false;
    earnings_gap_go = false;
    earnings_gap_go_early = false;
    earnings_gap_crap = false;
    wait = false;
  }

  abbrev gap_behind : V24Parameters F → BarContext F → Direction → Option (DailyBar F) → GapView F
  gap_behind p c trend none = gap_zero
  gap_behind p c trend (some prev) =
      let m = measures c prev in
      classed p m (is_upside_gap p c prev m) (common_quality p c trend m) (crap_close p c prev m)

  pub gap_view : V24Parameters F → BarContext F → Direction → GapView F
  gap_view p c trend = gap_behind p c trend c.previous_bar

  -- `earnings_gap_class`
  pub class_of : GapView F → GapClass
  class_of g =
      if g.earnings_gap_go
      then gap_go
      else if g.earnings_gap_go_early
      then gap_go_early
      else if g.earnings_gap_crap
      then gap_crap
      else if g.wait
      then earnings_wait
      else no_gap

-- To run this part in a test.
unfoldable pub gap_open : Unit {0}
unfolding is_upside_gap common_quality gap_view class_of
gap_open = tt
