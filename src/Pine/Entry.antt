-- ===== src/Pine/Entry.antt =====
-- src/daily_alpha/pine_v24_parity.py, lines 553 to 614: the entry gates of one bar, and why a fresh
-- breakout is turned down.
pub mod Gates
use daily_alpha_engine.Common.{
  Bool, not, ◌&&◌, ◌||◌, List, [], ◌++◌, leb, ◌==◌, if◌then◌else◌, some_and, when,
}
use daily_alpha_engine.Common.Floats.{Floats}
use daily_alpha_engine.Pine.Bars.{V24Parameters}
use daily_alpha_engine.Pine.State.{
  EntryType, earnings_gap_go, normal_breakout, no_entry, Rejection, gap_rejected, price_below_floor,
  trend_not_bullish, trend_not_mature, bull_flip_too_old, low_trend_efficiency, rsi_extended,
  adx_too_low, TrendState, RunnerState, BarContext,
}
use daily_alpha_engine.Pine.Trend.{is_bullish, TrendView}
use daily_alpha_engine.Pine.Gap.{GapView, class_of, gap_open}

-- The tests on which an entry depends; `flat` is `pre_position_units == 0`.
pub record EntryGates : Type 0 where
  pub in_window : Bool
  pub flat : Bool
  pub fresh_long_breakout : Bool
  pub trend_bullish : Bool
  pub normal_trend_mature : Bool
  pub fresh_trend_ok : Bool
  pub price_ok : Bool
  pub efficiency_ok : Bool
  pub rsi_ok : Bool
  pub adx_ok : Bool

pub record EntryView : Type 0 where
  pub normal_base_setup : Bool
  pub long_entry : Bool
  pub entry_type : EntryType

module _ {F : Type 0} ⦃fl : Floats F⦄ where
  abbrev pub adx_passes : V24Parameters F → BarContext F → Bool
  adx_passes p c = not p.use_adx_filter || some_and c.adx (λ a. fl.le p.min_adx a)

  pub gates :
      V24Parameters F → BarContext F → TrendState F → TrendView F → RunnerState F → EntryGates
  gates p c t v s = record {
    in_window =
        leb p.start_time.instant c.bar.time.instant && leb c.bar.time.instant p.end_time.instant;
    flat = s.position_units == 0;
    fresh_long_breakout = v.fresh_long_breakout;
    trend_bullish = is_bullish t.trend_state;
    normal_trend_mature = v.normal_trend_mature;
    fresh_trend_ok = v.fresh_trend_ok;
    price_ok = not p.use_price_floor || fl.le p.min_underlying_price c.bar.close;
    efficiency_ok =
        not p.use_efficiency_gate || some_and c.efficiency (λ e. fl.le p.min_trend_efficiency e);
    rsi_ok = not p.use_rsi_cap || some_and c.rsi (λ r. fl.le r p.max_entry_rsi);
    adx_ok = adx_passes p c;
  }

  pub entry_view : EntryGates → GapView F → EntryView
  entry_view g w =
      let base =
        g.in_window
        && g.flat
        && g.fresh_long_breakout
        && not w.is_earnings_upside_gap
        && g.trend_bullish
        && g.normal_trend_mature
        && g.fresh_trend_ok in
      let normal = base && g.price_ok && g.efficiency_ok && g.rsi_ok && g.adx_ok in
      let gap = g.in_window && g.flat && w.earnings_gap_go && g.fresh_long_breakout && g.price_ok in
      record {
        normal_base_setup = base;
        long_entry = normal || gap;
        entry_type = if gap then earnings_gap_go else if normal then normal_breakout else no_entry;
      }

  pub rejection_reasons : EntryGates → GapView F → EntryView → List Rejection
  rejection_reasons g w e =
      let base = e.normal_base_setup in
      if g.in_window && g.flat && g.fresh_long_breakout && not e.long_entry
      then (if w.is_earnings_upside_gap
          then when (not w.earnings_gap_go) (gap_rejected (class_of w))
            ++ when (not g.price_ok) price_below_floor
          else when (not g.trend_bullish) trend_not_bullish
            ++ (when (not g.normal_trend_mature) trend_not_mature
                ++ (when (not g.fresh_trend_ok) bull_flip_too_old
                    ++ (when (base && not g.price_ok) price_below_floor
                        ++ (when (base && g.price_ok && not g.efficiency_ok) low_trend_efficiency
                            ++ (when (base && g.price_ok && g.efficiency_ok && not g.rsi_ok)
                                  rsi_extended
                                ++ when
                                    (base
                                      && g.price_ok
                                      && g.efficiency_ok
                                      && g.rsi_ok
                                      && not g.adx_ok)
                                    adx_too_low))))))
      else []

-- To run this part in a test.
unfoldable pub entry_open : Unit {0}
unfolding gates entry_view rejection_reasons gap_open
entry_open = tt
