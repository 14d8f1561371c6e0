-- ===== src/Pine/V25/Entry.antt =====
-- src/daily_alpha/pine_v25_parity.py, lines 421 to 495 and 614 to 661: the entry of one bar, what the
-- armed breakout is told, and why no entry was made.
use daily_alpha_engine.Common.{
  Bool, true, not, ◌&&◌, ◌||◌, Option, none, some, List, ◌++◌, leb, if◌then◌else◌, some_and, when,
}
use daily_alpha_engine.Common.Int.{ℤ, pos}
use daily_alpha_engine.Common.Floats.{Floats, max_f}
use daily_alpha_engine.Pine.State.{
  EntryType, earnings_gap_go, normal_breakout, no_entry, armed_breakout_confirm, TrendState,
  RunnerState, BarContext,
}
use daily_alpha_engine.Pine.Trend.{TrendView}
use daily_alpha_engine.Pine.Gap.{GapView, class_of}
use daily_alpha_engine.Pine.Entry.{EntryGates, gates}
use daily_alpha_engine.Pine.Armed.{V25ArmedInputs, V25ArmedSnapshot}
use daily_alpha_engine.Pine.V25.{
  V25Parameters, ArmEvent, breakout_armed_event, arm_expired, arm_invalidated, V25Rejection,
  armed_extended_no_chase, armed_wait_trend, armed_wait_price, armed_wait_efficiency,
  armed_wait_rsi, armed_wait_adx, armed_bull_flip_too_old, armed_wait_above_breakout, expired_arm,
  invalidated_arm, persistent_arm_disabled, price_under_floor, gap_turned_down, shared_parameters,
}

-- The entry of a bar, and the values that are reported with it.
pub record V25EntryView (F : Type 0) : Type 0 where
  pub gap_entry : Bool
  pub long_entry : Bool
  pub entry_type : EntryType
  pub selected_breakout_level : Option F
  pub selected_armed_age : Option ℤ
  pub replay_max_price : Option F

abbrev pub quality_entry_ok : EntryGates → Bool
quality_entry_ok g = g.price_ok && g.efficiency_ok && g.rsi_ok && g.adx_ok

module _ {F : Type 0} where
  unfoldable pub normal_breakout_candidate : EntryGates → GapView F → Bool
  normal_breakout_candidate g w =
      g.in_window && g.flat && g.fresh_long_breakout && not w.is_earnings_upside_gap

  unfoldable pub same_bar_normal_entry : EntryGates → GapView F → Bool
  same_bar_normal_entry g w =
      normal_breakout_candidate g w
      && g.trend_bullish
      && g.fresh_trend_ok
      && g.normal_trend_mature
      && quality_entry_ok g

  -- The arguments of `V25ArmedInputs`.
  unfoldable pub armed_inputs :
      BarContext F → TrendState F → EntryGates → GapView F → V25ArmedInputs F
  armed_inputs c t g w = record {
    bar_index = c.index;
    close = c.bar.close;
    upper20 = c.upper20;
    atr = c.atr;
    position_is_flat = g.flat;
    normal_breakout_candidate = normal_breakout_candidate g w;
    same_bar_normal_entry = same_bar_normal_entry g w;
    trend_state = t.trend_state;
    normal_trend_mature = g.normal_trend_mature;
    fresh_trend_ok = g.fresh_trend_ok;
    quality_entry_ok = quality_entry_ok g;
    bar_confirmed = true;
  }

  unfoldable pub arm_events : V25ArmedSnapshot F → List ArmEvent
  arm_events armed =
      when armed.new_arm breakout_armed_event
      ++ (when armed.arm_expired_event arm_expired
          ++ when armed.arm_invalidated_event arm_invalidated)

module _ {F : Type 0} ⦃fl : Floats F⦄ where
  unfoldable pub v25_gates :
      V25Parameters F → BarContext F → TrendState F → TrendView F → RunnerState F → EntryGates
  v25_gates p c t v s = record (gates (shared_parameters p) c t v s) {
    in_window =
        leb p.start_time.instant c.bar.time.instant
        && leb c.bar.time.instant p.end_time.instant
        && p.enable_shadow_forward_test
        && leb p.shadow_forward_start.instant c.bar.time.instant;
  }

  -- `max(close, level + atr * max_chase_atr)`, with both values present.
  unfoldable pub replay_max_price_of : V25Parameters F → F → Option F → Option F → Option F
  replay_max_price_of p close none a = none
  replay_max_price_of p close (some level) none = none
  replay_max_price_of p close (some level) (some a) =
      some (max_f close (fl.add level (fl.mul a p.max_chase_atr)))

  unfoldable pub v25_entry_view :
      V25Parameters F → BarContext F → EntryGates → GapView F → V25ArmedSnapshot F → V25EntryView F
  v25_entry_view p c g w armed =
      let confirmed = armed.armed_confirmed_entry in
      let same_bar = same_bar_normal_entry g w in
      let gap = g.in_window && g.flat && w.earnings_gap_go && g.fresh_long_breakout && g.price_ok in
      let level = if confirmed then armed.armed_breakout_level else c.upper20 in
      let replay_atr = if confirmed then armed.armed_atr else c.atr in
      record {
        gap_entry = gap;
        long_entry = same_bar || confirmed || gap;
        entry_type =
            if gap
            then earnings_gap_go
            else if confirmed
            then armed_breakout_confirm
            else if same_bar
            then normal_breakout
            else no_entry;
        selected_breakout_level = level;
        selected_armed_age = if confirmed then armed.armed_age else some (pos 0);
        replay_max_price = replay_max_price_of p c.bar.close level replay_atr;
      }

  -- The reasons for which an active arm is not entered.
  unfoldable pub armed_rejections :
      BarContext F → EntryGates → V25ArmedSnapshot F → List V25Rejection
  armed_rejections c g armed =
      let trend = g.trend_bullish && g.normal_trend_mature in
      when (some_and armed.armed_max_price (λ top. fl.lt top c.bar.close)) armed_extended_no_chase
      ++ (when (not g.trend_bullish || not g.normal_trend_mature) armed_wait_trend
          ++ (when (trend && not g.price_ok) armed_wait_price
              ++ (when (trend && g.price_ok && not g.efficiency_ok) armed_wait_efficiency
                  ++ (when (trend && g.price_ok && g.efficiency_ok && not g.rsi_ok) armed_wait_rsi
                      ++ (when (trend && g.price_ok && g.efficiency_ok && g.rsi_ok && not g.adx_ok)
                            armed_wait_adx
                          ++ (when (trend && not g.fresh_trend_ok) armed_bull_flip_too_old
                              ++ when (not armed.armed_above_breakout)
                                  armed_wait_above_breakout))))))

  unfoldable pub v25_rejections :
      V25Parameters F
      → BarContext F
      → EntryGates
      → GapView F
      → V25ArmedSnapshot F
      → V25EntryView F
      → List V25Rejection
  v25_rejections p c g w armed e =
      (if armed.armed_active && not armed.armed_confirmed_entry
        then armed_rejections c g armed
        else List.[])
      ++ (when armed.arm_expired_event expired_arm
          ++ (when armed.arm_invalidated_event invalidated_arm
              ++ (when
                    (normal_breakout_candidate g w
                      && not (same_bar_normal_entry g w)
                      && not armed.new_arm
                      && not p.use_persistent_armed_entry)
                    persistent_arm_disabled
                  ++ (if w.is_earnings_upside_gap && g.fresh_long_breakout && not e.gap_entry
                      then when true (gap_turned_down (class_of w))
                        ++ when (not g.price_ok) price_under_floor
                      else List.[]))))
