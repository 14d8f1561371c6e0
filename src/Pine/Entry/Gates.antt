-- ===== src/Pine/Entry/Gates.antt =====
-- What an entry implies, and that a breakout that is turned down always has a reason.
use daily_alpha_engine.Common.{
  ◌==◌, refl, ◌≤◌, ◌||◌, some_and, ◌≡◌, ◌≢◌, ◌↔◌, true, false, not, ◌&&◌, [], arith,
}
use daily_alpha_engine.Common.Floats.{Floats}
use daily_alpha_engine.Pine.Bars.{V24Parameters}
use daily_alpha_engine.Pine.State.{
  TrendState, RunnerState, BarContext, earnings_gap_go, normal_breakout,
}
use daily_alpha_engine.Pine.Trend.{is_bullish, TrendView}
use daily_alpha_engine.Pine.Gap.{GapView}
use daily_alpha_engine.Pine.Entry.{EntryGates, gates, entry_view, rejection_reasons}

module _ {F : Type 0} ⦃fl : Floats F⦄ where
  pub gates-flat :
      (p : V24Parameters F) (c : BarContext F) (t : TrendState F) (v : TrendView F)
      (s : RunnerState F)
      → (gates p c t v s).flat ≡ (s.position_units == 0)
  unfolding gates
  gates-flat p c t v s = refl

  pub entry-flat :
      (p : V24Parameters F) (c : BarContext F) (t : TrendState F) (v : TrendView F)
      (s : RunnerState F) (g : GapView F)
      → (entry_view (gates p c t v s) g).long_entry ≡ true
      → s.position_units ≡ 0
  unfolding gates entry_view
  entry-flat p c t v s g h = ground arith

  -- The first four gates, in terms of what they read.
  pub gates-open :
      (p : V24Parameters F) (c : BarContext F) (t : TrendState F) (v : TrendView F)
      (s : RunnerState F)
      → let g = gates p c t v s in
        (g.in_window && g.flat && g.fresh_long_breakout && g.price_ok ≡ true) ↔ (
          (p.start_time.instant ≤ c.bar.time.instant)
          × (c.bar.time.instant ≤ p.end_time.instant)
          × (s.position_units ≡ 0)
          × (v.fresh_long_breakout ≡ true)
          × (not p.use_price_floor || fl.le p.min_underlying_price c.bar.close ≡ true))
  unfolding gates
  gates-open p c t v s = (λ h. ground arith, λ h. ground arith)

  -- The gates of a normal entry beyond them.
  pub gates-normal :
      (p : V24Parameters F) (c : BarContext F) (t : TrendState F) (v : TrendView F)
      (s : RunnerState F)
      → let g = gates p c t v s in
        (g.trend_bullish && g.normal_trend_mature && g.fresh_trend_ok && g.efficiency_ok && g.rsi_ok
            && g.adx_ok
          ≡ true)
        ↔ ((is_bullish t.trend_state ≡ true)
            × (v.normal_trend_mature ≡ true)
            × (v.fresh_trend_ok ≡ true)
            × (not p.use_efficiency_gate
                  || some_and c.efficiency (λ e. fl.le p.min_trend_efficiency e)
                ≡ true)
            × (not p.use_rsi_cap || some_and c.rsi (λ r. fl.le r p.max_entry_rsi) ≡ true)
            × (not p.use_adx_filter || some_and c.adx (λ a. fl.le p.min_adx a) ≡ true))
  unfolding gates
  gates-normal p c t v s = (λ h. ground arith, λ h. ground arith)

  -- The type of the entry, by the gates.
  pub entry_view-type :
      (g : EntryGates) (w : GapView F)
      → let e = entry_view g w in
        ((e.entry_type ≡ earnings_gap_go) ↔ (
          (g.in_window && g.flat && g.fresh_long_breakout && g.price_ok ≡ true)
          × (w.earnings_gap_go ≡ true)))
        × ((e.entry_type ≡ normal_breakout) ↔ (
            (g.in_window && g.flat && g.fresh_long_breakout && g.price_ok ≡ true)
            × (w.earnings_gap_go ≡ false)
            × (w.is_earnings_upside_gap ≡ false)
            × (g.trend_bullish && g.normal_trend_mature && g.fresh_trend_ok && g.efficiency_ok
                  && g.rsi_ok && g.adx_ok
                ≡ true)))
  unfolding entry_view
  entry_view-type g w =
      ((λ h. ground arith, λ h. ground arith), (λ h. ground arith, λ h. ground arith))

  -- A reason is reported on exactly the bars that break out afresh inside the window, from flat, and
  -- are not entered: no breakout is turned down silently.
  pub rejection_reasons-explain :
      (g : EntryGates) (w : GapView F)
      → let e = entry_view g w in
        (rejection_reasons g w e ≢ [])
        ↔ (g.in_window && g.flat && g.fresh_long_breakout && not e.long_entry ≡ true)
  unfolding entry_view rejection_reasons
  rejection_reasons-explain g w = (λ h. ground arith, λ h. ground arith)
