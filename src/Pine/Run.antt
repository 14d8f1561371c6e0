-- ===== src/Pine/Run.antt =====
-- src/daily_alpha/pine_v24_parity.py, `run_v24_parity`: one round of the loop, and the loop.
pub mod Life
pub mod Outcome
pub mod Causal
pub mod Enter
pub mod Flow
use Prim.Native.String.{String}
use daily_alpha_engine.Common.{
  ℕ, zero, suc, ◌+◌, Bool, true, not, ◌&&◌, Option, none, some, List, [], ◌∷◌, ltb, get_elem?,
  Result, ok, ◌>>=◌, ◌>>◌, raise_if,
}
use daily_alpha_engine.Common.Floats.{Floats}
use daily_alpha_engine.Common.Scan.{scan}
use daily_alpha_engine.Common.Text.{is_blank}
use daily_alpha_engine.Pine.Bars.{
  DailyBar, V24Parameters, ParityError, symbol_missing, not_chronological,
}
use daily_alpha_engine.Pine.Indicators.{
  Series, prior_highest, prior_lowest, atr, efficiency, rsi, dmi_adx, average_volume_prior,
  average_dollar_volume, indicators_open,
}
use daily_alpha_engine.Pine.State.{
  TrendState, RunnerState, BarContext, V24BarResult, trend_start, runner_start,
}
use daily_alpha_engine.Pine.Trend.{trend_step, trend_view, trend_open}
use daily_alpha_engine.Pine.Gap.{gap_view, class_of}
use daily_alpha_engine.Pine.Entry.{gates, entry_view, rejection_reasons, entry_open}
use daily_alpha_engine.Pine.Runner.{runner_view, runner_open}
use daily_alpha_engine.Pine.Fills.{signals_of, fills, fills_open}

-- The series that are computed before the loop.
pub record SeriesSet (F : Type 0) : Type 0 where
  pub upper : Series F
  pub lower : Series F
  pub atr_values : Series F
  pub efficiency_values : Series F
  pub rsi_values : Series F
  pub adx_values : Series F
  pub volume_prior : Series F
  pub dollar_volume : Series F

-- What one round hands to the next; `index` is the next bar's.
pub record LoopState (F : Type 0) : Type 0 where
  pub index : ℕ
  pub trend : TrendState F
  pub runner : RunnerState F

abbrev pub loop_start : {F : Type 0} → LoopState F
loop_start = record { index = 0; trend = trend_start; runner = runner_start }

-- `values[i]`
abbrev pub at : {F : Type 0} → Series F → ℕ → Option F
at values i = elim (get_elem? values i) [ none ↦ none | some v ↦ v ]

-- What is read at `i - 1` under `if i > 0`.
abbrev before : {A : Type 0} → (ℕ → Option A) → ℕ → Option A
before f zero = none
before f (suc i) = f i

pub bar_context : {F : Type 0} → SeriesSet F → List (DailyBar F) → ℕ → DailyBar F → BarContext F
bar_context r bars i bar = record {
  index = i;
  bar = bar;
  previous_bar = before (get_elem? bars) i;
  previous_atr = before (at r.atr_values) i;
  upper20 = at r.upper i;
  lower10 = at r.lower i;
  atr = at r.atr_values i;
  efficiency = at r.efficiency_values i;
  rsi = at r.rsi_values i;
  adx = at r.adx_values i;
  average_volume_prior = at r.volume_prior i;
  average_dollar_volume = at r.dollar_volume i;
}

-- `for previous, current in pairwise(bars)`
pub is_chronological : {F : Type 0} → List (DailyBar F) → Bool
is_chronological [] = true
is_chronological (b ∷ []) = true
is_chronological (b ∷ c ∷ bs) = ltb b.time.instant c.time.instant && is_chronological (c ∷ bs)

module _ {F : Type 0} ⦃fl : Floats F⦄ where
  -- The body of the loop, at what it reads.
  pub bar_step :
      String → V24Parameters F → BarContext F → LoopState F → V24BarResult F × LoopState F
  bar_step symbol p c l =
      let t = trend_step p c l.trend in
      let v = trend_view p c l.trend t in
      let g = gap_view p c t.trend_state in
      let k = gates p c t v l.runner in
      let e = entry_view k g in
      let r = runner_view p c t v e l.runner in
      let after = fills p c k.in_window e r l.runner in
      (
        record {
          symbol = symbol;
          bar_index = c.index;
          bar_time = c.bar.time;
          upper20 = c.upper20;
          lower10 = c.lower10;
          atr = c.atr;
          efficiency = c.efficiency;
          rsi = c.rsi;
          adx = c.adx;
          trend_state = t.trend_state;
          trend_stop = v.trend_stop;
          fresh_long_breakout = v.fresh_long_breakout;
          earnings_gap_class = class_of g;
          entry_type = e.entry_type;
          rejection_reasons = rejection_reasons k g e;
          signals = signals_of symbol p c g k.in_window e r l.runner;
          position_units_after_close = after.position_units;
          position_avg_price_after_close = after.position_avg_price;
        },
        record { index = l.index + 1; trend = t; runner = after },
      )

  pub run_round :
      String
      → V24Parameters F
      → SeriesSet F
      → List (DailyBar F)
      → LoopState F
      → DailyBar F
      → V24BarResult F × LoopState F
  run_round symbol p r bars l bar = bar_step symbol p (bar_context r bars l.index bar) l

  pub all_series : V24Parameters F → List (DailyBar F) → Result ParityError (SeriesSet F)
  all_series p bars = do
    efficiency_values ← efficiency bars p.efficiency_len
    volume_prior ← average_volume_prior bars 20
    dollar_volume ← average_dollar_volume bars 20
    ok (record {
      upper = prior_highest bars p.entry_len;
      lower = prior_lowest bars p.exit_len;
      atr_values = atr bars p.atr_len;
      efficiency_values = efficiency_values;
      rsi_values = rsi bars p.rsi_len;
      adx_values = (dmi_adx bars p.adx_di_len p.adx_smooth).2;
      volume_prior = volume_prior;
      dollar_volume = dollar_volume;
    })

  abbrev replay :
      String → V24Parameters F → List (DailyBar F) → Result ParityError (List (V24BarResult F))
  replay symbol p [] = ok []
  replay symbol p (b ∷ bs) = do
    raise_if (not (is_chronological (b ∷ bs))) not_chronological
    r ← all_series p (b ∷ bs)
    ok (scan (run_round symbol p r (b ∷ bs)) loop_start (b ∷ bs))

  pub run_v24_parity :
      String → V24Parameters F → List (DailyBar F) → Result ParityError (List (V24BarResult F))
  run_v24_parity symbol p bars = do raise_if (is_blank symbol) symbol_missing; replay symbol p bars

-- To run the program in a test.
unfoldable pub run_open : Unit {0}
unfolding bar_context is_chronological bar_step run_round all_series run_v24_parity is_blank
    indicators_open trend_open entry_open runner_open fills_open
run_open = tt
