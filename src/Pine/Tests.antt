-- ===== src/Pine/Tests.antt =====
-- A replay on small bars, and the theorems about replays at it.
use daily_alpha_engine.Common.{
  ℕ, ◌+◌, ◌*◌, ◌≡◌, ◌≢◌, ◌↔◌, ◌⊎◌, refl, true, false, not, ◌&&◌, none, some, List, [], ◌∷◌, ◌++◌,
  map, length, take, Result, ok, err, if◌then◌else◌,
}
use daily_alpha_engine.Common.Fixed.{Fixed, fixed_floats, fixed-IsOrdered, fixed_open}
use daily_alpha_engine.Common.Text.{is_blank}
use daily_alpha_engine.Pine.Bars.{
  DailyBar, V24Parameters, default_parameters, check_parameters, symbol_missing, not_chronological,
}
use daily_alpha_engine.Pine.Indicators.{rma}
use daily_alpha_engine.Pine.Indicators.Wilder.{missing, present, mean, wilder, rma-wilder}
use daily_alpha_engine.Pine.State.{
  Action, entry_long, add, partial, exit, earnings_gap_go, gap_go, bullish, TrendState, trend_start,
  BarContext, V24BarResult,
}
use daily_alpha_engine.Pine.Trend.{trend_step}
use daily_alpha_engine.Pine.Trend.Bands.{trend_step-ratchets}
use daily_alpha_engine.Pine.Gap.{GapView, gap_view, class_of, gap_open}
use daily_alpha_engine.Pine.Gap.Classes.{gap_view-one_class}
use daily_alpha_engine.Pine.Entry.{EntryGates, entry_view, rejection_reasons}
use daily_alpha_engine.Pine.Entry.Gates.{rejection_reasons-explain}
use daily_alpha_engine.Pine.Coherent.{one}
use daily_alpha_engine.Pine.Phases.{flat}
use daily_alpha_engine.Pine.Run.{bar_step, loop_start, run_v24_parity, is_chronological, run_open}
use daily_alpha_engine.Pine.Run.Life.{IsLife}
use daily_alpha_engine.Pine.Run.Outcome.{reports_of, run_v24_parity_total, run_v24_parity-lives}
use daily_alpha_engine.Pine.Run.Causal.{run_v24_parity-causal}
use daily_alpha_engine.Pine.Run.Flow.{IsBalanced, run_v24_parity-IsBalanced}

abbrev price : ℕ → Fixed
price = λ n. fixed_floats.dec n 1

-- Times a day apart, from 2024-06-01; prices in tenths.
abbrev day : ℕ → ℕ → ℕ → ℕ → ℕ → DailyBar Fixed
day n o h l c = record {
  time = record { aware = true; instant = 63_852_800_000_000_000 + n * 86_400_000_000 };
  open_price = price o;
  high = price h;
  low = price l;
  close = price c;
  volume = price 10000;
  earnings_actual = none;
}

-- Short look-backs, and no filter on the efficiency, the RSI or the ADX.
abbrev quick : V24Parameters Fixed
quick = record default_parameters {
  entry_len = 1;
  exit_len = 1;
  atr_len = 1;
  efficiency_len = 1;
  rsi_len = 1;
  adx_di_len = 1;
  adx_smooth = 1;
  min_prior_bull_bars = 1;
  use_rsi_cap = false;
  use_adx_filter = false;
  use_efficiency_gate = false;
}

abbrev rise : List (DailyBar Fixed)
rise =
    day 0 300 310 290 300
    ∷ day 1 300 310 300 305
    ∷ day 2 310 340 310 330
    ∷ day 3 340 380 330 370
    ∷ day 4 380 420 370 410
    ∷ day 5 410 450 400 440
    ∷ []

abbrev fall : List (DailyBar Fixed)
fall = day 6 430 440 380 390 ∷ []

-- The actions of each bar, and the units held after it.
abbrev outline : {E : Type 0} → Result E (List (V24BarResult Fixed)) → List (List Action × ℕ)
outline (ok rs) = map (λ r. (map (λ s. s.action) r.signals, r.position_units_after_close)) rs
outline (err e) = []

rise_then_fall :
    outline (run_v24_parity "ACME" quick (rise ++ fall))
    ≡ ([], 0)
      ∷ ([], 0)
      ∷ (entry_long ∷ [], 2)
      ∷ (add ∷ [], 3)
      ∷ (add ∷ [], 4)
      ∷ (partial ∷ [], 3)
      ∷ (exit ∷ [], 0)
      ∷ []
unfolding run_open fixed_open
rise_then_fall = refl

rise_checked : check_parameters quick ≡ ok tt
unfolding run_open check_parameters
rise_checked = refl

-- A replay of the rise and the fall, all seven reports.
abbrev whole : List (V24BarResult Fixed)
whole = reports_of "ACME" quick (rise ++ fall)

whole_ran : run_v24_parity "ACME" quick (rise ++ fall) ≡ ok whole
unfolding run_open fixed_open
whole_ran = run_v24_parity_total "ACME" quick (rise ++ fall) rise_checked refl refl

run_v24_parity-lives_example :
    (results : List (V24BarResult Fixed)) × (run_v24_parity "ACME" quick rise ≡ (
      if is_blank "ACME"
      then err symbol_missing
      else if is_chronological rise
      then ok results
      else err not_chronological))
    × (length results ≡ 6)
    × IsLife flat results
run_v24_parity-lives_example = run_v24_parity-lives "ACME" quick rise rise_checked

run_v24_parity-causal_example : run_v24_parity "ACME" quick rise ≡ ok (take 6 whole)
run_v24_parity-causal_example =
    run_v24_parity-causal "ACME" quick rise fall whole rise_checked whole_ran

run_v24_parity-IsBalanced_example : IsBalanced 0 whole
run_v24_parity-IsBalanced_example =
    run_v24_parity-IsBalanced "ACME" quick (rise ++ fall) whole rise_checked whole_ran

abbrev open_gates : EntryGates
open_gates = record {
  in_window = true;
  flat = true;
  fresh_long_breakout = true;
  trend_bullish = true;
  normal_trend_mature = true;
  fresh_trend_ok = true;
  price_ok = true;
  efficiency_ok = true;
  rsi_ok = true;
  adx_ok = true;
}

abbrev extended : EntryGates
extended = record open_gates { rsi_ok = false }

abbrev no_gap_view : GapView Fixed
no_gap_view = record {
  gap_pct = price 0;
  gap_atr = price 0;
  close_location = price 0;
  gap_retention = price 0;
  relative_volume = price 0;
  is_earnings_upside_gap = false;
  earnings_gap_go = false;
  earnings_gap_go_early = false;
  earnings_gap_crap = false;
  wait = false;
}

rejection_reasons-explain_example :
    (rejection_reasons extended no_gap_view (entry_view extended no_gap_view) ≢ [])
    ↔ (true && not (entry_view extended no_gap_view).long_entry ≡ true)
rejection_reasons-explain_example = rejection_reasons-explain extended no_gap_view

-- The context of an earnings gap: the bar opens 10 per cent above the close before.
abbrev gap_context : BarContext Fixed
gap_context = record {
  index = 1;
  bar = record (day 1 330 350 320 348) { earnings_actual = some (price 10) };
  previous_bar = some (day 0 300 310 290 300);
  previous_atr = some (price 10);
  upper20 = some (price 310);
  lower10 = some (price 290);
  atr = some (price 20);
  efficiency = some (price 5);
  rsi = some (price 700);
  adx = some (price 300);
  average_volume_prior = some (price 5000);
  average_dollar_volume = none;
}

gap_view-go : class_of (gap_view default_parameters gap_context bullish) ≡ gap_go
unfolding gap_open fixed_open
gap_view-go = refl

gap_view-one_class_example :
    let g = gap_view default_parameters gap_context bullish in
    one g.earnings_gap_go + one g.earnings_gap_go_early + one g.earnings_gap_crap + one g.wait
    ≡ one g.is_earnings_upside_gap
gap_view-one_class_example =
    gap_view-one_class fixed-IsOrdered default_parameters gap_context bullish

-- The bar of the earnings gap is entered as one.
gap_entered :
    (bar_step "ACME" default_parameters gap_context loop_start).0.entry_type ≡ earnings_gap_go
unfolding run_open gap_open fixed_open
gap_entered = refl

abbrev banded : TrendState Fixed
banded = record trend_start { final_upper = some (price 400); final_lower = some (price 250) }

trend_step-ratchets_example :
    let t = trend_step default_parameters gap_context banded in
    ((u' : Fixed) × (t.final_upper ≡ some u')
      × ((u' ≡ price 400)
          ⊎ (fixed_floats.lt u' (price 400) ≡ true)
          ⊎ (fixed_floats.lt (price 400) (price 300) ≡ true)))
    × ((l' : Fixed) × (t.final_lower ≡ some l')
        × ((l' ≡ price 250)
            ⊎ (fixed_floats.lt (price 250) l' ≡ true)
            ⊎ (fixed_floats.lt (price 300) (price 250) ≡ true)))
trend_step-ratchets_example =
    trend_step-ratchets default_parameters gap_context banded (price 400) (price 250) refl refl

-- Seeds 1, 2, 3 behind one missing value, then 6: the mean 2, then (2 * 2 + 6) / 3.
rma-wilder_example :
    rma (none ∷ present (price 10 ∷ price 20 ∷ price 30 ∷ price 60 ∷ [])) 3
    ≡ missing 1 (
        missing 2 (
          some (mean 3 (price 10 ∷ price 20 ∷ price 30 ∷ []))
          ∷ present (wilder 3 (mean 3 (price 10 ∷ price 20 ∷ price 30 ∷ [])) (price 60 ∷ []))))
rma-wilder_example = rma-wilder 3 1 (price 10) (price 20 ∷ price 30 ∷ []) (price 60 ∷ []) refl
