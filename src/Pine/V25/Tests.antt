-- ===== src/Pine/V25/Tests.antt =====
-- A replay of version 2.5 on small bars: a breakout arms before the trend is mature, and is entered on the
-- next bar.
use daily_alpha_engine.Common.{
  ℕ, ◌+◌, ◌*◌, ◌≤◌, ◌≡◌, refl, Bool, true, false, none, List, [], ◌∷◌, ◌++◌, map, length, take, All,
  Result, ok, err,
}
use daily_alpha_engine.Common.Fixed.{Fixed, fixed_floats, fixed_open}
use daily_alpha_engine.Pine.Bars.{DailyBar}
use daily_alpha_engine.Pine.Indicators.{Series, prior_lowest}
use daily_alpha_engine.Pine.State.{Action, entry_long, add, exit}
use daily_alpha_engine.Pine.Run.{SeriesSet, all_series, run_open}
use daily_alpha_engine.Pine.Armed.{
  check_armed_parameters, check_inputs, wants_arm, new_arm_of, arm, age_of, max_price_of,
  invalidation_of, is_timed_out, is_invalid, snapshot_of, settle, step,
}
use daily_alpha_engine.Pine.V25.{
  V25Parameters, V25Error, V25BarResult, V25Context, V25LoopState, shared_parameters,
  default_v25_parameters, check_v25_parameters,
}
use daily_alpha_engine.Pine.V25.Entry.{
  normal_breakout_candidate, same_bar_normal_entry, armed_inputs, arm_events, v25_gates,
  replay_max_price_of, v25_entry_view, armed_rejections, v25_rejections,
}
use daily_alpha_engine.Pine.V25.Exits.{
  begin_v25_entry, fill_v25_exit, fill_v25_end, structural_break_now, next_break_count,
  v25_break_even, exit_reason_of, v25_runner_view, v25_signals, v25_fills, break_count_after,
}
use daily_alpha_engine.Pine.V25.Run.{
  v25_start, inputs_of, v25_settle, v25_round, v25_context, v25_rounds, v25_replay, run_v25_parity,
}
use daily_alpha_engine.Pine.V25.Origin.{Round, round_of}
use daily_alpha_engine.Pine.V25.Causal.{run_v25_parity-causal}
use daily_alpha_engine.Pine.V25.Bounds.{run_v25_parity-bounded}

abbrev price : ℕ → Fixed
price n = fixed_floats.dec n 1

-- Times a day apart, from 2024-06-01; prices in tenths.
abbrev day : ℕ → ℕ → ℕ → ℕ → ℕ → DailyBar Fixed
day n o h l c = record {
  time = record { aware = true; instant = 63_852_800_000_000_000 + n * 86_400_000_000 };
  open_price = price o;
  high = price h;
  low = price l;
  close = price c;
  volume = price 10000;
  earnings_actual = none;
}

-- Short look-backs, few filters, and a trend that is mature behind three bars.
abbrev quick : V25Parameters Fixed
quick = record default_v25_parameters {
  entry_len = 1;
  exit_len = 1;
  structural_exit_len = 1;
  atr_len = 1;
  efficiency_len = 1;
  rsi_len = 1;
  adx_di_len = 1;
  adx_smooth = 1;
  min_prior_bull_bars = 3;
  max_chase_atr = price 100;
  use_rsi_cap = false;
  use_adx_filter = false;
  use_efficiency_gate = false;
  shadow_forward_start = record { aware = true; instant = 63_852_800_000_000_000 };
}

abbrev rise : List (DailyBar Fixed)
rise =
    day 0 300 310 290 300
    ∷ day 1 300 310 300 305
    ∷ day 2 310 340 310 330
    ∷ day 3 340 380 330 370
    ∷ day 4 380 420 370 410
    ∷ day 5 410 450 400 440
    ∷ []

abbrev fall : List (DailyBar Fixed)
fall = day 6 430 440 380 390 ∷ []

abbrev reports_or_none : Result V25Error (List (V25BarResult Fixed)) → List (V25BarResult Fixed)
reports_or_none (ok rs) = rs
reports_or_none (err e) = []

-- To run this engine in a test.
unfoldable v25_open : Unit {0}
unfolding run_open fixed_open check_armed_parameters check_inputs wants_arm new_arm_of arm age_of
    max_price_of invalidation_of is_timed_out is_invalid snapshot_of settle step
    normal_breakout_candidate same_bar_normal_entry armed_inputs arm_events v25_gates
    replay_max_price_of v25_entry_view armed_rejections v25_rejections begin_v25_entry fill_v25_exit
    fill_v25_end structural_break_now next_break_count v25_break_even exit_reason_of v25_runner_view
    v25_signals v25_fills break_count_after inputs_of v25_settle v25_round v25_context v25_rounds
    v25_replay run_v25_parity
v25_open = tt

abbrev outline : Result V25Error (List (V25BarResult Fixed)) → List (List Action × ℕ)
outline (ok rs) = map (λ r. (map (λ s. s.action) r.signals, r.position_units_after_close)) rs
outline (err e) = []

rise_then_fall :
    outline (run_v25_parity "ACME" quick (rise ++ fall))
    ≡ ([], 0)
      ∷ ([], 0)
      ∷ ([], 0)
      ∷ (entry_long ∷ [], 2)
      ∷ ([], 2)
      ∷ (add ∷ [], 3)
      ∷ (exit ∷ [], 0)
      ∷ []
unfolding v25_open
rise_then_fall = refl

abbrev whole : List (V25BarResult Fixed)
whole = reports_or_none (run_v25_parity "ACME" quick (rise ++ fall))

whole_ran : run_v25_parity "ACME" quick (rise ++ fall) ≡ ok whole
unfolding v25_open
whole_ran = refl

quick_checked : check_v25_parameters quick ≡ ok tt
unfolding check_v25_parameters fixed_open
quick_checked = refl

run_v25_parity-causal_example : run_v25_parity "ACME" quick rise ≡ ok (take 6 whole)
run_v25_parity-causal_example =
    run_v25_parity-causal "ACME" quick rise fall whole quick_checked whole_ran

run_v25_parity-bounded_example :
    All (λ report. report.position_units_after_close ≤ 4) whole × (length whole ≡ 7)
run_v25_parity-bounded_example = run_v25_parity-bounded "ACME" quick (rise ++ fall) whole whole_ran

abbrev is_ok : {E A : Type 0} → Result E A → Bool
is_ok (ok a) = true
is_ok (err e) = false

abbrev result_of : {E A : Type 0} → (x : Result E A) → is_ok x ≡ true → A
result_of (ok a) h = a
result_of (err e) h = absurd (cc)

series_ok : is_ok (all_series (shared_parameters quick) rise) ≡ true
unfolding v25_open
series_ok = refl

abbrev series : SeriesSet Fixed
series = result_of (all_series (shared_parameters quick) rise) series_ok

abbrev lows : Series Fixed
lows = prior_lowest rise 1

-- What a round reads at a bar of the rise, and the round.
abbrev context_at : DailyBar Fixed → V25LoopState Fixed → V25Context Fixed
context_at bar l = v25_context series lows rise l.index bar

abbrev round_at :
    DailyBar Fixed → V25LoopState Fixed → Result V25Error (V25BarResult Fixed × V25LoopState Fixed)
round_at bar l = v25_round "ACME" quick (context_at bar l) l

abbrev bar_0 : DailyBar Fixed
bar_0 = day 0 300 310 290 300

abbrev bar_1 : DailyBar Fixed
bar_1 = day 1 300 310 300 305

abbrev bar_2 : DailyBar Fixed
bar_2 = day 2 310 340 310 330

abbrev bar_3 : DailyBar Fixed
bar_3 = day 3 340 380 330 370

round_0_ok : is_ok (round_at bar_0 v25_start) ≡ true
unfolding v25_open
round_0_ok = refl

abbrev round_0 : V25BarResult Fixed × V25LoopState Fixed
round_0 = result_of (round_at bar_0 v25_start) round_0_ok

abbrev past_0 : List (Round Fixed)
past_0 = round_of "ACME" quick series lows rise v25_start bar_0 ∷ []

round_1_ok : is_ok (round_at bar_1 round_0.1) ≡ true
unfolding v25_open
round_1_ok = refl

abbrev round_1 : V25BarResult Fixed × V25LoopState Fixed
round_1 = result_of (round_at bar_1 round_0.1) round_1_ok

abbrev past_1 : List (Round Fixed)
past_1 = round_of "ACME" quick series lows rise round_0.1 bar_1 ∷ past_0

round_2_ok : is_ok (round_at bar_2 round_1.1) ≡ true
unfolding v25_open
round_2_ok = refl

abbrev round_2 : V25BarResult Fixed × V25LoopState Fixed
round_2 = result_of (round_at bar_2 round_1.1) round_2_ok

abbrev past_2 : List (Round Fixed)
past_2 = round_of "ACME" quick series lows rise round_1.1 bar_2 ∷ past_1

round_3_ok : is_ok (round_at bar_3 round_2.1) ≡ true
unfolding v25_open
round_3_ok = refl

abbrev round_3 : V25BarResult Fixed × V25LoopState Fixed
round_3 = result_of (round_at bar_3 round_2.1) round_3_ok
