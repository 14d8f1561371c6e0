-- ===== src/Pine/Run/Outcome.antt =====
-- What a replay returns, on every input that its parameters allow.
use Prim.Native.String.{String}
use daily_alpha_engine.Common.{
  ◌≤◌, ◌≡◌, refl, true, false, none, List, [], ◌∷◌, ok, err, length, arith, Bool-cases, inl, inr,
  if◌then◌else◌,
}
use daily_alpha_engine.Common.Floats.{Floats}
use daily_alpha_engine.Common.Scan.{scan, length-scan, drop_last}
use daily_alpha_engine.Common.Text.{is_blank}
use daily_alpha_engine.Pine.Bars.{
  DailyBar, V24Parameters, symbol_missing, not_chronological, check_parameters,
}
use daily_alpha_engine.Pine.Bars.Checks.{IsUsable, check_parameters-IsUsable}
use daily_alpha_engine.Pine.Indicators.{prior_highest, prior_lowest, atr, rsi, dmi_adx}
use daily_alpha_engine.Pine.Indicators.Totals.{
  means_of, efficiency_of, volumes_of, dollars_of, efficiency_total, average_volume_prior_total,
  average_dollar_volume_total,
}
use daily_alpha_engine.Pine.State.{V24BarResult}
use daily_alpha_engine.Pine.Phases.{flat, phase_of}
use daily_alpha_engine.Pine.Run.{
  SeriesSet, loop_start, run_round, is_chronological, all_series, replay, run_v24_parity,
}
use daily_alpha_engine.Pine.Run.Life.{IsLife, rounds-IsLife, runner_start-IsCoherent}

module _ {F : Type 0} ⦃fl : Floats F⦄ where
  -- The series that a replay with accepted parameters works on.
  abbrev pub series_of : V24Parameters F → List (DailyBar F) → SeriesSet F
  series_of p bars = record {
    upper = prior_highest bars p.entry_len;
    lower = prior_lowest bars p.exit_len;
    atr_values = atr bars p.atr_len;
    efficiency_values = efficiency_of bars p.efficiency_len;
    rsi_values = rsi bars p.rsi_len;
    adx_values = (dmi_adx bars p.adx_di_len p.adx_smooth).2;
    volume_prior = none ∷ drop_last (means_of (volumes_of bars) 20);
    dollar_volume = means_of (dollars_of bars) 20;
  }

  pub all_series_total :
      (p : V24Parameters F) (bars : List (DailyBar F))
      → 1 ≤ p.efficiency_len
      → all_series p bars ≡ ok (series_of p bars)
  unfolding all_series
  all_series_total p bars u =
      rw
        (
          efficiency_total bars p.efficiency_len u,
          average_volume_prior_total bars 20 (omega arith),
          average_dollar_volume_total bars 20 (omega arith),
        )
        refl

  -- The reports of a replay that is not refused.
  abbrev pub reports_of : String → V24Parameters F → List (DailyBar F) → List (V24BarResult F)
  reports_of symbol p bars = scan (run_round symbol p (series_of p bars) bars) loop_start bars

  replay_total :
      (symbol : String) (p : V24Parameters F) (bars : List (DailyBar F))
      → IsUsable p
      → is_chronological bars ≡ true
      → replay symbol p bars ≡ ok (reports_of symbol p bars)
  unfolding scan
  replay_total symbol p [] u h = refl
  replay_total symbol p (b ∷ bars) u h = rw (h, all_series_total p (b ∷ bars) u.efficiency_len) refl

  replay_mixed :
      (symbol : String) (p : V24Parameters F) (bars : List (DailyBar F))
      → is_chronological bars ≡ false
      → replay symbol p bars ≡ err not_chronological
  unfolding is_chronological
  replay_mixed symbol p [] h = cc
  replay_mixed symbol p (b ∷ bars) h = rw h refl

  pub run_v24_parity_total :
      (symbol : String) (p : V24Parameters F) (bars : List (DailyBar F))
      → check_parameters p ≡ ok tt
      → is_blank symbol ≡ false
      → is_chronological bars ≡ true
      → run_v24_parity symbol p bars ≡ ok (reports_of symbol p bars)
  unfolding run_v24_parity
  run_v24_parity_total symbol p bars checked named ordered =
      rw named (replay_total symbol p bars (check_parameters-IsUsable p checked) ordered)

  pub run-outcome :
      (symbol : String) (p : V24Parameters F) (bars : List (DailyBar F))
      → IsUsable p
      → run_v24_parity symbol p bars ≡ (
          if is_blank symbol
          then err symbol_missing
          else if is_chronological bars
          then ok (reports_of symbol p bars)
          else err not_chronological)
  unfolding run_v24_parity
  run-outcome symbol p bars u = elim (Bool-cases (is_blank symbol)) [
    | inl blank ↦ rw blank refl
    | inr named ↦ elim (Bool-cases (is_chronological bars)) [
      | inl ordered ↦ rw (named, ordered) (replay_total symbol p bars u ordered)
      | inr mixed ↦ rw (named, mixed) (replay_mixed symbol p bars mixed)
    ]
  ]

  pub ran_means :
      (symbol : String) (p : V24Parameters F) (bars : List (DailyBar F))
      (results : List (V24BarResult F))
      → check_parameters p ≡ ok tt
      → run_v24_parity symbol p bars ≡ ok results
      → (is_blank symbol ≡ false)
        × (is_chronological bars ≡ true)
        × (results ≡ reports_of symbol p bars)
  ran_means symbol p bars results checked ran =
      let o = run-outcome symbol p bars (check_parameters-IsUsable p checked) in
      elim (Bool-cases (is_blank symbol)) [
        | inl blank ↦ absurd (cc (ran, rw blank at o))
        | inr named ↦ elim (Bool-cases (is_chronological bars)) [
          | inl ordered ↦ (named, ordered, cc (ran, rw (named, ordered) at o))
          | inr mixed ↦ absurd (cc (ran, rw (named, mixed) at o))
        ]
      ]

  -- With parameters that their constructor accepts, a replay raises exactly on a blank symbol and on
  -- bars out of order, in this order of precedence. Otherwise it returns one report for each bar, and
  -- the reports are a life from flat: each bar enters from flat with 2 units, moves one stage on (to
  -- 3, 4, then 3 units), leaves, moves one stage on and leaves, or rests, with just the signals of
  -- that move, and reports the units of the phase that it ends in.
  pub run_v24_parity-lives :
      (symbol : String) (p : V24Parameters F) (bars : List (DailyBar F))
      → check_parameters p ≡ ok tt
      → (results : List (V24BarResult F)) × (run_v24_parity symbol p bars ≡ (
          if is_blank symbol
          then err symbol_missing
          else if is_chronological bars
          then ok results
          else err not_chronological))
        × (length results ≡ length bars)
        × IsLife flat results
  unfolding phase_of
  run_v24_parity-lives symbol p bars checked = (
    reports_of symbol p bars,
    run-outcome symbol p bars (check_parameters-IsUsable p checked),
    length-scan (run_round symbol p (series_of p bars) bars) loop_start bars,
    rounds-IsLife symbol p (series_of p bars) bars loop_start bars runner_start-IsCoherent,
  )
