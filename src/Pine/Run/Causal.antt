-- ===== src/Pine/Run/Causal.antt =====
-- A replay looks at no later bar: what it reports does not change when bars are appended.
use Prim.Native.String.{String}
use daily_alpha_engine.Common.{
  ℕ, zero, suc, ◌+◌, ◌≤◌, ◌<◌, ◌≡◌, refl, sym, ◌∙◌, ap, true, Option, some, List, [], ◌∷◌, ◌++◌, ok,
  length, length-map, get_elem?, take, arith,
}
use daily_alpha_engine.Common.Floats.{Floats}
use daily_alpha_engine.Common.Scan.{scan, length-scan}
use daily_alpha_engine.Common.Prefixes.{
  Begins, Begins-append, take_of_Begins, get_elem?-Begins, drop_last-Begins, length-drop_last,
  map-Begins, scan-Begins,
}
use daily_alpha_engine.Pine.Bars.{DailyBar, V24Parameters, check_parameters}
use daily_alpha_engine.Pine.Indicators.{Series}
use daily_alpha_engine.Pine.Indicators.Totals.{means_of, volumes_of, dollars_of}
use daily_alpha_engine.Pine.Indicators.Causal.{
  means_of-Begins, length-means_of, prior_highest-Begins, prior_lowest-Begins, atr-Begins,
  rsi-Begins, adx-Begins, efficiency_of-Begins, length-efficiency_of, length-prior_highest,
  length-prior_lowest, length-atr, length-rsi, length-adx,
}
use daily_alpha_engine.Pine.State.{V24BarResult}
use daily_alpha_engine.Pine.Run.{
  LoopState, loop_start, at, before, bar_context, run_round, is_chronological, run_v24_parity,
}
use daily_alpha_engine.Pine.Run.Life.{bar_step-index}
use daily_alpha_engine.Pine.Run.Outcome.{series_of, reports_of, ran_means, run_v24_parity_total}

pub at-Begins :
    {F : Type 0} (vs ws : Series F) (i : ℕ) → Begins vs ws → i < length vs → at vs i ≡ at ws i
at-Begins vs ws i h lt = rw (get_elem?-Begins vs ws i h lt, at) refl

before_same :
    {A : Type 0} (f g : ℕ → Option A) (i n : ℕ)
    → i < n
    → ((j : ℕ) → j < n → f j ≡ g j)
    → before f i ≡ before g i
before_same f g zero n lt h = refl
before_same f g (suc i) n lt h = h i (omega arith)

pub is_chronological-append :
    {F : Type 0} (xs ys : List (DailyBar F))
    → is_chronological (xs ++ ys) ≡ true
    → is_chronological xs ≡ true
unfolding is_chronological
is_chronological-append [] ys h = refl
is_chronological-append (b ∷ []) ys h = refl
is_chronological-append (b ∷ c ∷ xs) ys h = ground (arith, is_chronological-append (c ∷ xs) ys)

module _ {F : Type 0} ⦃fl : Floats F⦄ (p : V24Parameters F) (xs zs : List (DailyBar F))
    (h : Begins xs zs) where
  atr_same :
      (j : ℕ) → j < length xs → at (series_of p xs).atr_values j ≡ at (series_of p zs).atr_values j
  atr_same j lt =
      at-Begins _ _ j (atr-Begins xs zs h p.atr_len) (omega (arith, length-atr xs p.atr_len))

  volume_prior_same :
      (j : ℕ)
      → j < length xs
      → at (series_of p xs).volume_prior j ≡ at (series_of p zs).volume_prior j
  volume_prior_same j lt =
      let ms = means_of (volumes_of xs) 20 in
      at-Begins (series_of p xs).volume_prior (series_of p zs).volume_prior j
        (
          refl,
          drop_last-Begins ms (means_of (volumes_of zs) 20)
              (means_of-Begins _ _ 20 (map-Begins (λ b. some b.volume) xs zs h)),
        )
        (omega (
          arith,
          length-drop_last ms,
          length-means_of (volumes_of xs) 20,
          length-map xs (λ b. some b.volume),
        ))

  dollar_volume_same :
      (j : ℕ)
      → j < length xs
      → at (series_of p xs).dollar_volume j ≡ at (series_of p zs).dollar_volume j
  dollar_volume_same j lt =
      at-Begins _ _ j
        (means_of-Begins _ _ 20 (map-Begins (λ b. some (fl.mul b.close b.volume)) xs zs h))
        (omega (
          arith,
          length-means_of (dollars_of xs) 20,
          length-map xs (λ b. some (fl.mul b.close b.volume)),
        ))

  pub context_same :
      (i : ℕ) (b : DailyBar F)
      → i < length xs
      → bar_context (series_of p xs) xs i b ≡ bar_context (series_of p zs) zs i b
  unfolding bar_context
  context_same i b lt = λ k. record {
    index = i;
    bar = b;
    previous_bar =
        before_same (get_elem? xs) (get_elem? zs) i (length xs) lt
          (λ j l. sym (get_elem?-Begins xs zs j h l)) k;
    previous_atr =
        before_same (at (series_of p xs).atr_values) (at (series_of p zs).atr_values) i (length xs)
          lt atr_same k;
    upper20 =
        at-Begins _ _ i (prior_highest-Begins xs zs h p.entry_len)
          (omega (arith, length-prior_highest xs p.entry_len)) k;
    lower10 =
        at-Begins _ _ i (prior_lowest-Begins xs zs h p.exit_len)
          (omega (arith, length-prior_lowest xs p.exit_len)) k;
    atr = atr_same i lt k;
    efficiency =
        at-Begins _ _ i (efficiency_of-Begins xs zs h p.efficiency_len)
          (omega (arith, length-efficiency_of xs p.efficiency_len)) k;
    rsi = at-Begins _ _ i (rsi-Begins xs zs h p.rsi_len) (omega (arith, length-rsi xs p.rsi_len)) k;
    adx =
        at-Begins _ _ i (adx-Begins xs zs h p.adx_di_len p.adx_smooth)
          (omega (arith, length-adx xs p.adx_di_len p.adx_smooth)) k;
    average_volume_prior = volume_prior_same i lt k;
    average_dollar_volume = dollar_volume_same i lt k;
  }

  rounds_same :
      (symbol : String) (l : LoopState F) (later : List (DailyBar F))
      → l.index + length later ≤ length xs
      → scan (run_round symbol p (series_of p xs) xs) l later
        ≡ scan (run_round symbol p (series_of p zs) zs) l later
  unfolding scan run_round
  rounds_same symbol l [] le = refl
  rounds_same symbol l (b ∷ later) le =
      let after = (run_round symbol p (series_of p zs) zs l b).1 in
      rw (context_same l.index b (omega arith)) (
        ap (λ rest. (run_round symbol p (series_of p zs) zs l b).0 ∷ rest)
          (rounds_same symbol after later (rw (bar_step-index symbol p _ l) (omega arith))))

  reports_of-Begins : (symbol : String) → Begins (reports_of symbol p xs) (reports_of symbol p zs)
  reports_of-Begins symbol =
      rw (rounds_same symbol loop_start xs (omega arith))
        (scan-Begins (run_round symbol p (series_of p zs) zs) loop_start xs zs h)

module _ {F : Type 0} ⦃fl : Floats F⦄ where
  -- An appended bar changes no earlier report: the replay of a beginning of the bars succeeds where
  -- the replay of all does, and returns the first reports of it, one for each of its bars.
  pub run_v24_parity-causal :
      (symbol : String) (p : V24Parameters F) (bars later : List (DailyBar F))
      (all_results : List (V24BarResult F))
      → check_parameters p ≡ ok tt
      → run_v24_parity symbol p (bars ++ later) ≡ ok all_results
      → run_v24_parity symbol p bars ≡ ok (take (length bars) all_results)
  run_v24_parity-causal symbol p bars later all_results checked ran =
      let (named, ordered, whole) = ran_means symbol p (bars ++ later) all_results checked ran in
      let begins = reports_of-Begins p bars (bars ++ later) (Begins-append bars later) symbol in
      let count = length-scan (run_round symbol p (series_of p bars) bars) loop_start bars in
      let cut = ap (take (length bars)) whole ∙ take_of_Begins (length bars) _ _ begins count in
      run_v24_parity_total symbol p bars checked named (is_chronological-append bars later ordered)
      ∙ ap (λ l. ok l) (sym cut)
