-- ===== src/Pine/V25/Causal.antt =====
-- src/daily_alpha/pine_v25_parity.py: a replay looks at no later bar.
use Prim.Native.String.{String}
use daily_alpha_engine.Common.{
  ℕ, suc, ◌+◌, ◌≤◌, ◌<◌, ◌≡◌, refl, sym, ap, ◌∙◌, subst, Bool, true, false, not, List, [], ◌∷◌,
  ◌++◌, length, take, ok, raise_if, arith,
}
use daily_alpha_engine.Common.Floats.{Floats}
use daily_alpha_engine.Common.Text.{is_blank}
use daily_alpha_engine.Common.Prefixes.{Begins, Begins-append}
use daily_alpha_engine.Pine.Bars.{DailyBar}
use daily_alpha_engine.Pine.Indicators.{Series, prior_lowest}
use daily_alpha_engine.Pine.Indicators.Causal.{prior_lowest-Begins, length-prior_lowest}
use daily_alpha_engine.Pine.Run.{SeriesSet, is_chronological, all_series}
use daily_alpha_engine.Pine.Run.Outcome.{series_of, all_series_total}
use daily_alpha_engine.Pine.Run.Causal.{at-Begins, context_same, is_chronological-append}
use daily_alpha_engine.Pine.Armed.{check_armed_parameters}
use daily_alpha_engine.Pine.V25.{
  V25Parameters, V25BarResult, V25LoopState, V25Context, shared_parameters, armed_parameters,
  of_armed, of_parity, check_v25_parameters,
}
use daily_alpha_engine.Pine.V25.Run.{
  v25_start, v25_settle, v25_round, v25_context, v25_rounds, v25_replay, run_v25_parity,
}
use daily_alpha_engine.Pine.V25.Origin.{bind_ok, pair_eq, round_split}

module _ {F : Type 0} ⦃fl : Floats F⦄ (symbol : String) (p : V25Parameters F) where
  -- The rounds over the first bars of some are the first of their rounds.
  v25_rounds-append :
      (r : SeriesSet F) (structural : Series F) (bars first later : List (DailyBar F))
      (l : V25LoopState F) (all_results : List (V25BarResult F))
      → v25_rounds symbol p r structural bars (first ++ later) l ≡ ok all_results
      → v25_rounds symbol p r structural bars first l ≡ ok (take (length first) all_results)
  unfolding v25_rounds
  v25_rounds-append r structural bars [] later l all_results h = refl
  v25_rounds-append r structural bars (bar ∷ first) later l all_results h =
      let (done, eq, h₁) =
        bind_ok (v25_round symbol p (v25_context r structural bars l.index bar) l) _ h in
      let (results, eq₂, h₂) =
        bind_ok (v25_rounds symbol p r structural bars (first ++ later) done.1) _ h₁ in
      let rest = v25_rounds-append r structural bars first later done.1 results eq₂ in
      rw (eq) (rw (rest) (ap (λ x. ok (take (suc (length first)) x)) (pair_eq h₂)))

  v25_round-index :
      (c : V25Context F) (l l' : V25LoopState F) (report : V25BarResult F)
      → v25_round symbol p c l ≡ ok (report, l')
      → l'.index ≡ l.index + 1
  unfolding v25_settle
  v25_round-index c l l' report h =
      let (armed, machine, _, settled) = round_split symbol p c l l' report h in
      ap (λ x. x.1.index) (sym settled)

  module _ (xs zs : List (DailyBar F)) (h : Begins xs zs) where
    v25_context_same :
        (i : ℕ) (b : DailyBar F)
        → i < length xs
        → v25_context
            (series_of (shared_parameters p) xs)
            (prior_lowest xs p.structural_exit_len)
            xs
            i
            b
          ≡ v25_context
              (series_of (shared_parameters p) zs)
              (prior_lowest zs p.structural_exit_len)
              zs
              i
              b
    unfolding v25_context
    v25_context_same i b lt = λ k. record {
      shared = context_same (shared_parameters p) xs zs h i b lt k;
      structural_lower =
          at-Begins _ _ i (prior_lowest-Begins xs zs h p.structural_exit_len)
            (omega (arith, length-prior_lowest xs p.structural_exit_len)) k;
    }

    v25_rounds_same :
        (l : V25LoopState F) (rest : List (DailyBar F)) (results : List (V25BarResult F))
        → l.index + length rest ≤ length xs
        → v25_rounds symbol p
            (series_of (shared_parameters p) zs)
            (prior_lowest zs p.structural_exit_len)
            zs
            rest
            l
          ≡ ok results
        → v25_rounds symbol p
            (series_of (shared_parameters p) xs)
            (prior_lowest xs p.structural_exit_len)
            xs
            rest
            l
          ≡ ok results
    unfolding v25_rounds
    v25_rounds_same l [] results le eq = eq
    v25_rounds_same l (bar ∷ rest) results le eq =
        let (done, e₁, h₁) =
          bind_ok
            (v25_round symbol p
              (v25_context (series_of (shared_parameters p) zs)
                (prior_lowest zs p.structural_exit_len) zs l.index bar)
              l)
            _ eq in
        let (others, e₂, h₂) = bind_ok _ _ h₁ in
        let next =
          v25_rounds_same done.1 rest others (omega (arith, v25_round-index _ l done.1 done.0 e₁))
            e₂ in
        rw (v25_context_same l.index bar (omega arith)) (rw (e₁) (rw (next) h₂))

check-efficiency_len :
    {F : Type 0} ⦃fl : Floats F⦄ (p : V25Parameters F)
    → check_v25_parameters p ≡ ok tt
    → 1 ≤ p.efficiency_len
unfolding check_v25_parameters
check-efficiency_len p h = ground arith

not_raised :
    {E : Type 0} (test : Bool) (raised : E) (a : Unit {0})
    → raise_if test raised ≡ ok a
    → test ≡ false
not_raised true raised a h = absurd (ground arith)
not_raised false raised a h = refl

refuted : (b : Bool) → not b ≡ false → b ≡ true
refuted b h = ground arith

module _ {F : Type 0} ⦃fl : Floats F⦄ (symbol : String) (p : V25Parameters F) where
  series_known :
      (bars : List (DailyBar F)) (r : SeriesSet F)
      → 1 ≤ p.efficiency_len
      → of_parity (all_series (shared_parameters p) bars) ≡ ok r
      → series_of (shared_parameters p) bars ≡ r
  series_known bars r positive h =
      pair_eq (ap of_parity (sym (all_series_total (shared_parameters p) bars positive)) ∙ h)

  v25_replay-causal :
      (bars later : List (DailyBar F)) (all_results : List (V25BarResult F))
      → 1 ≤ p.efficiency_len
      → v25_replay symbol p (bars ++ later) ≡ ok all_results
      → v25_replay symbol p bars ≡ ok (take (length bars) all_results)
  unfolding v25_replay
  v25_replay-causal [] later all_results positive h = refl
  v25_replay-causal (b ∷ bs) later all_results positive h =
      let xs = b ∷ bs in
      let zs = xs ++ later in
      let (ordered, e₀, h₁) = bind_ok (raise_if (not (is_chronological zs)) _) _ h in
      let (r, e₁, h₂) = bind_ok (of_parity (all_series (shared_parameters p) zs)) _ h₁ in
      let (fine, e₂, h₃) = bind_ok (of_armed (check_armed_parameters (armed_parameters p))) _ h₂ in
      let whole =
        subst
          (λ x.
            v25_rounds symbol p x (prior_lowest zs p.structural_exit_len) zs zs v25_start
            ≡ ok all_results)
          (sym (series_known zs r positive e₁)) h₃ in
      let cut = v25_rounds-append symbol p _ _ zs xs later v25_start all_results whole in
      let same =
        v25_rounds_same symbol p xs zs (Begins-append xs later) v25_start xs _ (omega arith) cut in
      rw (is_chronological-append xs later (refuted _ (not_raised _ _ ordered e₀)))
        (rw (all_series_total (shared_parameters p) xs positive) (rw e₂ same))

  -- An appended bar changes no earlier report: with parameters that their constructor accepts, where the
  -- replay of all bars returns, so does that of a beginning of them, with the first of its reports, one
  -- for each bar of the beginning.
  pub run_v25_parity-causal :
      (bars later : List (DailyBar F)) (all_results : List (V25BarResult F))
      → check_v25_parameters p ≡ ok tt
      → run_v25_parity symbol p (bars ++ later) ≡ ok all_results
      → run_v25_parity symbol p bars ≡ ok (take (length bars) all_results)
  unfolding run_v25_parity
  run_v25_parity-causal bars later all_results checked h =
      let (named, e₀, h₁) = bind_ok (raise_if (is_blank symbol) _) _ h in
      rw (not_raised _ _ named e₀)
        (v25_replay-causal bars later all_results (check-efficiency_len p checked) h₁)
