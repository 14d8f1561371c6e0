-- ===== src/Pine/Indicators/Totals.antt =====
-- A positive length never raises.
use daily_alpha_engine.Common.{ℕ, ◌≤◌, ◌≡◌, refl, none, some, ◌∷◌, List, map, ok, length, arith}
use daily_alpha_engine.Common.Floats.{Floats}
use daily_alpha_engine.Common.Scan.{scan, tabulate, drop_last}
use daily_alpha_engine.Pine.Bars.{DailyBar}
use daily_alpha_engine.Pine.Indicators.{
  Series, sma, sma_at, change_of, with_previous, efficiency_at, efficiency, average_volume_prior,
  average_dollar_volume,
}

module _ {F : Type 0} ⦃fl : Floats F⦄ where
  abbrev pub means_of : Series F → ℕ → Series F
  means_of values len = tabulate (length values) 0 (sma_at values len)

  pub sma_total :
      (values : Series F) (len : ℕ) → 1 ≤ len → sma values len ≡ ok (means_of values len)
  unfolding sma
  sma_total values len h = ground arith

  abbrev pub changes_of : List (DailyBar F) → Series F
  changes_of bars = scan (with_previous change_of) none bars

  abbrev pub efficiency_of : List (DailyBar F) → ℕ → Series F
  efficiency_of bars len =
      tabulate (length bars) 0 (efficiency_at bars (means_of (changes_of bars) len) len)

  pub efficiency_total :
      (bars : List (DailyBar F)) (len : ℕ)
      → 1 ≤ len
      → efficiency bars len ≡ ok (efficiency_of bars len)
  unfolding efficiency
  efficiency_total bars len h = rw (sma_total (changes_of bars) len h) refl

  abbrev pub volumes_of : List (DailyBar F) → Series F
  volumes_of bars = map (λ b. some b.volume) bars

  pub average_volume_prior_total :
      (bars : List (DailyBar F)) (len : ℕ)
      → 1 ≤ len
      → average_volume_prior bars len ≡ ok (none ∷ drop_last (means_of (volumes_of bars) len))
  unfolding average_volume_prior
  average_volume_prior_total bars len h = rw (sma_total (volumes_of bars) len h) refl

  abbrev pub dollars_of : List (DailyBar F) → Series F
  dollars_of bars = map (λ b. some (fl.mul b.close b.volume)) bars

  pub average_dollar_volume_total :
      (bars : List (DailyBar F)) (len : ℕ)
      → 1 ≤ len
      → average_dollar_volume bars len ≡ ok (means_of (dollars_of bars) len)
  unfolding average_dollar_volume
  average_dollar_volume_total bars len h = sma_total (dollars_of bars) len h
