-- ===== src/Pine/Indicators/Causal.antt =====
-- Each series over more bars begins with the series over the first bars, and has one entry for each
-- bar. `zs` are the bars `xs` and later ones.
use daily_alpha_engine.Common.{
  ℕ, ◌+◌, ◌-◌, ◌<◌, ◌≡◌, refl, sym, ◌∙◌, Option, none, some, List, map, length, length-map, arith,
}
use daily_alpha_engine.Common.Floats.{Floats}
use daily_alpha_engine.Common.Scan.{scan, length-scan}
use daily_alpha_engine.Common.Prefixes.{
  Begins, Begins-length, get_elem?-Begins, slice-Begins, tabulate-Begins, length-tabulate,
  map-Begins, scan-Begins, zip_with-Begins, length-zip_with,
}
use daily_alpha_engine.Pine.Bars.{DailyBar}
use daily_alpha_engine.Pine.Indicators.{
  Series, sma_at, rma, rma_step, true_range, atr, rsi_value, rsi, with_previous, gain_of, loss_of,
  plus_dm_of, minus_dm_of, dmi_points, dmi_adx, prior_highest_at, prior_highest, prior_lowest_at,
  prior_lowest, efficiency_at,
}
use daily_alpha_engine.Pine.Indicators.Totals.{means_of, changes_of, efficiency_of}

module _ {F : Type 0} ⦃fl : Floats F⦄ where
  rma-Begins : (vs ws : Series F) (len : ℕ) → Begins vs ws → Begins (rma vs len) (rma ws len)
  unfolding rma
  rma-Begins vs ws len h = scan-Begins (rma_step len) _ vs ws h

  length-rma : (vs : Series F) (len : ℕ) → length (rma vs len) ≡ length vs
  unfolding rma
  length-rma vs len = length-scan (rma_step len) _ vs

  sma_at-Begins :
      (vs ws : Series F) (len i : ℕ)
      → Begins vs ws
      → i < length vs
      → sma_at vs len i ≡ sma_at ws len i
  unfolding sma_at
  sma_at-Begins vs ws len i h lt =
      rw (slice-Begins (i + 1 - len) (i + 1) vs ws h (omega arith)) refl

  pub means_of-Begins :
      (vs ws : Series F) (len : ℕ) → Begins vs ws → Begins (means_of vs len) (means_of ws len)
  means_of-Begins vs ws len h =
      tabulate-Begins _ _ 0 (sma_at vs len) (sma_at ws len) (Begins-length vs ws h)
        (λ j lt. sma_at-Begins vs ws len j h (omega arith))

  pub length-means_of : (vs : Series F) (len : ℕ) → length (means_of vs len) ≡ length vs
  length-means_of vs len = length-tabulate _ 0 (sma_at vs len)

  module _ (xs zs : List (DailyBar F)) (h : Begins xs zs) where
    highest_at : (len i : ℕ) → i < length xs → prior_highest_at xs len i ≡ prior_highest_at zs len i
    unfolding prior_highest_at
    highest_at len i lt = rw (slice-Begins (i - len) i xs zs h (omega arith)) refl

    pub prior_highest-Begins : (len : ℕ) → Begins (prior_highest xs len) (prior_highest zs len)
    unfolding prior_highest
    prior_highest-Begins len =
        tabulate-Begins _ _ 0 (prior_highest_at xs len) (prior_highest_at zs len)
          (Begins-length xs zs h) (λ j lt. highest_at len j (omega arith))

    lowest_at : (len i : ℕ) → i < length xs → prior_lowest_at xs len i ≡ prior_lowest_at zs len i
    unfolding prior_lowest_at
    lowest_at len i lt = rw (slice-Begins (i - len) i xs zs h (omega arith)) refl

    pub prior_lowest-Begins : (len : ℕ) → Begins (prior_lowest xs len) (prior_lowest zs len)
    unfolding prior_lowest
    prior_lowest-Begins len =
        tabulate-Begins _ _ 0 (prior_lowest_at xs len) (prior_lowest_at zs len)
          (Begins-length xs zs h) (λ j lt. lowest_at len j (omega arith))

    true_range-Begins : Begins (true_range xs) (true_range zs)
    unfolding true_range
    true_range-Begins = scan-Begins _ none xs zs h

    pub atr-Begins : (len : ℕ) → Begins (atr xs len) (atr zs len)
    unfolding atr
    atr-Begins len = rma-Begins _ _ len (map-Begins (λ x. some x) _ _ true_range-Begins)

    pub rsi-Begins : (len : ℕ) → Begins (rsi xs len) (rsi zs len)
    unfolding rsi
    rsi-Begins len =
        zip_with-Begins rsi_value _ _ _ _ (rma-Begins _ _ len (scan-Begins _ none xs zs h))
          (rma-Begins _ _ len (scan-Begins _ none xs zs h))

    dmi_points-Begins : (len : ℕ) → Begins (dmi_points xs len) (dmi_points zs len)
    unfolding dmi_points
    dmi_points-Begins len = scan-Begins _ _ _ _ (
        zip_with-Begins _ _ _ _ _
          (rma-Begins _ _ len (map-Begins (λ x. some x) _ _ true_range-Begins))
          (zip_with-Begins _ _ _ _ _ (rma-Begins _ _ len (scan-Begins _ none xs zs h))
            (rma-Begins _ _ len (scan-Begins _ none xs zs h))))

    pub adx-Begins : (len smooth : ℕ) → Begins (dmi_adx xs len smooth).2 (dmi_adx zs len smooth).2
    unfolding dmi_adx
    adx-Begins len smooth =
        rma-Begins _ _ smooth (map-Begins (λ p. p.dx) _ _ (dmi_points-Begins len))

    changes_of-Begins : Begins (changes_of xs) (changes_of zs)
    changes_of-Begins = scan-Begins _ none xs zs h

    length-changes_of : length (changes_of xs) ≡ length xs
    length-changes_of = length-scan _ none xs

    efficiency_at_same :
        (len i : ℕ)
        → i < length xs
        → efficiency_at xs (means_of (changes_of xs) len) len i
          ≡ efficiency_at zs (means_of (changes_of zs) len) len i
    unfolding efficiency_at
    efficiency_at_same len i lt =
        let mean =
          get_elem?-Begins _ _ i (means_of-Begins _ _ len changes_of-Begins)
            (omega (arith, length-means_of (changes_of xs) len, length-changes_of)) in
        let now = get_elem?-Begins xs zs i h lt in
        let past = get_elem?-Begins xs zs (i - len) h (omega arith) in rw (mean, now, past) refl

    pub efficiency_of-Begins : (len : ℕ) → Begins (efficiency_of xs len) (efficiency_of zs len)
    efficiency_of-Begins len =
        tabulate-Begins _ _ 0 (efficiency_at xs (means_of (changes_of xs) len) len)
          (efficiency_at zs (means_of (changes_of zs) len) len) (Begins-length xs zs h)
          (λ j lt. efficiency_at_same len j (omega arith))

  module _ (xs : List (DailyBar F)) where
    pub length-efficiency_of : (len : ℕ) → length (efficiency_of xs len) ≡ length xs
    length-efficiency_of len = length-tabulate _ 0 _

    pub length-prior_highest : (len : ℕ) → length (prior_highest xs len) ≡ length xs
    unfolding prior_highest
    length-prior_highest len = length-tabulate _ 0 _

    pub length-prior_lowest : (len : ℕ) → length (prior_lowest xs len) ≡ length xs
    unfolding prior_lowest
    length-prior_lowest len = length-tabulate _ 0 _

    length-true_range : length (true_range xs) ≡ length xs
    unfolding true_range
    length-true_range = length-scan _ none xs

    length_present : length (map (λ x. some x) (true_range xs)) ≡ length xs
    length_present = length-map (true_range xs) (λ x. some x) ∙ length-true_range

    pub length-atr : (len : ℕ) → length (atr xs len) ≡ length xs
    unfolding atr
    length-atr len = length-rma _ len ∙ length_present

    length-scan-rma :
        (f : Option (DailyBar F) → DailyBar F → Option F) (len : ℕ)
        → length (rma (scan (with_previous f) none xs) len) ≡ length xs
    length-scan-rma f len = length-rma _ len ∙ length-scan _ none xs

    pub length-rsi : (len : ℕ) → length (rsi xs len) ≡ length xs
    unfolding rsi
    length-rsi len =
        length-zip_with rsi_value _ _
          (length-scan-rma gain_of len ∙ sym (length-scan-rma loss_of len))
        ∙ length-scan-rma gain_of len

    length-dmi_points : (len : ℕ) → length (dmi_points xs len) ≡ length xs
    unfolding dmi_points
    length-dmi_points len =
        let pairs =
          length-zip_with (λ p m. (p, m)) (rma (scan (with_previous plus_dm_of) none xs) len)
            (rma (scan (with_previous minus_dm_of) none xs) len)
            (length-scan-rma plus_dm_of len ∙ sym (length-scan-rma minus_dm_of len))
          ∙ length-scan-rma plus_dm_of len in
        let ranges = length-rma _ len ∙ length_present in
        length-scan _ _ _ ∙ length-zip_with _ _ _ (ranges ∙ sym pairs) ∙ ranges

    pub length-adx : (len smooth : ℕ) → length (dmi_adx xs len smooth).2 ≡ length xs
    unfolding dmi_adx
    length-adx len smooth =
        length-rma _ smooth ∙ length-map (dmi_points xs len) (λ p. p.dx) ∙ length-dmi_points len
