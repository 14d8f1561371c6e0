-- ===== src/Pine/Indicators.antt =====
-- src/daily_alpha/pine_v24_parity.py, lines 158 to 317: the indicator series. A series has one entry
-- for each bar, `none` where the source has None. Loops over an index that read only the previous
-- item carry that item as their state.
pub mod Totals
pub mod Wilder
pub mod Causal
use daily_alpha_engine.Common.{
  ℕ, ◌+◌, ◌-◌, ◌&&◌, Option, none, some, List, [], ◌∷◌, ◌++◌, map, ltb, ◌==◌, if◌then◌else◌, length,
  get_elem?, Result, ok, err, ◌>>=◌,
}
use daily_alpha_engine.Common.Int.{pos}
use daily_alpha_engine.Common.Floats.{Floats, zero_f, max_f, min_f}
use daily_alpha_engine.Common.Scan.{scan_open, scan, tabulate, slice, all_some, zip_with, drop_last}
use daily_alpha_engine.Pine.Bars.{DailyBar, ParityError, length_not_positive}

abbrev pub Series : Type 0 → Type 0
Series F = List (Option F)

-- What `_rma` carries: the seed values met so far, and the average once it has started.
pub record RmaState (F : Type 0) : Type 0 where
  pub seed : List F
  pub previous : Option F

-- `last_plus` and `last_minus` of `_dmi_adx`.
pub record DmiState (F : Type 0) : Type 0 where
  pub last_plus : Option F
  pub last_minus : Option F

pub record DmiPoint (F : Type 0) : Type 0 where
  pub plus_di : Option F
  pub minus_di : Option F
  pub dx : Option F

module _ {F : Type 0} ⦃fl : Floats F⦄ where
  -- `max` and `min` over a non-empty window, which keep the first of equal items.
  pub max_list : F → List F → F
  max_list m [] = m
  max_list m (x ∷ xs) = max_list (max_f m x) xs

  pub min_list : F → List F → F
  min_list m [] = m
  min_list m (x ∷ xs) = min_list (min_f m x) xs

  pub sma_at : Series F → ℕ → ℕ → Option F
  sma_at values len i =
      if ltb (i + 1) len then none else elim (all_some (slice values (i + 1 - len) (i + 1))) [
        | none ↦ none
        | some window ↦ some (fl.div (fl.sum window) (fl.of_int (pos len)))
      ]

  pub sma : Series F → ℕ → Result ParityError (Series F)
  sma values len =
      if len == 0
      then err length_not_positive
      else ok (tabulate (length values) 0 (sma_at values len))

  abbrev seeded : ℕ → List F → Option F × RmaState F
  seeded len seed =
      let average = some (fl.div (fl.sum seed) (fl.of_int (pos len))) in
      if length seed == len
      then (average, record { seed = seed; previous = average })
      else (none, record { seed = seed; previous = none })

  abbrev averaged : ℕ → List F → Option F → F → Option F × RmaState F
  averaged len seed none v = seeded len (seed ++ (v ∷ []))
  averaged len seed (some p) v =
      let next =
        some (fl.div (fl.add (fl.mul p (fl.of_int (pos (len - 1)))) v) (fl.of_int (pos len))) in
      (next, record { seed = seed; previous = next })

  -- One round of `_rma`. A missing value is passed over and changes nothing.
  pub rma_step : ℕ → RmaState F → Option F → Option F × RmaState F
  rma_step len s none = (none, s)
  rma_step len s (some v) = averaged len s.seed s.previous v

  abbrev rma_start : RmaState F
  rma_start = record { seed = []; previous = none }

  pub rma : Series F → ℕ → Series F
  rma values len = scan (rma_step len) rma_start values

  abbrev range_of : Option (DailyBar F) → DailyBar F → F
  range_of none b = fl.sub b.high b.low
  range_of (some p) b =
      max_f (max_f (fl.sub b.high b.low) (fl.abs (fl.sub b.high p.close)))
        (fl.abs (fl.sub b.low p.close))

  -- A loop whose body reads the bar and the bar before it.
  abbrev with_previous :
      {B : Type 0}
      → (Option (DailyBar F) → DailyBar F → B)
      → Option (DailyBar F)
      → DailyBar F
      → B × Option (DailyBar F)
  with_previous f p b = (f p b, some b)

  pub true_range : List (DailyBar F) → List F
  true_range bars = scan (with_previous range_of) none bars

  pub atr : List (DailyBar F) → ℕ → Series F
  atr bars len = rma (map (λ x. some x) (true_range bars)) len

  abbrev gain_of : Option (DailyBar F) → DailyBar F → Option F
  gain_of none b = none
  gain_of (some p) b = some (max_f (fl.sub b.close p.close) zero_f)

  abbrev loss_of : Option (DailyBar F) → DailyBar F → Option F
  loss_of none b = none
  loss_of (some p) b = some (max_f (fl.neg (fl.sub b.close p.close)) zero_f)

  pub rsi_value : Option F → Option F → Option F
  rsi_value (some up) (some down) = some (
      if fl.eq down zero_f
      then if fl.lt zero_f up then fl.dec 100 0 else fl.dec 50 0
      else if fl.eq up zero_f
      then zero_f
      else fl.sub (fl.dec 100 0) (fl.div (fl.dec 100 0) (fl.add (fl.dec 1 0) (fl.div up down))))
  rsi_value (some _) none = none
  rsi_value none down = none

  pub rsi : List (DailyBar F) → ℕ → Series F
  rsi bars len =
      zip_with rsi_value (rma (scan (with_previous gain_of) none bars) len)
        (rma (scan (with_previous loss_of) none bars) len)

  abbrev plus_dm_of : Option (DailyBar F) → DailyBar F → Option F
  plus_dm_of none b = none
  plus_dm_of (some p) b =
      let up = fl.sub b.high p.high in
      let down = fl.sub p.low b.low in
      some (if fl.lt down up && fl.lt zero_f up then up else zero_f)

  abbrev minus_dm_of : Option (DailyBar F) → DailyBar F → Option F
  minus_dm_of none b = none
  minus_dm_of (some p) b =
      let up = fl.sub b.high p.high in
      let down = fl.sub p.low b.low in
      some (if fl.lt up down && fl.lt zero_f down then down else zero_f)

  abbrev di_of : F → F → F
  di_of tr dm = if fl.eq tr zero_f then zero_f else fl.div (fl.mul (fl.dec 100 0) dm) tr

  abbrev keep_finite : F → Option F → Option F
  keep_finite current last = if fl.is_finite current then some current else last

  abbrev dx_of : Option F → Option F → Option F
  dx_of (some p) (some m) =
      let total = fl.add p m in
      some (
        fl.div (fl.mul (fl.dec 100 0) (fl.abs (fl.sub p m)))
          (if fl.eq total zero_f then fl.dec 1 0 else total))
  dx_of (some _) none = none
  dx_of none m = none

  -- One round of the loop of `_dmi_adx`, on the three averages.
  pub dmi_step : DmiState F → Option F × Option F × Option F → DmiPoint F × DmiState F
  dmi_step s (some tr, some plus, some minus) =
      let last_plus = keep_finite (di_of tr plus) s.last_plus in
      let last_minus = keep_finite (di_of tr minus) s.last_minus in
      (
        record { plus_di = last_plus; minus_di = last_minus; dx = dx_of last_plus last_minus },
        record { last_plus = last_plus; last_minus = last_minus },
      )
  dmi_step s _ = (record { plus_di = none; minus_di = none; dx = none }, s)

  pub dmi_points : List (DailyBar F) → ℕ → List (DmiPoint F)
  dmi_points bars len =
      scan dmi_step (record { last_plus = none; last_minus = none })
        (zip_with (λ (tr : Option F) (pm : Option F × Option F). (tr, pm.0, pm.1))
          (rma (map (λ x. some x) (true_range bars)) len)
          (zip_with (λ p m. (p, m)) (rma (scan (with_previous plus_dm_of) none bars) len)
            (rma (scan (with_previous minus_dm_of) none bars) len)))

  pub dmi_adx : List (DailyBar F) → ℕ → ℕ → Series F × Series F × Series F
  dmi_adx bars di_length adx_smoothing =
      let points = dmi_points bars di_length in
      (
        map (λ p. p.plus_di) points,
        map (λ p. p.minus_di) points,
        rma (map (λ p. p.dx) points) adx_smoothing,
      )

  -- `max(f(bar) for bar in window)`; the window is empty only where the length is 0.
  abbrev extreme_of : (F → List F → F) → (DailyBar F → F) → List (DailyBar F) → Option F
  extreme_of pick f [] = none
  extreme_of pick f (b ∷ bs) = some (pick (f b) (map f bs))

  pub prior_highest_at : List (DailyBar F) → ℕ → ℕ → Option F
  prior_highest_at bars len i =
      if ltb i len then none else extreme_of max_list (λ b. b.high) (slice bars (i - len) i)

  pub prior_highest : List (DailyBar F) → ℕ → Series F
  prior_highest bars len = tabulate (length bars) 0 (prior_highest_at bars len)

  pub prior_lowest_at : List (DailyBar F) → ℕ → ℕ → Option F
  prior_lowest_at bars len i =
      if ltb i len then none else extreme_of min_list (λ b. b.low) (slice bars (i - len) i)

  pub prior_lowest : List (DailyBar F) → ℕ → Series F
  prior_lowest bars len = tabulate (length bars) 0 (prior_lowest_at bars len)

  abbrev change_of : Option (DailyBar F) → DailyBar F → Option F
  change_of none b = none
  change_of (some p) b = some (fl.abs (fl.sub b.close p.close))

  abbrev efficiency_value :
      ℕ → Option (Option F) → Option (DailyBar F) → Option (DailyBar F) → Option F
  efficiency_value len (some (some mean)) (some b) (some past) =
      let path_length = fl.mul mean (fl.of_int (pos len)) in
      let direction = fl.abs (fl.sub b.close past.close) in
      some (
        if fl.lt zero_f path_length
        then min_f (fl.div direction path_length) (fl.dec 1 0)
        else zero_f)
  efficiency_value len _ _ _ = none

  pub efficiency_at : List (DailyBar F) → Series F → ℕ → ℕ → Option F
  efficiency_at bars means len i =
      if ltb i len
      then none
      else efficiency_value len (get_elem? means i) (get_elem? bars i) (get_elem? bars (i - len))

  pub efficiency : List (DailyBar F) → ℕ → Result ParityError (Series F)
  efficiency bars len = do
    means ← sma (scan (with_previous change_of) none bars) len
    ok (tabulate (length bars) 0 (efficiency_at bars means len))

  pub average_volume_prior : List (DailyBar F) → ℕ → Result ParityError (Series F)
  average_volume_prior bars len = do
    average ← sma (map (λ b. some b.volume) bars) len
    ok (none ∷ drop_last average)

  pub average_dollar_volume : List (DailyBar F) → ℕ → Result ParityError (Series F)
  average_dollar_volume bars len = sma (map (λ b. some (fl.mul b.close b.volume)) bars) len

-- To run the indicators in a test.
unfoldable pub indicators_open : Unit {0}
unfolding sma_at sma rma_step rma true_range atr rsi_value rsi dmi_step dmi_points dmi_adx max_list
    min_list prior_highest_at prior_highest prior_lowest_at prior_lowest efficiency_at efficiency
    average_volume_prior average_dollar_volume scan_open
indicators_open = tt
