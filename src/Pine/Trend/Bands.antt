-- ===== src/Pine/Trend/Bands.antt =====
-- The trend filter: its bands ratchet, and its bookkeeping follows its direction.
use daily_alpha_engine.Common.{
  ◌≡◌, ◌⊎◌, true, Option, none, some, some_and, refl, ◌||◌, inl, inr, Bool-cases, arith,
}
use daily_alpha_engine.Common.Floats.{Floats}
use daily_alpha_engine.Pine.Bars.{DailyBar, V24Parameters}
use daily_alpha_engine.Pine.State.{TrendState, BarContext}
use daily_alpha_engine.Pine.Trend.{
  basic_upper, basic_lower, next_final_upper, next_final_lower, trend_step,
}

module _ {F : Type 0} ⦃fl : Floats F⦄ where
  upper_ratchets :
      (b : Option F) (u : F) (close : Option F)
      → (u' : F) × (next_final_upper b (some u) close ≡ some u')
        × ((u' ≡ u) ⊎ (fl.lt u' u ≡ true) ⊎ (some_and close (λ x. fl.lt u x) ≡ true))
  unfolding next_final_upper
  upper_ratchets none u close = (u, refl, inl refl)
  upper_ratchets (some b) u close =
      elim (Bool-cases (fl.lt b u || some_and close (λ x. fl.lt u x))) [
        | inl h ↦ (b, rw h refl, inr (ground arith))
        | inr h ↦ (u, rw h refl, inl refl)
      ]

  lower_ratchets :
      (b : Option F) (l : F) (close : Option F)
      → (l' : F) × (next_final_lower b (some l) close ≡ some l')
        × ((l' ≡ l) ⊎ (fl.lt l l' ≡ true) ⊎ (some_and close (λ x. fl.lt x l) ≡ true))
  unfolding next_final_lower
  lower_ratchets none l close = (l, refl, inl refl)
  lower_ratchets (some b) l close =
      elim (Bool-cases (fl.lt l b || some_and close (λ x. fl.lt x l))) [
        | inl h ↦ (b, rw h refl, inr (ground arith))
        | inr h ↦ (l, rw h refl, inl refl)
      ]

  abbrev close_of : Option (DailyBar F) → Option F
  close_of o = elim o [ none ↦ none | some b ↦ some b.close ]

  -- A final lower band that is present stays present, and it changes only upwards or behind a close
  -- below it; the final upper band only downwards or behind a close above it.
  pub trend_step-ratchets :
      (p : V24Parameters F) (c : BarContext F) (s : TrendState F) (u l : F)
      → s.final_upper ≡ some u
      → s.final_lower ≡ some l
      → let t = trend_step p c s in
        ((u' : F) × (t.final_upper ≡ some u')
          × ((u' ≡ u)
              ⊎ (fl.lt u' u ≡ true)
              ⊎ (some_and (close_of c.previous_bar) (λ x. fl.lt u x) ≡ true)))
        × ((l' : F) × (t.final_lower ≡ some l')
            × ((l' ≡ l)
                ⊎ (fl.lt l l' ≡ true)
                ⊎ (some_and (close_of c.previous_bar) (λ x. fl.lt x l) ≡ true)))
  unfolding trend_step
  trend_step-ratchets p c s u l hu hl = (
    rw hu (upper_ratchets (basic_upper p c) u (close_of c.previous_bar)),
    rw hl (lower_ratchets (basic_lower p c) l (close_of c.previous_bar)),
  )
