-- ===== src/Paper/Fallback/Choice.antt =====
-- What `select` may choose.
use Prim.Native.String.{String}
use daily_alpha_engine.Common.{
  ◌≡◌, refl, sym, ap, subst, ◌∙◌, ◌≢◌, ◌⊎◌, inl, inr, Bool, true, false, Bool-cases, ◌&&◌, Option,
  none, some, List, [], ◌∷◌, if◌then◌else◌, some_and, All, IsIn,
}
use daily_alpha_engine.Common.Floats.{Floats}
use daily_alpha_engine.Paper.Models.{
  option, stock, no_instrument, selected, OptionCandidate, StockCandidate, Decision,
}
use daily_alpha_engine.Paper.Fallback.{
  OptionQualityRules, StockFallbackRules, create_decision, no_decision, option_passes, stock_passes,
  qualified, is_better, best, choose, select,
}

kept-IsIn :
    {A : Type 0} (b : Bool) (c o : A) (rest : List A)
    → IsIn c (if b then o ∷ rest else rest)
    → (c ≡ o) × (b ≡ true) ⊎ IsIn c rest
kept-IsIn true c o rest (inl e) = inl (e, refl)
kept-IsIn true c o rest (inr k) = inr k
kept-IsIn false c o rest k = inr k

kept-nil :
    {A : Type 0} (b : Bool) (o : A) (rest : List A)
    → (if b then o ∷ rest else rest) ≡ []
    → (b ≡ false) × (rest ≡ [])
kept-nil true o rest h = cc
kept-nil false o rest h = (refl, h)

either-IsIn :
    {A : Type 0} (t : Bool) (c a b : A) (bs : List A)
    → IsIn c ((if t then b else a) ∷ bs)
    → IsIn c (a ∷ b ∷ bs)
either-IsIn true c a b bs (inl e) = inr (inl e)
either-IsIn true c a b bs (inr k) = inr (inr k)
either-IsIn false c a b bs (inl e) = inl e
either-IsIn false c a b bs (inr k) = inr (inr k)

module _ {F : Type 0} ⦃fl : Floats F⦄ where
  qualified_sound :
      (rules : OptionQualityRules F) (c : OptionCandidate F) (os : List (OptionCandidate F))
      → IsIn c (qualified rules os)
      → IsIn c os × (option_passes rules c ≡ true)
  unfolding qualified
  qualified_sound rules c [] h = absurd h
  qualified_sound rules c (o ∷ os) h =
      elim (kept-IsIn (option_passes rules o) c o (qualified rules os) h) [
        | inl (e, p) ↦ (inl e, ap (option_passes rules) e ∙ p)
        | inr k ↦ let (m, q) = qualified_sound rules c os k in (inr m, q)
      ]

  qualified-none :
      (rules : OptionQualityRules F) (os : List (OptionCandidate F))
      → qualified rules os ≡ []
      → All (λ o. option_passes rules o ≡ false) os
  unfolding qualified
  qualified-none rules [] h = tt
  qualified-none rules (o ∷ os) h =
      let (fails, rest) = kept-nil (option_passes rules o) o (qualified rules os) h in
      (fails, qualified-none rules os rest)

  best-IsIn : (a : OptionCandidate F) (os : List (OptionCandidate F)) → IsIn (best a os) (a ∷ os)
  unfolding best
  best-IsIn a [] = inl refl
  best-IsIn a (b ∷ bs) =
      either-IsIn (is_better b a) (best (if is_better b a then b else a) bs) a b bs
        (best-IsIn (if is_better b a then b else a) bs)

  -- What a decision may be, given the gates and the offered contracts.
  pub IsSanctioned :
      OptionQualityRules F
      → StockFallbackRules F
      → Bool
      → List (OptionCandidate F)
      → Option (StockCandidate F)
      → Decision F
      → Type 0
  IsSanctioned rules stock_rules gates options candidate d =
      (d.instrument_selected ≡ option)
        × (d.status ≡ selected)
        × (gates ≡ true)
        × ((c : OptionCandidate F) × (d.selected_contract ≡ some c)
            × IsIn c options
            × (option_passes rules c ≡ true))
      ⊎ (d.instrument_selected ≡ stock)
        × (d.status ≡ selected)
        × (gates ≡ true)
        × (d.selected_contract ≡ none)
        × (some_and candidate (stock_passes stock_rules) ≡ true)
        × All (λ o. option_passes rules o ≡ false) options
      ⊎ (d.instrument_selected ≡ no_instrument)
        × (d.status ≢ selected)
        × (d.selected_contract ≡ none)

  select_open_sound :
      (rules : OptionQualityRules F) (stock_rules : StockFallbackRules F) (now symbol : String)
      (options : List (OptionCandidate F)) (candidate : Option (StockCandidate F))
      (found : List (OptionCandidate F))
      → qualified rules options ≡ found
      → IsSanctioned rules stock_rules true options candidate
          (choose stock_rules now symbol found candidate)
  unfolding IsSanctioned choose create_decision no_decision
  select_open_sound rules stock_rules now symbol options candidate (a ∷ rest) h =
      let (m, pass) =
        qualified_sound rules (best a rest) options
          (subst (λ l. IsIn (best a rest) l) (sym h) (best-IsIn a rest)) in
      inl (refl, refl, refl, (best a rest, refl, m, pass))
  select_open_sound rules stock_rules now symbol options candidate [] h =
      elim (Bool-cases (some_and candidate (stock_passes stock_rules))) [
        | inl eligible ↦
            rw eligible (inr (inl (refl, refl, refl, refl, refl, qualified-none rules options h)))
        | inr not_eligible ↦ rw not_eligible (inr (inr (refl, cc, refl)))
      ]

  -- An option is chosen only with the signal active, the risk gate passed and the option data present
  -- and fresh, and it is one of those offered and passes every quality rule. A stock is chosen only
  -- under the same conditions, when it passes its rules and no offered option passes its own; stale or
  -- missing option data never leads to a stock. Otherwise nothing is selected.
  pub select_sound :
      (rules : OptionQualityRules F) (stock_rules : StockFallbackRules F) (now symbol : String)
      (active passed fresh present : Bool) (options : List (OptionCandidate F))
      (candidate : Option (StockCandidate F))
      → IsSanctioned rules stock_rules
          (active && passed && present && fresh)
          options
          candidate
          (select rules stock_rules now symbol active passed fresh present options candidate)
  unfolding select IsSanctioned create_decision no_decision
  select_sound rules stock_rules now symbol false passed fresh present options candidate =
      inr (inr (refl, cc, refl))
  select_sound rules stock_rules now symbol true false fresh present options candidate =
      inr (inr (refl, cc, refl))
  select_sound rules stock_rules now symbol true true fresh false options candidate =
      inr (inr (refl, cc, refl))
  select_sound rules stock_rules now symbol true true false true options candidate =
      inr (inr (refl, cc, refl))
  select_sound rules stock_rules now symbol true true true true options candidate =
      select_open_sound rules stock_rules now symbol options candidate (qualified rules options)
        refl
