-- ===== src/Pine/V25/Origin.antt =====
-- src/daily_alpha/pine_v25_parity.py: the armed entries of a replay, and the breakouts behind them.
use Prim.Native.String.{String}
use daily_alpha_engine.Common.{
  ℕ, ◌==◌, ◌≢◌, map, ◌≡◌, refl, some, List, [], ◌∷◌, get_elem?, Result, ok, err, ◌>>=◌, arith,
}
use daily_alpha_engine.Common.Floats.{Floats}
use daily_alpha_engine.Pine.Bars.{DailyBar}
use daily_alpha_engine.Pine.Indicators.{Series}
use daily_alpha_engine.Pine.State.{no_entry}
use daily_alpha_engine.Pine.Run.{SeriesSet}
use daily_alpha_engine.Pine.Armed.{
  ArmedError, V25ArmedInputs, V25ArmedSnapshot, ArmedState, check_inputs, step,
}
use daily_alpha_engine.Pine.V25.{
  V25Parameters, V25Error, V25BarResult, V25Context, V25LoopState, armed_parameters, of_armed,
}
use daily_alpha_engine.Pine.V25.Run.{v25_start, inputs_of, v25_settle, v25_round, v25_context}

-- What one round told the armed breakout, with the units that were held before it.
pub record Round (F : Type 0) : Type 0 where
  pub units : ℕ
  pub told : V25ArmedInputs F

-- The breakout was told the truth about the position.
abbrev pub IsTruthful : {F : Type 0} → Round F → Type 0
IsTruthful r = r.told.position_is_flat ≡ (r.units == 0)

module _ {F : Type 0} ⦃fl : Floats F⦄ (symbol : String) (p : V25Parameters F) (r : SeriesSet F)
    (structural : Series F) (bars : List (DailyBar F)) where
  abbrev pub round_of : V25LoopState F → DailyBar F → Round F
  round_of l bar = record {
    units = l.runner.position_units;
    told = inputs_of p (v25_context r structural bars l.index bar) l;
  }

  -- The states of the loop behind its rounds, with the rounds since the last that reported an entry, the
  -- latest first.
  pub data IsRun : List (Round F) → V25LoopState F → Type 0 where
    begun : IsRun [] v25_start
    advanced :
        (past : List (Round F)) (l l' : V25LoopState F) (bar : DailyBar F) (report : V25BarResult F)
        → IsRun past l
        → get_elem? bars l.index ≡ some bar
        → v25_round symbol p (v25_context r structural bars l.index bar) l ≡ ok (report, l')
        → report.entry_type ≡ no_entry
        → IsRun (round_of l bar ∷ past) l'
    entered :
        (past : List (Round F)) (l l' : V25LoopState F) (bar : DailyBar F) (report : V25BarResult F)
        → IsRun past l
        → get_elem? bars l.index ≡ some bar
        → v25_round symbol p (v25_context r structural bars l.index bar) l ≡ ok (report, l')
        → report.entry_type ≢ no_entry
        → IsRun [] l'

pub of_armed_ok :
    {A B : Type 0} (first : Result ArmedError A) (rest : A → Result V25Error B) {b : B}
    → (of_armed first >>= rest) ≡ ok b
    → (a : A) × (first ≡ ok a) × (rest a ≡ ok b)
of_armed_ok (ok a) rest h = (a, refl, h)
of_armed_ok (err raised) rest h = absurd (ground arith)

pub bind_ok :
    {A B : Type 0} (first : Result V25Error A) (rest : A → Result V25Error B) {b : B}
    → (first >>= rest) ≡ ok b
    → (a : A) × (first ≡ ok a) × (rest a ≡ ok b)
bind_ok (ok a) rest h = (a, refl, h)
bind_ok (err raised) rest h = absurd (ground arith)

pub pair_eq : {A : Type 0} {a b : A} → ◌≡◌ {A = Result V25Error A} (ok a) (ok b) → a ≡ b
pair_eq h = cc

module _ {F : Type 0} ⦃fl : Floats F⦄ where
  -- A round that returns is the settling of a step of the machine.
  pub round_split :
      (symbol : String) (p : V25Parameters F) (c : V25Context F) (l l' : V25LoopState F)
      (report : V25BarResult F)
      → v25_round symbol p c l ≡ ok (report, l')
      → (armed : V25ArmedSnapshot F) × (machine : ArmedState F) × (step
            (armed_parameters p)
            (inputs_of p c l)
            l.machine
          ≡ ok (armed, machine))
        × (v25_settle symbol p c l armed machine ≡ (report, l'))
  unfolding v25_round
  round_split symbol p c l l' report h =
      let (_, _, h₁) = of_armed_ok (check_inputs (inputs_of p c l)) _ h in
      let (moved, eq, h₂) =
        of_armed_ok (step (armed_parameters p) (inputs_of p c l) l.machine) _ h₁ in
      (moved.0, moved.1, eq, pair_eq h₂)

module _ {F : Type 0} ⦃fl : Floats F⦄ (symbol : String) (p : V25Parameters F) (r : SeriesSet F)
    (structural : Series F) (bars : List (DailyBar F)) where
  abbrev told_at : List (Round F) → List (V25ArmedInputs F)
  told_at past = map (λ (x : Round F). x.told) past
