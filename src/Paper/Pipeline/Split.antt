-- ===== src/Paper/Pipeline/Split.antt =====
-- src/daily_alpha/pipeline.py: what `process_entry` asks of the ledger.
use Prim.Native.String.{String}
use text.Mathlib.Text.{◌==◌}
use text.Mathlib.TextEquality.{path_by_compare}
use daily_alpha_engine.Common.{
  ℕ, ◌*◌, ◌≤◌, ◌≡◌, refl, sym, ◌∙◌, ap, subst, false, not, Option, none, some, Result, ok, arith,
}
use daily_alpha_engine.Common.Int.{ℤ, pos}
use daily_alpha_engine.Common.Floats.{Floats}
use daily_alpha_engine.Common.Stateful.{
  lifted, wrapped, ◌>>=◌, outcome_ok, wrapped_ok, lifted_ok, check_ok,
}
use daily_alpha_engine.Paper.Models.{
  InstrumentSelected, option, stock, no_instrument, DecisionStatus, selected, no_trade, data_error,
  Decision,
}
use daily_alpha_engine.Paper.Sizing.{
  PortfolioLimits, RunnerAllocation, size_long_option, size_stock, allocate_runner,
}
use daily_alpha_engine.Paper.Sizing.Budget.{IsSplit, allocate_runner-ok}
use daily_alpha_engine.Paper.Ledger.{PaperTrade, OpenRequest}
use daily_alpha_engine.Paper.Pipeline.{
  SignalAction, entry_long, add, partial, exit, PineSignal, EntryPricing, LedgerApi, PipelineError,
  sizing_failed, ledger_failed, is_entry, is_selected, required,
}
use daily_alpha_engine.Paper.Pipeline.Enter.{enter_option, enter_stock, enter, process_entry}

-- The first half of a runner of four units or a multiple of it, for a selected decision on the symbol of
-- an entry signal.
pub record IsStarter {F : Type 0} (signal : PineSignal F) (decision : Decision F)
    (q : OpenRequest F) : Type 0 where
  pub action : signal.action ≡ entry_long
  pub status : decision.status ≡ selected
  pub decided : signal.symbol ≡ decision.symbol
  pub symbol : q.symbol ≡ signal.symbol
  pub instrument : q.instrument ≡ decision.instrument_selected
  pub signal_id : q.signal_id ≡ signal.signal_id
  pub stage : q.runner_stage ≡ "STARTER"
  pub unit : ℕ
  pub positive : 1 ≤ unit
  pub quantity : q.quantity ≡ pos (2 * unit)
  pub target : q.target_quantity ≡ some (pos (4 * unit))

selected_of : (status : DecisionStatus) → not (is_selected status) ≡ false → status ≡ selected
selected_of selected h = refl
selected_of no_trade h = absurd (ground arith)
selected_of data_error h = absurd (ground arith)

entry_of : (action : SignalAction) → not (is_entry action) ≡ false → action ≡ entry_long
unfolding is_entry
entry_of entry_long h = refl
entry_of add h = absurd (ground arith)
entry_of partial h = absurd (ground arith)
entry_of exit h = absurd (ground arith)

equal_of : (a b : String) → not (a == b) ≡ false → a ≡ b
equal_of a b h = path_by_compare a b (ground arith)

pub required_ok :
    {S E A : Type 0} (o : Option A) (raised : E) (s : S) {s' : S} {a : A}
    → required o raised s ≡ (s', ok a)
    → s ≡ s'
unfolding required
required_ok none raised s h = absurd (ground arith)
required_ok (some a) raised s h = ground arith

module _ {S E F : Type 0} ⦃fl : Floats F⦄ (ledger : LedgerApi S E F) (limits : PortfolioLimits F)
    (new_id : String) (signal : PineSignal F) (decision : Decision F) (pricing : EntryPricing F)
    (sector : String) where
  -- What the ledger was asked, and its answer.
  Opens : InstrumentSelected → S → S × Result E (PaperTrade F) → Type 0
  Opens instrument s answer =
      (q : OpenRequest F) × (ledger.open_trade new_id q s ≡ answer)
      × (q.symbol ≡ signal.symbol)
      × (q.instrument ≡ instrument)
      × (q.signal_id ≡ signal.signal_id)
      × (q.runner_stage ≡ "STARTER")
      × (unit : ℕ) × (1 ≤ unit)
      × (q.quantity ≡ pos (2 * unit))
      × (q.target_quantity ≡ some (pos (4 * unit)))

  allocated :
      (z : ℤ) (request : RunnerAllocation → OpenRequest F) (s s' : S) (t : PaperTrade F)
      → (lifted sizing_failed (allocate_runner z) >>= (λ runner.
            wrapped {E = PipelineError E} ledger_failed
              (ledger.open_trade new_id (request runner))))
          s
        ≡ (s', ok t)
      → (runner : RunnerAllocation) × (ledger.open_trade new_id (request runner) s ≡ (s', ok t))
        × (raw : ℕ) × IsSplit raw runner
  allocated z request s s' t h =
      let (s₁, runner, eq, done) = outcome_ok (lifted sizing_failed (allocate_runner z) s) _ h in
      let (accepted, same) = lifted_ok sizing_failed (allocate_runner z) s eq in
      let (raw, _, split) = allocate_runner-ok z runner accepted in
      (
        runner,
        subst (λ x. ledger.open_trade new_id (request runner) x ≡ (s', ok t)) (sym same)
            (wrapped_ok ledger_failed (ledger.open_trade new_id (request runner) s₁) done),
        raw,
        split,
      )

  enter_option-Opens :
      (s s' : S) (t : PaperTrade F)
      → enter_option ledger limits new_id signal decision pricing sector s ≡ (s', ok t)
      → Opens option s (s', ok t)
  unfolding enter_option Opens
  enter_option-Opens s s' t h =
      let (s₁, premium, eq₁, h₁) = outcome_ok (required pricing.option_premium _ s) _ h in
      let (s₂, contract, eq₂, h₂) = outcome_ok (required decision.selected_contract _ s₁) _ h₁ in
      let (s₃, size, eq₃, h₃) =
        outcome_ok (lifted sizing_failed (size_long_option premium limits (pos 100)) s₂) _ h₂ in
      let (runner, opens, raw, split) = allocated size.quantity _ s₃ s' t h₃ in
      let same =
        required_ok pricing.option_premium _ s eq₁
        ∙ required_ok decision.selected_contract _ s₁ eq₂
        ∙ (lifted_ok sizing_failed _ s₂ eq₃).1 in
      subst (λ x. Opens option x (s', ok t)) (sym same)
        (
          _,
          opens,
          refl,
          refl,
          refl,
          refl,
          split.unit,
          split.positive,
          split.starter,
          ap some split.target,
        )

  enter_stock-Opens :
      (s s' : S) (t : PaperTrade F)
      → enter_stock ledger limits new_id signal decision pricing sector s ≡ (s', ok t)
      → Opens stock s (s', ok t)
  unfolding enter_stock Opens
  enter_stock-Opens s s' t h =
      let (s₁, price, eq₁, h₁) = outcome_ok (required pricing.stock_price _ s) _ h in
      let (s₂, stop, eq₂, h₂) = outcome_ok (required pricing.stock_stop_price _ s₁) _ h₁ in
      let (s₃, size, eq₃, h₃) =
        outcome_ok (lifted sizing_failed (size_stock price stop limits) s₂) _ h₂ in
      let (runner, opens, raw, split) = allocated size.quantity _ s₃ s' t h₃ in
      let same =
        required_ok pricing.stock_price _ s eq₁
        ∙ required_ok pricing.stock_stop_price _ s₁ eq₂
        ∙ (lifted_ok sizing_failed _ s₂ eq₃).1 in
      subst (λ x. Opens stock x (s', ok t)) (sym same)
        (
          _,
          opens,
          refl,
          refl,
          refl,
          refl,
          split.unit,
          split.positive,
          split.starter,
          ap some split.target,
        )

  enter-Opens :
      (instrument : InstrumentSelected) (s s' : S) (t : PaperTrade F)
      → enter instrument ledger limits new_id signal decision pricing sector s ≡ (s', ok t)
      → Opens instrument s (s', ok t)
  unfolding enter
  enter-Opens option s s' t h = enter_option-Opens s s' t h
  enter-Opens stock s s' t h = enter_stock-Opens s s' t h
  enter-Opens no_instrument s s' t h = absurd (ground arith)

  -- A trade that `process_entry` returns is the ledger's answer to one request, made on the state as it
  -- was, for the first half of a runner of four units or a multiple of it, in the instrument of a
  -- selected decision on the symbol of an entry signal.
  pub process_entry-IsStarter :
      (s s' : S) (t : PaperTrade F)
      → process_entry ledger limits new_id signal decision pricing sector s ≡ (s', ok t)
      → (q : OpenRequest F) × (ledger.open_trade new_id q s ≡ (s', ok t))
        × IsStarter signal decision q
  unfolding process_entry Opens
  process_entry-IsStarter s s' t h =
      let (action, h₁) = check_ok (not (is_entry signal.action)) _ _ s h in
      let (status, h₂) = check_ok (not (is_selected decision.status)) _ _ s h₁ in
      let (decided, h₃) = check_ok (not (signal.symbol == decision.symbol)) _ _ s h₂ in
      let (q, opens, symbol, instrument, signal_id, stage, unit, positive, quantity, target) =
        enter-Opens decision.instrument_selected s s' t h₃ in
      (
        q,
        opens,
        record {
          action = entry_of signal.action action;
          status = selected_of decision.status status;
          decided = equal_of signal.symbol decision.symbol decided;
          symbol = symbol;
          instrument = instrument;
          signal_id = signal_id;
          stage = stage;
          unit = unit;
          positive = positive;
          quantity = quantity;
          target = target;
        },
      )
