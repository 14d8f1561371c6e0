-- ===== src/Paper/Ledger/Operations.antt =====
-- src/daily_alpha/ledger.py: the operations that append to the ledger. A store is passed on with the
-- trade that the call returns; a call that raises writes nothing.
use Prim.Native.String.{String}
use text.Mathlib.Text.{◌==◌}
use daily_alpha_engine.Common.{
  Bool, true, false, not, ◌||◌, Option, none, some, List, [], ◌∷◌, Result, ok, err, ◌>>=◌, ◌>>◌,
  raise_if, if◌then◌else◌, some_and,
}
use daily_alpha_engine.Common.Int.{ℤ, pos, ◌+ℤ◌, ◌-ℤ◌, ltb_ℤ, leb_ℤ}
use daily_alpha_engine.Common.Floats.{Floats, zero_f}
use daily_alpha_engine.Common.Text.{is_empty, upper}
use daily_alpha_engine.Paper.Models.{InstrumentSelected, option, stock, no_instrument}
use daily_alpha_engine.Paper.Ledger.{
  opened, closed, open_event, add_event, partial_event, close_event, LedgerError,
  instrument_invalid, quantity_or_price_invalid, risk_basis_invalid, target_below_quantity,
  already_open, not_open, stage_unsupported, stage_out_of_order, target_exceeded,
  exit_price_negative, PaperTrade, Fill, Store, OpenRequest, is_opened, append, find_open,
  target_or, expected_prior,
}

abbrev pub is_no_instrument : InstrumentSelected → Bool
is_no_instrument option = false
is_no_instrument stock = false
is_no_instrument no_instrument = true

-- `signal_id or trade.signal_id`
abbrev pub signal_or : Option String → String → String
signal_or none d = d
signal_or (some x) d = if is_empty x then d else x

module _ {F : Type 0} where
  abbrev pub is_nil : List (PaperTrade F) → Bool
  is_nil [] = true
  is_nil (_ ∷ _) = false

  unfoldable pub opened_trade : String → OpenRequest F → PaperTrade F
  opened_trade new_id q = record {
    trade_id = new_id;
    signal_id = q.signal_id;
    symbol = upper q.symbol;
    instrument = q.instrument;
    quantity = q.quantity;
    entry_price = q.entry_price;
    entry_time = q.entry_time;
    state = opened;
    exit_price = none;
    exit_time = none;
    realized_pnl = none;
    fallback_reason = q.fallback_reason;
    option_expiration = q.option_expiration;
    option_strike = q.option_strike;
    option_type = q.option_type;
    target_quantity = some (target_or q.target_quantity q.quantity);
    runner_stage = q.runner_stage;
    add1_signal_id = none;
    add2_signal_id = none;
    harvest_signal_id = none;
    sector = q.sector;
    initial_risk_basis = q.initial_risk_basis;
  }

module _ {F : Type 0} ⦃fl : Floats F⦄ where
  unfoldable pub open_trade :
      String → OpenRequest F → Store F → Result LedgerError (Store F × PaperTrade F)
  open_trade new_id q s = do
    raise_if (is_no_instrument q.instrument) instrument_invalid
    raise_if (leb_ℤ q.quantity (pos 0) || fl.le q.entry_price zero_f) quantity_or_price_invalid
    raise_if (some_and q.initial_risk_basis (λ basis. fl.le basis zero_f)) risk_basis_invalid
    raise_if (ltb_ℤ (target_or q.target_quantity q.quantity) q.quantity) target_below_quantity
    raise_if (not (is_nil (find_open q.symbol (some q.instrument) s))) already_open
    ok (
      append q.instrument
          (record {
            kind = open_event;
            signal_id = q.signal_id;
            fill = none;
            trade = opened_trade new_id q;
          })
          s,
      opened_trade new_id q,
    )

  unfoldable pub added_trade : PaperTrade F → String → Fill F → PaperTrade F
  added_trade t signal_id f =
      let first = f.stage == "ADD_1_ATR" in
      let weighted =
        fl.div
          (fl.add (fl.mul t.entry_price (fl.of_int t.quantity))
            (fl.mul f.price (fl.of_int f.quantity)))
          (fl.of_int (t.quantity +ℤ f.quantity)) in
      record t {
        quantity = t.quantity +ℤ f.quantity;
        entry_price = fl.round weighted 8;
        runner_stage = f.stage;
        add1_signal_id = if first then some signal_id else t.add1_signal_id;
        add2_signal_id = if first then t.add2_signal_id else some signal_id;
      }

  -- The part of `add_trade` behind the test for a signal that was seen.
  unfoldable pub add_fresh :
      PaperTrade F → String → Fill F → Store F → Result LedgerError (Store F × PaperTrade F)
  add_fresh t signal_id f s = do
    raise_if (leb_ℤ f.quantity (pos 0) || fl.le f.price zero_f) quantity_or_price_invalid
    prior ← elim (expected_prior f.stage) [ none ↦ err stage_unsupported | some x ↦ ok x ]
    raise_if (not (t.runner_stage == prior)) stage_out_of_order
    raise_if (ltb_ℤ (target_or t.target_quantity t.quantity) (t.quantity +ℤ f.quantity))
        target_exceeded
    ok (
      append t.instrument
          (record {
            kind = add_event;
            signal_id = signal_id;
            fill = some f;
            trade = added_trade t signal_id f;
          })
          s,
      added_trade t signal_id f,
    )

  unfoldable pub add_trade :
      PaperTrade F → String → Fill F → Store F → Result LedgerError (Store F × PaperTrade F)
  add_trade t signal_id f s = do
    raise_if (not (is_opened t.state)) not_open
    if some_and t.add1_signal_id (λ x. x == signal_id)
          || some_and t.add2_signal_id (λ x. x == signal_id)
        then ok (s, t)
        else add_fresh t signal_id f s

  -- `100 if OPTION else 1`
  unfoldable pub multiplier_of : InstrumentSelected → F
  multiplier_of option = fl.dec 100 0
  multiplier_of stock = fl.dec 1 0
  multiplier_of no_instrument = fl.dec 1 0

  -- `(trade.realized_pnl or 0.0) + (price - entry_price) * quantity * multiplier`
  unfoldable pub cumulative_pnl : PaperTrade F → F → ℤ → F
  cumulative_pnl t price quantity =
      fl.add (elim t.realized_pnl [ none ↦ zero_f | some x ↦ if fl.eq x zero_f then zero_f else x ])
        (fl.mul (fl.mul (fl.sub price t.entry_price) (fl.of_int quantity))
          (multiplier_of t.instrument))

  unfoldable pub reduced_trade : PaperTrade F → String → Fill F → PaperTrade F
  reduced_trade t signal_id f = record t {
    quantity = t.quantity -ℤ f.quantity;
    runner_stage = f.stage;
    harvest_signal_id = some signal_id;
    realized_pnl = some (fl.round (cumulative_pnl t f.price f.quantity) 2);
  }

  -- The part of `partial_trade` behind the test for a signal that was seen.
  unfoldable pub partial_fresh :
      PaperTrade F → String → Fill F → Store F → Result LedgerError (Store F × PaperTrade F)
  partial_fresh t signal_id f s = do
    raise_if (not (f.stage == "HARVEST_3_ATR")) stage_unsupported
    raise_if (not (t.runner_stage == "ADD_2_ATR")) stage_out_of_order
    raise_if (leb_ℤ f.quantity (pos 0) || leb_ℤ t.quantity f.quantity || fl.lt f.price zero_f)
        quantity_or_price_invalid
    ok (
      append t.instrument
          (record {
            kind = partial_event;
            signal_id = signal_id;
            fill = some f;
            trade = reduced_trade t signal_id f;
          })
          s,
      reduced_trade t signal_id f,
    )

  unfoldable pub partial_trade :
      PaperTrade F → String → Fill F → Store F → Result LedgerError (Store F × PaperTrade F)
  partial_trade t signal_id f s = do
    raise_if (not (is_opened t.state)) not_open
    if some_and t.harvest_signal_id (λ x. x == signal_id)
        then ok (s, t)
        else partial_fresh t signal_id f s

  unfoldable pub closed_trade : PaperTrade F → F → String → PaperTrade F
  closed_trade t exit_price exit_time = record t {
    state = closed;
    exit_price = some exit_price;
    exit_time = some exit_time;
    realized_pnl = some (fl.round (cumulative_pnl t exit_price t.quantity) 2);
  }

  unfoldable pub close_trade :
      PaperTrade F
      → F
      → String
      → Option String
      → Store F
      → Result LedgerError (Store F × PaperTrade F)
  close_trade t exit_price exit_time signal_id s = do
    raise_if (not (is_opened t.state)) not_open
    raise_if (fl.lt exit_price zero_f) exit_price_negative
    ok (
      append t.instrument
          (record {
            kind = close_event;
            signal_id = signal_or signal_id t.signal_id;
            fill = none;
            trade = closed_trade t exit_price exit_time;
          })
          s,
      closed_trade t exit_price exit_time,
    )
