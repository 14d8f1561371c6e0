-- ===== src/Paper/Ledger.antt =====
-- src/daily_alpha/ledger.py: the append-only ledger of paper trades. The store is the two files, as
-- lists of events, oldest first; writing an event and reading it back gives the same event. `new_id`
-- stands for `uuid4()`, and times are the texts of `isoformat`.
pub mod Operations
pub mod Tracking
mod Tests
use Prim.Native.String.{String}
use text.Mathlib.Text.{◌==◌}
use daily_alpha_engine.Common.{
  Bool, true, false, not, ◌&&◌, ◌||◌, Option, none, some, List, [], ◌∷◌, ◌++◌, Result, ok, err,
  ◌>>=◌, ◌>>◌, raise_if, if◌then◌else◌, some_and,
}
use daily_alpha_engine.Common.Int.{ℤ, pos, ◌+ℤ◌, ◌-ℤ◌, ltb_ℤ, leb_ℤ, eqb_ℤ}
use daily_alpha_engine.Common.Floats.{Floats, zero_f}
use daily_alpha_engine.Common.Text.{is_empty, upper}
use daily_alpha_engine.Paper.Models.{InstrumentSelected, option, stock, no_instrument}

pub data TradeState : Type 0 where
  opened closed : TradeState

pub data EventKind : Type 0 where
  open_event add_event partial_event close_event : EventKind

pub data LedgerError : Type 0 where
  instrument_invalid quantity_or_price_invalid risk_basis_invalid target_below_quantity :
      LedgerError
  already_open not_open stage_unsupported stage_out_of_order target_exceeded : LedgerError
  exit_price_negative : LedgerError

pub record PaperTrade (F : Type 0) : Type 0 where
  pub trade_id : String
  pub signal_id : String
  pub symbol : String
  pub instrument : InstrumentSelected
  pub quantity : ℤ
  pub entry_price : F
  pub entry_time : String
  pub state : TradeState
  pub exit_price : Option F
  pub exit_time : Option String
  pub realized_pnl : Option F
  pub fallback_reason : String
  pub option_expiration : Option String
  pub option_strike : Option F
  pub option_type : Option String
  pub target_quantity : Option ℤ
  pub runner_stage : String
  pub add1_signal_id : Option String
  pub add2_signal_id : Option String
  pub harvest_signal_id : Option String
  pub sector : String
  pub initial_risk_basis : Option F

-- The price, quantity, time and stage of an ADD or a PARTIAL.
pub record Fill (F : Type 0) : Type 0 where
  pub price : F
  pub quantity : ℤ
  pub time : String
  pub stage : String

pub record Event (F : Type 0) : Type 0 where
  pub kind : EventKind
  pub signal_id : String
  pub fill : Option (Fill F)
  pub trade : PaperTrade F

pub record Store (F : Type 0) : Type 0 where
  pub option_events : List (Event F)
  pub stock_events : List (Event F)

-- The arguments of `open_trade`.
pub record OpenRequest (F : Type 0) : Type 0 where
  pub signal_id : String
  pub symbol : String
  pub instrument : InstrumentSelected
  pub quantity : ℤ
  pub entry_price : F
  pub entry_time : String
  pub fallback_reason : String
  pub option_expiration : Option String
  pub option_strike : Option F
  pub option_type : Option String
  pub target_quantity : Option ℤ
  pub runner_stage : String
  pub sector : String
  pub initial_risk_basis : Option F

unfoldable pub is_opened : TradeState → Bool
is_opened opened = true
is_opened closed = false

-- The stage that an ADD must follow.
unfoldable pub expected_prior : String → Option String
expected_prior stage =
    if stage == "ADD_1_ATR"
    then some "STARTER"
    else if stage == "ADD_2_ATR"
    then some "ADD_1_ATR"
    else none

-- `target_quantity or quantity`
unfoldable pub target_or : Option ℤ → ℤ → ℤ
target_or none quantity = quantity
target_or (some target) quantity = if eqb_ℤ target (pos 0) then quantity else target

module _ {F : Type 0} where
  -- `_path` and `_events`: every instrument but OPTION is kept in the file of the stocks.
  unfoldable pub events_of : InstrumentSelected → Store F → List (Event F)
  events_of option s = s.option_events
  events_of stock s = s.stock_events
  events_of no_instrument s = s.stock_events

  -- `_append`
  unfoldable pub append : InstrumentSelected → Event F → Store F → Store F
  append option e s = record {
    option_events = s.option_events ++ (e ∷ []);
    stock_events = s.stock_events;
  }
  append stock e s = record {
    option_events = s.option_events;
    stock_events = s.stock_events ++ (e ∷ []);
  }
  append no_instrument e s = record {
    option_events = s.option_events;
    stock_events = s.stock_events ++ (e ∷ []);
  }

  -- `open_by_id[trade.trade_id] = trade` and `open_by_id.pop(trade.trade_id, None)`.
  unfoldable pub put_trade : PaperTrade F → List (PaperTrade F) → List (PaperTrade F)
  put_trade t [] = t ∷ []
  put_trade t (x ∷ xs) =
      let rest = put_trade t xs in if x.trade_id == t.trade_id then t ∷ xs else x ∷ rest

  unfoldable pub pop_trade : PaperTrade F → List (PaperTrade F) → List (PaperTrade F)
  pop_trade t [] = []
  pop_trade t (x ∷ xs) =
      let rest = pop_trade t xs in if x.trade_id == t.trade_id then xs else x ∷ rest

  unfoldable pub apply_event : String → List (PaperTrade F) → Event F → List (PaperTrade F)
  apply_event symbol d e = if not (e.trade.symbol == upper symbol) then d else elim e.kind [
    | close_event ↦ pop_trade e.trade d
    | open_event ↦ put_trade e.trade d
    | add_event ↦ put_trade e.trade d
    | partial_event ↦ put_trade e.trade d
  ]

  unfoldable pub apply_events : String → List (PaperTrade F) → List (Event F) → List (PaperTrade F)
  apply_events symbol d [] = d
  apply_events symbol d (e ∷ es) = apply_events symbol (apply_event symbol d e) es

  unfoldable pub find_open : String → Option InstrumentSelected → Store F → List (PaperTrade F)
  find_open symbol (some instrument) s = apply_events symbol [] (events_of instrument s)
  find_open symbol none s =
      apply_events symbol (apply_events symbol [] (events_of option s)) (events_of stock s)
