-- ===== src/Lifecycle.antt =====
-- src/daily_alpha/lifecycle.py: the states of a trade, its plan and its history of events. `M` is the
-- type of the metadata values; `now` stands for `datetime.now(UTC).isoformat()`.

pub mod Manage
pub mod History
pub mod Exits
use Prim.Native.String.{String}
use daily_alpha_engine.Common.{
  ℕ, ◌+◌, Bool, true, false, not, ◌&&◌, ◌||◌, Option, none, some, List, [], ◌∷◌, ◌++◌, Result, ok,
  err, ◌>>=◌, ◌>>◌, raise_if, if◌then◌else◌, is_some, some_and, length,
}
use daily_alpha_engine.Common.Int.{ℤ, pos, ltb_ℤ, leb_ℤ}
use daily_alpha_engine.Common.Floats.{Floats, zero_f, min_f}
use daily_alpha_engine.Common.Text.{is_empty}
use text.Mathlib.Text.{◌==◌}
use daily_alpha_engine.Paper.Models.{InstrumentSelected, option, stock, no_instrument}

pub data TradeState : Type 0 where
  proposed approved entered managed exited reviewed rejected cancelled data_error : TradeState

pub data LifecycleError : Type 0 where
  ids_required instrument_required prices_not_positive prices_not_ordered : LifecycleError
  controls_invalid expiration_required scale_out_not_above_entry : LifecycleError
  scale_out_fraction_out_of_range trailing_stop_out_of_range averaging_down : LifecycleError
  no_events actor_required reason_required : LifecycleError
  invalid_transition : TradeState → TradeState → LifecycleError
  not_open invalid_observation : LifecycleError

-- Membership in `ALLOWED_TRANSITIONS`: from the first state to the second.
unfoldable pub is_allowed : TradeState → TradeState → Bool
is_allowed proposed approved = true
is_allowed proposed rejected = true
is_allowed proposed cancelled = true
is_allowed proposed data_error = true
is_allowed proposed _ = false
is_allowed approved entered = true
is_allowed approved cancelled = true
is_allowed approved data_error = true
is_allowed approved _ = false
is_allowed entered managed = true
is_allowed entered exited = true
is_allowed entered _ = false
is_allowed managed managed = true
is_allowed managed exited = true
is_allowed managed _ = false
is_allowed exited reviewed = true
is_allowed exited _ = false
is_allowed reviewed _ = false
is_allowed rejected reviewed = true
is_allowed rejected _ = false
is_allowed cancelled reviewed = true
is_allowed cancelled _ = false
is_allowed data_error reviewed = true
is_allowed data_error _ = false

pub record TradePlan (F : Type 0) : Type 0 where
  pub trade_id : String
  pub symbol : String
  pub instrument : InstrumentSelected
  pub entry_price : F
  pub stop_price : F
  pub target_price : F
  pub max_holding_days : ℤ
  pub option_expiration : Option String
  pub minimum_exit_dte : ℤ
  pub scale_out_price : Option F
  pub scale_out_fraction : F
  pub trailing_stop_percent : Option F
  pub allow_averaging_down : Bool

-- `f"{trade_id}:{sequence}"`, kept as its two parts.
pub record EventId : Type 0 where
  pub of_trade : String
  pub number : ℕ

pub record TradeEvent (M : Type 0) : Type 0 where
  pub event_id : EventId
  pub trade_id : String
  pub sequence : ℕ
  pub previous_state : Option TradeState
  pub state : TradeState
  pub reason : String
  pub occurred_at : String
  pub metadata : List (String × M)
  pub actor : String
  pub idempotency_key : Option String

pub record TradeRecord (F M : Type 0) : Type 0 where
  pub plan : TradePlan F
  pub events : List (TradeEvent M)

-- The arguments of `transition`.
pub record Request (M : Type 0) : Type 0 where
  pub new_state : TradeState
  pub reason : String
  pub occurred_at : Option String
  pub metadata : List (String × M)
  pub actor : String
  pub idempotency_key : Option String

abbrev pub is_option : InstrumentSelected → Bool
is_option option = true
is_option stock = false
is_option no_instrument = false

abbrev pub is_no_instrument : InstrumentSelected → Bool
is_no_instrument option = false
is_no_instrument stock = false
is_no_instrument no_instrument = true

-- `text or default`
abbrev pub or_default : Option String → String → String
or_default none d = d
or_default (some s) d = if is_empty s then d else s

-- `not text`, for a text that may be `None`.
abbrev is_missing : Option String → Bool
is_missing none = true
is_missing (some s) = is_empty s

module _ {F : Type 0} ⦃fl : Floats F⦄ where
  abbrev is_within_unit : F → Bool
  is_within_unit x = fl.lt zero_f x && fl.lt x (fl.dec 1 0)

  -- `TradePlan.__post_init__`
  unfoldable pub check_plan : TradePlan F → Result LifecycleError (Unit {0})
  check_plan p = do
    raise_if (is_empty p.trade_id || is_empty p.symbol) ids_required
    raise_if (is_no_instrument p.instrument) instrument_required
    raise_if (fl.le (min_f (min_f p.entry_price p.stop_price) p.target_price) zero_f)
        prices_not_positive
    raise_if (not (fl.lt p.stop_price p.entry_price && fl.lt p.entry_price p.target_price))
        prices_not_ordered
    raise_if (leb_ℤ p.max_holding_days (pos 0) || ltb_ℤ p.minimum_exit_dte (pos 0)) controls_invalid
    raise_if (is_option p.instrument && is_missing p.option_expiration) expiration_required
    raise_if (some_and p.scale_out_price (λ x. fl.le x p.entry_price)) scale_out_not_above_entry
    raise_if (not (is_within_unit p.scale_out_fraction)) scale_out_fraction_out_of_range
    raise_if (some_and p.trailing_stop_percent (λ x. not (is_within_unit x)))
        trailing_stop_out_of_range
    raise_if p.allow_averaging_down averaging_down
    ok tt

module _ {M : Type 0} where
  -- The state of the last event, after `s`.
  unfoldable pub last_state : Option TradeState → List (TradeEvent M) → Option TradeState
  last_state s [] = s
  last_state s (e ∷ es) = last_state (some e.state) es

  -- Is there an event with this key?
  unfoldable pub has_key : String → List (TradeEvent M) → Bool
  has_key k [] = false
  has_key k (e ∷ es) = some_and e.idempotency_key (λ x. x == k) || has_key k es

module _ {F M : Type 0} where
  -- `TradeRecord.state`; `events[-1]` raises on an empty tuple.
  unfoldable pub state_of : TradeRecord F M → Result LifecycleError TradeState
  state_of r = elim (last_state none r.events) [ none ↦ err no_events | some s ↦ ok s ]

  unfoldable pub create : String → TradePlan F → Option String → TradeRecord F M
  create now plan occurred_at = record {
    plan = plan;
    events =
        record {
          event_id = record { of_trade = plan.trade_id; number = 1 };
          trade_id = plan.trade_id;
          sequence = 1;
          previous_state = none;
          state = proposed;
          reason = "TRADE_PROPOSED";
          occurred_at = or_default occurred_at now;
          metadata = [];
          actor = "SYSTEM";
          idempotency_key = none;
        }
        ∷ [];
  }

  unfoldable pub event_of : String → TradeRecord F M → TradeState → Request M → TradeEvent M
  event_of now r current q =
      let sequence = length r.events + 1 in
      record {
        event_id = record { of_trade = r.plan.trade_id; number = sequence };
        trade_id = r.plan.trade_id;
        sequence = sequence;
        previous_state = some current;
        state = q.new_state;
        reason = q.reason;
        occurred_at = or_default q.occurred_at now;
        metadata = q.metadata;
        actor = q.actor;
        idempotency_key = q.idempotency_key;
      }

  -- The part of `transition` that is reached when the key is new.
  unfoldable pub append_event :
      String → TradeRecord F M → Request M → Result LifecycleError (TradeRecord F M)
  append_event now r q = do
    current ← state_of r
    raise_if (not (is_allowed current q.new_state)) (invalid_transition current q.new_state)
    raise_if (is_empty q.reason) reason_required
    ok (record { plan = r.plan; events = r.events ++ (event_of now r current q ∷ []) })

  unfoldable pub transition :
      String → TradeRecord F M → Request M → Result LifecycleError (TradeRecord F M)
  transition now r q = do
    raise_if (is_empty q.actor) actor_required
    if some_and q.idempotency_key (λ k. has_key k r.events) then ok r else append_event now r q
