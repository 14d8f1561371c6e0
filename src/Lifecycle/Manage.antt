-- ===== src/Lifecycle/Manage.antt =====
-- src/daily_alpha/lifecycle.py: what to do with an open trade on a market observation.
use Prim.Native.String.{String}
use daily_alpha_engine.Common.{
  Bool, true, false, not, ◌&&◌, ◌||◌, Option, none, some, Result, ok, ◌>>=◌, ◌>>◌, raise_if,
  if◌then◌else◌, some_and,
}
use daily_alpha_engine.Common.Int.{ℤ, pos, ltb_ℤ, leb_ℤ}
use daily_alpha_engine.Common.Floats.{Floats, zero_f}
use daily_alpha_engine.Lifecycle.{
  TradeState, proposed, approved, entered, managed, exited, reviewed, rejected, cancelled,
  data_error, LifecycleError, not_open, invalid_observation, TradePlan, TradeRecord, is_option,
  state_of,
}

pub data ExitReason : Type 0 where
  stop target time_stop pine_exit turtle_exit expiration_risk assignment_risk : ExitReason
  manual_paper_exit trailing_stop gap_stop exercise_risk : ExitReason

pub data ManagementAction : Type 0 where
  hold exit alert feed_error scale_out : ManagementAction

pub record MarketObservation (F : Type 0) : Type 0 where
  pub price : F
  pub days_held : ℤ
  pub pine_exits : Bool
  pub turtle_exits : Bool
  pub option_dte : Option ℤ
  pub assignment : Bool
  pub corporate_action : Bool
  pub feed_failed : Bool
  pub stale_quote : Bool
  pub halted : Bool
  pub gap_below_stop : Bool
  pub exercise : Bool
  pub earnings_within_days : Option ℤ
  pub ex_dividend_within_days : Option ℤ
  pub high_water_mark : Option F
  pub attempted_add_below_entry : Bool

pub record ManagementDecision (F : Type 0) : Type 0 where
  pub action : ManagementAction
  pub reason : String
  pub exit_reason : Option ExitReason
  pub size_fraction : Option F

-- `state in {ENTERED, MANAGED}`
unfoldable pub is_open : TradeState → Bool
is_open proposed = false
is_open approved = false
is_open entered = true
is_open managed = true
is_open exited = false
is_open reviewed = false
is_open rejected = false
is_open cancelled = false
is_open data_error = false

module _ {F : Type 0} where
  abbrev pub exit_for : String → ExitReason → ManagementDecision F
  exit_for why e = record {
    action = exit;
    reason = why;
    exit_reason = some e;
    size_fraction = none;
  }

  abbrev pub report : ManagementAction → String → ManagementDecision F
  report a why = record { action = a; reason = why; exit_reason = none; size_fraction = none }

module _ {F : Type 0} ⦃fl : Floats F⦄ where
  -- `price <= high_water_mark * (1 - trailing_stop_percent)`, when both are given.
  unfoldable pub is_below_trail : TradePlan F → MarketObservation F → Bool
  is_below_trail p o = some_and p.trailing_stop_percent (λ percent.
      some_and o.high_water_mark
        (λ high. fl.le o.price (fl.mul high (fl.sub (fl.dec 1 0) percent))))

  unfoldable pub is_expiring : TradePlan F → MarketObservation F → Bool
  is_expiring p o =
      is_option p.instrument && some_and o.option_dte (λ dte. leb_ℤ dte p.minimum_exit_dte)

  -- The tests after the checks of the trade's state and of the numbers.
  unfoldable pub decide : TradePlan F → MarketObservation F → ManagementDecision F
  decide p o =
      if o.feed_failed || o.stale_quote
      then report feed_error "MARKET_DATA_ERROR"
      else if o.halted
      then report alert "TRADING_HALT"
      else if o.attempted_add_below_entry
      then report alert "AVERAGING_DOWN_PROHIBITED"
      else if o.exercise && is_option p.instrument
      then exit_for "OPTION_EXERCISE_RISK" exercise_risk
      else if o.assignment && is_option p.instrument
      then exit_for "OPTION_ASSIGNMENT_RISK" assignment_risk
      else if is_expiring p o
      then exit_for "OPTION_EXPIRATION_WINDOW" expiration_risk
      else if o.gap_below_stop
      then exit_for "GAP_BELOW_STOP" gap_stop
      else if fl.le o.price p.stop_price
      then exit_for "STOP_REACHED" stop
      else if is_below_trail p o
      then exit_for "TRAILING_STOP" trailing_stop
      else if some_and p.scale_out_price (λ x. fl.le x o.price)
      then record {
        action = scale_out;
        reason = "SCALE_OUT_TARGET";
        exit_reason = none;
        size_fraction = some p.scale_out_fraction;
      }
      else if fl.le p.target_price o.price
      then exit_for "TARGET_REACHED" target
      else if o.pine_exits
      then exit_for "PINE_EXIT" pine_exit
      else if o.turtle_exits
      then exit_for "TURTLE_EXIT" turtle_exit
      else if leb_ℤ p.max_holding_days o.days_held
      then exit_for "TIME_STOP" time_stop
      else if some_and o.earnings_within_days (λ n. leb_ℤ n (pos 2))
      then report alert "EARNINGS_REVIEW"
      else if some_and o.ex_dividend_within_days (λ n. leb_ℤ n (pos 2))
      then report alert "DIVIDEND_REVIEW"
      else if o.corporate_action
      then report alert "CORPORATE_ACTION_REVIEW"
      else report hold "NO_EXIT_TRIGGER"

  unfoldable pub evaluate_management :
      {M : Type 0}
      → TradeRecord F M
      → MarketObservation F
      → Result LifecycleError (ManagementDecision F)
  evaluate_management r o = do
    current ← state_of r
    raise_if (not (is_open current)) not_open
    raise_if (fl.le o.price zero_f || ltb_ℤ o.days_held (pos 0)) invalid_observation
    ok (decide r.plan o)
