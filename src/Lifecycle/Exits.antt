-- ===== src/Lifecycle/Exits.antt =====
-- What `evaluate_management` guarantees of an open trade.
use daily_alpha_engine.Common.{
  ◌≡◌, ◌≢◌, ◌⊎◌, Bool, true, false, ◌&&◌, ◌||◌, not, none, some_and, is_some, ok, arith,
}
use daily_alpha_engine.Common.Int.{pos, leb_ℤ, ltb_ℤ}
use daily_alpha_engine.Common.Floats.{Floats, zero_f}
use daily_alpha_engine.Lifecycle.{TradePlan, TradeRecord, TradeState, is_option, state_of}
use daily_alpha_engine.Lifecycle.Manage.{
  MarketObservation, ManagementDecision, hold, exit, alert, feed_error, is_open, is_below_trail,
  is_expiring, decide, evaluate_management,
}

module _ {F : Type 0} ⦃fl : Floats F⦄ where
  -- The quote can be relied on and the trade is neither halted nor being averaged down.
  pub is_tradable : MarketObservation F → Bool
  is_tradable o =
      not (o.feed_failed || o.stale_quote) && not o.halted && not o.attempted_add_below_entry

  -- Some rule asks to leave the trade, whatever the price has reached above.
  pub is_protective : TradePlan F → MarketObservation F → Bool
  is_protective p o =
      (is_option p.instrument && (o.exercise || o.assignment))
      || is_expiring p o
      || o.gap_below_stop
      || fl.le o.price p.stop_price
      || is_below_trail p o

  -- Some rule that only a healthy trade reaches applies: a target, a signal, the clock, or a review.
  pub is_due : TradePlan F → MarketObservation F → Bool
  is_due p o =
      some_and p.scale_out_price (λ x. fl.le x o.price)
      || fl.le p.target_price o.price
      || o.pine_exits
      || o.turtle_exits
      || leb_ℤ p.max_holding_days o.days_held
      || some_and o.earnings_within_days (λ n. leb_ℤ n (pos 2))
      || some_and o.ex_dividend_within_days (λ n. leb_ℤ n (pos 2))
      || o.corporate_action

  -- The order of precedence: what cannot be traded on is reported and never sold, then every protective
  -- rule exits the whole position with a reason, and only then do the other rules count.
  pub IsPrudent : TradePlan F → MarketObservation F → ManagementDecision F → Type 0
  IsPrudent p o d =
      (is_tradable o ≡ false)
        × ((d.action ≡ alert) ⊎ (d.action ≡ feed_error))
        × (d.exit_reason ≡ none)
      ⊎ (is_tradable o && is_protective p o ≡ true)
        × (d.action ≡ exit)
        × (is_some d.exit_reason ≡ true)
        × (d.size_fraction ≡ none)
      ⊎ (is_tradable o && not (is_protective p o) && is_due p o ≡ true) × (d.action ≢ hold)
      ⊎ (is_tradable o && not (is_protective p o) && not (is_due p o) ≡ true) × (d.action ≡ hold)

  decide-IsPrudent : (p : TradePlan F) (o : MarketObservation F) → IsPrudent p o (decide p o)
  unfolding is_tradable is_protective is_due decide IsPrudent
  decide-IsPrudent p o = ground arith

  -- An open trade with a positive price and a day count that is not negative always gets a decision,
  -- and the decision respects the precedence: no decision to sell on data that failed, no protective
  -- exit that a profit target or a signal hides, and a hold only when no rule at all applies.
  pub evaluate_management-IsPrudent :
      {M : Type 0} (r : TradeRecord F M) (o : MarketObservation F) (s : TradeState)
      → state_of r ≡ ok s
      → is_open s ≡ true
      → fl.le o.price zero_f ≡ false
      → ltb_ℤ o.days_held (pos 0) ≡ false
      → (d : ManagementDecision F) × (evaluate_management r o ≡ ok d) × IsPrudent r.plan o d
  unfolding evaluate_management
  evaluate_management-IsPrudent r o s hs ho hp hd =
      (decide r.plan o, ground arith, decide-IsPrudent r.plan o)
