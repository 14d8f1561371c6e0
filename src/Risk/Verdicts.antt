-- ===== src/Risk/Verdicts.antt =====
-- What an approval by the risk gate means.
use daily_alpha_engine.Common.{
  ◌≡◌, refl, sym, ap, ◌∙◌, Bool, true, false, not, ◌&&◌, List, [], ◌∷◌, ◌++◌, if◌then◌else◌,
}
use daily_alpha_engine.Common.Int.{leb_ℤ}
use daily_alpha_engine.Common.Floats.{Floats, zero_f}
use daily_alpha_engine.Portfolio.{PortfolioSnapshot, blocks_new_risk, net_liquidating_value}
use daily_alpha_engine.Risk.{
  RiskReason, RiskPolicy, PortfolioRiskState, ProposedTradeRisk, is_nil, is_score, apply_limits,
  reasons_of, failing, checks_of, first_checks, risk_for_cluster, risk_for_sector, evaluate,
}

-- The flag holds and no check of the table fails.
and_none_fails : Bool → List (Bool × RiskReason) → Bool
and_none_fails b [] = b
and_none_fails b ((failed, _) ∷ rest) = and_none_fails (b && not failed) rest

none_fails : List (Bool × RiskReason) → Bool
none_fails [] = true
none_fails ((failed, _) ∷ rest) = and_none_fails (not failed) rest

and_none_fails-false : (cs : List (Bool × RiskReason)) → and_none_fails false cs ≡ false
unfolding and_none_fails
and_none_fails-false [] = refl
and_none_fails-false ((_, _) ∷ rest) = and_none_fails-false rest

failing-and_none :
    (b : Bool) (cs : List (Bool × RiskReason)) → (b && is_nil (failing cs)) ≡ and_none_fails b cs
unfolding failing and_none_fails
failing-and_none false cs = sym (and_none_fails-false cs)
failing-and_none true [] = refl
failing-and_none true ((true, _) ∷ rest) = sym (and_none_fails-false rest)
failing-and_none true ((false, _) ∷ rest) = failing-and_none true rest

failing-none : (cs : List (Bool × RiskReason)) → is_nil (failing cs) ≡ none_fails cs
unfolding failing none_fails
failing-none [] = refl
failing-none ((true, _) ∷ rest) = sym (and_none_fails-false rest)
failing-none ((false, _) ∷ rest) = failing-and_none true rest

is_nil-append : (xs ys : List RiskReason) → is_nil (xs ++ ys) ≡ is_nil xs && is_nil ys
is_nil-append [] ys = refl
is_nil-append (x ∷ xs) ys = refl

-- The limits, which count only behind a test.
nil_if :
    (b : Bool) (rest : List RiskReason) (c : Bool)
    → is_nil rest ≡ c
    → is_nil (if b then rest else []) ≡ (if b then c else true)
nil_if true rest c h = h
nil_if false rest c h = refl

module _ {F : Type 0} ⦃fl : Floats F⦄ where
  -- The limits of the policy, each with the trade's own loss already added.
  pub is_within : RiskPolicy F → F → PortfolioRiskState F → ProposedTradeRisk F → Bool
  is_within p nav s t =
      let part : F → F = λ x. fl.div x nav in
      let with_loss : F → F = λ x. fl.div (fl.add x t.planned_loss) nav in
      not (fl.lt p.max_position_loss_nav (part t.planned_loss))
      && not (fl.lt p.max_daily_new_risk_nav (with_loss s.daily_new_risk))
      && not (leb_ℤ p.max_new_positions_per_day s.new_positions_today)
      && not (fl.le p.daily_loss_lockout_nav (part s.daily_loss))
      && not (fl.le p.weekly_drawdown_pause_nav (part s.weekly_drawdown))
      && not (fl.le p.rolling_drawdown_review_nav (part s.rolling_drawdown))
      && not (fl.lt p.max_cluster_risk_nav (with_loss (risk_for_cluster s t.cluster_id)))
      && not (fl.lt p.max_sector_risk_nav (with_loss (risk_for_sector s t.sector)))
      && not (fl.lt p.max_total_risk_nav (with_loss s.total_risk))
      && not (
          fl.lt p.max_abs_beta_exposure_nav
            (part (fl.abs (fl.add s.beta_exposure t.beta_exposure))))
      && not (
          fl.lt p.max_abs_delta_exposure_nav
            (part (fl.abs (fl.add s.delta_exposure t.delta_exposure))))
      && not (p.block_event_risk && t.event_risk)
      && not (fl.lt t.liquidity_score p.min_liquidity_score)

  apply_limits-is_within :
      (p : RiskPolicy F) (nav : F) (s : PortfolioRiskState F) (t : ProposedTradeRisk F)
      → is_nil (apply_limits p nav s t) ≡ is_within p nav s t
  unfolding apply_limits checks_of is_within none_fails and_none_fails
  apply_limits-is_within p nav s t = failing-none (checks_of p nav s t)

  -- A trade is approved exactly when the portfolio data is complete and reconciled, neither the net
  -- value nor the planned loss is at or below zero, the liquidity score is in its range, and, if the
  -- net value compares above zero, every limit of the policy is kept. A net value that is not a
  -- number is neither at or below zero nor above it, and then no limit is looked at.
  pub evaluate-approves :
      (p : RiskPolicy F) (snapshot : PortfolioSnapshot F) (s : PortfolioRiskState F)
      (t : ProposedTradeRisk F)
      → let nav = net_liquidating_value snapshot in
        (evaluate p snapshot s t).is_approved
        ≡ not (blocks_new_risk snapshot)
          && not (fl.le nav zero_f)
          && not (fl.le t.planned_loss zero_f)
          && not (not (is_score t.liquidity_score))
          && (if fl.lt zero_f nav then is_within p nav s t else true)
  unfolding evaluate reasons_of first_checks none_fails and_none_fails
  evaluate-approves p snapshot s t =
      let nav = net_liquidating_value snapshot in
      let limits = apply_limits p nav s t in
      let first = first_checks snapshot nav t in
      is_nil-append (failing first) (if fl.lt zero_f nav then limits else [])
      ∙ ap (λ b. b && is_nil (if fl.lt zero_f nav then limits else [])) (failing-none first)
      ∙ ap (λ b. none_fails first && b)
          (nil_if (fl.lt zero_f nav) limits (is_within p nav s t)
            (apply_limits-is_within p nav s t))
