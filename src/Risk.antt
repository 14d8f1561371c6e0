-- ===== src/Risk.antt =====
-- src/daily_alpha/risk.py: the gate that a proposed trade passes or not.
pub mod Verdicts
use Prim.Native.String.{String}
use text.Mathlib.Text
use daily_alpha_engine.Portfolio.{PortfolioSnapshot, blocks_new_risk, net_liquidating_value}
use daily_alpha_engine.Common.{
  ℕ, ◌==◌, Bool, true, false, not, ◌&&◌, ◌||◌, Option, none, some, List, [], ◌∷◌, ◌++◌, map, Result,
  ok, err, ◌>>=◌, ◌>>◌, raise_if, if◌then◌else◌, when,
}
use daily_alpha_engine.Common.Int.{ℤ, pos, ltb_ℤ, leb_ℤ}
use daily_alpha_engine.Common.Floats.{Floats, zero_f}
use daily_alpha_engine.Common.Text.{is_empty}

pub data RiskError : Type 0 where
  version_required limit_not_positive count_not_positive score_out_of_range : RiskError
  state_negative exposure_negative : RiskError

pub data RiskReason : Type 0 where
  approved portfolio_data_blocked invalid_nav invalid_planned_loss : RiskReason
  position_risk_limit daily_new_risk_limit daily_position_limit daily_loss_lockout : RiskReason
  weekly_drawdown_pause rolling_drawdown_review cluster_risk_limit sector_risk_limit : RiskReason
  beta_exposure_limit delta_exposure_limit event_risk_blocked liquidity_limit : RiskReason
  total_risk_limit : RiskReason

pub record RiskPolicy (F : Type 0) : Type 0 where
  pub version : String
  pub max_position_loss_nav : F
  pub max_daily_new_risk_nav : F
  pub max_new_positions_per_day : ℤ
  pub daily_loss_lockout_nav : F
  pub weekly_drawdown_pause_nav : F
  pub rolling_drawdown_review_nav : F
  pub max_cluster_risk_nav : F
  pub max_sector_risk_nav : F
  pub max_total_risk_nav : F
  pub max_abs_beta_exposure_nav : F
  pub max_abs_delta_exposure_nav : F
  pub min_liquidity_score : F
  pub block_event_risk : Bool

pub record PortfolioRiskState (F : Type 0) : Type 0 where
  pub daily_new_risk : F
  pub new_positions_today : ℤ
  pub daily_loss : F
  pub weekly_drawdown : F
  pub rolling_drawdown : F
  pub total_risk : F
  pub beta_exposure : F
  pub delta_exposure : F
  pub cluster_risk : List (String × F)
  pub sector_risk : List (String × F)

pub record ProposedTradeRisk (F : Type 0) : Type 0 where
  pub decision_id : String
  pub symbol : String
  pub planned_loss : F
  pub cluster_id : String
  pub sector : String
  pub beta_exposure : F
  pub delta_exposure : F
  pub event_risk : Bool
  pub liquidity_score : F

-- `risk_snapshot` is the pair of the state and the proposal.
pub record RiskDecision (F : Type 0) : Type 0 where
  pub is_approved : Bool
  pub reasons : List RiskReason
  pub decision_id : String
  pub symbol : String
  pub snapshot_id : String
  pub policy_version : String
  pub nav : F
  pub planned_loss : F
  pub planned_loss_nav : F
  pub risk_snapshot : PortfolioRiskState F × ProposedTradeRisk F

-- Equality of the reasons, by their place in the source's list.
abbrev code_of : RiskReason → ℕ
code_of approved = 0
code_of portfolio_data_blocked = 1
code_of invalid_nav = 2
code_of invalid_planned_loss = 3
code_of position_risk_limit = 4
code_of daily_new_risk_limit = 5
code_of daily_position_limit = 6
code_of daily_loss_lockout = 7
code_of weekly_drawdown_pause = 8
code_of rolling_drawdown_review = 9
code_of cluster_risk_limit = 10
code_of sector_risk_limit = 11
code_of beta_exposure_limit = 12
code_of delta_exposure_limit = 13
code_of event_risk_blocked = 14
code_of liquidity_limit = 15
code_of total_risk_limit = 16

unfoldable pub is_same_reason : RiskReason → RiskReason → Bool
is_same_reason a b = code_of a == code_of b

unfoldable pub has_reason : RiskReason → List RiskReason → Bool
has_reason a [] = false
has_reason a (b ∷ bs) = is_same_reason a b || has_reason a bs

-- `dict.fromkeys`: the first of each, in order; `seen` holds those passed already.
unfoldable pub from_keys : List RiskReason → List RiskReason → List RiskReason
from_keys seen [] = []
from_keys seen (a ∷ rest) =
    let with_it = from_keys (a ∷ seen) rest in
    let without = from_keys seen rest in if has_reason a seen then without else a ∷ with_it

-- `[reason for failed, reason in checks if failed]`
unfoldable pub failing : List (Bool × RiskReason) → List RiskReason
failing [] = []
failing ((failed, reason) ∷ rest) =
    let others = failing rest in if failed then reason ∷ others else others

abbrev pub or_approved : List RiskReason → List RiskReason
or_approved [] = approved ∷ []
or_approved (a ∷ rest) = from_keys [] (a ∷ rest)

abbrev pub is_nil : List RiskReason → Bool
is_nil [] = true
is_nil (_ ∷ _) = false

abbrev any : {A : Type 0} → (A → Bool) → List A → Bool
any f [] = false
any f (x ∷ xs) = f x || any f xs

module _ {F : Type 0} where
  unfoldable pub values_for : String → List (String × F) → List F
  values_for key [] = []
  values_for key ((name, value) ∷ rest) =
      let values = values_for key rest in if Text.◌==◌ name key then value ∷ values else values

module _ {F : Type 0} ⦃fl : Floats F⦄ where
  unfoldable pub risk_for_cluster : PortfolioRiskState F → String → F
  risk_for_cluster s cluster_id = fl.sum (values_for cluster_id s.cluster_risk)

  unfoldable pub risk_for_sector : PortfolioRiskState F → String → F
  risk_for_sector s sector = fl.sum (values_for sector s.sector_risk)

  -- `x >= 0 and x <= 1`
  abbrev pub is_score : F → Bool
  is_score x = fl.le zero_f x && fl.le x (fl.dec 1 0)

  -- `_apply_limits`: the table of its checks.
  unfoldable pub checks_of :
      RiskPolicy F → F → PortfolioRiskState F → ProposedTradeRisk F → List (Bool × RiskReason)
  checks_of p nav s t =
      let exceeds : F → F → Bool = λ x limit. fl.lt limit (fl.div x nav) in
      let reaches : F → F → Bool = λ x limit. fl.le limit (fl.div x nav) in
      (exceeds t.planned_loss p.max_position_loss_nav, position_risk_limit)
      ∷ (
        exceeds (fl.add s.daily_new_risk t.planned_loss) p.max_daily_new_risk_nav,
        daily_new_risk_limit,
      )
      ∷ (leb_ℤ p.max_new_positions_per_day s.new_positions_today, daily_position_limit)
      ∷ (reaches s.daily_loss p.daily_loss_lockout_nav, daily_loss_lockout)
      ∷ (reaches s.weekly_drawdown p.weekly_drawdown_pause_nav, weekly_drawdown_pause)
      ∷ (reaches s.rolling_drawdown p.rolling_drawdown_review_nav, rolling_drawdown_review)
      ∷ (
        exceeds (fl.add (risk_for_cluster s t.cluster_id) t.planned_loss) p.max_cluster_risk_nav,
        cluster_risk_limit,
      )
      ∷ (
        exceeds (fl.add (risk_for_sector s t.sector) t.planned_loss) p.max_sector_risk_nav,
        sector_risk_limit,
      )
      ∷ (exceeds (fl.add s.total_risk t.planned_loss) p.max_total_risk_nav, total_risk_limit)
      ∷ (
        exceeds (fl.abs (fl.add s.beta_exposure t.beta_exposure)) p.max_abs_beta_exposure_nav,
        beta_exposure_limit,
      )
      ∷ (
        exceeds (fl.abs (fl.add s.delta_exposure t.delta_exposure)) p.max_abs_delta_exposure_nav,
        delta_exposure_limit,
      )
      ∷ (p.block_event_risk && t.event_risk, event_risk_blocked)
      ∷ (fl.lt t.liquidity_score p.min_liquidity_score, liquidity_limit)
      ∷ []

  unfoldable pub apply_limits :
      RiskPolicy F → F → PortfolioRiskState F → ProposedTradeRisk F → List RiskReason
  apply_limits p nav s t = failing (checks_of p nav s t)

  -- The checks before the limits.
  unfoldable pub first_checks :
      PortfolioSnapshot F → F → ProposedTradeRisk F → List (Bool × RiskReason)
  first_checks snapshot nav t =
      (blocks_new_risk snapshot, portfolio_data_blocked)
      ∷ (fl.le nav zero_f, invalid_nav)
      ∷ (fl.le t.planned_loss zero_f, invalid_planned_loss)
      ∷ (not (is_score t.liquidity_score), liquidity_limit)
      ∷ []

  -- The reasons before they are made unique.
  unfoldable pub reasons_of :
      RiskPolicy F
      → PortfolioSnapshot F
      → PortfolioRiskState F
      → ProposedTradeRisk F
      → List RiskReason
  reasons_of p snapshot s t =
      let nav = net_liquidating_value snapshot in
      let limits = apply_limits p nav s t in
      failing (first_checks snapshot nav t) ++ (if fl.lt zero_f nav then limits else [])

  unfoldable pub evaluate :
      RiskPolicy F
      → PortfolioSnapshot F
      → PortfolioRiskState F
      → ProposedTradeRisk F
      → RiskDecision F
  evaluate p snapshot s t =
      let nav = net_liquidating_value snapshot in
      let reasons = reasons_of p snapshot s t in
      record {
        is_approved = is_nil reasons;
        reasons = or_approved reasons;
        decision_id = t.decision_id;
        symbol = t.symbol;
        snapshot_id = snapshot.snapshot_id;
        policy_version = p.version;
        nav = nav;
        planned_loss = t.planned_loss;
        planned_loss_nav = if fl.lt zero_f nav then fl.div t.planned_loss nav else fl.infinity;
        risk_snapshot = (s, t);
      }

  -- `RiskPolicy.__post_init__`
  unfoldable pub check_policy : RiskPolicy F → Result RiskError (Unit {0})
  check_policy p = do
    raise_if (is_empty p.version) version_required
    raise_if
        (any (λ x. fl.le x zero_f)
          (p.max_position_loss_nav ∷ p.max_daily_new_risk_nav ∷ p.daily_loss_lockout_nav
            ∷ p.weekly_drawdown_pause_nav ∷ p.rolling_drawdown_review_nav ∷ p.max_cluster_risk_nav
            ∷ p.max_sector_risk_nav ∷ p.max_total_risk_nav ∷ p.max_abs_beta_exposure_nav
            ∷ p.max_abs_delta_exposure_nav ∷ []))
        limit_not_positive
    raise_if (leb_ℤ p.max_new_positions_per_day (pos 0)) count_not_positive
    raise_if (not (is_score p.min_liquidity_score)) score_out_of_range
    ok tt

  -- `PortfolioRiskState.__post_init__`
  unfoldable pub check_state : PortfolioRiskState F → Result RiskError (Unit {0})
  check_state s = do
    raise_if
        (any (λ x. fl.lt x zero_f)
            (s.daily_new_risk ∷ s.daily_loss ∷ s.weekly_drawdown ∷ s.rolling_drawdown ∷ s.total_risk
              ∷ [])
          || ltb_ℤ s.new_positions_today (pos 0))
        state_negative
    raise_if (any (λ entry. fl.lt entry.1 zero_f) (s.cluster_risk ++ s.sector_risk))
        exposure_negative
    ok tt
