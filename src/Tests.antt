-- ===== src/Tests.antt =====
-- Runs of the lifecycle, the governance, the risk gate, the fallback and the sizing on small inputs.
use Prim.Native.String.{String}
use daily_alpha_engine.Common.{
  ◌⊎◌, ◌≤◌, ℕ, ◌≡◌, refl, true, false, not, ◌&&◌, none, some, [], ◌∷◌, ◌++◌, if◌then◌else◌, ok, err,
}
use daily_alpha_engine.Common.Int.{◌≤ℤ◌, ◌<ℤ◌, pos}
use daily_alpha_engine.Common.Floats.{zero_f}
use daily_alpha_engine.Common.Fixed.{Fixed, fixed_floats}
use daily_alpha_engine.Common.Text.{is_blank, is_space}
use daily_alpha_engine.Paper.Models.{stock, OptionCandidate}
use daily_alpha_engine.Paper.Sizing.{
  raw_quantity_not_positive, runner_too_small, RunnerAllocation, allocate_runner,
}
use daily_alpha_engine.Paper.Sizing.Budget.{IsSplit, allocate_runner_cases}
use daily_alpha_engine.Paper.Fallback.{default_option_rules, default_stock_rules, select}
use daily_alpha_engine.Paper.Fallback.Choice.{IsSanctioned, select_sound}
use daily_alpha_engine.Lifecycle
use daily_alpha_engine.Lifecycle.{
  TradePlan, TradeRecord, TradeEvent, Request, create, transition, append_event, state_of,
  last_state, event_of, has_key, is_allowed,
}
use daily_alpha_engine.Lifecycle.Manage.{
  MarketObservation, ManagementDecision, is_open, evaluate_management,
}
use daily_alpha_engine.Lifecycle.History.{
  IsReached, created, moved, IsHistory, reached-IsHistory, transition-once, unchanged, followed,
}
use daily_alpha_engine.Lifecycle.Exits.{IsPrudent, evaluate_management-IsPrudent}
use daily_alpha_engine.Portfolio
use daily_alpha_engine.Portfolio.{PortfolioSnapshot, blocks_new_risk, net_liquidating_value}
use daily_alpha_engine.Risk.{RiskPolicy, PortfolioRiskState, ProposedTradeRisk, is_score, evaluate}
use daily_alpha_engine.Risk.Verdicts.{is_within, evaluate-approves}
use daily_alpha_engine.Governance
use daily_alpha_engine.Governance.Release

abbrev price : ℕ → Fixed
price n = fixed_floats.dec n 0

abbrev plan : TradePlan Fixed
plan = record {
  trade_id = "t-1";
  symbol = "ACME";
  instrument = stock;
  entry_price = price 100;
  stop_price = price 90;
  target_price = price 130;
  max_holding_days = pos 20;
  option_expiration = none;
  minimum_exit_dte = pos 7;
  scale_out_price = none;
  scale_out_fraction = fixed_floats.dec 5 1;
  trailing_stop_percent = none;
  allow_averaging_down = false;
}

abbrev approval : Request String
approval = record {
  new_state = Lifecycle.approved;
  reason = "OK";
  occurred_at = some "2026-01-03";
  metadata = [];
  actor = "PM";
  idempotency_key = some "k-1";
}

abbrev entry : Request String
entry = record approval { new_state = Lifecycle.entered; reason = "FILLED"; idempotency_key = none }

abbrev proposed_trade : TradeRecord Fixed String
proposed_trade = record {
  plan = plan;
  events =
      record {
        event_id = record { of_trade = "t-1"; number = 1 };
        trade_id = "t-1";
        sequence = 1;
        previous_state = none;
        state = Lifecycle.proposed;
        reason = "TRADE_PROPOSED";
        occurred_at = "2026-01-02";
        metadata = [];
        actor = "SYSTEM";
        idempotency_key = none;
      }
      ∷ [];
}

abbrev approved_event : TradeEvent String
approved_event = record {
  event_id = record { of_trade = "t-1"; number = 2 };
  trade_id = "t-1";
  sequence = 2;
  previous_state = some Lifecycle.proposed;
  state = Lifecycle.approved;
  reason = "OK";
  occurred_at = "2026-01-03";
  metadata = [];
  actor = "PM";
  idempotency_key = some "k-1";
}

abbrev entered_event : TradeEvent String
entered_event = record approved_event {
  event_id = record { of_trade = "t-1"; number = 3 };
  sequence = 3;
  previous_state = some Lifecycle.approved;
  state = Lifecycle.entered;
  reason = "FILLED";
  idempotency_key = none;
}

abbrev approved_trade : TradeRecord Fixed String
approved_trade = record { plan = plan; events = proposed_trade.events ++ (approved_event ∷ []) }

abbrev entered_trade : TradeRecord Fixed String
entered_trade = record { plan = plan; events = approved_trade.events ++ (entered_event ∷ []) }

create-example : create "now" plan (some "2026-01-02") ≡ proposed_trade
unfolding create
create-example = refl

transition-approved : transition "now" proposed_trade approval ≡ ok approved_trade
unfolding transition append_event state_of last_state event_of has_key is_allowed
transition-approved = refl

transition-entered : transition "now" approved_trade entry ≡ ok entered_trade
unfolding transition append_event state_of last_state event_of has_key is_allowed
transition-entered = refl

transition-created :
    transition "now" (create "now" plan (some "2026-01-02")) approval ≡ ok approved_trade
unfolding create transition append_event state_of last_state event_of has_key is_allowed
transition-created = refl

entered-IsReached : IsReached plan entered_trade
entered-IsReached =
    moved approved_trade entered_trade "now" entry
      (moved (create "now" plan (some "2026-01-02")) approved_trade "now" approval
        (created "now" (some "2026-01-02")) transition-created)
      transition-entered

reached-IsHistory_example : (entered_trade.plan ≡ plan) × IsHistory entered_trade
reached-IsHistory_example = reached-IsHistory plan entered_trade entered-IsReached

transition-once_example :
    transition "later" entered_trade (record entry { idempotency_key = some "k-1" })
    ≡ ok entered_trade
transition-once_example =
    transition-once "now" "later" proposed_trade approved_trade entered_trade approval
      (record entry { idempotency_key = some "k-1" }) "k-1" transition-approved refl
      (followed approved_trade entered_trade "now" entry unchanged transition-entered) refl refl

abbrev falling : MarketObservation Fixed
falling = record {
  price = price 80;
  days_held = pos 3;
  pine_exits = false;
  turtle_exits = false;
  option_dte = none;
  assignment = false;
  corporate_action = false;
  feed_failed = false;
  stale_quote = false;
  halted = false;
  gap_below_stop = false;
  exercise = false;
  earnings_within_days = none;
  ex_dividend_within_days = none;
  high_water_mark = none;
  attempted_add_below_entry = false;
}

entered-state : state_of entered_trade ≡ ok Lifecycle.entered
unfolding state_of last_state
entered-state = refl

entered-is_open : is_open Lifecycle.entered ≡ true
unfolding is_open
entered-is_open = refl

evaluate_management-IsPrudent_example :
    (d : ManagementDecision Fixed) × (evaluate_management entered_trade falling ≡ ok d)
    × IsPrudent plan falling d
evaluate_management-IsPrudent_example =
    evaluate_management-IsPrudent entered_trade falling Lifecycle.entered entered-state
      entered-is_open refl refl

allocate_runner_cases_example :
    (pos 11 ≤ℤ pos 0) × (allocate_runner (pos 11) ≡ err raw_quantity_not_positive)
    ⊎ (pos 0 <ℤ pos 11) × (pos 11 <ℤ pos 4) × (allocate_runner (pos 11) ≡ err runner_too_small)
    ⊎ ((raw : ℕ) × (a : RunnerAllocation) × (pos 11 ≡ pos raw)
        × (4 ≤ raw)
        × (allocate_runner (pos 11) ≡ ok a)
        × IsSplit raw a)
allocate_runner_cases_example = allocate_runner_cases (pos 11)

abbrev call : OptionCandidate Fixed
call = record {
  symbol = "ACME";
  expiration = "2026-03-20";
  strike = price 100;
  option_type = "CALL";
  dte = pos 60;
  bid = fixed_floats.dec 390 2;
  ask = fixed_floats.dec 410 2;
  open_interest = pos 500;
  volume = pos 50;
  delta = some (fixed_floats.dec 5 1);
}

select_sound_example :
    IsSanctioned default_option_rules default_stock_rules
      (true && true && true && true)
      (call ∷ [])
      none
      (select default_option_rules default_stock_rules "now" "ACME" true true true true
        (call ∷ [])
        none)
select_sound_example =
    select_sound default_option_rules default_stock_rules "now" "ACME" true true true true
      (call ∷ []) none

abbrev policy : RiskPolicy Fixed
policy = record {
  version = "v2";
  max_position_loss_nav = fixed_floats.dec 5 3;
  max_daily_new_risk_nav = fixed_floats.dec 75 4;
  max_new_positions_per_day = pos 2;
  daily_loss_lockout_nav = fixed_floats.dec 2 2;
  weekly_drawdown_pause_nav = fixed_floats.dec 4 2;
  rolling_drawdown_review_nav = fixed_floats.dec 6 2;
  max_cluster_risk_nav = fixed_floats.dec 75 4;
  max_sector_risk_nav = fixed_floats.dec 1 2;
  max_total_risk_nav = fixed_floats.dec 2 2;
  max_abs_beta_exposure_nav = price 1;
  max_abs_delta_exposure_nav = price 1;
  min_liquidity_score = fixed_floats.dec 6 1;
  block_event_risk = true;
}

abbrev snapshot : PortfolioSnapshot Fixed
snapshot = record {
  snapshot_id = "s-1";
  account_id = "a-1";
  origin = "manual";
  as_of = "2026-01-02";
  ingested_at = "2026-01-02";
  cash = price 100_000;
  buying_power = price 100_000;
  positions = [];
  data_status = Portfolio.available;
  reconciliation_errors = [];
}

abbrev quiet : PortfolioRiskState Fixed
quiet = record {
  daily_new_risk = zero_f;
  new_positions_today = pos 0;
  daily_loss = zero_f;
  weekly_drawdown = zero_f;
  rolling_drawdown = zero_f;
  total_risk = zero_f;
  beta_exposure = zero_f;
  delta_exposure = zero_f;
  cluster_risk = ("tech", zero_f) ∷ [];
  sector_risk = [];
}

abbrev small_trade : ProposedTradeRisk Fixed
small_trade = record {
  decision_id = "d-1";
  symbol = "ACME";
  planned_loss = price 400;
  cluster_id = "tech";
  sector = "Technology";
  beta_exposure = zero_f;
  delta_exposure = zero_f;
  event_risk = false;
  liquidity_score = price 1;
}

evaluate-approves_example :
    (evaluate policy snapshot quiet small_trade).is_approved
    ≡ not (blocks_new_risk snapshot)
      && not (fixed_floats.le (net_liquidating_value snapshot) zero_f)
      && not (fixed_floats.le (price 400) zero_f)
      && not (not (is_score (price 1)))
      && (if fixed_floats.lt zero_f (net_liquidating_value snapshot)
          then is_within policy (net_liquidating_value snapshot) quiet small_trade
          else true)
evaluate-approves_example = evaluate-approves policy snapshot quiet small_trade

abbrev hash : String
hash = "0123456789abcdef0123456789abcdef0123456789abcdef0123456789abcdef"

abbrev first_version : Governance.StrategyVersion
first_version = record {
  version_id = "v-1";
  strategy_name = "runner";
  rule_hash = hash;
  created_at = "2026-01-01";
  status = Governance.draft;
  validation_report_id = none;
  approved_by = none;
  approved_at = none;
  parent_version_id = none;
  change_summary = "";
}

abbrev drafted : Governance.GovernedVersion
drafted = record { version = first_version; events = [] }

abbrev validated : Governance.GovernedVersion
validated = record {
  version = record first_version {
    status = Governance.validated;
    validation_report_id = some "r-1";
  };
  events =
      record {
        event_id = record { of_version = "v-1"; number = 1 };
        version_id = "v-1";
        previous_status = Governance.draft;
        new_status = Governance.validated;
        occurred_at = "2026-01-02";
        actor = "VALIDATION_ENGINE";
        reason = "VALIDATION_PASSED";
      }
      ∷ [];
}

first-valid : Governance.check_version first_version ≡ ok tt
unfolding Governance.check_version Governance.is_base_16 Governance.hex_prefixed
    Governance.hex_digits is_space is_blank
first-valid = refl

record_validation-passes :
    Governance.record_validation drafted "r-1" true "2026-01-02" "VALIDATION_ENGINE" ≡ ok validated
unfolding Governance.record_validation Governance.is_draft Governance.validated_version
    Governance.move Governance.governance_event Governance.check_version Governance.is_base_16
    Governance.hex_prefixed Governance.hex_digits is_space is_blank
record_validation-passes = refl

abbrev released : Governance.GovernedVersion
released = record {
  version = record validated.version {
    status = Governance.paper_approved;
    approved_by = some "PM";
    approved_at = some "2026-01-03";
  };
  events =
      validated.events
      ++ (record {
        event_id = record { of_version = "v-1"; number = 2 };
        version_id = "v-1";
        previous_status = Governance.validated;
        new_status = Governance.paper_approved;
        occurred_at = "2026-01-03";
        actor = "PM";
        reason = "PAPER_RELEASE_APPROVED";
      }
          ∷ []);
}

abbrev withdrawn : Governance.GovernedVersion
withdrawn = record {
  version = record released.version { status = Governance.retired };
  events =
      released.events
      ++ (record {
        event_id = record { of_version = "v-1"; number = 3 };
        version_id = "v-1";
        previous_status = Governance.paper_approved;
        new_status = Governance.retired;
        occurred_at = "2026-02-01";
        actor = "PM";
        reason = "SUPERSEDED";
      }
          ∷ []);
}

approve_for_paper-passes : Governance.approve_for_paper validated "PM" "2026-01-03" ≡ ok released
unfolding Governance.approve_for_paper Governance.is_validated Governance.approved_version
    Governance.move Governance.governance_event Governance.check_version Governance.is_base_16
    Governance.hex_prefixed Governance.hex_digits is_space is_blank
approve_for_paper-passes = refl

retire-passes : Governance.retire released "PM" "2026-02-01" "SUPERSEDED" ≡ ok withdrawn
unfolding Governance.retire Governance.is_retired Governance.retired_version Governance.move
    Governance.governance_event Governance.check_version Governance.is_base_16
    Governance.hex_prefixed Governance.hex_digits is_space is_blank
retire-passes = refl

reached-IsGoverned_example : Release.IsGoverned first_version withdrawn
reached-IsGoverned_example = Release.reached-IsGoverned first_version withdrawn (
    Release.was_retired released withdrawn "PM" "2026-02-01" "SUPERSEDED"
      (Release.was_approved validated released "PM" "2026-01-03"
        (Release.was_validated drafted validated "r-1" true "2026-01-02" "VALIDATION_ENGINE"
          (Release.drafted first-valid refl) record_validation-passes)
        approve_for_paper-passes)
      retire-passes)
