-- ===== src/Governance.antt =====
-- src/daily_alpha/governance.py: the versions of a strategy and their release for paper trading.
pub mod Trail
pub mod Release
use Prim.Native.Char.{code}
use Prim.Native.String.{String}
use daily_alpha_engine.Common.{
  ℕ, suc, ◌+◌, Bool, true, false, not, ◌&&◌, ◌||◌, ◌==◌, leb, Option, none, some, List, [], ◌∷◌,
  ◌++◌, Result, ok, err, ◌>>=◌, ◌>>◌, raise_if, if◌then◌else◌, length,
}
use daily_alpha_engine.Common.Text.{is_blank, is_empty, is_space}

pub data VersionStatus : Type 0 where
  draft validated paper_approved retired : VersionStatus

pub data GovernanceError : Type 0 where
  identity_required hash_invalid : GovernanceError
  not_draft report_required validation_failed not_validated approver_required : GovernanceError
  already_retired reason_required time_and_actor_required : GovernanceError

pub record StrategyVersion : Type 0 where
  pub version_id : String
  pub strategy_name : String
  pub rule_hash : String
  pub created_at : String
  pub status : VersionStatus
  pub validation_report_id : Option String
  pub approved_by : Option String
  pub approved_at : Option String
  pub parent_version_id : Option String
  pub change_summary : String

-- `f"{version_id}:{sequence}"`, kept as its two parts.
pub record EventId : Type 0 where
  pub of_version : String
  pub number : ℕ

pub record GovernanceEvent : Type 0 where
  pub event_id : EventId
  pub version_id : String
  pub previous_status : VersionStatus
  pub new_status : VersionStatus
  pub occurred_at : String
  pub actor : String
  pub reason : String

pub record GovernedVersion : Type 0 where
  pub version : StrategyVersion
  pub events : List GovernanceEvent

abbrev text_length : String → ℕ
text_length String.[] = 0
text_length (String.◌∷◌ c s) = suc (text_length s)

-- Whether `int(text, 16)` accepts a text of ASCII characters: blanks around it, a sign, a prefix 0x,
-- and single underscores between digits are all allowed. Decimal digits outside ASCII, which it
-- allows too, are not.
abbrev is_hex_digit : ℕ → Bool
is_hex_digit c = (leb 48 c && leb c 57) || (leb 65 c && leb c 70) || (leb 97 c && leb c 102)

-- The digits; the flag says that a digit has just been read.
unfoldable pub hex_digits : Bool → String → Bool
hex_digits seen String.[] = seen
hex_digits seen (String.◌∷◌ c s) =
    let after_digit = hex_digits true s in
    let after_underscore = hex_digits false s in
    if is_hex_digit (code c)
    then after_digit
    else if seen && code c == 95
    then after_underscore
    else seen && is_space (code c) && is_blank s

unfoldable pub skip_underscore : String → String
skip_underscore String.[] = String.[]
skip_underscore (String.◌∷◌ c s) = if code c == 95 then s else String.◌∷◌ c s

unfoldable pub hex_prefixed : String → Bool
hex_prefixed String.[] = false
hex_prefixed (String.◌∷◌ c String.[]) = hex_digits false (String.◌∷◌ c String.[])
hex_prefixed (String.◌∷◌ c (String.◌∷◌ x s)) =
    if code c == 48 && (code x == 88 || code x == 120)
    then hex_digits false (skip_underscore s)
    else hex_digits false (String.◌∷◌ c (String.◌∷◌ x s))

unfoldable pub is_base_16 : String → Bool
is_base_16 String.[] = false
is_base_16 (String.◌∷◌ c s) =
    let rest = is_base_16 s in
    if is_space (code c)
    then rest
    else if code c == 43 || code c == 45
    then hex_prefixed s
    else hex_prefixed (String.◌∷◌ c s)

-- `StrategyVersion.__post_init__`
unfoldable pub check_version : StrategyVersion → Result GovernanceError (Unit {0})
check_version v = do
  raise_if
      (is_empty v.version_id
        || is_empty v.strategy_name
        || is_empty v.rule_hash
        || is_empty v.created_at)
      identity_required
  raise_if (not (text_length v.rule_hash == 64)) hash_invalid
  raise_if (not (is_base_16 v.rule_hash)) hash_invalid
  ok tt

abbrev is_paper_approved : VersionStatus → Bool
is_paper_approved draft = false
is_paper_approved validated = false
is_paper_approved paper_approved = true
is_paper_approved retired = false

unfoldable pub paper_eligible : GovernedVersion → Bool
paper_eligible g = is_paper_approved g.version.status

unfoldable pub is_draft : VersionStatus → Bool
is_draft draft = true
is_draft validated = false
is_draft paper_approved = false
is_draft retired = false

unfoldable pub is_validated : VersionStatus → Bool
is_validated draft = false
is_validated validated = true
is_validated paper_approved = false
is_validated retired = false

unfoldable pub is_retired : VersionStatus → Bool
is_retired draft = false
is_retired validated = false
is_retired paper_approved = false
is_retired retired = true

-- `_transition`
unfoldable pub governance_event :
    GovernedVersion → StrategyVersion → String → String → String → GovernanceEvent
governance_event governed updated occurred_at actor reason =
    let sequence = length governed.events + 1 in
    record {
      event_id = record { of_version = updated.version_id; number = sequence };
      version_id = updated.version_id;
      previous_status = governed.version.status;
      new_status = updated.status;
      occurred_at = occurred_at;
      actor = actor;
      reason = reason;
    }

unfoldable pub move :
    GovernedVersion
    → StrategyVersion
    → String
    → String
    → String
    → Result GovernanceError GovernedVersion
move governed updated occurred_at actor reason = do
  raise_if (is_empty occurred_at || is_empty actor) time_and_actor_required
  ok (record {
    version = updated;
    events = governed.events ++ (governance_event governed updated occurred_at actor reason ∷ []);
  })

-- `replace(version, status=VALIDATED, validation_report_id=...)`
unfoldable pub validated_version : StrategyVersion → String → StrategyVersion
validated_version v validation_report_id = record v {
  status = validated;
  validation_report_id = some validation_report_id;
}

unfoldable pub record_validation :
    GovernedVersion → String → Bool → String → String → Result GovernanceError GovernedVersion
record_validation g validation_report_id eligible_for_paper occurred_at actor = do
  raise_if (not (is_draft g.version.status)) not_draft
  raise_if (is_empty validation_report_id) report_required
  raise_if (not eligible_for_paper) validation_failed
  check_version (validated_version g.version validation_report_id)
  move g (validated_version g.version validation_report_id) occurred_at actor "VALIDATION_PASSED"

unfoldable pub approved_version : StrategyVersion → String → String → StrategyVersion
approved_version v approved_by approved_at = record v {
  status = paper_approved;
  approved_by = some approved_by;
  approved_at = some approved_at;
}

unfoldable pub approve_for_paper :
    GovernedVersion → String → String → Result GovernanceError GovernedVersion
approve_for_paper g approved_by approved_at = do
  raise_if (not (is_validated g.version.status)) not_validated
  raise_if (is_empty approved_by) approver_required
  check_version (approved_version g.version approved_by approved_at)
  move g (approved_version g.version approved_by approved_at) approved_at approved_by
      "PAPER_RELEASE_APPROVED"

unfoldable pub retired_version : StrategyVersion → StrategyVersion
retired_version v = record v { status = retired }

unfoldable pub retire :
    GovernedVersion → String → String → String → Result GovernanceError GovernedVersion
retire g actor occurred_at reason = do
  raise_if (is_retired g.version.status) already_retired
  raise_if (is_empty reason) reason_required
  check_version (retired_version g.version)
  move g (retired_version g.version) occurred_at actor reason
