-- ===== src/Governance/Release.antt =====
-- How a version came to its status.
use Prim.Native.String.{String}
use daily_alpha_engine.Common.{
  ◌≡◌, refl, sym, ap, ◌∙◌, subst, Bool, true, false, some, [], ◌∷◌, ◌++◌, ok, length, arith,
}
use daily_alpha_engine.Common.Text.{is_empty}
use daily_alpha_engine.Governance.{
  VersionStatus, draft, validated, paper_approved, retired, StrategyVersion, GovernedVersion,
  is_draft, is_validated, is_retired, check_version, governance_event, move, validated_version,
  record_validation, approved_version, approve_for_paper, retired_version, retire,
}
use daily_alpha_engine.Governance.Trail.{
  IsStep, validation, approval, retirement_of_draft, retirement_of_validated,
  retirement_of_approved, IsTrail, IsTrail-append, IsCarried, IsAudited, IsAudited-append, rank,
  step-rank, trail-rank, validated-IsAudited, approved-IsAudited, retired-IsAudited,
}

-- What a version carries: a validation report once it is validated, and an approver with a time
-- once it is released.
pub IsCredited : VersionStatus → StrategyVersion → Type 0
IsCredited draft v = Unit
IsCredited validated v =
    (report : String) × (v.validation_report_id ≡ some report) × (is_empty report ≡ false)
IsCredited paper_approved v =
    ((report : String) × (v.validation_report_id ≡ some report) × (is_empty report ≡ false))
    × ((who : String) × (v.approved_by ≡ some who) × (is_empty who ≡ false))
    × ((time : String) × (v.approved_at ≡ some time) × (is_empty time ≡ false))
IsCredited retired v = Unit

-- The rules themselves never change: a version with other rules is another version.
pub record IsSameRules (v w : StrategyVersion) : Type 0 where
  pub version_id : v.version_id ≡ w.version_id
  pub strategy_name : v.strategy_name ≡ w.strategy_name
  pub rule_hash : v.rule_hash ≡ w.rule_hash
  pub created_at : v.created_at ≡ w.created_at

same_trans : (u v w : StrategyVersion) → IsSameRules u v → IsSameRules v w → IsSameRules u w
same_trans u v w h k = record {
  version_id = h.version_id ∙ k.version_id;
  strategy_name = h.strategy_name ∙ k.strategy_name;
  rule_hash = h.rule_hash ∙ k.rule_hash;
  created_at = h.created_at ∙ k.created_at;
}

same_refl : (v : StrategyVersion) → IsSameRules v v
same_refl v = record {
  version_id = refl;
  strategy_name = refl;
  rule_hash = refl;
  created_at = refl;
}

pub record IsGoverned (first : StrategyVersion) (g : GovernedVersion) : Type 0 where
  pub rules : IsSameRules g.version first
  pub valid : check_version g.version ≡ ok tt
  pub trail : IsTrail g.version.version_id 0 draft g.events g.version.status
  pub credits : IsCredited g.version.status g.version
  pub audit : IsAudited g.events g.version

move-ok :
    (g g' : GovernedVersion) (v : StrategyVersion) (at actor reason : String)
    → move g v at actor reason ≡ ok g'
    → (is_empty at ≡ false)
      × (is_empty actor ≡ false)
      × (record { version = v; events = g.events ++ (governance_event g v at actor reason ∷ []) }
          ≡ g')
unfolding move
move-ok g g' v at actor reason e = ground arith

event-IsTrail :
    (g : GovernedVersion) (v : StrategyVersion) (at actor reason : String)
    → IsStep g.version.status v.status
    → is_empty at ≡ false
    → is_empty actor ≡ false
    → IsTrail v.version_id
        (length g.events)
        g.version.status
        (governance_event g v at actor reason ∷ [])
        v.status
unfolding governance_event IsTrail
event-IsTrail g v at actor reason step h k = (
  refl,
  ap (λ n. record { of_version = v.version_id; number = n }) (omega arith),
  refl,
  step,
  h,
  k,
  refl,
)

audited :
    (g : GovernedVersion) (v : StrategyVersion) (at actor reason : String)
    → IsAudited g.events v
    → IsCarried v.status actor at v
    → IsAudited (g.events ++ (governance_event g v at actor reason ∷ [])) v
unfolding governance_event
audited g v at actor reason audit own =
    IsAudited-append g.events (governance_event g v at actor reason) v audit own

move-IsGoverned :
    (first : StrategyVersion) (g g' : GovernedVersion) (v : StrategyVersion)
    (at actor reason : String)
    → IsGoverned first g
    → IsStep g.version.status v.status
    → IsSameRules v g.version
    → check_version v ≡ ok tt
    → IsCredited v.status v
    → IsAudited g.events v
    → IsCarried v.status actor at v
    → move g v at actor reason ≡ ok g'
    → IsGoverned first g'
move-IsGoverned first g g' v at actor reason h step same valid credits audit own_step e =
    let (time, who, eq) = move-ok g g' v at actor reason e in
    let own =
      subst (λ i. IsTrail i 0 draft g.events g.version.status) (sym same.version_id) h.trail in
    subst (IsGoverned first) eq (record {
      rules = same_trans v g.version first same h.rules;
      valid = valid;
      trail =
          IsTrail-append v.version_id 0 (length g.events) draft g.version.status v.status g.events
            (governance_event g v at actor reason) (omega arith) own
            (event-IsTrail g v at actor reason step time who);
      credits = credits;
      audit = audited g v at actor reason audit own_step;
    })

step_of_draft : (s : VersionStatus) → is_draft s ≡ true → IsStep s validated
unfolding is_draft
step_of_draft draft h = validation
step_of_draft validated h = cc
step_of_draft paper_approved h = cc
step_of_draft retired h = cc

-- A validated version has its report.
report_of :
    (v : StrategyVersion) (s : VersionStatus)
    → is_validated s ≡ true
    → IsCredited s v
    → IsStep s paper_approved
      × ((report : String) × (v.validation_report_id ≡ some report) × (is_empty report ≡ false))
unfolding is_validated IsCredited
report_of v draft h c = cc
report_of v validated h c = (approval, c)
report_of v paper_approved h c = cc
report_of v retired h c = cc

step_to_retired : (s : VersionStatus) → is_retired s ≡ false → IsStep s retired
unfolding is_retired
step_to_retired draft h = retirement_of_draft
step_to_retired validated h = retirement_of_validated
step_to_retired paper_approved h = retirement_of_approved
step_to_retired retired h = cc

record_validation-ok :
    (g g' : GovernedVersion) (report : String) (eligible : Bool) (at actor : String)
    → record_validation g report eligible at actor ≡ ok g'
    → (is_draft g.version.status ≡ true)
      × (is_empty report ≡ false)
      × (check_version (validated_version g.version report) ≡ ok tt)
      × (move g (validated_version g.version report) at actor "VALIDATION_PASSED" ≡ ok g')
unfolding record_validation
record_validation-ok g g' report eligible at actor e = ground arith

approve_for_paper-ok :
    (g g' : GovernedVersion) (by at : String)
    → approve_for_paper g by at ≡ ok g'
    → (is_validated g.version.status ≡ true)
      × (is_empty by ≡ false)
      × (check_version (approved_version g.version by at) ≡ ok tt)
      × (move g (approved_version g.version by at) at by "PAPER_RELEASE_APPROVED" ≡ ok g')
unfolding approve_for_paper
approve_for_paper-ok g g' by at e = ground arith

retire-ok :
    (g g' : GovernedVersion) (actor at reason : String)
    → retire g actor at reason ≡ ok g'
    → (is_retired g.version.status ≡ false)
      × (check_version (retired_version g.version) ≡ ok tt)
      × (move g (retired_version g.version) at actor reason ≡ ok g')
unfolding retire
retire-ok g g' actor at reason e = ground arith

pub record_validation-IsGoverned :
    (first : StrategyVersion) (g g' : GovernedVersion) (report : String) (eligible : Bool)
    (at actor : String)
    → IsGoverned first g
    → record_validation g report eligible at actor ≡ ok g'
    → IsGoverned first g'
unfolding validated_version IsCredited IsCarried
record_validation-IsGoverned first g g' report eligible at actor h e =
    let (status, named, valid, moved) = record_validation-ok g g' report eligible at actor e in
    move-IsGoverned first g g' (validated_version g.version report) at actor "VALIDATION_PASSED" h
      (step_of_draft g.version.status status)
      (record { version_id = refl; strategy_name = refl; rule_hash = refl; created_at = refl })
      valid (report, refl, named) (validated-IsAudited g.events g.version report named h.audit)
      (report, refl, named) moved

pub approve_for_paper-IsGoverned :
    (first : StrategyVersion) (g g' : GovernedVersion) (by at : String)
    → IsGoverned first g
    → approve_for_paper g by at ≡ ok g'
    → IsGoverned first g'
unfolding approved_version IsCredited IsCarried rank
approve_for_paper-IsGoverned first g g' by at h e =
    let (status, named, valid, moved) = approve_for_paper-ok g g' by at e in
    let (step, report) = report_of g.version g.version.status status h.credits in
    let (_, below) = trail-rank g.version.version_id 0 draft g.events g.version.status h.trail in
    let low = step-rank step in
    let (time, _, _) =
      move-ok g g' (approved_version g.version by at) at by "PAPER_RELEASE_APPROVED" moved in
    move-IsGoverned first g g' (approved_version g.version by at) at by "PAPER_RELEASE_APPROVED" h
      step (record { version_id = refl; strategy_name = refl; rule_hash = refl; created_at = refl })
      valid (report, (by, refl, named), (at, refl, time))
      (approved-IsAudited (rank g.version.status) g.events g.version by at below (omega arith)
        h.audit)
      (refl, refl) moved

pub retire-IsGoverned :
    (first : StrategyVersion) (g g' : GovernedVersion) (actor at reason : String)
    → IsGoverned first g
    → retire g actor at reason ≡ ok g'
    → IsGoverned first g'
unfolding retired_version IsCredited IsCarried
retire-IsGoverned first g g' actor at reason h e =
    let (status, valid, moved) = retire-ok g g' actor at reason e in
    move-IsGoverned first g g' (retired_version g.version) at actor reason h
      (step_to_retired g.version.status status)
      (record { version_id = refl; strategy_name = refl; rule_hash = refl; created_at = refl })
      valid tt (retired-IsAudited g.events g.version h.audit) tt moved

-- The versions that the operations can produce from a fresh draft.
pub data IsReached (first : StrategyVersion) : GovernedVersion → Type 0 where
  drafted :
      check_version first ≡ ok tt
      → first.status ≡ draft
      → IsReached first (record { version = first; events = [] })
  was_validated :
      (g g' : GovernedVersion) (report : String) (eligible : Bool) (at actor : String)
      → IsReached first g
      → record_validation g report eligible at actor ≡ ok g'
      → IsReached first g'
  was_approved :
      (g g' : GovernedVersion) (by at : String)
      → IsReached first g
      → approve_for_paper g by at ≡ ok g'
      → IsReached first g'
  was_retired :
      (g g' : GovernedVersion) (actor at reason : String)
      → IsReached first g
      → retire g actor at reason ≡ ok g'
      → IsReached first g'

drafted-IsGoverned :
    (first : StrategyVersion)
    → check_version first ≡ ok tt
    → first.status ≡ draft
    → IsGoverned first (record { version = first; events = [] })
unfolding IsTrail IsCredited IsAudited
drafted-IsGoverned first valid h = record {
  rules = same_refl first;
  valid = valid;
  trail = sym h;
  credits = subst (λ s. IsCredited s first) (sym h) tt;
  audit = tt;
}

-- A version that the operations produced from a draft keeps its identity and its rules, stays valid,
-- and has a trail of numbered events, each with a time and an actor, that leads from a draft to its
-- status by validation, approval or retirement. While it is validated or released it carries a report,
-- a released one also an approver and a time; and whatever its status, also when it has been retired
-- since, it carries a report if its trail has a validation, and the actor and the time of its release as
-- the approver and the time of approval if its trail has a release.
pub reached-IsGoverned :
    (first : StrategyVersion) (g : GovernedVersion) → IsReached first g → IsGoverned first g
reached-IsGoverned first _ (drafted valid h) = drafted-IsGoverned first valid h
reached-IsGoverned first _ (was_validated g g' report eligible at actor h e) =
    record_validation-IsGoverned first g g' report eligible at actor (reached-IsGoverned first g h)
      e
reached-IsGoverned first _ (was_approved g g' by at h e) =
    approve_for_paper-IsGoverned first g g' by at (reached-IsGoverned first g h) e
reached-IsGoverned first _ (was_retired g g' actor at reason h e) =
    retire-IsGoverned first g g' actor at reason (reached-IsGoverned first g h) e
