-- ===== src/Governance/Trail.antt =====
-- src/daily_alpha/governance.py: the steps of a version, and what it carries of each of them.
use Prim.Native.String.{String}
use daily_alpha_engine.Common.{
  ℕ, suc, ◌+◌, ◌≤◌, ◌<◌, ◌≡◌, refl, sym, subst, false, some, List, [], ◌∷◌, ◌++◌, length, arith,
}
use daily_alpha_engine.Common.Text.{is_empty}
use daily_alpha_engine.Governance.{
  VersionStatus, draft, validated, paper_approved, retired, StrategyVersion, GovernanceEvent,
  validated_version, approved_version, retired_version,
}

-- The steps that a status can take.
pub data IsStep : VersionStatus → VersionStatus → Type 0 where
  validation : IsStep draft validated
  approval : IsStep validated paper_approved
  retirement_of_draft : IsStep draft retired
  retirement_of_validated : IsStep validated retired
  retirement_of_approved : IsStep paper_approved retired

-- The events of version `id`, after `n` of them, lead from the first status to the second.
unfoldable pub IsTrail : String → ℕ → VersionStatus → List GovernanceEvent → VersionStatus → Type 0
IsTrail id n from [] to = from ≡ to
IsTrail id n from (e ∷ es) to =
    (e.version_id ≡ id)
    × (e.event_id ≡ record { of_version = id; number = suc n })
    × (e.previous_status ≡ from)
    × IsStep from e.new_status
    × (is_empty e.occurred_at ≡ false)
    × (is_empty e.actor ≡ false)
    × IsTrail id (suc n) e.new_status es to

pub IsTrail-append :
    (id : String) (n k : ℕ) (from mid to : VersionStatus) (es : List GovernanceEvent)
    (e : GovernanceEvent)
    → k ≡ n + length es
    → IsTrail id n from es mid
    → IsTrail id k mid (e ∷ []) to
    → IsTrail id n from (es ++ (e ∷ [])) to
unfolding IsTrail
IsTrail-append id n k from mid to [] e hk h last =
    subst (λ m. IsTrail id m from (e ∷ []) to) (omega arith)
      (subst (λ m. IsTrail id k m (e ∷ []) to) (sym h) last)
IsTrail-append id n k from mid to (x ∷ es) e hk (a, b, c, d, f, g, h) last =
    (a, b, c, d, f, g, IsTrail-append id (suc n) k x.new_status mid to es e (omega arith) h last)

-- How far a status is from a draft.
unfoldable pub rank : VersionStatus → ℕ
rank draft = 0
rank validated = 1
rank paper_approved = 2
rank retired = 3

-- What the version carries of a step that an actor made at a time, also when it has been retired since:
-- the report of a validation, and the approver and the time of a release.
unfoldable pub IsCarried : VersionStatus → String → String → StrategyVersion → Type 0
IsCarried draft who at v = Unit
IsCarried validated who at v =
    (report : String) × (v.validation_report_id ≡ some report) × (is_empty report ≡ false)
IsCarried paper_approved who at v = (v.approved_by ≡ some who) × (v.approved_at ≡ some at)
IsCarried retired who at v = Unit

unfoldable pub IsAudited : List GovernanceEvent → StrategyVersion → Type 0
IsAudited [] v = Unit
IsAudited (e ∷ es) v = IsCarried e.new_status e.actor e.occurred_at v × IsAudited es v

pub IsAudited-append :
    (es : List GovernanceEvent) (e : GovernanceEvent) (v : StrategyVersion)
    → IsAudited es v
    → IsCarried e.new_status e.actor e.occurred_at v
    → IsAudited (es ++ (e ∷ [])) v
unfolding IsAudited
IsAudited-append [] e v h last = (last, tt)
IsAudited-append (x ∷ es) e v (h, hs) last = (h, IsAudited-append es e v hs last)

pub step-rank : {a b : VersionStatus} → IsStep a b → rank a < rank b
unfolding rank
step-rank validation = omega arith
step-rank approval = omega arith
step-rank retirement_of_draft = omega arith
step-rank retirement_of_validated = omega arith
step-rank retirement_of_approved = omega arith

pub IsBelow : ℕ → List GovernanceEvent → Type 0
IsBelow n [] = Unit
IsBelow n (e ∷ es) = (rank e.new_status ≤ n) × IsBelow n es

-- A trail only goes up.
pub trail-rank :
    (id : String) (n : ℕ) (from : VersionStatus) (es : List GovernanceEvent) (to : VersionStatus)
    → IsTrail id n from es to
    → (rank from ≤ rank to) × IsBelow (rank to) es
unfolding IsTrail IsBelow
trail-rank id n from [] to h = (subst (λ s. rank from ≤ rank s) h (omega arith), tt)
trail-rank id n from (e ∷ es) to (_, _, _, step, _, _, rest) =
    let (up, below) = trail-rank id (suc n) e.new_status es to rest in
    let one = step-rank step in (omega arith, (up, below))

-- A validation replaces the report of no earlier step but of a validation.
pub validated-IsAudited :
    (es : List GovernanceEvent) (v : StrategyVersion) (report : String)
    → is_empty report ≡ false
    → IsAudited es v
    → IsAudited es (validated_version v report)
unfolding IsAudited IsCarried validated_version
validated-IsAudited [] v report named h = tt
validated-IsAudited (e ∷ es) v report named (h, hs) =
    (kept e.new_status h, validated-IsAudited es v report named hs)
  where
    kept :
        (s : VersionStatus)
        → IsCarried s e.actor e.occurred_at v
        → IsCarried s e.actor e.occurred_at (validated_version v report)
    kept draft k = tt
    kept validated k = (report, refl, named)
    kept paper_approved k = k
    kept retired k = tt

-- A release stands behind no earlier one.
pub approved-IsAudited :
    (n : ℕ) (es : List GovernanceEvent) (v : StrategyVersion) (by at : String)
    → IsBelow n es
    → n ≤ 1
    → IsAudited es v
    → IsAudited es (approved_version v by at)
unfolding IsAudited IsCarried IsBelow rank approved_version
approved-IsAudited n [] v by at below small h = tt
approved-IsAudited n (e ∷ es) v by at (low, below) small (h, hs) =
    (kept e.new_status low h, approved-IsAudited n es v by at below small hs)
  where
    kept :
        (s : VersionStatus)
        → rank s ≤ n
        → IsCarried s e.actor e.occurred_at v
        → IsCarried s e.actor e.occurred_at (approved_version v by at)
    kept draft b k = tt
    kept validated b k = k
    kept paper_approved b k = absurd (omega arith)
    kept retired b k = tt

pub retired-IsAudited :
    (es : List GovernanceEvent) (v : StrategyVersion)
    → IsAudited es v
    → IsAudited es (retired_version v)
unfolding IsAudited IsCarried retired_version
retired-IsAudited [] v h = tt
retired-IsAudited (e ∷ es) v (h, hs) = (kept e.new_status h, retired-IsAudited es v hs)
  where
    kept :
        (s : VersionStatus)
        → IsCarried s e.actor e.occurred_at v
        → IsCarried s e.actor e.occurred_at (retired_version v)
    kept draft k = tt
    kept validated k = k
    kept paper_approved k = k
    kept retired k = tt
