-- ===== src/Policies.antt =====
-- internal/policies/evaluator.go: when a policy applies to a change. `EvaluatePolicy` returns reasons and
-- a flag. Every return with `false` has no reasons, so the pair is an `Option` here.
pub mod Normal
pub mod Triggers
pub mod Membership
pub mod Meaning
use change_control_plane.Prelude.{
  String, Bool, true, false, not, ◌&&◌, ◌||◌, Option, none, some, List, [], ◌∷◌, ◌++◌, ◌==◌,
  if◌then◌else◌, contains, is_empty, map,
}
use change_control_plane.Prelude.Int.{ℤ, pos, negsuc, ltb_ℤ}
use change_control_plane.Prelude.Text.{normalized, is_blank, join}
use change_control_plane.Prelude.Format.{concat}
use change_control_plane.Types.{
  ChangeSet, Service, Environment, RiskAssessment, Policy, PolicyCondition,
}
use change_control_plane.Policies.Normal.{
  normalize_applies_to, normalize_conditions, risk_level_rank,
}

pub record EvaluationInput : Type 0 where
  pub change : ChangeSet
  pub service : Service
  pub environment : Environment
  pub assessment : RiskAssessment
  pub applies_to : String

-- The loop of `intersectNormalized`.
unfoldable pub intersect_from : (allowed seen right : List String) → List String
intersect_from allowed seen [] = []
intersect_from allowed seen (item ∷ right) =
    let key = normalized item in
    let skipped = intersect_from allowed seen right in
    let taken = key ∷ intersect_from allowed (key ∷ seen) right in
    if key == ""
    then skipped
    else if not (contains allowed key)
    then skipped
    else if contains seen key
    then skipped
    else taken

unfoldable pub intersect_normalized : List String → List String → List String
unfolding intersect_from
intersect_normalized left right =
    if is_empty left || is_empty right then [] else intersect_from (map normalized left) [] right

-- The `switch` of `matchedRequiredTouches`: is the touch known, and does the change have it?
unfoldable pub touch_matches : ChangeSet → String → Bool
touch_matches change touch =
    if touch == "infrastructure"
    then change.touches_infrastructure
    else if touch == "secrets"
    then change.touches_secrets
    else if touch == "schema"
    then change.touches_schema
    else if touch == "dependencies"
    then change.dependency_changes
    else if touch == "poor_rollback_history"
    then change.poor_rollback_history
    else false

unfoldable pub matched_required_touches : List String → ChangeSet → List String
matched_required_touches [] change = []
matched_required_touches (touch ∷ required) change =
    let rest = matched_required_touches required change in
    if touch_matches change touch then touch ∷ rest else rest

unfoldable pub capability_missing : Service → String → Bool
capability_missing service capability =
    if capability == "observability"
    then not service.has_observability
    else if capability == "slo"
    then not service.has_slo
    else false

unfoldable pub matched_missing_capabilities : List String → Service → List String
matched_missing_capabilities [] service = []
matched_missing_capabilities (capability ∷ required) service =
    let rest = matched_missing_capabilities required service in
    if capability_missing service capability then capability ∷ rest else rest

-- One condition: it is skipped, it fails, or it gives a reason.
unfoldable pub require : (wanted holds : Bool) → String → List String → Option (List String)
require wanted holds reason reasons =
    if not wanted then some reasons else if holds then some (reasons ++ reason ∷ []) else none

infixl 5 ◌>>=◌
abbrev pub ◌>>=◌ :
    Option (List String) → (List String → Option (List String)) → Option (List String)
none >>= next = none
some reasons >>= next = next reasons

unfoldable pub meets_risk : RiskAssessment → String → Bool
meets_risk assessment minimum =
    not (ltb_ℤ (risk_level_rank assessment.level) (risk_level_rank minimum))

unfoldable pub is_regulated_for_policy : Service → Environment → Bool
is_regulated_for_policy service environment =
    service.regulated_zone || not (is_blank environment.compliance_zone)

unfoldable pub or_default : List String → List String
or_default reasons =
    if is_empty reasons then "scoped policy applies without additional conditions" ∷ [] else reasons

-- The conditions, normalised, in the order of the code.
unfoldable pub evaluate_conditions : PolicyCondition → EvaluationInput → Option (List String)
evaluate_conditions condition input =
    let kinds = intersect_normalized condition.required_change_types input.change.change_types in
    let touches = matched_required_touches condition.required_touches input.change in
    let missing = matched_missing_capabilities condition.missing_capabilities input.service in
    require condition.production_only input.environment.production "environment is production" []
    >>= require condition.regulated_only (is_regulated_for_policy input.service input.environment)
        "service or environment is regulated"
    >>= require (not (condition.min_risk_level == ""))
        (meets_risk input.assessment condition.min_risk_level)
        (concat (
          "risk level " ∷ input.assessment.level ∷ " meets minimum " ∷ condition.min_risk_level
          ∷ []))
    >>= require (not (is_empty condition.required_change_types)) (not (is_empty kinds))
        (concat ("change types include " ∷ join kinds ", " ∷ []))
    >>= require (not (is_empty condition.required_touches)) (not (is_empty touches))
        (concat ("change touches " ∷ join touches ", " ∷ []))
    >>= require (not (is_empty condition.missing_capabilities)) (not (is_empty missing))
        (concat ("service lacks " ∷ join missing ", " ∷ []))
    >>= λ reasons. some (or_default reasons)

unfoldable pub evaluate_policy : Policy → EvaluationInput → Option (List String)
evaluate_policy policy input =
    if not policy.enabled
    then none
    else if not (normalize_applies_to policy.applies_to == normalize_applies_to input.applies_to)
    then none
    else evaluate_conditions (normalize_conditions policy.conditions) input
