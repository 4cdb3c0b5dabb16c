-- ===== src/Policies/Normal.antt =====
-- internal/policies/evaluator.go: normal forms of the fields of a policy, the ranks of risk levels,
-- and validation.
use change_control_plane.Prelude.{
  String, not, ◌&&◌, Option, none, some, List, [], ◌∷◌, ◌==◌, if◌then◌else◌, contains,
}
use change_control_plane.Prelude.Int.{ℤ, pos, negsuc, ltb_ℤ}
use change_control_plane.Prelude.Text.{normalized, is_blank}
use change_control_plane.Types.{PolicyCondition}

unfoldable pub normalize_applies_to : String → String
normalize_applies_to value = if normalized value == "" then "risk_assessment" else normalized value

unfoldable pub normalize_mode : String → String
normalize_mode value = if normalized value == "" then "advisory" else normalized value

unfoldable pub determine_scope : (project_id service_id environment_id : String) → String
determine_scope project_id service_id environment_id =
    if not (is_blank environment_id)
    then "environment"
    else if not (is_blank service_id)
    then "service"
    else if not (is_blank project_id)
    then "project"
    else "organization"

abbrev pub allowed_applies_to : List String
allowed_applies_to =
    "risk_assessment" ∷ "rollout_plan" ∷ "rollout_execution" ∷ "release_bundle" ∷ "config_set"
    ∷ "database_governance" ∷ "change_window" ∷ []

abbrev pub allowed_modes : List String
allowed_modes = "advisory" ∷ "block" ∷ "require_manual_review" ∷ []

abbrev pub allowed_touches : List String
allowed_touches =
    "infrastructure" ∷ "secrets" ∷ "schema" ∷ "dependencies" ∷ "poor_rollback_history" ∷ []

abbrev pub allowed_missing : List String
allowed_missing = "observability" ∷ "slo" ∷ []

pub data Error : Type 0 where
  unsupported_applies_to unsupported_mode unsupported_min_risk_level unsupported_touch
        unsupported_capability :
      String → Error

unfoldable pub validate_applies_to : String → Option Error
validate_applies_to value =
    if not (contains allowed_applies_to (normalize_applies_to value))
    then some (unsupported_applies_to value)
    else none

unfoldable pub validate_mode : String → Option Error
validate_mode value =
    if not (contains allowed_modes (normalize_mode value))
    then some (unsupported_mode value)
    else none

-- `RiskLevelRank` at a `RiskLevel` or a `string`
unfoldable pub risk_level_rank : String → ℤ
risk_level_rank level =
    let name = normalized level in
    if name == "low"
    then pos 0
    else if name == "medium"
    then pos 1
    else if name == "high"
    then pos 2
    else if name == "critical"
    then pos 3
    else negsuc 0

-- The first value that is not allowed.
unfoldable pub first_unsupported : List String → List String → Option String
first_unsupported allowed [] = none
first_unsupported allowed (value ∷ values) =
    if not (contains allowed (normalized value))
    then some value
    else first_unsupported allowed values

validate_missing : Option String → Option Error
validate_missing none = none
validate_missing (some capability) = some (unsupported_capability capability)

validate_touches : Option String → Option Error → Option Error
validate_touches none next = next
validate_touches (some touch) next = some (unsupported_touch touch)

unfoldable pub validate_conditions : PolicyCondition → Option Error
unfolding validate_missing validate_touches
validate_conditions condition =
    if not (is_blank condition.min_risk_level)
      && ltb_ℤ (risk_level_rank condition.min_risk_level) (pos 0)
    then some (unsupported_min_risk_level condition.min_risk_level)
    else validate_touches (first_unsupported allowed_touches condition.required_touches)
        (validate_missing (first_unsupported allowed_missing condition.missing_capabilities))

-- The loop of `normalizeUnique`, with the values already seen.
unfoldable pub unique_from : (seen values : List String) → List String
unique_from seen [] = []
unique_from seen (value ∷ values) =
    let key = normalized value in
    let skipped = unique_from seen values in
    let taken = key ∷ unique_from (key ∷ seen) values in
    if key == "" then skipped else if contains seen key then skipped else taken

unfoldable pub normalize_unique : List String → List String
unfolding unique_from
normalize_unique values = unique_from [] values

unfoldable pub normalize_conditions : PolicyCondition → PolicyCondition
normalize_conditions condition = record condition {
  min_risk_level = normalized condition.min_risk_level;
  required_change_types = normalize_unique condition.required_change_types;
  required_touches = normalize_unique condition.required_touches;
  missing_capabilities = normalize_unique condition.missing_capabilities;
}
