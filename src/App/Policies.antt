-- ===== src/App/Policies.antt =====
-- internal/app/policies.go: how policies are created, changed and read.
pub mod Code
pub mod Resolve
pub mod Decisions
pub mod Prepare
pub mod Handlers
pub mod Unique
use mathlib.Core.Option
use change_control_plane.Prelude.{
  String, Bool, true, false, not, ◌&&◌, ◌||◌, Option, none, some, List, [], ◌∷◌, ◌==◌,
  if◌then◌else◌, lookup, any,
}
use change_control_plane.Prelude.Text.{trim, is_blank, equal_fold}
use change_control_plane.Prelude.Format.{concat, quoted}
use change_control_plane.Types.{
  Metadata, Project, Service, Environment, Policy, PolicyCondition, CreatePolicyRequest,
  UpdatePolicyRequest, zero_policy,
}
use change_control_plane.Policies.Normal.{
  Error, unsupported_applies_to, unsupported_mode, unsupported_min_risk_level, unsupported_touch,
  unsupported_capability, normalize_applies_to, normalize_mode, determine_scope,
  normalize_conditions, validate_applies_to, validate_mode, validate_conditions,
}
use change_control_plane.Policies.Triggers.{compute_triggers}
use change_control_plane.Auth.{Identity}
use change_control_plane.Auth.Authorizer.{can_manage_policies, can_view_policies}
use change_control_plane.App.{
  Tables, Call, forbidden, validation, not_found, done, App, found, branch, require, ◌>>=◌, ◌>>◌,
  return, fail, modify, require_identity, require_active_organization,
}
use change_control_plane.App.Store
use change_control_plane.App.Store.{
  PolicyQuery, zero_policy_query, list_policies, get_policy, put_policy,
}
use change_control_plane.App.Status.{with_status_category, with_status_summary}
use change_control_plane.App.Record.{Subject, recorded, denied}
use change_control_plane.App.Policies.Code.{normalize_policy_code}

-- `err.Error()` of a validation
unfoldable pub error_text : Error → String
unfolding concat quoted
error_text (unsupported_applies_to value) = concat ("unsupported applies_to " ∷ quoted value ∷ [])
error_text (unsupported_mode value) = concat ("unsupported mode " ∷ quoted value ∷ [])
error_text (unsupported_min_risk_level value) =
    concat ("unsupported min_risk_level " ∷ quoted value ∷ [])
error_text (unsupported_touch value) = concat ("unsupported required_touch " ∷ quoted value ∷ [])
error_text (unsupported_capability value) =
    concat ("unsupported missing_capability " ∷ quoted value ∷ [])

unfoldable pub valid : Option Error → App (Unit {0})
unfolding error_text
valid none = return tt
valid (some error) = fail (validation (error_text error))

abbrev mismatch : (subject rest : String) → App (Unit {0})
mismatch subject rest = fail (validation (concat ("policy " ∷ subject ∷ " scope " ∷ rest ∷ [])))

abbrev missing : (subject id : String) → String
missing subject id = concat (subject ∷ " " ∷ id ∷ [])

module _ (organization_id project_id : String) where
  unfoldable pub project_in_scope : App (Unit {0})
  unfolding branch found require is_blank concat
  project_in_scope t =
      branch (is_blank project_id) (return tt)
        (do
          project ← found (lookup project_id t.projects) (not_found (missing "project" project_id))
          require (project.organization_id == organization_id)
              (mismatch "project" "does not belong to organization"))
        t

  unfoldable pub service_in_scope : String → App (Unit {0})
  unfolding branch found require is_blank concat
  service_in_scope service_id t =
      branch (is_blank service_id) (return tt)
        (do
          service ← found (lookup service_id t.services) (not_found (missing "service" service_id))
          require (service.organization_id == organization_id)
              (mismatch "service" "does not belong to organization")
          require (project_id == "" || service.project_id == project_id)
              (mismatch "service" "does not match project"))
        t

  unfoldable pub environment_in_scope : String → App (Unit {0})
  unfolding branch found require is_blank concat
  environment_in_scope environment_id t =
      branch (is_blank environment_id) (return tt)
        (do
          environment ←
              found (lookup environment_id t.environments)
                (not_found (missing "environment" environment_id))
          require (environment.organization_id == organization_id)
              (mismatch "environment" "does not belong to organization")
          require (project_id == "" || environment.project_id == project_id)
              (mismatch "environment" "does not match project"))
        t

  unfoldable pub validate_policy_scope : (service_id environment_id : String) → App (Unit {0})
  validate_policy_scope service_id environment_id = do
    project_in_scope
    service_in_scope service_id
    environment_in_scope environment_id

-- The assignments at the head of `preparePolicy`.
unfoldable pub prepared : Policy → Policy
unfolding trim normalize_policy_code normalize_applies_to normalize_mode determine_scope
    normalize_conditions compute_triggers
prepared policy = record policy {
  name = trim policy.name;
  code = normalize_policy_code policy.code (trim policy.name);
  applies_to = normalize_applies_to policy.applies_to;
  mode = normalize_mode policy.mode;
  scope = determine_scope policy.project_id policy.service_id policy.environment_id;
  conditions = normalize_conditions policy.conditions;
  triggers = compute_triggers (normalize_conditions policy.conditions);
}

unfoldable pub prepare_policy : Policy → App Policy
prepare_policy given = do
  let policy = prepared given
  require (not (policy.name == "")) (fail (validation "name is required"))
  require (not (policy.code == "")) (fail (validation "code is required"))
  valid (validate_applies_to policy.applies_to)
  valid (validate_mode policy.mode)
  valid (validate_conditions policy.conditions)
  validate_policy_scope policy.organization_id policy.project_id policy.service_id
      policy.environment_id
  return policy

-- Another policy has this code.
abbrev pub takes_code : (current_policy_id code : String) → Policy → Bool
takes_code current_policy_id code item =
    not (item.id == current_policy_id) && equal_fold item.code code

unfoldable pub ensure_policy_code_unique :
    (organization_id current_policy_id code : String) → App (Unit {0})
ensure_policy_code_unique organization_id current_policy_id code = do
  items ← list_policies (record zero_policy_query { organization_id = organization_id })
  require (not (any (takes_code current_policy_id code) items))
      (fail (validation (concat ("policy code " ∷ code ∷ " already exists" ∷ []))))

abbrev pub is_enabled : Option Bool → Bool
is_enabled none = true
is_enabled (some enabled) = enabled

-- The policy that `CreatePolicy` makes of a request.
unfoldable pub drafted : Call → CreatePolicyRequest → Policy
unfolding trim normalize_policy_code normalize_applies_to normalize_mode normalize_conditions
drafted call req = record zero_policy {
  base = record {
    id = call.new_id "pol" 0;
    created_at = call.now;
    updated_at = call.now;
    metadata = req.metadata;
  };
  organization_id = trim req.organization_id;
  project_id = trim req.project_id;
  service_id = trim req.service_id;
  environment_id = trim req.environment_id;
  name = trim req.name;
  code = normalize_policy_code req.code req.name;
  applies_to = normalize_applies_to req.applies_to;
  mode = normalize_mode req.mode;
  enabled = is_enabled req.enabled;
  priority = req.priority;
  description = trim req.description;
  conditions = normalize_conditions req.conditions;
}

abbrev pub policy_subject : (event_type resource_id organization_id project_id : String) → Subject
policy_subject event_type resource_id organization_id project_id = record {
  event_type = event_type;
  resource_type = "policy";
  resource_id = resource_id;
  organization_id = organization_id;
  project_id = project_id;
}

abbrev refusal : List String
refusal = "actor lacks policy management permission" ∷ []

-- What is common to the ends of `CreatePolicy` and `UpdatePolicy`.
abbrev policy_recorded : Call → Identity → (event_type summary : String) → Policy → App Policy
policy_recorded call identity event_type summary policy = do
  modify (
      recorded call identity
        (policy_subject event_type policy.id policy.organization_id policy.project_id)
        (policy.name ∷ policy.mode ∷ policy.applies_to ∷ [])
        (with_status_category "governance" ∷ with_status_summary summary ∷ []))
  return policy

unfoldable pub create_policy : Call → CreatePolicyRequest → App Policy
create_policy call req = do
  identity ← require_identity call
  let organization_id = trim req.organization_id
  let project_id = trim req.project_id
  require (not (organization_id == "")) (fail (validation "organization_id is required"))
  require (can_manage_policies identity organization_id project_id) (
      denied call identity (policy_subject "policy.create.denied" "" organization_id project_id)
        refusal)
  policy ← prepare_policy (drafted call req)
  ensure_policy_code_unique policy.organization_id "" policy.code
  Store.create_policy policy
  policy_recorded call identity "policy.created" "policy created" policy

abbrev given : {A : Type 0} → Option A → A → A
given none value = value
given (some new) value = new

-- The fields that `UpdatePolicy` sets.
unfoldable pub changed : Call → UpdatePolicyRequest → Policy → Policy
unfolding trim normalize_policy_code normalize_applies_to normalize_mode normalize_conditions
changed call req policy =
    let name = given (Option.map trim req.name) policy.name in
    record policy {
      base = record policy.base {
        updated_at = call.now;
        metadata = given req.metadata policy.base.metadata;
      };
      project_id = given (Option.map trim req.project_id) policy.project_id;
      service_id = given (Option.map trim req.service_id) policy.service_id;
      environment_id = given (Option.map trim req.environment_id) policy.environment_id;
      name = name;
      code = given (Option.map (λ code. normalize_policy_code code name) req.code) policy.code;
      applies_to = given (Option.map normalize_applies_to req.applies_to) policy.applies_to;
      mode = given (Option.map normalize_mode req.mode) policy.mode;
      enabled = given req.enabled policy.enabled;
      priority = given req.priority policy.priority;
      description = given (Option.map trim req.description) policy.description;
      conditions = given (Option.map normalize_conditions req.conditions) policy.conditions;
    }

unfoldable pub update_policy : Call → String → UpdatePolicyRequest → App Policy
update_policy call id req = do
  identity ← require_identity call
  current ← get_policy id
  require (can_manage_policies identity current.organization_id current.project_id) (
      denied call identity
        (policy_subject "policy.update.denied" current.id current.organization_id
          current.project_id)
        refusal)
  policy ← prepare_policy (changed call req current)
  ensure_policy_code_unique policy.organization_id policy.id policy.code
  Store.update_policy policy
  policy_recorded call identity "policy.updated" "policy updated" policy

-- `ListPolicies` and `GetPolicy`
unfoldable pub all_policies : Call → App (List Policy)
all_policies call = do
  identity ← require_identity call
  organization_id ← require_active_organization identity
  require (can_view_policies identity organization_id "") (fail forbidden)
  list_policies (record zero_policy_query { organization_id = organization_id })

unfoldable pub one_policy : Call → String → App Policy
one_policy call id = do
  identity ← require_identity call
  policy ← get_policy id
  require (can_view_policies identity policy.organization_id policy.project_id) (fail forbidden)
  return policy
