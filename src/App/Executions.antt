-- ===== src/App/Executions.antt =====
-- internal/app/operations.go, runtime.go, integrations_live.go: how an execution is moved by hand, and how
-- verification results are recorded for it.
pub mod Advance
pub mod Verify
use change_control_plane.Prelude.{
  String, Bool, true, false, not, ◌&&◌, ◌||◌, Option, none, some, List, [], ◌∷◌, ◌++◌, ◌==◌,
  if◌then◌else◌, lookup, contains, last?,
}
use change_control_plane.Prelude.Text.{trim, is_blank, equal_fold, normalized}
use change_control_plane.Prelude.Text.Search.{has_prefix}
use change_control_plane.Prelude.Format.{concat, quoted}
use change_control_plane.Prelude.Int.{pos}
use change_control_plane.Types.{
  Time, Integration, RolloutExecution, VerificationResult, RecordVerificationResultRequest,
  AdvanceRolloutExecutionRequest, zero_verification_result,
}
use change_control_plane.Rollouts.Lifecycle.{
  Error, invalid_transition, unsupported_decision, advance_execution, apply_verification_decision,
}
use change_control_plane.Redaction.{
  safe_rollout_execution_for_response, safe_verification_result_for_response,
}
use change_control_plane.Auth.{Identity}
use change_control_plane.Auth.Authorizer.{
  can_execute_rollout, can_override_rollout, can_record_verification,
}
use change_control_plane.App.{
  Tables, Call, AppError, validation, not_found, done, failed, App, found, branch, require, ◌>>=◌,
  ◌>>◌, return, fail, modify, require_identity, value_or_default,
}
use change_control_plane.App.Store.{
  get_rollout_execution, update_rollout_execution, create_verification_result,
  list_verification_results, VerificationResultQuery,
}
use change_control_plane.App.Status.{
  StatusScope, StatusRecordOption, zero_status_scope, with_status_category, with_status_severity,
  with_status_source, with_status_summary, with_status_states, with_status_automated,
  with_status_scope, status_severity_for_transition, status_severity_for_verification,
}
use change_control_plane.App.Record.{Subject, recorded, denied}

unfoldable pub normalize_integration_mode : String → String
normalize_integration_mode mode =
    let name = normalized mode in
    if contains ("" ∷ "advisory-ready" ∷ "advisory" ∷ "read_only" ∷ "read-only" ∷ []) name
    then "advisory"
    else if contains ("active_control" ∷ "control" ∷ "governance" ∷ []) name
    then "active_control"
    else name

unfoldable pub integration_allows_active_control : Option Integration → Bool
integration_allows_active_control none = false
integration_allows_active_control (some integration) =
    integration.enabled
    && integration.control_enabled
    && normalize_integration_mode integration.mode == "active_control"

abbrev pub advisory_message : String
advisory_message =
    "external deployment control is disabled for the configured backend integration; the control plane can observe state and record recommendations, but it will not execute provider mutations"

-- Whether the execution has a live backend at all.
abbrev pub is_simulated : RolloutExecution → Bool
is_simulated execution =
    equal_fold (trim execution.backend_type) "simulated"
    || is_blank execution.backend_integration_id

unfoldable pub execution_advisory_mode_state : RolloutExecution → App (Bool × String)
execution_advisory_mode_state execution t =
    branch (is_simulated execution) (return (false, ""))
      (do
        integration ← found (lookup execution.backend_integration_id t.integrations) (not_found "")
        branch (integration_allows_active_control (some integration)) (return (false, ""))
            (return (true, advisory_message)))
      t

unfoldable pub manual_control_blocked_by_advisory_mode : RolloutExecution → String → App Bool
manual_control_blocked_by_advisory_mode execution action =
    branch (contains ("pause" ∷ "resume" ∷ "continue" ∷ "rollback" ∷ []) (trim action))
      (do state ← execution_advisory_mode_state execution; return state.0) (return false)

-- `err.Error()` of a step of the lifecycle
unfoldable pub error_text : Error → String
unfolding concat quoted
error_text (invalid_transition action current) =
    concat ("invalid rollout transition " ∷ quoted action ∷ " from " ∷ quoted current ∷ [])
error_text (unsupported_decision decision) =
    concat ("unsupported verification decision " ∷ quoted decision ∷ [])

-- The execution of a step, or its error.
unfoldable pub accepted : RolloutExecution × Option Error → App RolloutExecution
accepted (execution, none) = return execution
accepted (execution, some error) = fail (validation (error_text error))

abbrev pub execution_scope : RolloutExecution → StatusScope
execution_scope execution = record zero_status_scope {
  project_id = execution.project_id;
  service_id = execution.service_id;
  environment_id = execution.environment_id;
  rollout_execution_id = execution.id;
  change_set_id = execution.change_set_id;
}

abbrev pub execution_subject :
    (event_type resource_type resource_id : String) → RolloutExecution → Subject
execution_subject event_type resource_type resource_id execution = record {
  event_type = event_type;
  resource_type = resource_type;
  resource_id = resource_id;
  organization_id = execution.organization_id;
  project_id = execution.project_id;
}

abbrev pub override_actions : List String
override_actions = "pause" ∷ "resume" ∷ "continue" ∷ "rollback" ∷ "fail" ∷ []

abbrev advisory_refusal : (action backend_type : String) → String
advisory_refusal action backend_type = concat (
    "advisory mode blocks manual "
    ∷ action
    ∷ " for live "
    ∷ value_or_default backend_type "runtime"
    ∷ " backends; reconcile can observe and recommend, but external deployment control stays disabled until the integration is switched to active_control with control_enabled=true"
    ∷ [])

abbrev transition_options :
    (previous_status action : String) → RolloutExecution → List StatusRecordOption
transition_options previous_status action execution =
    with_status_states previous_status execution.status
    ∷ with_status_source "api"
    ∷ with_status_summary (
        concat (
          "rollout execution moved from " ∷ previous_status ∷ " to " ∷ execution.status ∷ " via "
          ∷ action ∷ []))
    ∷ with_status_severity (status_severity_for_transition action execution.status)
    ∷ with_status_scope (execution_scope execution)
    ∷ []

abbrev pub updated : Time → RolloutExecution → RolloutExecution
updated now execution = record execution { base = record execution.base { updated_at = now } }

-- After the permissions.
unfoldable pub advance_permitted :
    Call → Identity → RolloutExecution → AdvanceRolloutExecutionRequest → App RolloutExecution
advance_permitted call identity current req = do
  let action = trim req.action
  advisory_only ← manual_control_blocked_by_advisory_mode current action
  require (not advisory_only) (fail (validation (advisory_refusal action current.backend_type)))
  moved ← accepted (advance_execution current action req.reason call.now)
  let execution = updated call.now moved
  update_rollout_execution execution
  modify (
      recorded call identity
        (execution_subject "rollout.execution.transitioned" "rollout_execution" execution.id
          execution)
        (execution.status ∷ req.action ∷ []) (transition_options current.status action execution))
  return (safe_rollout_execution_for_response execution)

unfoldable pub advance_rollout_execution :
    Call → String → AdvanceRolloutExecutionRequest → App RolloutExecution
advance_rollout_execution call id req = do
  identity ← require_identity call
  current ← get_rollout_execution id
  let action = trim req.action
  require (can_execute_rollout identity current.organization_id current.project_id) (
      denied call identity
        (execution_subject "rollout.execution.transition.denied" "rollout_execution" current.id
          current)
        ("actor lacks rollout transition permission" ∷ []))
  require
      (not (contains override_actions action)
        || can_override_rollout identity current.organization_id current.project_id)
      (denied call identity
        (execution_subject "rollout.execution.override.denied" "rollout_execution" current.id
          current)
        ("actor lacks rollout override permission" ∷ []))
  advance_permitted call identity current req
