-- ===== src/App/Executions/Verify.antt =====
-- internal/app/operations.go, runtime.go: how verification results are recorded. A transaction of the store
-- in memory is a plain call: what was written before an error stays.
pub mod Applied
pub mod Recorded
pub mod Advisory
use mathlib.Core.Option
use change_control_plane.Prelude.{
  String, Bool, true, false, not, ◌&&◌, ◌||◌, Option, none, some, List, [], ◌∷◌, ◌++◌, ◌==◌,
  if◌then◌else◌, contains, last?,
}
use change_control_plane.Prelude.Text.{trim, is_blank}
use change_control_plane.Prelude.Text.Search.{has_prefix}
use change_control_plane.Prelude.Format.{concat}
use change_control_plane.Prelude.Int.{pos}
use change_control_plane.Types.{
  RolloutExecution, VerificationResult, RecordVerificationResultRequest,
}
use change_control_plane.Rollouts.Lifecycle.{apply_verification_decision}
use change_control_plane.Redaction.{safe_verification_result_for_response}
use change_control_plane.Auth.{Identity}
use change_control_plane.Auth.Authorizer.{can_override_rollout, can_record_verification}
use change_control_plane.App.{
  Tables, Call, validation, done, App, branch, require, ◌>>=◌, ◌>>◌, return, fail, modify,
  require_identity, value_or_default,
}
use change_control_plane.App.Store.{
  get_rollout_execution, update_rollout_execution, create_verification_result,
  list_verification_results, VerificationResultQuery,
}
use change_control_plane.App.Status.{
  StatusScope, StatusRecordOption, zero_status_scope, with_status_category, with_status_severity,
  with_status_source, with_status_summary, with_status_automated, with_status_scope,
  status_severity_for_verification,
}
use change_control_plane.App.Record.{recorded, denied}
use change_control_plane.App.Executions.{
  execution_advisory_mode_state, accepted, updated, execution_subject,
}

unfoldable pub compact_detail_list : List String → List String
unfolding trim is_blank
compact_detail_list [] = []
compact_detail_list (item ∷ items) =
    let rest = compact_detail_list items in if is_blank item then rest else trim item ∷ rest

unfoldable pub advisory_decision : String → String
advisory_decision decision =
    if decision == "rollback"
    then "advisory_rollback"
    else if decision == "pause" || decision == "manual_review_required"
    then "advisory_pause"
    else if decision == "failed"
    then "advisory_failed"
    else "advisory_verified"

unfoldable pub advisory_verification_request :
    RecordVerificationResultRequest → RecordVerificationResultRequest
unfolding trim compact_detail_list
advisory_verification_request request = record request {
  decision = advisory_decision (trim request.decision);
  summary = concat ("Advisory recommendation: " ∷ trim request.summary ∷ []);
  explanation = compact_detail_list (
      request.explanation
      ++ "external deployment control is disabled; the control plane recorded an advisory recommendation instead of acting on the deployment target"
        ∷ []);
}

-- The request as it is taken, once the mode of the execution is known.
unfoldable pub request_in_mode :
    Bool × String → RecordVerificationResultRequest → RecordVerificationResultRequest
unfolding trim compact_detail_list
request_in_mode (advisory_only, message) req =
    let advised = advisory_verification_request req in
    if advisory_only && not (has_prefix (trim req.decision) "advisory_")
    then record advised { explanation = compact_detail_list (advised.explanation ++ message ∷ []) }
    else req

unfoldable pub execution_reflects_verification_decision : (status decision : String) → Bool
unfolding trim
execution_reflects_verification_decision status decision =
    let name = trim decision in
    if name == "continue" || name == "verified"
    then status == "verified"
    else if name == "pause" || name == "manual_review_required"
    then status == "paused"
    else if name == "rollback"
    then status == "rolled_back"
    else if name == "failed"
    then status == "failed"
    else false

-- The latest result, if there is one and the request only repeats it.
unfoldable pub should_skip_automated_verification_record :
    RolloutExecution → Option VerificationResult → RecordVerificationResultRequest → Bool
unfolding trim value_or_default
should_skip_automated_verification_record execution none proposed = false
should_skip_automated_verification_record execution (some latest) proposed =
    if not proposed.automated || not latest.automated
    then false
    else if not (execution_reflects_verification_decision execution.status (trim proposed.decision))
    then false
    else latest.decision_source == value_or_default proposed.decision_source "manual"
      && latest.decision == trim proposed.decision
      && latest.outcome == trim proposed.outcome
      && latest.summary == proposed.summary

unfoldable pub result_of :
    Call → RolloutExecution → RecordVerificationResultRequest → VerificationResult
unfolding trim value_or_default
result_of call execution req = record {
  base = record {
    id = call.new_id "verify" 0;
    created_at = call.now;
    updated_at = call.now;
    metadata = req.metadata;
  };
  organization_id = execution.organization_id;
  project_id = execution.project_id;
  rollout_execution_id = execution.id;
  rollout_plan_id = execution.rollout_plan_id;
  change_set_id = execution.change_set_id;
  service_id = execution.service_id;
  environment_id = execution.environment_id;
  status = "recorded";
  outcome = trim req.outcome;
  decision = trim req.decision;
  signals = req.signals;
  technical_signal_summary = req.technical_signal_summary;
  business_signal_summary = req.business_signal_summary;
  automated = req.automated;
  decision_source = value_or_default req.decision_source "manual";
  signal_snapshot_ids = req.signal_snapshot_ids;
  summary = req.summary;
  explanation = req.explanation;
  action_state = "";
  control_mode = "";
}

abbrev pub results_query : RolloutExecution → VerificationResultQuery
results_query execution = record {
  organization_id = execution.organization_id;
  project_id = execution.project_id;
  rollout_execution_id = execution.id;
  limit = pos 0;
  offset = pos 0;
}

abbrev result_options : VerificationResult → List StatusRecordOption
result_options result =
    with_status_category "verification"
    ∷ with_status_severity (status_severity_for_verification result)
    ∷ with_status_source (value_or_default result.decision_source "manual")
    ∷ with_status_automated result.automated
    ∷ with_status_summary result.summary
    ∷ with_status_scope (record zero_status_scope {
      project_id = result.project_id;
      service_id = result.service_id;
      environment_id = result.environment_id;
      rollout_execution_id = result.rollout_execution_id;
      change_set_id = result.change_set_id;
    })
    ∷ []

-- The body of the transaction after the test for a repetition: the result and the execution.
unfoldable pub store_result :
    Call → RolloutExecution → RecordVerificationResultRequest → App VerificationResult
store_result call current req = do
  let result = result_of call current req
  require (not (result.outcome == "" || result.decision == ""))
      (fail (validation "outcome and decision are required"))
  create_verification_result result
  moved ← accepted (apply_verification_decision current result call.now)
  update_rollout_execution (updated call.now moved)
  return result

-- What follows the permissions: the transaction, and the record of a new result.
unfoldable pub record_admitted :
    Call
    → Identity
    → (execution_id : String) → RecordVerificationResultRequest
    → RolloutExecution
    → App (Option VerificationResult × Bool)
record_admitted call identity execution_id req current = do
  state ← execution_advisory_mode_state current
  let taken = request_in_mode state req
  existing ← list_verification_results (results_query current)
  let latest = last? existing
  branch (should_skip_automated_verification_record current latest taken) (return (latest, false))
      do
        result ← store_result call current taken
        modify (
            recorded call identity
              (record (execution_subject "verification.recorded" "rollout_execution" execution_id
                current) {
                  organization_id = result.organization_id;
                  project_id = result.project_id;
                })
              (result.id ∷ result.outcome ∷ result.decision ∷ result.decision_source ∷ [])
              (result_options result))
        return (some result, true)

unfoldable pub record_verification_result_internal :
    Call → String → RecordVerificationResultRequest → App (Option VerificationResult × Bool)
record_verification_result_internal call execution_id req = do
  identity ← require_identity call
  execution ← get_rollout_execution execution_id
  require (can_record_verification identity execution.organization_id execution.project_id) (
      denied call identity
        (execution_subject "verification.record.denied" "verification_result" "" execution)
        ("actor lacks verification permission" ∷ []))
  require
      (req.automated
        || not (contains ("rollback" ∷ "pause" ∷ "failed" ∷ []) (trim req.decision))
        || can_override_rollout identity execution.organization_id execution.project_id)
      (denied call identity
        (execution_subject "verification.override.denied" "verification_result" "" execution)
        ("actor lacks verification override permission" ∷ []))
  current ← get_rollout_execution execution_id
  record_admitted call identity execution.id req current

-- `RecordVerificationResult`: the result without the flag, for the response.
unfoldable pub record_verification_result :
    Call → String → RecordVerificationResultRequest → App (Option VerificationResult)
record_verification_result call execution_id req = do
  recorded ← record_verification_result_internal call execution_id req
  return (Option.map safe_verification_result_for_response recorded.0)
