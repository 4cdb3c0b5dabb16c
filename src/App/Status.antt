-- ===== src/App/Status.antt =====
-- internal/app/status.go, internal/status/service.go: the status event that goes with an audit event.
use change_control_plane.Prelude.{
  String, Bool, false, not, ◌||◌, Option, none, some, List, [], ◌∷◌, ◌==◌, if◌then◌else◌, lookup,
  insert, is_empty,
}
use change_control_plane.Prelude.Text.{trim, is_blank, join}
use change_control_plane.Prelude.Text.Search.{contains_one_of, blanked}
use change_control_plane.Prelude.Format.{concat}
use change_control_plane.Types.{
  Metadata, texts, ChangeSet, RiskAssessment, RolloutPlan, RolloutExecution, VerificationResult,
  Service, Environment, Team, AuditEvent, StatusEvent,
}
use change_control_plane.Auth.{Identity, actor_label}
use change_control_plane.App.{Tables, Call, value_or_default}

pub record StatusScope : Type 0 where
  pub project_id : String
  pub team_id : String
  pub service_id : String
  pub environment_id : String
  pub rollout_execution_id : String
  pub change_set_id : String

abbrev pub zero_status_scope : StatusScope
zero_status_scope = record {
  project_id = "";
  team_id = "";
  service_id = "";
  environment_id = "";
  rollout_execution_id = "";
  change_set_id = "";
}

pub record StatusRecordOptions : Type 0 where
  pub category : String
  pub severity : String
  pub previous_state : String
  pub new_state : String
  pub source : String
  pub summary : String
  pub automated : Option Bool
  pub correlation_id : String
  pub metadata : Metadata
  pub scope : StatusScope

abbrev pub zero_status_record_options : StatusRecordOptions
zero_status_record_options = record {
  category = "";
  severity = "";
  previous_state = "";
  new_state = "";
  source = "";
  summary = "";
  automated = none;
  correlation_id = "";
  metadata = [];
  scope = zero_status_scope;
}

abbrev pub StatusRecordOption : Type 0
StatusRecordOption = StatusRecordOptions → StatusRecordOptions

module _ (text : String) (options : StatusRecordOptions) where
  unfoldable pub with_status_category : StatusRecordOptions
  unfolding trim
  with_status_category = record options { category = trim text }

  unfoldable pub with_status_severity : StatusRecordOptions
  unfolding trim
  with_status_severity = record options { severity = trim text }

  unfoldable pub with_status_source : StatusRecordOptions
  unfolding trim
  with_status_source = record options { source = trim text }

  unfoldable pub with_status_summary : StatusRecordOptions
  unfolding trim
  with_status_summary = record options { summary = trim text }

unfoldable pub with_status_states : (previous next : String) → StatusRecordOption
unfolding trim
with_status_states previous next options = record options {
  previous_state = trim previous;
  new_state = trim next;
}

unfoldable pub with_status_automated : Bool → StatusRecordOption
with_status_automated automated options = record options { automated = some automated }

unfoldable pub with_status_metadata : Metadata → StatusRecordOption
with_status_metadata metadata options = record options { metadata = metadata }

unfoldable pub with_status_scope : StatusScope → StatusRecordOption
with_status_scope scope options = record options { scope = scope }

unfoldable pub merged : List StatusRecordOption → StatusRecordOptions → StatusRecordOptions
merged [] options = options
merged (option ∷ more) options = merged more (option options)

-- The scope of a resource that is looked up; `none` where it is missing.
module _ (scope : StatusScope) where
  abbrev team_scope : Option Team → Option StatusScope
  team_scope none = none
  team_scope (some team) = some (record scope { project_id = team.project_id; team_id = team.id })

  abbrev service_scope : Option Service → Option StatusScope
  service_scope none = none
  service_scope (some service) =
      some (record scope { project_id = service.project_id; service_id = service.id })

  abbrev environment_scope : Option Environment → Option StatusScope
  environment_scope none = none
  environment_scope (some environment) =
      some (record scope { project_id = environment.project_id; environment_id = environment.id })

  abbrev change_set_scope : Option ChangeSet → Option StatusScope
  change_set_scope none = none
  change_set_scope (some change) = some (record scope {
    project_id = change.project_id;
    service_id = change.service_id;
    environment_id = change.environment_id;
    change_set_id = change.id;
  })

  abbrev assessment_scope : Option RiskAssessment → Option StatusScope
  assessment_scope none = none
  assessment_scope (some assessment) = some (record scope {
    project_id = assessment.project_id;
    service_id = assessment.service_id;
    environment_id = assessment.environment_id;
    change_set_id = assessment.change_set_id;
  })

  -- `if changeSet, err := ...; err == nil`
  abbrev with_change : Option ChangeSet → StatusScope
  with_change none = scope
  with_change (some change) = record scope {
    service_id = change.service_id;
    environment_id = change.environment_id;
  }

  abbrev execution_scope : Option RolloutExecution → Option StatusScope
  execution_scope none = none
  execution_scope (some execution) = some (record scope {
    project_id = execution.project_id;
    service_id = execution.service_id;
    environment_id = execution.environment_id;
    rollout_execution_id = execution.id;
    change_set_id = execution.change_set_id;
  })

abbrev plan_scope : Tables → StatusScope → Option RolloutPlan → Option StatusScope
plan_scope t scope none = none
plan_scope t scope (some plan) = some (
    with_change (record scope { project_id = plan.project_id; change_set_id = plan.change_set_id })
      (lookup plan.change_set_id t.change_sets))

unfoldable pub resolve_status_scope :
    Tables → (resource_type resource_id project_id : String) → Option StatusScope
resolve_status_scope t resource_type resource_id project_id =
    let scope = record zero_status_scope { project_id = project_id } in
    if resource_type == "project"
    then some (record scope { project_id = resource_id })
    else if resource_type == "team"
    then team_scope scope (lookup resource_id t.teams)
    else if resource_type == "service"
    then service_scope scope (lookup resource_id t.services)
    else if resource_type == "environment"
    then environment_scope scope (lookup resource_id t.environments)
    else if resource_type == "change_set"
    then change_set_scope scope (lookup resource_id t.change_sets)
    else if resource_type == "risk_assessment"
    then assessment_scope scope (lookup resource_id t.risk_assessments)
    else if resource_type == "rollout_plan"
    then plan_scope t scope (lookup resource_id t.rollout_plans)
    else if resource_type == "rollout_execution"
    then execution_scope scope (lookup resource_id t.rollout_executions)
    else some scope

unfoldable pub infer_status_category : String → String
unfolding contains_one_of
infer_status_category event_type =
    if contains_one_of event_type ("rollout" ∷ [])
    then "rollout"
    else if contains_one_of event_type ("verification" ∷ "signal" ∷ [])
    then "verification"
    else if contains_one_of event_type ("token" ∷ "service_account" ∷ "auth" ∷ [])
    then "security"
    else if contains_one_of event_type ("integration" ∷ "provider" ∷ [])
    then "integration"
    else "operations"

unfoldable pub infer_status_severity : String → String
unfolding contains_one_of
infer_status_severity event_type =
    if contains_one_of event_type ("failed" ∷ "denied" ∷ "rollback" ∷ [])
    then "warning"
    else if contains_one_of event_type ("error" ∷ [])
    then "error"
    else "info"

unfoldable pub infer_status_source : String → String
unfolding contains_one_of
infer_status_source event_type =
    if contains_one_of event_type ("control_loop" ∷ "verified_automatically" ∷ [])
    then "control_loop"
    else "api"

unfoldable pub infer_status_summary : String → List String → String
unfolding trim blanked concat join
infer_status_summary event_type details =
    let title = blanked b'.' (trim event_type) in
    if is_empty details then title else concat (title ∷ ": " ∷ join details "; " ∷ [])

unfoldable pub compact_status_explanation : List String → List String
unfolding trim is_blank
compact_status_explanation [] = []
compact_status_explanation (item ∷ items) =
    let rest = compact_status_explanation items in if is_blank item then rest else trim item ∷ rest

abbrev pub text_or : String → String → String
text_or value fallback = if not (value == "") then value else fallback

-- The scope of the options goes before the one of the resource.
unfoldable pub scoped : StatusScope → StatusScope → StatusScope
scoped given resolved = record {
  project_id = text_or given.project_id resolved.project_id;
  team_id = text_or given.team_id resolved.team_id;
  service_id = text_or given.service_id resolved.service_id;
  environment_id = text_or given.environment_id resolved.environment_id;
  rollout_execution_id = text_or given.rollout_execution_id resolved.rollout_execution_id;
  change_set_id = text_or given.change_set_id resolved.change_set_id;
}

abbrev resolved_or : Option StatusScope → String → StatusScope
resolved_or none project_id = record zero_status_scope { project_id = project_id }
resolved_or (some scope) project_id = scope

abbrev is_automated : Option Bool → Bool
is_automated none = false
is_automated (some automated) = automated

-- The event that `Record` of the status service stores.
unfoldable pub status_event_of :
    Call → Identity → AuditEvent → List String → StatusRecordOptions → StatusScope → StatusEvent
unfolding value_or_default compact_status_explanation infer_status_category infer_status_severity
    infer_status_source infer_status_summary actor_label
status_event_of call identity event details options scope = record {
  base = record {
    id = call.new_id "status" 0;
    created_at = call.now;
    updated_at = call.now;
    metadata =
        if is_empty details
        then options.metadata
        else insert options.metadata "details" (texts details);
  };
  organization_id = event.organization_id;
  project_id = scope.project_id;
  team_id = scope.team_id;
  service_id = scope.service_id;
  environment_id = scope.environment_id;
  rollout_execution_id = scope.rollout_execution_id;
  change_set_id = scope.change_set_id;
  resource_type = event.resource_type;
  resource_id = event.resource_id;
  event_type = event.action;
  category = value_or_default options.category (infer_status_category event.action);
  severity = value_or_default options.severity (infer_status_severity event.action);
  previous_state = options.previous_state;
  new_state = options.new_state;
  outcome = event.outcome;
  actor_id = identity.actor_id;
  actor_type = identity.actor_type;
  actor = actor_label identity;
  source = value_or_default options.source (infer_status_source event.action);
  automated = is_automated options.automated;
  summary = value_or_default options.summary (infer_status_summary event.action details);
  explanation = compact_status_explanation details;
  correlation_id = value_or_default options.correlation_id event.id;
}

unfoldable pub emit_status_event_from_audit :
    Call → Identity → AuditEvent → List String → List StatusRecordOption → Tables → Tables
unfolding merged resolve_status_scope scoped status_event_of
emit_status_event_from_audit call identity event details options t =
    let chosen = merged options zero_status_record_options in
    let resolved =
      resolved_or (resolve_status_scope t event.resource_type event.resource_id event.project_id)
        event.project_id in
    let item = status_event_of call identity event details chosen (scoped chosen.scope resolved) in
    record t { status_events = insert t.status_events item.id item }

unfoldable pub status_severity_for_transition : (action next_state : String) → String
status_severity_for_transition action next_state =
    if action == "rollback" || next_state == "rolled_back"
    then "warning"
    else if action == "fail" || next_state == "failed"
    then "error"
    else "info"

unfoldable pub status_severity_for_verification : VerificationResult → String
status_severity_for_verification result =
    if result.decision == "rollback"
      || result.decision == "failed"
      || result.decision == "advisory_rollback"
      || result.decision == "advisory_failed"
    then "warning"
    else if result.decision == "pause"
        || result.decision == "manual_review_required"
        || result.decision == "advisory_pause"
    then "warning"
    else "info"
