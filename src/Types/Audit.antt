-- ===== src/Types/Audit.antt =====
-- pkg/types/domain.go, pkg/types/runtime_history.go: the logs of audits and of statuses. Each `zero_` value is Go's.
use change_control_plane.Prelude.{String, Bool, false, List, []}
use change_control_plane.Types.Base.{BaseRecord, zero_base_record}

pub record AuditEvent : Type 0 where
  pub base : BaseRecord
  pub open base use *
  pub organization_id : String
  pub project_id : String
  pub actor_id : String
  pub actor_type : String
  pub actor : String
  pub action : String
  pub resource_type : String
  pub resource_id : String
  pub outcome : String
  pub details : List String

abbrev pub zero_audit_event : AuditEvent
zero_audit_event = record {
  base = zero_base_record;
  organization_id = "";
  project_id = "";
  actor_id = "";
  actor_type = "";
  actor = "";
  action = "";
  resource_type = "";
  resource_id = "";
  outcome = "";
  details = [];
}

pub record StatusEvent : Type 0 where
  pub base : BaseRecord
  pub open base use *
  pub organization_id : String
  pub project_id : String
  pub team_id : String
  pub service_id : String
  pub environment_id : String
  pub rollout_execution_id : String
  pub change_set_id : String
  pub resource_type : String
  pub resource_id : String
  pub event_type : String
  pub category : String
  pub severity : String
  pub previous_state : String
  pub new_state : String
  pub outcome : String
  pub actor_id : String
  pub actor_type : String
  pub actor : String
  pub source : String
  pub automated : Bool
  pub summary : String
  pub explanation : List String
  pub correlation_id : String

abbrev pub zero_status_event : StatusEvent
zero_status_event = record {
  base = zero_base_record;
  organization_id = "";
  project_id = "";
  team_id = "";
  service_id = "";
  environment_id = "";
  rollout_execution_id = "";
  change_set_id = "";
  resource_type = "";
  resource_id = "";
  event_type = "";
  category = "";
  severity = "";
  previous_state = "";
  new_state = "";
  outcome = "";
  actor_id = "";
  actor_type = "";
  actor = "";
  source = "";
  automated = false;
  summary = "";
  explanation = [];
  correlation_id = "";
}
