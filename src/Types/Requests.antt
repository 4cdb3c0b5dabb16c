-- ===== src/Types/Requests.antt =====
-- pkg/types: the requests of the operations. Each `zero_` value is Go's. In an update a nil map, which
-- leaves the metadata alone, is told apart from an empty one.
use change_control_plane.Prelude.{String, Bool, Option, none, []}
use change_control_plane.Prelude.Int.{ℤ, pos}
use change_control_plane.Types.Base.{Metadata}
use change_control_plane.Types.Governance.{PolicyCondition, zero_policy_condition}

pub record CreatePolicyRequest : Type 0 where
  pub organization_id : String
  pub project_id : String
  pub service_id : String
  pub environment_id : String
  pub name : String
  pub code : String
  pub applies_to : String
  pub mode : String
  pub enabled : Option Bool
  pub priority : ℤ
  pub description : String
  pub conditions : PolicyCondition
  pub metadata : Metadata

abbrev pub zero_create_policy_request : CreatePolicyRequest
zero_create_policy_request = record {
  organization_id = "";
  project_id = "";
  service_id = "";
  environment_id = "";
  name = "";
  code = "";
  applies_to = "";
  mode = "";
  enabled = none;
  priority = pos 0;
  description = "";
  conditions = zero_policy_condition;
  metadata = [];
}

pub record UpdatePolicyRequest : Type 0 where
  pub project_id : Option String
  pub service_id : Option String
  pub environment_id : Option String
  pub name : Option String
  pub code : Option String
  pub applies_to : Option String
  pub mode : Option String
  pub enabled : Option Bool
  pub priority : Option ℤ
  pub description : Option String
  pub conditions : Option PolicyCondition
  pub metadata : Option Metadata

abbrev pub zero_update_policy_request : UpdatePolicyRequest
zero_update_policy_request = record {
  project_id = none;
  service_id = none;
  environment_id = none;
  name = none;
  code = none;
  applies_to = none;
  mode = none;
  enabled = none;
  priority = none;
  description = none;
  conditions = none;
  metadata = none;
}

pub record AdvanceRolloutExecutionRequest : Type 0 where
  pub action : String
  pub reason : String

abbrev pub zero_advance_rollout_execution_request : AdvanceRolloutExecutionRequest
zero_advance_rollout_execution_request = record { action = ""; reason = "" }
