-- ===== src/Types/Governance.antt =====
-- pkg/types/domain.go: policies and what they decide. Each `zero_` value is Go's.
use change_control_plane.Prelude.{String, Bool, false, List, []}
use change_control_plane.Prelude.Int.{ℤ, pos}
use change_control_plane.Types.Base.{BaseRecord, zero_base_record}

pub record PolicyCondition : Type 0 where
  pub min_risk_level : String
  pub production_only : Bool
  pub regulated_only : Bool
  pub required_change_types : List String
  pub required_touches : List String
  pub missing_capabilities : List String

abbrev pub zero_policy_condition : PolicyCondition
zero_policy_condition = record {
  min_risk_level = "";
  production_only = false;
  regulated_only = false;
  required_change_types = [];
  required_touches = [];
  missing_capabilities = [];
}

pub record Policy : Type 0 where
  pub base : BaseRecord
  pub open base use *
  pub organization_id : String
  pub project_id : String
  pub service_id : String
  pub environment_id : String
  pub name : String
  pub code : String
  pub scope : String
  pub applies_to : String
  pub mode : String
  pub enabled : Bool
  pub priority : ℤ
  pub description : String
  pub conditions : PolicyCondition
  pub triggers : List String

abbrev pub zero_policy : Policy
zero_policy = record {
  base = zero_base_record;
  organization_id = "";
  project_id = "";
  service_id = "";
  environment_id = "";
  name = "";
  code = "";
  scope = "";
  applies_to = "";
  mode = "";
  enabled = false;
  priority = pos 0;
  description = "";
  conditions = zero_policy_condition;
  triggers = [];
}

pub record PolicyDecision : Type 0 where
  pub base : BaseRecord
  pub open base use *
  pub organization_id : String
  pub project_id : String
  pub service_id : String
  pub environment_id : String
  pub policy_id : String
  pub policy_name : String
  pub policy_code : String
  pub policy_scope : String
  pub applies_to : String
  pub mode : String
  pub change_set_id : String
  pub risk_assessment_id : String
  pub rollout_plan_id : String
  pub rollout_execution_id : String
  pub release_id : String
  pub config_set_id : String
  pub database_change_id : String
  pub outcome : String
  pub summary : String
  pub reasons : List String

abbrev pub zero_policy_decision : PolicyDecision
zero_policy_decision = record {
  base = zero_base_record;
  organization_id = "";
  project_id = "";
  service_id = "";
  environment_id = "";
  policy_id = "";
  policy_name = "";
  policy_code = "";
  policy_scope = "";
  applies_to = "";
  mode = "";
  change_set_id = "";
  risk_assessment_id = "";
  rollout_plan_id = "";
  rollout_execution_id = "";
  release_id = "";
  config_set_id = "";
  database_change_id = "";
  outcome = "";
  summary = "";
  reasons = [];
}
