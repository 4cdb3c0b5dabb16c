-- ===== src/Types/Change.antt =====
-- pkg/types/domain.go: the change, its project, service and environment, and its risk
-- assessment. Each `zero_` value is Go's.
use change_control_plane.Prelude.{String, Bool, false, List, []}
use change_control_plane.Prelude.Int.{ℤ, pos}
use change_control_plane.Types.Base.{Float, RiskLevel, BaseRecord, zero_base_record}

pub record Environment : Type 0 where
  pub base : BaseRecord
  pub open base use *
  pub organization_id : String
  pub project_id : String
  pub name : String
  pub slug : String
  pub type : String
  pub region : String
  pub production : Bool
  pub compliance_zone : String
  pub status : String

abbrev pub zero_environment : Environment
zero_environment = record {
  base = zero_base_record;
  organization_id = "";
  project_id = "";
  name = "";
  slug = "";
  type = "";
  region = "";
  production = false;
  compliance_zone = "";
  status = "";
}

pub record Service : Type 0 where
  pub base : BaseRecord
  pub open base use *
  pub organization_id : String
  pub project_id : String
  pub team_id : String
  pub name : String
  pub slug : String
  pub description : String
  pub criticality : String
  pub tier : String
  pub customer_facing : Bool
  pub has_slo : Bool
  pub has_observability : Bool
  pub regulated_zone : Bool
  pub dependent_services_count : ℤ
  pub status : String

abbrev pub zero_service : Service
zero_service = record {
  base = zero_base_record;
  organization_id = "";
  project_id = "";
  team_id = "";
  name = "";
  slug = "";
  description = "";
  criticality = "";
  tier = "";
  customer_facing = false;
  has_slo = false;
  has_observability = false;
  regulated_zone = false;
  dependent_services_count = pos 0;
  status = "";
}

pub record Team : Type 0 where
  pub base : BaseRecord
  pub open base use *
  pub organization_id : String
  pub project_id : String
  pub name : String
  pub slug : String
  pub owner_user_ids : List String
  pub status : String

abbrev pub zero_team : Team
zero_team = record {
  base = zero_base_record;
  organization_id = "";
  project_id = "";
  name = "";
  slug = "";
  owner_user_ids = [];
  status = "";
}

pub record ChangeSet : Type 0 where
  pub base : BaseRecord
  pub open base use *
  pub organization_id : String
  pub project_id : String
  pub service_id : String
  pub environment_id : String
  pub summary : String
  pub change_types : List String
  pub file_count : ℤ
  pub resource_count : ℤ
  pub touches_infrastructure : Bool
  pub touches_iam : Bool
  pub touches_secrets : Bool
  pub touches_schema : Bool
  pub dependency_changes : Bool
  pub historical_incident_count : ℤ
  pub poor_rollback_history : Bool
  pub status : String

abbrev pub zero_change_set : ChangeSet
zero_change_set = record {
  base = zero_base_record;
  organization_id = "";
  project_id = "";
  service_id = "";
  environment_id = "";
  summary = "";
  change_types = [];
  file_count = pos 0;
  resource_count = pos 0;
  touches_infrastructure = false;
  touches_iam = false;
  touches_secrets = false;
  touches_schema = false;
  dependency_changes = false;
  historical_incident_count = pos 0;
  poor_rollback_history = false;
  status = "";
}

pub record BlastRadius : Type 0 where
  pub scope : String
  pub services_impacted : ℤ
  pub resources_impacted : ℤ
  pub customer_journeys : List String
  pub regulated_systems : Bool
  pub production_impact : Bool
  pub customer_facing_impact : Bool
  pub summary : String

abbrev pub zero_blast_radius : BlastRadius
zero_blast_radius = record {
  scope = "";
  services_impacted = pos 0;
  resources_impacted = pos 0;
  customer_journeys = [];
  regulated_systems = false;
  production_impact = false;
  customer_facing_impact = false;
  summary = "";
}

pub record RiskAssessment : Type 0 where
  pub base : BaseRecord
  pub open base use *
  pub organization_id : String
  pub project_id : String
  pub change_set_id : String
  pub service_id : String
  pub environment_id : String
  pub score : ℤ
  pub level : RiskLevel
  pub confidence_score : Float
  pub explanation : List String
  pub blast_radius : BlastRadius
  pub recommended_approval_level : String
  pub recommended_rollout_strategy : String
  pub recommended_deployment_window : String
  pub recommended_guardrails : List String

abbrev pub zero_risk_assessment : RiskAssessment
zero_risk_assessment = record {
  base = zero_base_record;
  organization_id = "";
  project_id = "";
  change_set_id = "";
  service_id = "";
  environment_id = "";
  score = pos 0;
  level = "";
  confidence_score = pos 0;
  explanation = [];
  blast_radius = zero_blast_radius;
  recommended_approval_level = "";
  recommended_rollout_strategy = "";
  recommended_deployment_window = "";
  recommended_guardrails = [];
}

pub record Project : Type 0 where
  pub base : BaseRecord
  pub open base use *
  pub organization_id : String
  pub name : String
  pub slug : String
  pub description : String
  pub adoption_mode : String
  pub status : String

abbrev pub zero_project : Project
zero_project = record {
  base = zero_base_record;
  organization_id = "";
  name = "";
  slug = "";
  description = "";
  adoption_mode = "";
  status = "";
}
