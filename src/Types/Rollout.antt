-- ===== src/Types/Rollout.antt =====
-- pkg/types/api.go, pkg/types/domain.go, pkg/types/runtime_history.go: rollout plans, executions, and the results and signals of their verification. Each `zero_` value is Go's.
use change_control_plane.Prelude.{String, Bool, false, Option, none, List, []}
use change_control_plane.Prelude.Int.{ℤ, pos}
use change_control_plane.Types.Base.{Time, Float, Metadata, BaseRecord, zero_base_record}

pub record RolloutStep : Type 0 where
  pub name : String
  pub description : String
  pub guards : List String

abbrev pub zero_rollout_step : RolloutStep
zero_rollout_step = record { name = ""; description = ""; guards = [] }

pub record RolloutPlan : Type 0 where
  pub base : BaseRecord
  pub open base use *
  pub organization_id : String
  pub project_id : String
  pub change_set_id : String
  pub risk_assessment_id : String
  pub strategy : String
  pub approval_required : Bool
  pub approval_level : String
  pub deployment_window : String
  pub additional_verification : Bool
  pub rollback_precheck_required : Bool
  pub business_hours_restriction : Bool
  pub off_hours_preferred : Bool
  pub verification_signals : List String
  pub rollback_conditions : List String
  pub guardrails : List String
  pub steps : List RolloutStep
  pub explanation : List String

abbrev pub zero_rollout_plan : RolloutPlan
zero_rollout_plan = record {
  base = zero_base_record;
  organization_id = "";
  project_id = "";
  change_set_id = "";
  risk_assessment_id = "";
  strategy = "";
  approval_required = false;
  approval_level = "";
  deployment_window = "";
  additional_verification = false;
  rollback_precheck_required = false;
  business_hours_restriction = false;
  off_hours_preferred = false;
  verification_signals = [];
  rollback_conditions = [];
  guardrails = [];
  steps = [];
  explanation = [];
}

pub record RolloutExecution : Type 0 where
  pub base : BaseRecord
  pub open base use *
  pub organization_id : String
  pub project_id : String
  pub rollout_plan_id : String
  pub release_id : String
  pub change_set_id : String
  pub service_id : String
  pub environment_id : String
  pub backend_type : String
  pub backend_integration_id : String
  pub signal_provider_type : String
  pub signal_integration_id : String
  pub backend_execution_id : String
  pub backend_status : String
  pub progress_percent : ℤ
  pub status : String
  pub current_step : String
  pub last_decision : String
  pub last_decision_reason : String
  pub last_verification_result : String
  pub submitted_at : Option Time
  pub started_at : Option Time
  pub completed_at : Option Time
  pub last_reconciled_at : Option Time
  pub last_backend_sync_at : Option Time
  pub last_signal_sync_at : Option Time
  pub last_error : String

abbrev pub zero_rollout_execution : RolloutExecution
zero_rollout_execution = record {
  base = zero_base_record;
  organization_id = "";
  project_id = "";
  rollout_plan_id = "";
  release_id = "";
  change_set_id = "";
  service_id = "";
  environment_id = "";
  backend_type = "";
  backend_integration_id = "";
  signal_provider_type = "";
  signal_integration_id = "";
  backend_execution_id = "";
  backend_status = "";
  progress_percent = pos 0;
  status = "";
  current_step = "";
  last_decision = "";
  last_decision_reason = "";
  last_verification_result = "";
  submitted_at = none;
  started_at = none;
  completed_at = none;
  last_reconciled_at = none;
  last_backend_sync_at = none;
  last_signal_sync_at = none;
  last_error = "";
}

pub record VerificationResult : Type 0 where
  pub base : BaseRecord
  pub open base use *
  pub organization_id : String
  pub project_id : String
  pub rollout_execution_id : String
  pub rollout_plan_id : String
  pub change_set_id : String
  pub service_id : String
  pub environment_id : String
  pub status : String
  pub outcome : String
  pub decision : String
  pub signals : List String
  pub technical_signal_summary : Metadata
  pub business_signal_summary : Metadata
  pub automated : Bool
  pub decision_source : String
  pub signal_snapshot_ids : List String
  pub summary : String
  pub explanation : List String
  pub action_state : String
  pub control_mode : String

abbrev pub zero_verification_result : VerificationResult
zero_verification_result = record {
  base = zero_base_record;
  organization_id = "";
  project_id = "";
  rollout_execution_id = "";
  rollout_plan_id = "";
  change_set_id = "";
  service_id = "";
  environment_id = "";
  status = "";
  outcome = "";
  decision = "";
  signals = [];
  technical_signal_summary = [];
  business_signal_summary = [];
  automated = false;
  decision_source = "";
  signal_snapshot_ids = [];
  summary = "";
  explanation = [];
  action_state = "";
  control_mode = "";
}

pub record SignalValue : Type 0 where
  pub name : String
  pub category : String
  pub value : Float
  pub unit : String
  pub status : String
  pub threshold : Float
  pub comparator : String

abbrev pub zero_signal_value : SignalValue
zero_signal_value = record {
  name = "";
  category = "";
  value = pos 0;
  unit = "";
  status = "";
  threshold = pos 0;
  comparator = "";
}

pub record SignalSnapshot : Type 0 where
  pub base : BaseRecord
  pub open base use *
  pub organization_id : String
  pub project_id : String
  pub rollout_execution_id : String
  pub rollout_plan_id : String
  pub change_set_id : String
  pub service_id : String
  pub environment_id : String
  pub provider_type : String
  pub source_integration_id : String
  pub health : String
  pub summary : String
  pub signals : List SignalValue
  pub window_start : Time
  pub window_end : Time

abbrev pub zero_signal_snapshot : SignalSnapshot
zero_signal_snapshot = record {
  base = zero_base_record;
  organization_id = "";
  project_id = "";
  rollout_execution_id = "";
  rollout_plan_id = "";
  change_set_id = "";
  service_id = "";
  environment_id = "";
  provider_type = "";
  source_integration_id = "";
  health = "";
  summary = "";
  signals = [];
  window_start = 0;
  window_end = 0;
}

pub record RollbackPolicy : Type 0 where
  pub base : BaseRecord
  pub open base use *
  pub organization_id : String
  pub project_id : String
  pub service_id : String
  pub environment_id : String
  pub name : String
  pub description : String
  pub enabled : Bool
  pub priority : ℤ
  pub max_error_rate : Float
  pub max_latency_ms : Float
  pub minimum_throughput : Float
  pub max_unhealthy_instances : ℤ
  pub max_restart_rate : Float
  pub max_verification_failures : ℤ
  pub rollback_on_provider_failure : Bool
  pub rollback_on_critical_signals : Bool

abbrev pub zero_rollback_policy : RollbackPolicy
zero_rollback_policy = record {
  base = zero_base_record;
  organization_id = "";
  project_id = "";
  service_id = "";
  environment_id = "";
  name = "";
  description = "";
  enabled = false;
  priority = pos 0;
  max_error_rate = pos 0;
  max_latency_ms = pos 0;
  minimum_throughput = pos 0;
  max_unhealthy_instances = pos 0;
  max_restart_rate = pos 0;
  max_verification_failures = pos 0;
  rollback_on_provider_failure = false;
  rollback_on_critical_signals = false;
}

pub record RecordVerificationResultRequest : Type 0 where
  pub outcome : String
  pub decision : String
  pub signals : List String
  pub technical_signal_summary : Metadata
  pub business_signal_summary : Metadata
  pub automated : Bool
  pub decision_source : String
  pub signal_snapshot_ids : List String
  pub summary : String
  pub explanation : List String
  pub metadata : Metadata

abbrev pub zero_record_verification_result_request : RecordVerificationResultRequest
zero_record_verification_result_request = record {
  outcome = "";
  decision = "";
  signals = [];
  technical_signal_summary = [];
  business_signal_summary = [];
  automated = false;
  decision_source = "";
  signal_snapshot_ids = [];
  summary = "";
  explanation = [];
  metadata = [];
}
