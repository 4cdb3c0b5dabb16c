-- ===== src/Types/Runtime.antt =====
-- internal/delivery/provider.go, pkg/types/domain.go: what the control loop reads of one execution. Each `zero_` value is Go's.
use change_control_plane.Prelude.{String, Bool, false, Option, none, List, []}
use change_control_plane.Prelude.Int.{ℤ, pos}
use change_control_plane.Types.Base.{Time, Metadata, BaseRecord, zero_base_record}
use change_control_plane.Types.Change.{
  Environment, Service, ChangeSet, RiskAssessment, zero_environment, zero_service, zero_change_set,
  zero_risk_assessment,
}
use change_control_plane.Types.Rollout.{
  RolloutPlan, RolloutExecution, VerificationResult, SignalSnapshot, RollbackPolicy,
  zero_rollout_plan, zero_rollout_execution,
}

pub record Integration : Type 0 where
  pub base : BaseRecord
  pub open base use *
  pub organization_id : String
  pub name : String
  pub kind : String
  pub instance_key : String
  pub scope_type : String
  pub scope_name : String
  pub mode : String
  pub auth_strategy : String
  pub onboarding_status : String
  pub status : String
  pub enabled : Bool
  pub control_enabled : Bool
  pub connection_health : String
  pub capabilities : List String
  pub description : String
  pub last_tested_at : Option Time
  pub last_synced_at : Option Time
  pub last_error : String
  pub schedule_enabled : Bool
  pub schedule_interval_seconds : ℤ
  pub sync_stale_after_seconds : ℤ
  pub next_scheduled_sync_at : Option Time
  pub last_sync_attempted_at : Option Time
  pub last_sync_succeeded_at : Option Time
  pub last_sync_failed_at : Option Time
  pub sync_claimed_at : Option Time
  pub sync_consecutive_failures : ℤ
  pub freshness_state : String
  pub stale : Bool
  pub sync_lag_seconds : ℤ

abbrev pub zero_integration : Integration
zero_integration = record {
  base = zero_base_record;
  organization_id = "";
  name = "";
  kind = "";
  instance_key = "";
  scope_type = "";
  scope_name = "";
  mode = "";
  auth_strategy = "";
  onboarding_status = "";
  status = "";
  enabled = false;
  control_enabled = false;
  connection_health = "";
  capabilities = [];
  description = "";
  last_tested_at = none;
  last_synced_at = none;
  last_error = "";
  schedule_enabled = false;
  schedule_interval_seconds = pos 0;
  sync_stale_after_seconds = pos 0;
  next_scheduled_sync_at = none;
  last_sync_attempted_at = none;
  last_sync_succeeded_at = none;
  last_sync_failed_at = none;
  sync_claimed_at = none;
  sync_consecutive_failures = pos 0;
  freshness_state = "";
  stale = false;
  sync_lag_seconds = pos 0;
}

pub record SyncResult : Type 0 where
  pub backend_type : String
  pub backend_execution_id : String
  pub backend_status : String
  pub progress_percent : ℤ
  pub current_step : String
  pub summary : String
  pub explanation : List String
  pub metadata : Metadata
  pub last_updated_at : Time

abbrev pub zero_sync_result : SyncResult
zero_sync_result = record {
  backend_type = "";
  backend_execution_id = "";
  backend_status = "";
  progress_percent = pos 0;
  current_step = "";
  summary = "";
  explanation = [];
  metadata = [];
  last_updated_at = 0;
}

pub record RolloutExecutionRuntimeContext : Type 0 where
  pub execution : RolloutExecution
  pub plan : RolloutPlan
  pub assessment : RiskAssessment
  pub change_set : ChangeSet
  pub service : Service
  pub environment : Environment
  pub backend_integration : Option Integration
  pub signal_integration : Option Integration
  pub effective_rollback_policy : Option RollbackPolicy
  pub verification_results : List VerificationResult
  pub signal_snapshots : List SignalSnapshot

abbrev pub zero_rollout_execution_runtime_context : RolloutExecutionRuntimeContext
zero_rollout_execution_runtime_context = record {
  execution = zero_rollout_execution;
  plan = zero_rollout_plan;
  assessment = zero_risk_assessment;
  change_set = zero_change_set;
  service = zero_service;
  environment = zero_environment;
  backend_integration = none;
  signal_integration = none;
  effective_rollback_policy = none;
  verification_results = [];
  signal_snapshots = [];
}
