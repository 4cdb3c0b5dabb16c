-- ===== src/Verification.antt =====
-- internal/verification/engine.go: what the latest signals of a rollout lead to. The format of the
-- times of a window is a parameter.
pub mod Evaluate
use change_control_plane.Prelude.{
  ℕ, suc, String, Bool, true, false, not, ◌&&◌, ◌||◌, Option, none, some, List, [], ◌∷◌, ◌==◌,
  if◌then◌else◌, insert, is_empty, slices_equal,
}
use change_control_plane.Prelude.Int.{ℤ, pos, ltb_ℤ, leb_ℤ, scale}
use change_control_plane.Prelude.Text.{lower, trim, is_blank, equal_fold}
use change_control_plane.Prelude.Format.{concat, show_int, quoted, fixed3, fixed0}
use change_control_plane.Types.{
  Metadata, Any, text, float, metadata, end, entry, SignalValue, SignalSnapshot, RollbackPolicy,
  zero_rollback_policy, VerificationResult, RecordVerificationResultRequest,
  zero_record_verification_result_request, RolloutExecutionRuntimeContext,
}

pub record Evaluation : Type 0 where
  -- `Record`
  pub recorded : Bool
  pub request : RecordVerificationResultRequest
  pub explanation : List String

abbrev pub zero_evaluation : Evaluation
zero_evaluation = record {
  recorded = false;
  request = zero_record_verification_result_request;
  explanation = [];
}

unfoldable pub compact_strings : List String → List String
compact_strings [] = []
compact_strings (item ∷ items) =
    let rest = compact_strings items in if is_blank item then rest else trim item ∷ rest

unfoldable pub signal_names : List SignalValue → List String
signal_names [] = []
signal_names (item ∷ items) =
    let rest = signal_names items in if is_blank item.name then rest else item.name ∷ rest

abbrev pub business_entry : SignalValue → Any
business_entry item = metadata (
    entry "value" (float item.value) (
      entry "status" (text item.status)
        (entry "threshold" (float item.threshold) (entry "comparator" (text item.comparator) end))))

unfoldable pub add_business : Metadata → List SignalValue → Metadata
add_business result [] = result
add_business result (item ∷ items) =
    add_business
      (if equal_fold item.category "business"
        then insert result item.name (business_entry item)
        else result)
      items

unfoldable pub business_summary : List SignalValue → Metadata
unfolding add_business
business_summary items = add_business [] items

unfoldable pub duplicate_decision :
    Option VerificationResult → RecordVerificationResultRequest → Bool
duplicate_decision none proposed = false
duplicate_decision (some latest) proposed =
    latest.automated
    && latest.decision_source == proposed.decision_source
    && latest.decision == proposed.decision
    && latest.outcome == proposed.outcome
    && latest.summary == proposed.summary
    && slices_equal latest.signal_snapshot_ids proposed.signal_snapshot_ids

unfoldable pub should_rollback : RolloutExecutionRuntimeContext → Bool
should_rollback runtime =
    let level = lower (trim runtime.assessment.level) in
    runtime.environment.production
    || level == "high"
    || level == "critical"
    || equal_fold runtime.service.criticality "mission_critical"
    || runtime.service.customer_facing

abbrev policy_or : Option RollbackPolicy → RollbackPolicy → RollbackPolicy
policy_or none fallback = fallback
policy_or (some policy) fallback = policy

unfoldable pub effective_rollback_policy : RolloutExecutionRuntimeContext → RollbackPolicy
unfolding should_rollback
effective_rollback_policy runtime =
    policy_or runtime.effective_rollback_policy (record zero_rollback_policy {
      name = "fallback policy";
      rollback_on_provider_failure = true;
      rollback_on_critical_signals = should_rollback runtime;
      max_verification_failures = pos 1;
    })

unfoldable pub effective_snapshot_health : String → List String → String
effective_snapshot_health snapshot_health breaches =
    let health = lower (trim snapshot_health) in
    if is_empty breaches
    then health
    else if health == ""
        || health == "healthy"
        || health == "pass"
        || health == "warning"
        || health == "degraded"
    then "critical"
    else health

unfoldable pub verification_failure_count : List VerificationResult → ℕ
verification_failure_count [] = 0
verification_failure_count (item ∷ items) =
    let rest = verification_failure_count items in
    if item.decision == "pause"
      || item.decision == "rollback"
      || item.decision == "failed"
      || item.decision == "manual_review_required"
    then suc rest
    else rest

-- The breach of one signal, if it is one.
unfoldable pub breach_of : SignalValue → RollbackPolicy → Option String
breach_of signal policy =
    let name = lower (trim signal.name) in
    let zero = pos 0 in
    if name == "error_rate"
      && ltb_ℤ zero policy.max_error_rate
      && ltb_ℤ policy.max_error_rate signal.value
    then some (
        concat (
          "error rate "
          ∷ fixed3 signal.value
          ∷ " exceeded max "
          ∷ fixed3 policy.max_error_rate
          ∷ []))
    else if (name == "latency_ms" || name == "latency_p95_ms")
        && ltb_ℤ zero policy.max_latency_ms
        && ltb_ℤ policy.max_latency_ms signal.value
    then some (
        concat (
          "latency "
          ∷ fixed3 signal.value
          ∷ "ms exceeded max "
          ∷ fixed3 policy.max_latency_ms
          ∷ "ms"
          ∷ []))
    else if name == "throughput"
        && ltb_ℤ zero policy.minimum_throughput
        && ltb_ℤ signal.value policy.minimum_throughput
    then some (
        concat (
          "throughput "
          ∷ fixed3 signal.value
          ∷ " fell below minimum "
          ∷ fixed3 policy.minimum_throughput
          ∷ []))
    else if (name == "unhealthy_instances" || name == "unavailable_replicas")
        && leb_ℤ zero policy.max_unhealthy_instances
        && ltb_ℤ (scale 1000 policy.max_unhealthy_instances) signal.value
    then some (
        concat (
          "unhealthy instances "
          ∷ fixed0 signal.value
          ∷ " exceeded max "
          ∷ show_int policy.max_unhealthy_instances
          ∷ []))
    else if (name == "restart_rate" || name == "crash_rate")
        && ltb_ℤ zero policy.max_restart_rate
        && ltb_ℤ policy.max_restart_rate signal.value
    then some (
        concat (
          "restart rate "
          ∷ fixed3 signal.value
          ∷ " exceeded max "
          ∷ fixed3 policy.max_restart_rate
          ∷ []))
    else none

abbrev pub cons_if : Option String → List String → List String
cons_if none breaches = breaches
cons_if (some breach) breaches = breach ∷ breaches

unfoldable pub breaches_of : List SignalValue → RollbackPolicy → List String
unfolding breach_of
breaches_of [] policy = []
breaches_of (signal ∷ signals) policy =
    let rest = breaches_of signals policy in cons_if (breach_of signal policy) rest

unfoldable pub policy_breaches : SignalSnapshot → RollbackPolicy → List String
unfolding breaches_of
policy_breaches snapshot policy = breaches_of snapshot.signals policy
