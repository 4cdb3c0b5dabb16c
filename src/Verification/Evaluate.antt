-- ===== src/Verification/Evaluate.antt =====
-- internal/verification/engine.go: `Evaluate`.
pub mod Decisions
pub mod Safety
use change_control_plane.Prelude.{
  suc, String, Bool, true, false, not, ◌&&◌, ◌||◌, Option, none, some, List, [], ◌∷◌, ◌==◌,
  if◌then◌else◌, insert, is_empty, last?,
}
use change_control_plane.Prelude.Int.{ℤ, pos, ltb_ℤ, leb_ℤ}
use change_control_plane.Prelude.Text.{lower, trim, join}
use change_control_plane.Prelude.Format.{concat, show_int, quoted}
use change_control_plane.Types.{
  Time, Metadata, text, texts, SignalSnapshot, RollbackPolicy, VerificationResult,
  RecordVerificationResultRequest, zero_record_verification_result_request, SyncResult,
  RolloutExecutionRuntimeContext,
}
use change_control_plane.Verification.{
  Evaluation, zero_evaluation, compact_strings, signal_names, business_summary, duplicate_decision,
  effective_rollback_policy, effective_snapshot_health, verification_failure_count, policy_breaches,
}

abbrev pub evidence : SyncResult → RollbackPolicy → Metadata
evidence backend policy =
    ("backend_status", text backend.backend_status)
    ∷ ("backend_type", text backend.backend_type)
    ∷ ("policy_id", text policy.id)
    ∷ ("policy_name", text policy.name)
    ∷ []

-- A request that is not proposed again.
unfoldable pub recorded_once :
    Option VerificationResult → RecordVerificationResultRequest → Evaluation
unfolding duplicate_decision
recorded_once latest request =
    if duplicate_decision latest request
    then zero_evaluation
    else record { recorded = true; request = request; explanation = request.explanation }

unfoldable pub failure_request : SyncResult → RollbackPolicy → RecordVerificationResultRequest
unfolding compact_strings
failure_request backend policy =
    let request = record zero_record_verification_result_request {
      outcome = "fail";
      automated = true;
      decision_source = "control_loop";
      signals = "backend_status" ∷ [];
      metadata = evidence backend policy;
    } in
    if policy.rollback_on_provider_failure
    then record request {
      decision = "rollback";
      summary = "provider failure triggered automatic rollback";
      explanation = compact_strings (
          "backend execution reached a failed state"
          ∷ backend.summary
          ∷ concat (
              "rollback policy "
              ∷ quoted policy.name
              ∷ " requires rollback on provider failure"
              ∷ [])
          ∷ []);
    }
    else record request {
      decision = "failed";
      summary = "orchestrator reported a terminal failed rollout state";
      explanation = compact_strings (
          "backend execution reached a failed state"
          ∷ backend.summary
          ∷ concat (
              "rollback policy "
              ∷ quoted policy.name
              ∷ " does not automatically rollback provider failures"
              ∷ [])
          ∷ []);
    }

unfoldable pub unsignalled_request : SyncResult → RollbackPolicy → RecordVerificationResultRequest
unfolding compact_strings
unsignalled_request backend policy = record zero_record_verification_result_request {
  outcome = "pass";
  decision = "verified";
  summary = "rollout reached completion without additional verification signals";
  explanation =
      compact_strings (
        "rollout plan did not require explicit runtime verification signals" ∷ backend.summary
        ∷ []);
  automated = true;
  decision_source = "control_loop";
  signals = "backend_status" ∷ [];
  metadata = evidence backend policy;
}

unfoldable pub drafted :
    (Time → String)
    → SignalSnapshot
    → SyncResult
    → RollbackPolicy
    → List String
    → RecordVerificationResultRequest
unfolding signal_names business_summary
drafted format snapshot backend policy breaches = record zero_record_verification_result_request {
  automated = true;
  decision_source = "control_loop";
  signal_snapshot_ids = snapshot.id ∷ [];
  signals = signal_names snapshot.signals;
  technical_signal_summary =
      ("health", text snapshot.health)
      ∷ ("summary", text snapshot.summary)
      ∷ ("provider", text snapshot.provider_type)
      ∷ ("window_start", text (format snapshot.window_start))
      ∷ ("window_end", text (format snapshot.window_end))
      ∷ [];
  business_signal_summary = business_summary snapshot.signals;
  metadata =
      if is_empty breaches
      then evidence backend policy
      else insert (evidence backend policy) "policy_breaches" (texts breaches);
}

-- The failure at hand reaches the limit of the policy, if it has one.
unfoldable pub exhausted : RollbackPolicy → List VerificationResult → Bool
exhausted policy results =
    ltb_ℤ (pos 0) policy.max_verification_failures
    && leb_ℤ policy.max_verification_failures (pos (suc (verification_failure_count results)))

-- The `switch` on the health.
unfoldable pub judged :
    RecordVerificationResultRequest
    → (health : String) → (breaches : List String) → SyncResult
    → RollbackPolicy
    → List VerificationResult
    → Option RecordVerificationResultRequest
unfolding exhausted compact_strings
judged draft health breaches backend policy results =
    let kind = lower (trim health) in
    let reported = concat ("latest signal snapshot reported " ∷ health ∷ " health" ∷ []) in
    let why = join breaches "; " in
    if kind == "healthy" || kind == "pass"
    then some (record draft {
      outcome = "pass";
      decision = "verified";
      summary = "runtime verification passed";
      explanation = compact_strings (
          reported ∷ backend.summary
          ∷ "deterministic guardrails remained within tolerated thresholds" ∷ []);
    })
    else if kind == "warning" || kind == "degraded"
    then (if exhausted policy results
        then some (record draft {
          outcome = "inconclusive";
          decision = "rollback";
          summary = "runtime verification exceeded rollback policy retry budget";
          explanation = compact_strings (
              reported
              ∷ concat (
                  "verification failure count "
                  ∷ show_int (pos (suc (verification_failure_count results)))
                  ∷ " reached policy limit "
                  ∷ show_int policy.max_verification_failures
                  ∷ [])
              ∷ backend.summary
              ∷ []);
        })
        else some (record draft {
          outcome = "inconclusive";
          decision = "manual_review_required";
          summary = "runtime verification requires manual review";
          explanation = compact_strings (
              reported ∷ "guardrails show elevated risk but not a terminal failure condition"
              ∷ backend.summary ∷ []);
        }))
    else if kind == "critical" || kind == "fail" || kind == "unhealthy"
    then (if policy.rollback_on_critical_signals || exhausted policy results
        then some (record draft {
          outcome = "fail";
          decision = "rollback";
          summary = "runtime verification triggered rollback";
          explanation = compact_strings (
              reported
              ∷ concat (
                  "rollback policy "
                  ∷ quoted policy.name
                  ∷ " requires rollback for this failure condition"
                  ∷ [])
              ∷ backend.summary
              ∷ why
              ∷ []);
        })
        else some (record draft {
          outcome = "fail";
          decision = "pause";
          summary = "runtime verification paused rollout";
          explanation = compact_strings (
              reported
              ∷ "control plane paused the rollout for investigation because rollback was not mandatory"
              ∷ backend.summary ∷ why ∷ []);
        }))
    else none

abbrev pub recorded_if :
    Option VerificationResult → Option RecordVerificationResultRequest → Evaluation
recorded_if latest none = zero_evaluation
recorded_if latest (some request) = recorded_once latest request

-- With the latest snapshot, if there is one.
unfoldable pub evaluate_signals :
    (Time → String)
    → RolloutExecutionRuntimeContext
    → SyncResult
    → RollbackPolicy
    → Option SignalSnapshot
    → Evaluation
unfolding recorded_once judged drafted unsignalled_request
evaluate_signals format runtime backend policy none =
    if is_empty runtime.plan.verification_signals
    then recorded_once (last? runtime.verification_results) (unsignalled_request backend policy)
    else zero_evaluation
evaluate_signals format runtime backend policy (some snapshot) =
    let breaches = policy_breaches snapshot policy in
    recorded_if (last? runtime.verification_results) (
      judged (drafted format snapshot backend policy breaches)
        (effective_snapshot_health snapshot.health breaches) breaches backend policy
        runtime.verification_results)

unfoldable pub evaluate : (Time → String) → RolloutExecutionRuntimeContext → SyncResult → Evaluation
unfolding evaluate_signals failure_request recorded_once
evaluate format runtime backend =
    let status = runtime.execution.status in
    let policy = effective_rollback_policy runtime in
    if not (status == "in_progress") && not (status == "paused") && not (status == "verified")
    then zero_evaluation
    else if backend.backend_status == "failed"
    then recorded_once (last? runtime.verification_results) (failure_request backend policy)
    else if not (backend.backend_status == "awaiting_verification")
        && not (backend.backend_status == "succeeded")
    then zero_evaluation
    else evaluate_signals format runtime backend policy (last? runtime.signal_snapshots)
