-- ===== src/Tests/Verification.antt =====
-- internal/verification/engine.go at a concrete execution.
use change_control_plane.Prelude.{
  String, ◌≡◌, ◌≢◌, refl, ◌⊎◌, true, false, none, some, [], ◌∷◌, is_empty,
}
use change_control_plane.Prelude.Int.{pos}
use change_control_plane.Prelude.Text.{lower, trim, lower_char, shift, trim_left, trim_right}
use change_control_plane.Types.{
  Time, SignalSnapshot, zero_signal_snapshot, zero_signal_value, RollbackPolicy,
  zero_rollback_policy, RolloutExecutionRuntimeContext, zero_rollout_execution_runtime_context,
  zero_rollout_execution, SyncResult, zero_sync_result, VerificationResult,
  zero_verification_result,
}
use change_control_plane.Rollouts.Lifecycle.{apply_verification_decision}
use change_control_plane.Verification.{
  policy_breaches, breaches_of, breach_of, effective_rollback_policy, effective_snapshot_health,
  duplicate_decision,
}
use change_control_plane.Verification.Evaluate.{
  evaluate, evaluate_signals, recorded_once, judged, drafted, exhausted,
}
use change_control_plane.Verification.Evaluate.Safety.{
  evaluate-breached, evaluate-apply_verification_decision,
}

-- Too many errors, in a snapshot that calls itself healthy.
abbrev noisy : SignalSnapshot
noisy = record zero_signal_snapshot {
  health = "healthy";
  signals = record zero_signal_value { name = "Error_Rate"; value = pos 50 } ∷ [];
}

abbrev strict : RollbackPolicy
strict = record zero_rollback_policy { name = "strict"; max_error_rate = pos 10 }

abbrev context : RolloutExecutionRuntimeContext
context = record zero_rollout_execution_runtime_context {
  execution = record zero_rollout_execution { status = "in_progress" };
  effective_rollback_policy = some strict;
  signal_snapshots = noisy ∷ [];
}

abbrev waiting_backend : SyncResult
waiting_backend = record zero_sync_result { backend_status = "awaiting_verification" }

abbrev no_format : Time → String
no_format time = ""

context_recorded : (evaluate no_format context waiting_backend).recorded ≡ true
unfolding evaluate evaluate_signals recorded_once judged drafted exhausted policy_breaches
    breaches_of breach_of effective_rollback_policy effective_snapshot_health duplicate_decision
    lower trim lower_char shift trim_left trim_right
context_recorded = refl

noisy_breaches : is_empty (policy_breaches noisy (effective_rollback_policy context)) ≡ false
unfolding policy_breaches breaches_of breach_of effective_rollback_policy lower trim lower_char
    shift trim_left trim_right
noisy_breaches = refl

evaluate-breached_example :
    (evaluate no_format context waiting_backend).request.decision ≢ "verified"
evaluate-breached_example =
    evaluate-breached no_format context waiting_backend noisy context_recorded refl noisy_breaches

abbrev evaluated : VerificationResult
evaluated = record zero_verification_result {
  decision = (evaluate no_format context waiting_backend).request.decision;
}

evaluate-apply_verification_decision_example :
    ((context.execution.status ≡ "in_progress")
      ⊎ (context.execution.status ≡ "paused")
      ⊎ (context.execution.status ≡ "verified"))
    × ((apply_verification_decision context.execution evaluated 9).1 ≡ none)
evaluate-apply_verification_decision_example =
    evaluate-apply_verification_decision no_format context waiting_backend evaluated 9
      context_recorded refl
