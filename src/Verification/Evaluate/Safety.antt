-- ===== src/Verification/Evaluate/Safety.antt =====
-- internal/verification/engine.go: what an automated evaluation may decide, and when.
use change_control_plane.Prelude.{
  String, ◌≡◌, ◌≢◌, refl, ◌⊎◌, inl, inr, true, false, not, ◌&&◌, Option, none, some, ◌==◌, arith,
  eq_iff, Bool-cases, is_empty, last?, false≢true,
}
use change_control_plane.Types.{
  Time, SignalSnapshot, RollbackPolicy, VerificationResult, RecordVerificationResultRequest,
  SyncResult, RolloutExecutionRuntimeContext, RolloutExecution,
}
use change_control_plane.Rollouts.Lifecycle.{apply_verification_decision}
use change_control_plane.Verification.{
  Evaluation, duplicate_decision, effective_rollback_policy, effective_snapshot_health,
  policy_breaches,
}
use change_control_plane.Verification.Evaluate.{
  recorded_once, failure_request, unsignalled_request, drafted, recorded_if, evaluate_signals,
  evaluate,
}
use change_control_plane.Verification.Evaluate.Decisions.{
  IsDecision, verified, manual_review, pause, rollback, failed, IsUnverified-ne, breached_health,
  IfSome, Decides, StaysUnverified, judged-Decides, judged-IsUnverified, failure_request-Decides,
  unsignalled_request-Decides, failure_request-IsUnverified,
}

-- What holds of an evaluation that is recorded.
abbrev IfRecorded : (RecordVerificationResultRequest → Type 0) → Evaluation → Type 0
IfRecorded P e = e.recorded ≡ true → P e.request

recorded_once-IfRecorded :
    (P : RecordVerificationResultRequest → Type 0) (latest : Option VerificationResult)
    (request : RecordVerificationResultRequest)
    → P request
    → IfRecorded P (recorded_once latest request)
unfolding recorded_once
recorded_once-IfRecorded P latest request p =
    elim (Bool-cases (duplicate_decision latest request)) [
      | inl old ↦ rw old (λ h. absurd (false≢true h))
      | inr new ↦ rw new (λ h. p)
    ]

recorded_if-IfRecorded :
    (P : RecordVerificationResultRequest → Type 0) (latest : Option VerificationResult)
    (request : Option RecordVerificationResultRequest)
    → IfSome P request
    → IfRecorded P (recorded_if latest request)
recorded_if-IfRecorded P latest none p h = absurd (false≢true h)
recorded_if-IfRecorded P latest (some request) p h = recorded_once-IfRecorded P latest request p h

module _ (format : Time → String) (runtime : RolloutExecutionRuntimeContext)
    (backend : SyncResult) where
  abbrev policy_of : RollbackPolicy
  policy_of = effective_rollback_policy runtime

  -- Through the guards of `Evaluate`.
  evaluate-IfRecorded :
      (P : RecordVerificationResultRequest → Type 0)
      → P (failure_request backend policy_of)
      → IfRecorded P
          (evaluate_signals format runtime backend policy_of (last? runtime.signal_snapshots))
      → IfRecorded P (evaluate format runtime backend)
  unfolding evaluate
  evaluate-IfRecorded P failing signals =
      let status = runtime.execution.status in
      elim (Bool-cases
        (not (status == "in_progress") && not (status == "paused") && not (status == "verified"))) [
          | inl idle ↦ rw idle (λ h. absurd (false≢true h))
          | inr running ↦ elim (Bool-cases (backend.backend_status == "failed")) [
            | inl down ↦
                rw (running, down)
                  (recorded_once-IfRecorded P (last? runtime.verification_results)
                    (failure_request backend policy_of) failing)
            | inr up ↦
                elim (Bool-cases (
                  not (backend.backend_status == "awaiting_verification")
                  && not (backend.backend_status == "succeeded"))) [
                    | inl early ↦ rw (running, up, early) (λ h. absurd (false≢true h))
                    | inr due ↦ rw (running, up, due) signals
                  ]
          ]
        ]

  evaluate_signals-Decides :
      (snapshot : Option SignalSnapshot)
      → IfRecorded Decides (evaluate_signals format runtime backend policy_of snapshot)
  unfolding evaluate_signals
  evaluate_signals-Decides none = elim (Bool-cases (is_empty runtime.plan.verification_signals)) [
    | inl unsignalled ↦ rw unsignalled (
        recorded_once-IfRecorded Decides (last? runtime.verification_results)
          (unsignalled_request backend policy_of) (unsignalled_request-Decides backend policy_of))
    | inr signalled ↦ rw signalled (λ h. absurd (false≢true h))
  ]
  evaluate_signals-Decides (some snapshot) =
      let breaches = policy_breaches snapshot policy_of in
      recorded_if-IfRecorded Decides (last? runtime.verification_results) _ (
        judged-Decides (drafted format snapshot backend policy_of breaches)
          (effective_snapshot_health snapshot.health breaches) breaches backend policy_of
          runtime.verification_results)

  -- A recorded evaluation does not decide `verified` if a signal of the latest snapshot breaches the
  -- rollback policy that is in force.
  pub evaluate-breached :
      (snapshot : SignalSnapshot)
      → (evaluate format runtime backend).recorded ≡ true
      → last? runtime.signal_snapshots ≡ some snapshot
      → is_empty (policy_breaches snapshot (effective_rollback_policy runtime)) ≡ false
      → (evaluate format runtime backend).request.decision ≢ "verified"
  unfolding evaluate_signals
  evaluate-breached snapshot recorded latest breached =
      let breaches = policy_breaches snapshot policy_of in
      let judgement =
        judged-IsUnverified (drafted format snapshot backend policy_of breaches)
          (effective_snapshot_health snapshot.health breaches) breaches backend policy_of
          runtime.verification_results (breached_health snapshot.health breaches breached) in
      IsUnverified-ne _ (
        evaluate-IfRecorded StaysUnverified (failure_request-IsUnverified backend policy_of)
          (rw latest (
            recorded_if-IfRecorded StaysUnverified (last? runtime.verification_results) _
              judgement))
          recorded)

  evaluate-Decides : IfRecorded Decides (evaluate format runtime backend)
  evaluate-Decides =
      evaluate-IfRecorded Decides (failure_request-Decides backend policy_of)
        (evaluate_signals-Decides (last? runtime.signal_snapshots))

  running_lem :
      (evaluate format runtime backend).recorded ≡ true
      → (runtime.execution.status ≡ "in_progress")
        ⊎ (runtime.execution.status ≡ "paused")
        ⊎ (runtime.execution.status ≡ "verified")
  unfolding evaluate
  running_lem recorded =
      let status = runtime.execution.status in
      elim (Bool-cases
        (not (status == "in_progress") && not (status == "paused") && not (status == "verified"))) [
          | inl idle ↦ absurd (false≢true (rw idle at recorded))
          | inr running ↦
              ground (
                arith,
                eq_iff status "in_progress",
                eq_iff status "paused",
                eq_iff status "verified",
              )
        ]

supported :
    (execution : RolloutExecution) (result : VerificationResult) (now : Time) (decision : String)
    → IsDecision decision
    → result.decision ≡ decision
    → (apply_verification_decision execution result now).1 ≡ none
unfolding apply_verification_decision
supported execution result now decision verified e = rw e refl
supported execution result now decision manual_review e = rw e refl
supported execution result now decision pause e = rw e refl
supported execution result now decision rollback e = rw e refl
supported execution result now decision failed e = rw e refl

-- An evaluation is recorded only for an execution that is in progress, paused or verified, and a
-- result with its decision is applied to the execution without an error.
pub evaluate-apply_verification_decision :
    (format : Time → String) (runtime : RolloutExecutionRuntimeContext) (backend : SyncResult)
    (result : VerificationResult) (now : Time)
    → (evaluate format runtime backend).recorded ≡ true
    → result.decision ≡ (evaluate format runtime backend).request.decision
    → ((runtime.execution.status ≡ "in_progress")
        ⊎ (runtime.execution.status ≡ "paused")
        ⊎ (runtime.execution.status ≡ "verified"))
      × ((apply_verification_decision runtime.execution result now).1 ≡ none)
evaluate-apply_verification_decision format runtime backend result now recorded same = (
  running_lem format runtime backend recorded,
  supported runtime.execution result now _ (evaluate-Decides format runtime backend recorded) same,
)
