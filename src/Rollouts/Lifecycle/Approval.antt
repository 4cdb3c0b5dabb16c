-- ===== src/Rollouts/Lifecycle/Approval.antt =====
-- internal/rollouts/lifecycle.go: the approval gate, what passes it, and how an execution ends.
use change_control_plane.Prelude.{
  String, ◌≡◌, refl, sym, ap, ◌∙◌, ◌≢◌, false, ◌||◌, Option, none, some, List, [], ◌∷◌, ◌⊎◌, inl,
  inr, arith, eq_iff, contains,
}
use change_control_plane.Types.{Time, RolloutExecution, VerificationResult}
use change_control_plane.Rollouts.Lifecycle.{
  advanced, advance_to, advance_execution, next_execution_state, apply_verification_decision,
}
use change_control_plane.Rollouts.Lifecycle.Machine
use change_control_plane.Rollouts.Lifecycle.Trace.{Call, kept, step, run, actions}

-- Nothing has been rolled out.
abbrev pub IsGated : RolloutExecution → Type 0
IsGated execution = (execution.status ≡ "awaiting_approval") ⊎ (execution.status ≡ "rolled_back")

pub status-advanced :
    (execution : RolloutExecution) (next action reason : String) (now : Time)
    → (advanced execution next action reason now).status ≡ next
unfolding advanced
status-advanced execution next action reason now = ground arith

-- An edge out of `awaiting_approval` or `rolled_back` other than `approve`.
gated-Edge :
    {s t : Machine.State} {a : Machine.Action}
    → Machine.Edge s a t
    → (s ≡ Machine.awaiting_approval) ⊎ (s ≡ Machine.rolled_back)
    → a ≢ Machine.approve
    → t ≡ Machine.rolled_back
gated-Edge Machine.grant h k = absurd (k refl)
gated-Edge _ h k = ground arith

gated_state :
    (s : Machine.State) (status : String)
    → status ≡ Machine.status_of s
    → (status ≡ "awaiting_approval") ⊎ (status ≡ "rolled_back")
    → (s ≡ Machine.awaiting_approval) ⊎ (s ≡ Machine.rolled_back)
gated_state s status e (inl w) =
    inl (Machine.status_of-injective s Machine.awaiting_approval (sym e ∙ w))
gated_state s status e (inr w) = inr (Machine.status_of-injective s Machine.rolled_back (sym e ∙ w))

advance_to-IsGated :
    (execution : RolloutExecution) (action reason : String) (now : Time) (next : Option String)
    → next_execution_state execution.status action ≡ next
    → action ≢ "approve"
    → IsGated execution
    → IsGated (kept execution (advance_to execution next action reason now))
unfolding advance_to kept
advance_to-IsGated execution action reason now none found other h = h
advance_to-IsGated execution action reason now (some next) found other h =
    let edge = (Machine.next_execution_state-eq-some_iff execution.status action next).0 found in
    let gated = gated_state edge.source execution.status edge.current_text h in
    let target =
      gated-Edge edge.edge gated (λ e. other (edge.action_text ∙ ap Machine.name_of e)) in
    inr (
      status-advanced execution next action reason now
      ∙ edge.next_text
      ∙ ap Machine.status_of target)

step-IsGated :
    (execution : RolloutExecution) (call : Call)
    → call.action ≢ "approve"
    → IsGated execution
    → IsGated (step execution call)
unfolding step advance_execution
step-IsGated execution call = advance_to-IsGated execution call.action call.reason call.now _ refl

-- An execution that awaits approval, or is rolled back, is still in one of these two states after
-- any calls of `AdvanceExecution` none of which is an `approve`.
pub run-IsGated :
    (execution : RolloutExecution) (calls : List Call)
    → contains (actions calls) "approve" ≡ false
    → IsGated execution
    → IsGated (run execution calls)
unfolding run
run-IsGated execution [] none_approves gated = gated
run-IsGated execution (call ∷ calls) none_approves gated =
    run-IsGated (step execution call) calls (ground arith)
      (step-IsGated execution call (ground (arith, eq_iff call.action "approve")) gated)

-- An edge is taken by `AdvanceExecution`, with no error.
pub advance_execution-Edge :
    (execution : RolloutExecution) (reason : String) (now : Time) {s t : Machine.State}
    {a : Machine.Action}
    → Machine.Edge s a t
    → execution.status ≡ Machine.status_of s
    → let done = advance_execution execution (Machine.name_of a) reason now in
      (done.1 ≡ none) × (done.0.status ≡ Machine.status_of t)
unfolding advance_execution advance_to
advance_execution-Edge execution reason now edge e =
    rw (e, Machine.next_execution_state-Edge edge) (refl, status-advanced execution _ _ _ now)

apply_verification_decision-passed :
    (execution : RolloutExecution) (result : VerificationResult) (now : Time)
    → (result.decision ≡ "verified") ⊎ (result.decision ≡ "continue")
    → let decided = apply_verification_decision execution result now in
      (decided.1 ≡ none) × (decided.0.status ≡ "verified")
unfolding apply_verification_decision
apply_verification_decision-passed execution result now (inl e) = rw (e, ◌||◌) (refl, refl)
apply_verification_decision-passed execution result now (inr e) = rw e (refl, refl)

-- A verification decision is applied whatever the status is: from any status, `awaiting_approval`
-- and the closed ones included, the decision `verified` or `continue` followed by `complete`
-- succeeds and leaves the execution completed.
pub verified_then_complete :
    (execution : RolloutExecution) (result : VerificationResult) (reason : String)
    (now later : Time)
    → (result.decision ≡ "verified") ⊎ (result.decision ≡ "continue")
    → let decided = apply_verification_decision execution result now in
      let done = advance_execution decided.0 "complete" reason later in
      (decided.1 ≡ none) × (done.1 ≡ none) × (done.0.status ≡ "completed")
verified_then_complete execution result reason now later h =
    let decided = apply_verification_decision-passed execution result now h in
    let done =
      advance_execution-Edge (apply_verification_decision execution result now).0 reason later
        Machine.finish_verified decided.1 in
    (decided.0, done.0, done.1)

-- The calls that end an execution: at most two.
pub ending : Machine.State → List String
ending Machine.planned = "pause" ∷ "rollback" ∷ []
ending Machine.awaiting_approval = "rollback" ∷ []
ending Machine.approved = "pause" ∷ "rollback" ∷ []
ending Machine.in_progress = "complete" ∷ []
ending Machine.paused = "rollback" ∷ []
ending Machine.verified = "complete" ∷ []
ending Machine.completed = []
ending Machine.failed = "rollback" ∷ []
ending Machine.rolled_back = []

abbrev pub calls_of : List String → Time → List Call
calls_of [] now = []
calls_of (action ∷ actions) now =
    record { action = action; reason = ""; now = now } ∷ calls_of actions now

step-Edge :
    (execution : RolloutExecution) (now : Time) {s t : Machine.State} {a : Machine.Action}
    → Machine.Edge s a t
    → execution.status ≡ Machine.status_of s
    → (step execution (record { action = Machine.name_of a; reason = ""; now = now })).status
      ≡ Machine.status_of t
unfolding step kept
step-Edge execution now edge e = ground (arith, advance_execution-Edge execution "" now edge e)

-- From each of the nine statuses an execution is brought to `completed` or `rolled_back` by the
-- calls of `ending`.
pub run-ending :
    (s : Machine.State) (execution : RolloutExecution) (now : Time)
    → execution.status ≡ Machine.status_of s
    → let final = (run execution (calls_of (ending s) now)).status in
      (final ≡ "completed") ⊎ (final ≡ "rolled_back")
unfolding run ending
run-ending Machine.planned execution now e =
    inr (step-Edge _ now Machine.undo_paused (step-Edge execution now Machine.hold e))
run-ending Machine.awaiting_approval execution now e =
    inr (step-Edge execution now Machine.reject e)
run-ending Machine.approved execution now e =
    inr (step-Edge _ now Machine.undo_paused (step-Edge execution now Machine.hold_approved e))
run-ending Machine.in_progress execution now e = inl (step-Edge execution now Machine.finish e)
run-ending Machine.paused execution now e = inr (step-Edge execution now Machine.undo_paused e)
run-ending Machine.verified execution now e =
    inl (step-Edge execution now Machine.finish_verified e)
run-ending Machine.completed execution now e = inl e
run-ending Machine.failed execution now e = inr (step-Edge execution now Machine.undo_failed e)
run-ending Machine.rolled_back execution now e = inr e
