-- ===== src/Rollouts/Lifecycle.antt =====
-- internal/rollouts/lifecycle.go. A Go function that returns a value and an error returns both
-- here: `ApplyVerificationDecision` changes the execution that it returns beside an error.
pub mod Trace
pub mod Machine
pub mod Timestamps
pub mod Approval
pub mod Closed
use change_control_plane.Prelude.{
  String, ◌≡◌, Bool, true, false, ◌&&◌, ◌||◌, Option, none, some, List, [], ◌∷◌, ◌==◌,
  if◌then◌else◌, Assoc, lookup,
}
use change_control_plane.Types.{
  Time, RolloutStep, RolloutPlan, RolloutExecution, VerificationResult,
}

pub data Error : Type 0 where
  invalid_transition : (action current : String) → Error
  unsupported_decision : String → Error

unfoldable pub initial_execution_status : RolloutPlan → String
initial_execution_status plan = if plan.approval_required then "awaiting_approval" else "planned"

first_step : List RolloutStep → String
first_step [] = ""
first_step (step ∷ steps) = step.name

unfoldable pub initial_execution_step : RolloutPlan → String
unfolding first_step
initial_execution_step plan = first_step plan.steps

abbrev pub transitions : Assoc (Assoc String)
transitions =
    ("planned", ("start", "in_progress") ∷ ("pause", "paused") ∷ [])
    ∷ ("awaiting_approval", ("approve", "approved") ∷ ("rollback", "rolled_back") ∷ [])
    ∷ ("approved", ("start", "in_progress") ∷ ("pause", "paused") ∷ [])
    ∷ (
      "in_progress",
      ("pause", "paused")
          ∷ ("verify", "verified")
          ∷ ("fail", "failed")
          ∷ ("rollback", "rolled_back")
          ∷ ("complete", "completed")
          ∷ [],
    )
    ∷ (
      "paused",
      ("continue", "in_progress")
          ∷ ("resume", "in_progress")
          ∷ ("rollback", "rolled_back")
          ∷ ("fail", "failed")
          ∷ [],
    )
    ∷ (
      "verified",
      ("continue", "in_progress")
          ∷ ("complete", "completed")
          ∷ ("rollback", "rolled_back")
          ∷ ("pause", "paused")
          ∷ [],
    )
    ∷ ("failed", ("rollback", "rolled_back") ∷ [])
    ∷ []

-- A missing row reads as an empty one.
row : Option (Assoc String) → Assoc String
row none = []
row (some entries) = entries

-- `transitions[current][action]`; `none` is the error
unfoldable pub next_execution_state : String → String → Option String
unfolding row
next_execution_state current action = lookup action (row (lookup current transitions))

abbrev pub is_none {ℓ} : {A : Type ℓ} → Option A → Bool
is_none none = true
is_none (some a) = false

-- The body of `AdvanceExecution` once the next state is known.
unfoldable pub advanced : RolloutExecution → String → String → String → Time → RolloutExecution
advanced execution next action reason now =
    let moved = record execution {
      status = next;
      last_decision = action;
      last_decision_reason = reason;
    } in
    let started =
      if action == "start" && is_none moved.started_at
      then record moved { started_at = some now }
      else moved in
    let closed =
      if next == "completed" || next == "rolled_back" || next == "failed"
      then record started { completed_at = some now }
      else started in
    if next == "in_progress" && is_none closed.started_at
    then record closed { started_at = some now }
    else closed

unfoldable pub advance_to :
    RolloutExecution → Option String → String → String → Time → RolloutExecution × Option Error
unfolding advanced
advance_to execution none action reason now =
    (execution, some (invalid_transition action execution.status))
advance_to execution (some next) action reason now =
    (advanced execution next action reason now, none)

unfoldable pub advance_execution :
    RolloutExecution → String → String → Time → RolloutExecution × Option Error
unfolding advance_to
advance_execution execution action reason now =
    advance_to execution (next_execution_state execution.status action) action reason now

unfoldable pub apply_verification_decision :
    RolloutExecution → VerificationResult → Time → RolloutExecution × Option Error
apply_verification_decision execution result now =
    let noted = record execution {
      last_verification_result = result.id;
      last_decision = result.decision;
      last_decision_reason = result.summary;
    } in
    if result.decision == "continue" || result.decision == "verified"
    then (record noted { status = "verified" }, none)
    else if result.decision == "pause" || result.decision == "manual_review_required"
    then (record noted { status = "paused" }, none)
    else if result.decision == "rollback"
    then (record noted { status = "rolled_back"; completed_at = some now }, none)
    else if result.decision == "failed"
    then (record noted { status = "failed"; completed_at = some now }, none)
    else if result.decision == "advisory_continue"
        || result.decision == "advisory_verified"
        || result.decision == "advisory_pause"
        || result.decision == "advisory_rollback"
        || result.decision == "advisory_failed"
    then (noted, none)
    else (noted, some (unsupported_decision result.decision))
