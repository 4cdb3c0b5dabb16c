-- ===== src/Rollouts/Lifecycle/Closed.antt =====
-- internal/rollouts/lifecycle.go: what can still be done with an execution that has come to an end.
use change_control_plane.Prelude.{
  String, ◌≡◌, refl, sym, ◌∙◌, ap, subst, none, some, List, [], ◌∷◌, ◌⊎◌, inl, inr, ◌==◌,
  Bool-cases,
}
use change_control_plane.Types.{RolloutExecution}
use change_control_plane.Rollouts.Lifecycle.{
  next_execution_state, row, advance_to, advance_execution,
}
use change_control_plane.Rollouts.Lifecycle.Trace.{Call, kept, step, run}
use change_control_plane.Rollouts.Lifecycle.Approval.{status-advanced}

-- The execution was completed or rolled back.
abbrev pub IsClosed : RolloutExecution → Type 0
IsClosed execution = (execution.status ≡ "completed") ⊎ (execution.status ≡ "rolled_back")

next_execution_state-completed : (action : String) → next_execution_state "completed" action ≡ none
unfolding next_execution_state row
next_execution_state-completed action = refl

next_execution_state-rolled_back :
    (action : String) → next_execution_state "rolled_back" action ≡ none
unfolding next_execution_state row
next_execution_state-rolled_back action = refl

step-closed :
    (execution : RolloutExecution) (call : Call)
    → IsClosed execution
    → step execution call ≡ execution
unfolding step advance_execution advance_to kept
step-closed execution call (inl done) = rw (done, next_execution_state-completed call.action) refl
step-closed execution call (inr undone) =
    rw (undone, next_execution_state-rolled_back call.action) refl

run-closed :
    (execution : RolloutExecution) (calls : List Call)
    → IsClosed execution
    → run execution calls ≡ execution
unfolding run
run-closed execution [] closed = refl
run-closed execution (call ∷ calls) closed =
    ap (λ e. run e calls) (step-closed execution call closed) ∙ run-closed execution calls closed

next_execution_state-failed :
    (action : String)
    → (next_execution_state "failed" action ≡ none)
      ⊎ (next_execution_state "failed" action ≡ some "rolled_back")
unfolding next_execution_state row
next_execution_state-failed action = elim (Bool-cases ("rollback" == action)) [
  | inl undo ↦ inr (rw undo refl)
  | inr other ↦ inl (rw other refl)
]

step-failed :
    (execution : RolloutExecution) (call : Call)
    → execution.status ≡ "failed"
    → (step execution call ≡ execution) ⊎ ((step execution call).status ≡ "rolled_back")
unfolding step advance_execution advance_to kept
step-failed execution call failed = elim (next_execution_state-failed call.action) [
  | inl refused ↦ inl (rw (failed, refused) refl)
  | inr undone ↦ inr (
      rw (failed, undone)
        (status-advanced execution "rolled_back" call.action call.reason call.now))
]

run-failed :
    (execution : RolloutExecution) (calls : List Call)
    → execution.status ≡ "failed"
    → (run execution calls ≡ execution) ⊎ ((run execution calls).status ≡ "rolled_back")
unfolding run
run-failed execution [] failed = inl refl
run-failed execution (call ∷ calls) failed = elim (step-failed execution call failed) [
  | inl same ↦
      subst
        (λ (e : RolloutExecution).
          (run e calls ≡ execution) ⊎ ((run e calls).status ≡ "rolled_back"))
        (sym same) (run-failed execution calls failed)
  | inr undone ↦ inr (
      ap (λ (e : RolloutExecution). e.status) (run-closed (step execution call) calls (inr undone))
      ∙ undone)
]

-- Over calls of `AdvanceExecution`, of which a failed one stores nothing, an execution that was
-- completed, rolled back or failed never changes again, but that one which failed may be rolled back.
pub run-ended :
    (execution : RolloutExecution) (calls : List Call)
    → IsClosed execution ⊎ (execution.status ≡ "failed")
    → (run execution calls ≡ execution)
      ⊎ ((execution.status ≡ "failed") × ((run execution calls).status ≡ "rolled_back"))
run-ended execution calls (inl closed) = inl (run-closed execution calls closed)
run-ended execution calls (inr failed) = elim (run-failed execution calls failed) [
  | inl same ↦ inl same
  | inr undone ↦ inr (failed, undone)
]
