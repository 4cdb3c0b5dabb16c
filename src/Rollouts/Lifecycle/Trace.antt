-- ===== src/Rollouts/Lifecycle/Trace.antt =====
-- Sequences of calls of `AdvanceExecution`. As `AdvanceRolloutExecution` of
-- internal/app/operations.go does, a call that fails stores nothing. The time of the update, which
-- that handler sets as well, is left as it is.
use change_control_plane.Prelude.{String, Option, none, some, List, [], ◌∷◌}
use change_control_plane.Types.{Time, RolloutExecution}
use change_control_plane.Rollouts.Lifecycle.{Error, advance_execution}

pub record Call : Type 0 where
  pub action : String
  pub reason : String
  pub now : Time

-- What is stored after an operation: the old execution if it failed.
unfoldable pub kept : RolloutExecution → RolloutExecution × Option Error → RolloutExecution
kept execution (updated, none) = updated
kept execution (updated, some error) = execution

unfoldable pub step : RolloutExecution → Call → RolloutExecution
unfolding kept
step execution call = kept execution (advance_execution execution call.action call.reason call.now)

unfoldable pub run : RolloutExecution → List Call → RolloutExecution
run execution [] = execution
run execution (call ∷ calls) = run (step execution call) calls

abbrev pub actions : List Call → List String
actions [] = []
actions (call ∷ calls) = call.action ∷ actions calls
