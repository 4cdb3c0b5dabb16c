-- ===== src/Tests/Delivery.antt =====
-- internal/delivery/simulated.go and internal/workflows/control_loop.go at concrete executions.
use change_control_plane.Prelude.{true, arith}
use change_control_plane.Prelude.Int.{pos}
use change_control_plane.Types.{
  RolloutExecution, RolloutExecutionRuntimeContext, zero_rollout_execution_runtime_context,
  zero_rollout_execution,
}
use change_control_plane.Delivery.{submit, sync, pause, resume, rollback}
use change_control_plane.Delivery.Progress.{Advances, operations-Advances}
use change_control_plane.Workflows.{next_action, IsAccepted, next_action-IsAccepted}

abbrev half_way : RolloutExecutionRuntimeContext
half_way = record zero_rollout_execution_runtime_context {
  execution = record zero_rollout_execution { status = "in_progress"; progress_percent = pos 50 };
}

operations-Advances_example :
    Advances (pos 50) (submit half_way 9)
    × Advances (pos 50) (sync half_way 9)
    × Advances (pos 50) (pause half_way "look" 9)
    × Advances (pos 50) (resume half_way "look" 9)
    × Advances (pos 50) (rollback half_way "look" 9)
operations-Advances_example = operations-Advances half_way 9 "look" (omega arith)

abbrev passed : RolloutExecution
passed = record zero_rollout_execution { status = "verified" }

next_action-IsAccepted_example : IsAccepted passed 9 (next_action true passed)
next_action-IsAccepted_example = next_action-IsAccepted true passed 9
