-- ===== src/Tests/Rollouts.antt =====
-- internal/rollouts at concrete plans and executions.
use change_control_plane.Prelude.{List, ◌≡◌, refl, ◌↔◌, ◌∷◌, [], true, none, arith, ◌⊎◌, inl, inr}
use change_control_plane.Types.{
  RolloutPlan, RolloutExecution, zero_rollout_execution, zero_verification_result,
  VerificationResult,
}
use change_control_plane.Risk.{assess}
use change_control_plane.Risk.Recommend.{is_regulated}
use change_control_plane.Rollouts.Planner.{plan}
use change_control_plane.Rollouts.Lifecycle.{
  initial_execution_status, advance_execution, apply_verification_decision,
}
use change_control_plane.Rollouts.Lifecycle.Trace.{Call, run}
use change_control_plane.Rollouts.Lifecycle.Machine.{planned, awaiting_approval}
use change_control_plane.Rollouts.Lifecycle.Timestamps.{Inv, run-Inv}
use change_control_plane.Rollouts.Lifecycle.Approval.{
  IsGated, run-IsGated, verified_then_complete, calls_of, ending, run-ending,
}
use change_control_plane.Rollouts.Lifecycle.Closed.{run-ended}
use change_control_plane.Rollouts.Governance.{
  AsksApproval, approval_required_iff, unapproved-IsGated,
}
use change_control_plane.Tests.{roles_change, ledger, live}

abbrev ledger_plan : RolloutPlan
ledger_plan =
    plan "roll_1" 9 roles_change ledger live (assess "roll_1" 9 roles_change ledger live) []

-- The execution of `ledger_plan`, as it is created.
abbrev created : RolloutExecution
created = record zero_rollout_execution { status = initial_execution_status ledger_plan }

abbrev waiting : RolloutExecution
waiting = record zero_rollout_execution { status = "awaiting_approval" }

abbrev ready : RolloutExecution
ready = record zero_rollout_execution { status = "planned" }

-- It is started too early, then rolled back.
abbrev calls : List Call
calls =
    record { action = "start"; reason = ""; now = 1 }
    ∷ record { action = "rollback"; reason = "not today"; now = 2 }
    ∷ []

abbrev passed : VerificationResult
passed = record zero_verification_result { decision = "verified" }

asks_approval : AsksApproval "roll_1" 9 roles_change ledger live []
unfolding is_regulated
asks_approval = inl (inl refl)

unapproved-IsGated_example : IsGated (run created calls)
unapproved-IsGated_example =
    unapproved-IsGated "roll_1" 9 roles_change ledger live [] created calls refl asks_approval refl

approval_required_iff_example :
    (ledger_plan.approval_required ≡ true) ↔ AsksApproval "roll_1" 9 roles_change ledger live []
approval_required_iff_example = approval_required_iff "roll_1" 9 roles_change ledger live []

run-IsGated_example : IsGated (run waiting calls)
run-IsGated_example = run-IsGated waiting calls refl (inl refl)

ready-Inv : Inv ready
ready-Inv = record {
  state = planned;
  status_text = refl;
  ended = refl;
  started = λ h. absurd (ground arith);
}

run-Inv_example : Inv (run ready calls)
run-Inv_example = run-Inv ready calls ready-Inv

verified_then_complete_example :
    let decided = apply_verification_decision waiting passed 5 in
    let done = advance_execution decided.0 "complete" "" 6 in
    (decided.1 ≡ none) × (done.1 ≡ none) × (done.0.status ≡ "completed")
verified_then_complete_example = verified_then_complete waiting passed "" 5 6 (inl refl)

run-ending_example :
    let final = (run waiting (calls_of (ending awaiting_approval) 5)).status in
    (final ≡ "completed") ⊎ (final ≡ "rolled_back")
run-ending_example = run-ending awaiting_approval waiting 5 refl

abbrev broken : RolloutExecution
broken = record zero_rollout_execution { status = "failed" }

run-ended_example :
    (run broken calls ≡ broken)
    ⊎ ((broken.status ≡ "failed") × ((run broken calls).status ≡ "rolled_back"))
run-ended_example = run-ended broken calls (inr refl)
