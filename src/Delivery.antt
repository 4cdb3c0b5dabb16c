-- ===== src/Delivery.antt =====
-- internal/delivery/simulated.go: the orchestrator that is simulated. `now` is the clock.
pub mod Progress
use change_control_plane.Prelude.{
  String, Bool, true, false, not, Option, none, some, List, [], ◌∷◌, ◌==◌, ◌||◌, if◌then◌else◌,
  last?,
}
use change_control_plane.Prelude.Int.{ℤ, pos, ltb_ℤ, leb_ℤ}
use change_control_plane.Prelude.Text.{is_blank}
use change_control_plane.Prelude.Format.{concat}
use change_control_plane.Types.{
  Time, SignalSnapshot, RolloutExecution, RolloutExecutionRuntimeContext, SyncResult,
  zero_sync_result,
}
use change_control_plane.Verification.{compact_strings}

unfoldable pub max_progress : ℤ → ℤ → ℤ
max_progress left right = if ltb_ℤ right left then left else right

abbrev pub fallback_execution_id : String → String → String
fallback_execution_id existing execution_id =
    if not (is_blank existing) then existing else concat ("simexec_" ∷ execution_id ∷ [])

abbrev pub fallback : String → String → String
fallback existing value = if not (is_blank existing) then existing else value

unfoldable pub submit : RolloutExecutionRuntimeContext → Time → SyncResult
unfolding max_progress
submit runtime now = record zero_sync_result {
  backend_type = "simulated";
  backend_execution_id =
      fallback_execution_id runtime.execution.backend_execution_id runtime.execution.id;
  backend_status = "queued";
  progress_percent = max_progress runtime.execution.progress_percent (pos 10);
  current_step = fallback runtime.execution.current_step "submission";
  summary = "simulated orchestrator accepted rollout execution";
  explanation =
      "simulated backend created a stable execution handle for the rollout"
      ∷ "execution is queued and ready for deterministic progress reconciliation" ∷ [];
  last_updated_at = now;
}

-- What `Sync` starts from.
unfoldable pub progress_of : RolloutExecution → ℤ
progress_of execution =
    if leb_ℤ execution.progress_percent (pos 0) then pos 10 else execution.progress_percent

unfoldable pub stored_state : RolloutExecution → Time → SyncResult
unfolding progress_of
stored_state execution now = record zero_sync_result {
  backend_type = "simulated";
  backend_execution_id = fallback_execution_id execution.backend_execution_id execution.id;
  backend_status = execution.backend_status;
  progress_percent = progress_of execution;
  current_step = execution.current_step;
  last_updated_at = now;
}

-- A rollout under way, with the latest snapshot if there is one.
unfoldable pub under_way : SyncResult → ℤ → Option SignalSnapshot → SyncResult
unfolding max_progress
under_way result progress none = record result {
  backend_status = "progressing";
  progress_percent = max_progress progress (pos 65);
  current_step = "deploying";
  summary = "simulated backend is progressing rollout steps toward the verification checkpoint";
  explanation =
      "deployment is advancing through deterministic simulated stages"
      ∷ "no runtime signal snapshot has been ingested yet, so the execution remains in progress"
      ∷ [];
}
under_way result progress (some snapshot) = record result {
  backend_status = "awaiting_verification";
  progress_percent = max_progress progress (pos 80);
  current_step = "verification_gate";
  summary = concat (
      "simulated backend reached verification gate with " ∷ snapshot.health ∷ " runtime health"
      ∷ []);
  explanation =
      "deployment steps completed and the execution is waiting on runtime verification"
      ∷ concat ("latest simulated signal snapshot is " ∷ snapshot.health ∷ [])
      ∷ [];
}

unfoldable pub sync : RolloutExecutionRuntimeContext → Time → SyncResult
unfolding stored_state under_way max_progress
sync runtime now =
    let execution = runtime.execution in
    let progress = progress_of execution in
    let result = stored_state execution now in
    if execution.status == "awaiting_approval"
    then record result {
      backend_status = fallback execution.backend_status "waiting_for_approval";
      current_step = fallback execution.current_step "approval";
      summary = "rollout is waiting for approval before submission";
      explanation =
          "simulated backend will not submit the rollout until the control plane approves it" ∷ [];
    }
    else if execution.status == "planned"
    then record result {
      backend_status = fallback execution.backend_status "pending_submission";
      current_step = fallback execution.current_step "queued";
      progress_percent = max_progress progress (pos 5);
      summary = "rollout is planned and awaiting control-plane start";
      explanation =
          "simulated backend is idle until the control plane transitions the rollout into progress"
          ∷ [];
    }
    else if execution.status == "approved" || execution.status == "in_progress"
    then under_way result progress (last? runtime.signal_snapshots)
    else if execution.status == "paused"
    then record result {
      backend_status = "paused";
      progress_percent = max_progress progress (pos 80);
      current_step = "paused";
      summary = "simulated backend paused rollout execution";
      explanation = "rollout is paused and awaiting manual resume or rollback" ∷ [];
    }
    else if execution.status == "verified"
    then record result {
      backend_status = "succeeded";
      progress_percent = pos 100;
      current_step = "verification_passed";
      summary = "simulated backend marked rollout verified and safe to complete";
      explanation =
          "verification passed and the simulated backend considers the rollout healthy" ∷ [];
    }
    else if execution.status == "completed"
    then record result {
      backend_status = "succeeded";
      progress_percent = pos 100;
      current_step = "completed";
      summary = "simulated backend completed rollout execution";
      explanation = "rollout finished successfully in the simulated backend" ∷ [];
    }
    else if execution.status == "rolled_back"
    then record result {
      backend_status = "rolled_back";
      progress_percent = pos 100;
      current_step = "rollback_complete";
      summary = "simulated backend rolled back rollout execution";
      explanation = "rollback completed and the execution is terminal" ∷ [];
    }
    else if execution.status == "failed"
    then record result {
      backend_status = "failed";
      progress_percent = max_progress progress (pos 100);
      current_step = "failed";
      summary = "simulated backend failed rollout execution";
      explanation = "execution reached a terminal failed state in the simulated backend" ∷ [];
    }
    else record result {
      backend_status = fallback execution.backend_status "unknown";
      current_step = fallback execution.current_step "unknown";
      summary = "simulated backend returned the stored execution state without change";
    }

-- What `Pause`, `Resume` and `Rollback` answer, up to their texts and progress.
abbrev answer : RolloutExecution → Time → SyncResult
answer execution now = record zero_sync_result {
  backend_type = "simulated";
  backend_execution_id = fallback_execution_id execution.backend_execution_id execution.id;
  last_updated_at = now;
}

unfoldable pub pause : RolloutExecutionRuntimeContext → String → Time → SyncResult
unfolding max_progress compact_strings
pause runtime reason now = record (answer runtime.execution now) {
  backend_status = "paused";
  progress_percent = max_progress runtime.execution.progress_percent (pos 80);
  current_step = "paused";
  summary = "simulated backend applied a pause request";
  explanation = compact_strings ("control plane requested a pause" ∷ reason ∷ []);
}

unfoldable pub resume : RolloutExecutionRuntimeContext → String → Time → SyncResult
unfolding max_progress compact_strings
resume runtime reason now = record (answer runtime.execution now) {
  backend_status = "progressing";
  progress_percent = max_progress runtime.execution.progress_percent (pos 65);
  current_step = "deploying";
  summary = "simulated backend resumed rollout execution";
  explanation = compact_strings ("control plane requested a resume" ∷ reason ∷ []);
}

unfoldable pub rollback : RolloutExecutionRuntimeContext → String → Time → SyncResult
unfolding compact_strings
rollback runtime reason now = record (answer runtime.execution now) {
  backend_status = "rolled_back";
  progress_percent = pos 100;
  current_step = "rollback_complete";
  summary = "simulated backend rolled back the execution";
  explanation = compact_strings ("control plane requested a rollback" ∷ reason ∷ []);
}
