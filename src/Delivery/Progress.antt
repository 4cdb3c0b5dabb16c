-- ===== src/Delivery/Progress.antt =====
-- internal/delivery/simulated.go: the progress that the simulated orchestrator reports.
use change_control_plane.Prelude.{String, Option, none, some, arith, last?}
use change_control_plane.Prelude.Int.{ℤ, pos, ◌≤ℤ◌}
use change_control_plane.Types.{Time, SignalSnapshot, RolloutExecutionRuntimeContext, SyncResult}
use change_control_plane.Delivery

-- The progress that is reported is not below the stored one, and at most 100.
abbrev pub Advances : ℤ → SyncResult → Type 0
Advances before result = (before ≤ℤ result.progress_percent) × (result.progress_percent ≤ℤ pos 100)

abbrev IsPercent : ℤ → Type 0
IsPercent p = (pos 0 ≤ℤ p) × (p ≤ℤ pos 100)

max_progress_lem :
    (p q : ℤ)
    → p ≤ℤ pos 100
    → q ≤ℤ pos 100
    → (p ≤ℤ Delivery.max_progress p q) × (Delivery.max_progress p q ≤ℤ pos 100)
unfolding Delivery.max_progress
max_progress_lem p q h k = ground arith

progress_of_lem :
    (runtime : RolloutExecutionRuntimeContext)
    → runtime.execution.progress_percent ≤ℤ pos 100
    → (runtime.execution.progress_percent ≤ℤ Delivery.progress_of runtime.execution)
      × (Delivery.progress_of runtime.execution ≤ℤ pos 100)
unfolding Delivery.progress_of
progress_of_lem runtime h = ground arith

under_way-Advances :
    (before progress : ℤ) (result : SyncResult) (snapshot : Option SignalSnapshot)
    → before ≤ℤ progress
    → progress ≤ℤ pos 100
    → Advances before (Delivery.under_way result progress snapshot)
unfolding Delivery.under_way
under_way-Advances before progress result none h k =
    ground (arith, max_progress_lem progress (pos 65) k (omega arith))
under_way-Advances before progress result (some snapshot) h k =
    ground (arith, max_progress_lem progress (pos 80) k (omega arith))

module _ (runtime : RolloutExecutionRuntimeContext) (now : Time) where
  sync-Advances :
      runtime.execution.progress_percent ≤ℤ pos 100
      → Advances runtime.execution.progress_percent (Delivery.sync runtime now)
  unfolding Delivery.sync Delivery.stored_state
  sync-Advances h =
      let before = runtime.execution.progress_percent in
      let progress = Delivery.progress_of runtime.execution in
      let start = progress_of_lem runtime h in
      ground (
        arith,
        start,
        max_progress_lem progress (pos 5) start.1 (omega arith),
        max_progress_lem progress (pos 80) start.1 (omega arith),
        max_progress_lem progress (pos 100) start.1 (omega arith),
        under_way-Advances before progress (Delivery.stored_state runtime.execution now)
            (last? runtime.signal_snapshots) start.0 start.1,
      )

  -- No operation of the simulated orchestrator lowers the progress of an execution, or raises it
  -- above 100, if it was at most 100.
  pub operations-Advances :
      (reason : String)
      → runtime.execution.progress_percent ≤ℤ pos 100
      → let before = runtime.execution.progress_percent in
        Advances before (Delivery.submit runtime now)
        × Advances before (Delivery.sync runtime now)
        × Advances before (Delivery.pause runtime reason now)
        × Advances before (Delivery.resume runtime reason now)
        × Advances before (Delivery.rollback runtime reason now)
  unfolding Delivery.submit Delivery.pause Delivery.resume Delivery.rollback
  operations-Advances reason h =
      let before = runtime.execution.progress_percent in
      (
        max_progress_lem before (pos 10) h (omega arith),
        sync-Advances h,
        max_progress_lem before (pos 80) h (omega arith),
        max_progress_lem before (pos 65) h (omega arith),
        (h, omega arith),
      )
