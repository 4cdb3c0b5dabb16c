-- ===== src/Workflows.antt =====
-- internal/workflows/control_loop.go: the action that the control loop takes by itself, against the
-- lifecycle of internal/rollouts.
use change_control_plane.Prelude.{
  String, ◌≡◌, refl, ◌∙◌, Bool, true, false, ◌||◌, ◌==◌, Option, none, some, if◌then◌else◌, eq_iff,
  Bool-cases, inl, inr, ◌⊎◌,
}
use change_control_plane.Types.{Time, RolloutExecution}
use change_control_plane.Rollouts.Lifecycle.{advance_execution}
use change_control_plane.Rollouts.Lifecycle.Machine
use change_control_plane.Rollouts.Lifecycle.Approval.{advance_execution-Edge}

pub record NextAction : Type 0 where
  pub action : String
  pub reason : String

-- `nextAction`; `auto_advance` is the field of the loop.
unfoldable pub next_action : (auto_advance : Bool) → RolloutExecution → Option NextAction
next_action false execution = none
next_action true execution =
    if execution.status == "planned" || execution.status == "approved"
    then some
        (record { action = "start"; reason = "worker control loop auto-started rollout execution" })
    else if execution.status == "verified"
    then some (record {
      action = "complete";
      reason = "worker control loop marked verified rollout execution complete";
    })
    else none

-- The lifecycle accepts the action, and what follows from it.
abbrev pub IsAccepted : RolloutExecution → Time → Option NextAction → Type 0
IsAccepted execution now none = Unit
IsAccepted execution now (some next) =
    let done = advance_execution execution next.action next.reason now in
    (done.1 ≡ none) × ((done.0.status ≡ "in_progress") ⊎ (done.0.status ≡ "completed"))

IsAccepted-Edge :
    (execution : RolloutExecution) (reason : String) (now : Time) {s t : Machine.State}
    {a : Machine.Action}
    → Machine.Edge s a t
    → execution.status ≡ Machine.status_of s
    → (Machine.status_of t ≡ "in_progress") ⊎ (Machine.status_of t ≡ "completed")
    → IsAccepted execution now (some (record { action = Machine.name_of a; reason = reason }))
IsAccepted-Edge execution reason now edge e (inl h) =
    let moved = advance_execution-Edge execution reason now edge e in (moved.0, inl (moved.1 ∙ h))
IsAccepted-Edge execution reason now edge e (inr h) =
    let moved = advance_execution-Edge execution reason now edge e in (moved.0, inr (moved.1 ∙ h))

-- Whatever action the control loop takes by itself, the lifecycle accepts it, and the execution is in
-- progress or completed after it.
pub next_action-IsAccepted :
    (auto_advance : Bool) (execution : RolloutExecution) (now : Time)
    → IsAccepted execution now (next_action auto_advance execution)
unfolding next_action
next_action-IsAccepted false execution now = tt
next_action-IsAccepted true execution now =
    let status = execution.status in
    elim (Bool-cases (status == "planned")) [
      | inl planned ↦ rw planned (
          IsAccepted-Edge execution _ now Machine.begin ((eq_iff status "planned").0 planned)
            (inl refl))
      | inr unplanned ↦ elim (Bool-cases (status == "approved")) [
        | inl approved ↦
            rw (unplanned, approved)
              (IsAccepted-Edge execution _ now Machine.begin_approved
                ((eq_iff status "approved").0 approved) (inl refl))
        | inr unapproved ↦ elim (Bool-cases (status == "verified")) [
          | inl passed ↦
              rw (unplanned, unapproved, passed)
                (IsAccepted-Edge execution _ now Machine.finish_verified
                  ((eq_iff status "verified").0 passed) (inr refl))
          | inr other ↦ rw (unplanned, unapproved, other) tt
        ]
      ]
    ]
