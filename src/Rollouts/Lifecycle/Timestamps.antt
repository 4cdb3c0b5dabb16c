-- ===== src/Rollouts/Lifecycle/Timestamps.antt =====
-- internal/rollouts/lifecycle.go: what the status of an execution says of its start and end times,
-- as long as it is moved by `AdvanceExecution` alone.
use change_control_plane.Prelude.{
  String, ◌≡◌, refl, sym, ◌∙◌, subst, Bool, true, false, not, Option, none, some, List, [], ◌∷◌,
  arith,
}
use change_control_plane.Types.{Time, RolloutExecution}
use change_control_plane.Rollouts.Lifecycle.{
  is_none, advanced, advance_to, advance_execution, next_execution_state,
}
use change_control_plane.Rollouts.Lifecycle.Machine
use change_control_plane.Rollouts.Lifecycle.Trace.{Call, kept, step, run}

-- An execution that no longer runs.
abbrev pub is_closed : Machine.State → Bool
is_closed Machine.completed = true
is_closed Machine.failed = true
is_closed Machine.rolled_back = true
is_closed _ = false

-- An execution that must have been started.
abbrev pub is_started : Machine.State → Bool
is_started Machine.in_progress = true
is_started Machine.verified = true
is_started Machine.completed = true
is_started _ = false

pub record Inv (execution : RolloutExecution) : Type 0 where
  pub state : Machine.State
  pub status_text : execution.status ≡ Machine.status_of state
  pub ended : is_none execution.completed_at ≡ not (is_closed state)
  pub started : is_started state ≡ true → is_none execution.started_at ≡ false

abbrev FitsTimes : Machine.State → RolloutExecution → Type 0
FitsTimes s execution =
    (execution.status ≡ Machine.status_of s)
    × (is_none execution.completed_at ≡ not (is_closed s))
    × (is_started s ≡ true → is_none execution.started_at ≡ false)

-- One edge keeps the invariant.
advanced-FitsTimes :
    (execution : RolloutExecution) (reason : String) (now : Time) {s t : Machine.State}
    {a : Machine.Action}
    → Machine.Edge s a t
    → FitsTimes s execution
    → FitsTimes t (advanced execution (Machine.status_of t) (Machine.name_of a) reason now)
unfolding advanced
advanced-FitsTimes execution reason now Machine.begin h = ground arith
advanced-FitsTimes execution reason now _ h = ground arith

moved-Inv :
    (execution : RolloutExecution) (action reason next : String) (now : Time)
    → Machine.IsEdge execution.status action next
    → Inv execution
    → Inv (advanced execution next action reason now)
moved-Inv execution action reason next now edge inv =
    let same = Machine.status_of-injective _ _ (sym inv.status_text ∙ edge.current_text) in
    let before : FitsTimes inv.state execution = (inv.status_text, inv.ended, inv.started) in
    let after =
      advanced-FitsTimes execution reason now edge.edge
        (subst (λ s. FitsTimes s execution) same before) in
    rw (edge.action_text, edge.next_text)
      (record { state = edge.target; status_text = after.0; ended = after.1; started = after.2 })

advance_to-Inv :
    (execution : RolloutExecution) (action reason : String) (now : Time) (next : Option String)
    → next_execution_state execution.status action ≡ next
    → Inv execution
    → Inv (kept execution (advance_to execution next action reason now))
unfolding advance_to kept
advance_to-Inv execution action reason now none found inv = inv
advance_to-Inv execution action reason now (some next) found inv =
    moved-Inv execution action reason next now
      ((Machine.next_execution_state-eq-some_iff execution.status action next).0 found) inv

step-Inv : (execution : RolloutExecution) (call : Call) → Inv execution → Inv (step execution call)
unfolding step advance_execution
step-Inv execution call inv = advance_to-Inv execution call.action call.reason call.now _ refl inv

-- Whatever calls of `AdvanceExecution` are made, in whatever order and with whatever texts, an
-- execution that satisfies the invariant goes on to satisfy it: its status is one of the nine; it
-- has an end time exactly when it is completed, failed or rolled back; and it has a start time if
-- it is in progress, verified or completed.
pub run-Inv :
    (execution : RolloutExecution) (calls : List Call) → Inv execution → Inv (run execution calls)
unfolding run
run-Inv execution [] inv = inv
run-Inv execution (call ∷ calls) inv =
    run-Inv (step execution call) calls (step-Inv execution call inv)
