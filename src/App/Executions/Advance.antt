-- ===== src/App/Executions/Advance.antt =====
-- internal/app/operations.go: what `AdvanceRolloutExecution` does to the tables.
use change_control_plane.Prelude.{
  String, ◌≡◌, refl, sym, ◌∙◌, ap, subst, Bool, true, false, not, ◌&&◌, ◌||◌, Option, none, some,
  lookup, contains, if◌then◌else◌, arith, List, ◌∷◌, [],
}
use change_control_plane.Prelude.Text.{trim}
use change_control_plane.Types.{Time, RolloutExecution, AdvanceRolloutExecutionRequest}
use change_control_plane.Rollouts.Lifecycle.{
  next_execution_state, advanced, advance_to, advance_execution,
}
use change_control_plane.Auth.{Identity, is_present}
use change_control_plane.Auth.Authorizer.{can_execute_rollout, can_override_rollout}
use change_control_plane.App.{Tables, Call}
use change_control_plane.App.Meets.{
  Meets, Ends, bind-Ends, mono, meets_done, meets_failed, Reads, found_rule, branch_rule,
  branch_then_rule, require_rule, require_known_identity_rule,
}
use change_control_plane.App.Store.{put_execution, update_rollout_execution}
use change_control_plane.App.Record.{data_of, denied, recorded}
use change_control_plane.Redaction.{safe_rollout_execution_for_response}
use change_control_plane.App.Executions.{
  is_simulated, integration_allows_active_control, execution_advisory_mode_state,
  manual_control_blocked_by_advisory_mode, override_actions, accepted, updated, advance_permitted,
  advance_rollout_execution,
}

-- The backend is live, and no integration that is stored for it allows active control.
unfoldable pub is_advisory : Tables → RolloutExecution → Bool
is_advisory t execution =
    if is_simulated execution
    then false
    else not
        (integration_allows_active_control (lookup execution.backend_integration_id t.integrations))

-- The test fails only where the integration is missing.
advisory_mode-Ends :
    (t : Tables) (execution : RolloutExecution)
    → Ends t
        (λ state. state.0 ≡ is_advisory t execution)
        (is_advisory t execution ≡ true)
        (execution_advisory_mode_state execution t)
unfolding execution_advisory_mode_state is_advisory integration_allows_active_control
advisory_mode-Ends t execution =
    branch_rule (is_simulated execution) _ _ (λ h. meets_done (refl, rw h refl))
      λ h.
        found_rule (lookup execution.backend_integration_id t.integrations) _ _
          (λ missing. (refl, rw (h, missing) refl))
          λ integration there.
            branch_rule (integration_allows_active_control (some integration)) _ _
              (λ active. meets_done (refl, rw (h, there) (rw active refl)))
              (λ passive. meets_done (refl, rw (h, there) (rw passive refl)))

pub execution_advisory_mode_state-is_advisory :
    (t : Tables) (execution : RolloutExecution)
    → Reads t
        (λ state. state.0 ≡ is_advisory t execution)
        (execution_advisory_mode_state execution t)
execution_advisory_mode_state-is_advisory t execution =
    mono (advisory_mode-Ends t execution) (λ state u h. h) (λ e u h. h.0)

abbrev pub manual_controls : List String
manual_controls = "pause" ∷ "resume" ∷ "continue" ∷ "rollback" ∷ []

and_taken : (b c d : Bool) → b ≡ true → d ≡ c → d ≡ (b && c)
and_taken true c d h same = same
and_taken false c d h same = cc

and_skipped : (b c : Bool) → b ≡ false → false ≡ (b && c)
and_skipped true c h = cc
and_skipped false c h = refl

blocked-is_advisory :
    (t : Tables) (execution : RolloutExecution) (action : String)
    → Ends t
        (λ blocked. blocked ≡ (contains manual_controls (trim action) && is_advisory t execution))
        ((contains manual_controls (trim action) && is_advisory t execution) ≡ true)
        (manual_control_blocked_by_advisory_mode execution action t)
unfolding manual_control_blocked_by_advisory_mode
blocked-is_advisory t execution action =
    branch_rule (contains manual_controls (trim action)) _ _
      (λ h.
        bind-Ends t _ (advisory_mode-Ends t execution) (λ e is. (refl, ground arith))
          λ state same.
            meets_done (refl, and_taken (contains manual_controls (trim action)) _ _ h same))
      (λ h. meets_done (refl, and_skipped (contains manual_controls (trim action)) _ h))

-- The table of transitions allows the action.
accepted-advance :
    (t : Tables) (execution : RolloutExecution) (action reason : String) (now : Time)
    (next : Option String)
    → Ends t
        (λ moved. (s : String) × (next ≡ some s) × (moved ≡ advanced execution s action reason now))
        (next ≡ none)
        (accepted (advance_to execution next action reason now) t)
unfolding accepted advance_to
accepted-advance t execution action reason now none = meets_failed (refl, refl)
accepted-advance t execution action reason now (some s) = meets_done (refl, (s, refl, refl))

id-advanced :
    (current : RolloutExecution) (next action reason : String) (now : Time)
    → (advanced current next action reason now).id ≡ current.id
unfolding advanced
id-advanced current next action reason now = ground arith

-- The update finds the moved execution where it finds the current one.
is_present-moved :
    (t : Tables) (b : Bool) (current moved : RolloutExecution) (next action reason : String)
    (now : Time)
    → moved ≡ advanced current next action reason now
    → is_present (lookup moved.id t.rollout_executions) ≡ b
    → is_present (lookup current.id t.rollout_executions) ≡ b
is_present-moved t b current moved next action reason now same =
    subst (λ i. is_present (lookup i t.rollout_executions) ≡ b)
      (ap (λ (x : RolloutExecution). x.id) same ∙ id-advanced current next action reason now)

-- All that moving the execution `current` to the status `next` asks for.
pub record CanAdvance (call : Call) (id : String) (req : AdvanceRolloutExecutionRequest)
    (t : Tables) (identity : Identity) (current : RolloutExecution) (next : String) : Type 0 where
  pub caller : call.identity ≡ some identity
  pub authenticated : identity.authenticated ≡ true
  pub was_stored : lookup id t.rollout_executions ≡ some current
  pub permitted : can_execute_rollout identity current.organization_id current.project_id ≡ true
  pub overrides :
      (not (contains override_actions (trim req.action))
        || can_override_rollout identity current.organization_id current.project_id)
      ≡ true
  pub has_control :
      (contains manual_controls (trim (trim req.action)) && is_advisory t current) ≡ false
  pub has_edge : next_execution_state current.status (trim req.action) ≡ some next
  -- where the update looks for it
  pub updatable : is_present (lookup current.id t.rollout_executions) ≡ true

pub record IsAdvanced (call : Call) (id : String) (req : AdvanceRolloutExecutionRequest)
    (t : Tables) (response : RolloutExecution) (u : Tables) : Type 0 where
  pub identity : Identity
  pub current : RolloutExecution
  pub next : String
  pub allowed : CanAdvance call id req t identity current next
  -- what is stored
  pub moved : RolloutExecution
  pub is_moved :
      moved ≡ updated call.now (advanced current next (trim req.action) req.reason call.now)
  pub written : data_of u ≡ data_of (put_execution moved t)
  pub answer : response ≡ safe_rollout_execution_for_response moved

-- The tables are as they were but for the logs, and the caller may not move the execution.
abbrev pub IsHeld : Call → (id : String) → AdvanceRolloutExecutionRequest → (t u : Tables) → Type 0
IsHeld call id req t u =
    (data_of u ≡ data_of t)
    × ((i : Identity) (x : RolloutExecution) (s : String) → ¬ CanAdvance call id req t i x s)

advance_permitted-IsAdvanced :
    (call : Call) (id : String) (req : AdvanceRolloutExecutionRequest) (t : Tables)
    (identity : Identity) (current : RolloutExecution)
    → call.identity ≡ some identity
    → identity.authenticated ≡ true
    → lookup id t.rollout_executions ≡ some current
    → can_execute_rollout identity current.organization_id current.project_id ≡ true
    → (not (contains override_actions (trim req.action))
        || can_override_rollout identity current.organization_id current.project_id)
      ≡ true
    → Meets
        (IsAdvanced call id req t)
        (λ e u. IsHeld call id req t u)
        (advance_permitted call identity current req t)
unfolding advance_permitted advance_execution update_rollout_execution recorded
advance_permitted-IsAdvanced call id req t identity current caller known was_stored permitted
      overrides =
    let action = trim req.action in
    bind-Ends t _ (blocked-is_advisory t current action)
      (λ e h. (refl, λ i x s c. let there = c.was_stored in let free = c.has_control in cc))
      λ blocked same.
        require_rule (not blocked) _ _
          (λ free.
            bind-Ends t _
              (accepted-advance t current action req.reason call.now
                (next_execution_state current.status action))
              (λ e h. (refl, λ i x s c. let there = c.was_stored in let edge = c.has_edge in cc))
              λ moved edge.
                let present = λ (b : Bool).
                  is_present-moved t b current moved edge.0 action req.reason call.now edge.2 in
                branch_then_rule (is_present (lookup moved.id t.rollout_executions)) _ _ t _
                  (λ h. meets_done (record {
                    identity = identity;
                    current = current;
                    next = edge.0;
                    allowed = record {
                      caller = caller;
                      authenticated = known;
                      was_stored = was_stored;
                      permitted = permitted;
                      overrides = overrides;
                      has_control = sym same ∙ ground arith;
                      has_edge = edge.1;
                      updatable = present true h;
                    };
                    moved = updated call.now moved;
                    is_moved = ap (updated call.now) edge.2;
                    written = refl;
                    answer = refl;
                  }))
                  (λ h. meets_failed (
                    refl,
                    λ i x s c.
                        let there = c.was_stored in
                        let held = c.updatable in let lost = present false h in cc,
                  )))
          (λ h. meets_failed (
            refl,
            λ i x s c.
                let there = c.was_stored in
                let free = c.has_control in let taken : blocked ≡ true = ground arith in cc,
          ))

-- `AdvanceRolloutExecution` moves the stored execution along an edge of the table of transitions exactly
-- if the caller may execute rollouts there, and override them where the action asks for that, and no
-- control by hand (pause, resume, continue, rollback) reaches a live backend without an integration
-- that allows active control. Otherwise all tables but the logs stay as they are. The execution is
-- stored under the identifier that it holds.
pub advance_rollout_execution-IsAdvanced :
    (call : Call) (id : String) (req : AdvanceRolloutExecutionRequest) (t : Tables)
    → Meets
        (IsAdvanced call id req t)
        (λ e u. IsHeld call id req t u)
        (advance_rollout_execution call id req t)
unfolding advance_rollout_execution denied
advance_rollout_execution-IsAdvanced call id req t =
    let action = trim req.action in
    require_known_identity_rule call _
      (λ unknown. (refl, λ i x s c. unknown i c.caller c.authenticated))
      λ identity caller known.
        found_rule (lookup id t.rollout_executions) _ _
          (λ h. (refl, λ i x s c. let there = c.was_stored in cc))
          λ current was_stored.
            require_rule (can_execute_rollout identity current.organization_id current.project_id) _
              _
              (λ permitted.
                require_rule
                  (not (contains override_actions action)
                    || can_override_rollout identity current.organization_id current.project_id)
                  _ _
                  (advance_permitted-IsAdvanced call id req t identity current caller known
                    was_stored permitted)
                  (λ h. meets_failed (
                    refl,
                    λ i x s c.
                        let same = c.caller in
                        let there = c.was_stored in let free = c.overrides in cc,
                  )))
              (λ h. meets_failed (
                refl,
                λ i x s c.
                    let same = c.caller in let there = c.was_stored in let free = c.permitted in cc,
              ))
