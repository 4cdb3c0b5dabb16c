-- ===== src/App/Policies/Decisions.antt =====
-- internal/app/policies.go: the decisions that the policies of a workflow lead to, and what is read off
-- them.
pub mod Blocking
use change_control_plane.Prelude.{
  ℕ, suc, String, Bool, true, false, not, ◌&&◌, ◌||◌, Option, none, some, List, [], ◌∷◌, ◌++◌, ◌==◌,
  if◌then◌else◌, insert, is_empty,
}
use change_control_plane.Prelude.Text.{is_blank, join}
use change_control_plane.Prelude.Text.Search.{blanked}
use change_control_plane.Prelude.Format.{concat}
use change_control_plane.Types.{
  Metadata, Any, text, texts, ChangeSet, Service, Environment, RiskAssessment, Policy,
  PolicyDecision, zero_policy_decision,
}
use change_control_plane.Policies.{EvaluationInput, evaluate_policy}
use change_control_plane.Auth.{Identity}
use change_control_plane.App.{
  Tables, Call, AppError, validation, App, done, found, ◌>>=◌, ◌>>◌, return, modify,
  value_or_default,
}
use change_control_plane.App.Store.{create_policy_decision}
use change_control_plane.App.Status.{
  StatusScope, zero_status_scope, with_status_category, with_status_severity, with_status_summary,
  with_status_scope,
}
use change_control_plane.App.Record.{recorded}
use change_control_plane.App.Policies.Resolve.{resolve_policies_for_workflow}

pub record PolicyEvaluationReference : Type 0 where
  pub risk_assessment_id : String
  pub rollout_plan_id : String
  pub rollout_execution_id : String
  pub release_id : String
  pub config_set_id : String
  pub database_change_id : String
  pub metadata : Metadata

unfoldable pub policy_decision_summary :
    Policy → (applies_to : String) → (reasons : List String) → String
unfolding concat join blanked
policy_decision_summary policy applies_to reasons =
    if policy.mode == "block"
    then concat (
        policy.name
        ∷ " blocks "
        ∷ blanked b'_' applies_to
        ∷ " when "
        ∷ join reasons "; "
        ∷ "."
        ∷ [])
    else if policy.mode == "require_manual_review"
    then concat (policy.name ∷ " requires manual review when " ∷ join reasons "; " ∷ "." ∷ [])
    else concat (policy.name ∷ " advises caution because " ∷ join reasons "; " ∷ "." ∷ [])

module _ (call : Call) (input : EvaluationInput) (reference : PolicyEvaluationReference) where
  -- The decision of a policy that applies, the one with this number.
  unfoldable pub decision_of : ℕ → Policy → List String → PolicyDecision
  unfolding policy_decision_summary
  decision_of n policy reasons = record {
    base = record {
      id = call.new_id "pdec" n;
      created_at = call.now;
      updated_at = call.now;
      metadata =
          insert (insert reference.metadata "policy_scope" (text policy.scope)) "matched_triggers"
            (texts policy.triggers);
    };
    organization_id = input.change.organization_id;
    project_id = input.change.project_id;
    service_id = input.change.service_id;
    environment_id = input.change.environment_id;
    policy_id = policy.id;
    policy_name = policy.name;
    policy_code = policy.code;
    policy_scope = policy.scope;
    applies_to = input.applies_to;
    mode = policy.mode;
    change_set_id = input.change.id;
    risk_assessment_id = reference.risk_assessment_id;
    rollout_plan_id = reference.rollout_plan_id;
    rollout_execution_id = reference.rollout_execution_id;
    release_id = reference.release_id;
    config_set_id = reference.config_set_id;
    database_change_id = reference.database_change_id;
    outcome = policy.mode;
    summary = policy_decision_summary policy input.applies_to reasons;
    reasons = reasons;
  }

  -- The loop of `evaluatePolicies`, with the number of decisions made.
  unfoldable pub decisions_from : ℕ → List Policy → List PolicyDecision
  unfolding decision_of
  decisions_from n [] = []
  decisions_from n (policy ∷ policies) = elim (evaluate_policy policy input) [
    | none ↦ decisions_from n policies
    | some reasons ↦ decision_of n policy reasons ∷ decisions_from (suc n) policies
  ]

  unfoldable pub evaluate_policies : App (List PolicyDecision)
  evaluate_policies = do
    policies ←
        resolve_policies_for_workflow input.change.organization_id input.change.project_id
          input.change.service_id input.change.environment_id input.applies_to
    return (decisions_from 0 policies)

unfoldable pub persist_policy_decisions : List PolicyDecision → App (Unit {0})
persist_policy_decisions [] = return tt
persist_policy_decisions (decision ∷ decisions) = do
  create_policy_decision decision
  persist_policy_decisions decisions

unfoldable pub evaluate_and_persist_policies :
    Call → EvaluationInput → PolicyEvaluationReference → App (List PolicyDecision)
evaluate_and_persist_policies call input reference = do
  decisions ← evaluate_policies call input reference
  persist_policy_decisions decisions
  return decisions

unfoldable pub any_policy_decision : List PolicyDecision → String → Bool
any_policy_decision [] outcome = false
any_policy_decision (decision ∷ decisions) outcome =
    let rest = any_policy_decision decisions outcome in
    if decision.outcome == outcome then true else rest

unfoldable pub blocking_policy_names : List PolicyDecision → List String
blocking_policy_names [] = []
blocking_policy_names (decision ∷ decisions) =
    let rest = blocking_policy_names decisions in
    if decision.outcome == "block" then decision.policy_name ∷ rest else rest

unfoldable pub blocking_policy_decision_summaries : List PolicyDecision → List String
unfolding is_blank
blocking_policy_decision_summaries [] = []
blocking_policy_decision_summaries (decision ∷ decisions) =
    let rest = blocking_policy_decision_summaries decisions in
    if not (decision.outcome == "block")
    then rest
    else if not (is_blank decision.summary)
    then decision.summary ∷ rest
    else decision.policy_name ∷ rest

unfoldable pub decision_summaries : List PolicyDecision → List String
decision_summaries [] = []
decision_summaries (decision ∷ decisions) = decision.summary ∷ decision_summaries decisions

-- The loop of `decisionScope`.
unfoldable pub scope_from : StatusScope → List PolicyDecision → StatusScope
unfolding value_or_default
scope_from scope [] = scope
scope_from scope (decision ∷ decisions) =
    scope_from
      (record scope {
        project_id = value_or_default scope.project_id decision.project_id;
        service_id = value_or_default scope.service_id decision.service_id;
        environment_id = value_or_default scope.environment_id decision.environment_id;
        change_set_id = value_or_default scope.change_set_id decision.change_set_id;
      })
      decisions

unfoldable pub decision_scope : List PolicyDecision → StatusScope
unfolding scope_from
decision_scope decisions = scope_from zero_status_scope decisions

unfoldable pub record_policy_blocked_outcome :
    Call → Identity → ChangeSet → List PolicyDecision → App (Unit {0})
record_policy_blocked_outcome call identity change decisions = modify (
    recorded call identity
      (record {
        event_type = "policy.blocked";
        resource_type = "change_set";
        resource_id = change.id;
        organization_id = change.organization_id;
        project_id = change.project_id;
      })
      ("rollout plan blocked by policy" ∷ blocking_policy_names decisions)
      (with_status_category "governance"
        ∷ with_status_severity "warning"
        ∷ with_status_summary "rollout plan blocked by policy"
        ∷ with_status_scope (decision_scope decisions)
        ∷ []))

unfoldable pub is_policy_blocked : List PolicyDecision → Bool
unfolding any_policy_decision
is_policy_blocked decisions = any_policy_decision decisions "block"

unfoldable pub is_policy_review_required : List PolicyDecision → Bool
unfolding any_policy_decision
is_policy_review_required decisions = any_policy_decision decisions "require_manual_review"

abbrev or_unnamed : List String → List String
or_unnamed [] = "matching policy" ∷ []
or_unnamed (name ∷ names) = name ∷ names

unfoldable pub wrap_policy_block_error : List PolicyDecision → AppError
unfolding blocking_policy_names concat join
wrap_policy_block_error decisions = validation (
    concat (
      "rollout plan blocked by policy: "
      ∷ join (or_unnamed (blocking_policy_names decisions)) ", "
      ∷ []))
