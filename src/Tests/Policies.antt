-- ===== src/Tests/Policies.antt =====
-- internal/policies/evaluator.go at a concrete policy.
use change_control_plane.Prelude.{◌≡◌, ◌↔◌, ◌∷◌, [], true}
use change_control_plane.Types.{
  Policy, PolicyCondition, zero_policy, zero_policy_condition, zero_risk_assessment,
}
use change_control_plane.Policies.{EvaluationInput, evaluate_policy}
use change_control_plane.Policies.Meaning.{Matches, is_some, evaluate_policy-Matches}
use change_control_plane.Tests.{roles_change, ledger, live}

abbrev pub guarded : PolicyCondition
guarded = record zero_policy_condition {
  production_only = true;
  min_risk_level = "Medium";
  required_change_types = " iam" ∷ [];
}

abbrev pub roles_policy : Policy
roles_policy = record zero_policy {
  enabled = true;
  applies_to = "rollout_plan";
  conditions = guarded;
}

abbrev pub roles_input : EvaluationInput
roles_input = record {
  change = roles_change;
  service = ledger;
  environment = live;
  assessment = record zero_risk_assessment { level = "critical" };
  applies_to = "rollout_plan";
}

evaluate_policy-Matches_example :
    (is_some (evaluate_policy roles_policy roles_input) ≡ true) ↔ Matches roles_policy roles_input
evaluate_policy-Matches_example = evaluate_policy-Matches roles_policy roles_input
