-- ===== src/App/Policies/Decisions/Blocking.antt =====
-- internal/app/policies.go: when a workflow is blocked or needs a review.
use change_control_plane.Prelude.{
  ℕ, suc, String, ◌≡◌, refl, ◌∙◌, ap, fun_ext, arith, Bool, true, false, ◌&&◌, ◌||◌, Option, none,
  some, List, [], ◌∷◌, ◌==◌, any,
}
use change_control_plane.Types.{Policy}
use change_control_plane.Policies.{EvaluationInput, evaluate_policy}
use change_control_plane.Policies.Meaning.{is_some}
use change_control_plane.App.{Tables, Call}
use change_control_plane.App.Meets.{meets_done, bind-Reads, Reads}
use change_control_plane.App.Policies.Resolve.Order.{
  counts, resolve_policies_for_workflow-IsOrdered,
}
use change_control_plane.App.Policies.Decisions.{
  PolicyEvaluationReference, decision_of, decisions_from, evaluate_policies, any_policy_decision,
}

-- An enabled policy in the scope of the change, for the workflow, that applies to it.
pub applies : EvaluationInput → Policy → Bool
applies input p =
    counts input.change.organization_id input.change.project_id input.change.service_id
      input.change.environment_id input.applies_to p
    && is_some (evaluate_policy p input)

and_assoc : (a b c : Bool) → (a && (b && c)) ≡ ((a && b) && c)
and_assoc true b c = refl
and_assoc false b c = refl

module _ (call : Call) (input : EvaluationInput) (reference : PolicyEvaluationReference) where
  any-decided :
      (outcome : String) (n : ℕ) (p : Policy) (policies : List Policy) (rest : Bool)
      (o : Option (List String))
      → ((m : ℕ)
          → any_policy_decision (decisions_from call input reference m policies) outcome ≡ rest)
      → any_policy_decision
          (elim o [
            | none ↦ decisions_from call input reference n policies
            | some reasons ↦
                decision_of call input reference n p reasons
                ∷ decisions_from call input reference (suc n) policies
          ])
          outcome
        ≡ ((is_some o && p.mode == outcome) || rest)
  unfolding any_policy_decision decision_of
  any-decided outcome n p policies rest none h = h n
  any-decided outcome n p policies rest (some reasons) h = ground (arith, h (suc n))

  any_policy_decision-decisions_from :
      (outcome : String) (n : ℕ) (policies : List Policy)
      → any_policy_decision (decisions_from call input reference n policies) outcome
        ≡ any (λ (p : Policy). is_some (evaluate_policy p input) && p.mode == outcome) policies
  unfolding any_policy_decision decisions_from
  any_policy_decision-decisions_from outcome n [] = refl
  any_policy_decision-decisions_from outcome n (p ∷ policies) =
      any-decided outcome n p policies _ (evaluate_policy p input)
        (λ m. any_policy_decision-decisions_from outcome m policies)

  -- The decisions of a workflow have an outcome if and only if a stored policy of that mode applies:
  -- so they block it, or ask for a review, exactly if such a policy does.
  pub evaluate_policies-applies :
      (t : Tables) (outcome : String)
      → Reads t
          (λ decisions.
            any_policy_decision decisions outcome
            ≡ any (λ (e : String × Policy). applies input e.1 && e.1.mode == outcome) t.policies)
          (evaluate_policies call input reference t)
  unfolding evaluate_policies applies
  evaluate_policies-applies t outcome =
      let of_mode : Policy → Bool = λ p. is_some (evaluate_policy p input) && p.mode == outcome in
      bind-Reads t _ (resolve_policies_for_workflow-IsOrdered t _ _ _ _ _ of_mode) (λ _. refl)
        λ policies found. meets_done (
          refl,
          any_policy_decision-decisions_from outcome 0 policies
              ∙ found.1
              ∙ ap (λ k. any k t.policies)
                  (fun_ext λ (e : String × Policy).
                    and_assoc (counts _ _ _ _ _ e.1) (is_some (evaluate_policy e.1 input))
                      (e.1.mode == outcome)),
        )
