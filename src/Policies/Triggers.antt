-- ===== src/Policies/Triggers.antt =====
-- internal/policies/evaluator.go: the texts that describe the conditions of a policy.
use change_control_plane.Prelude.{String, not, List, [], ◌∷◌, ◌==◌, is_empty, append_if}
use change_control_plane.Prelude.Text.{join}
use change_control_plane.Prelude.Format.{concat}
use change_control_plane.Types.{PolicyCondition}

unfoldable pub compute_triggers : PolicyCondition → List String
compute_triggers condition =
    let risk =
      append_if (not (condition.min_risk_level == ""))
        (concat ("risk>=" ∷ condition.min_risk_level ∷ []) ∷ []) [] in
    let production = append_if condition.production_only ("environment=production" ∷ []) risk in
    let regulated = append_if condition.regulated_only ("regulated=true" ∷ []) production in
    let kinds =
      append_if (not (is_empty condition.required_change_types))
        (concat ("change_types=" ∷ join condition.required_change_types "|" ∷ []) ∷ []) regulated in
    let touches =
      append_if (not (is_empty condition.required_touches))
        (concat ("touches=" ∷ join condition.required_touches "|" ∷ []) ∷ []) kinds in
    append_if (not (is_empty condition.missing_capabilities))
      (concat ("missing=" ∷ join condition.missing_capabilities "|" ∷ []) ∷ []) touches
