-- ===== src/App/Policies/Resolve.antt =====
-- internal/app/policies.go: the policies that count for one run of a workflow, in their order.
pub mod Order
use change_control_plane.Prelude.{
  ℕ, suc, ◌+◌, String, Bool, true, false, not, ◌&&◌, ◌||◌, List, [], ◌∷◌, ◌==◌, if◌then◌else◌, ltb,
  eqb,
}
use change_control_plane.Prelude.Int.{ℤ, pos, negsuc, ltb_ℤ}
use change_control_plane.Types.{Policy}
use change_control_plane.Policies.Normal.{normalize_applies_to}
use change_control_plane.App.{App, done, found, ◌>>=◌, return}
use change_control_plane.App.Store.{
  eqb_ℤ, fits, sort_stable, PolicyQuery, zero_policy_query, list_policies,
}

abbrev point : String → ℕ
point id = if not (id == "") then 1 else 0

unfoldable pub policy_specificity : Policy → ℕ
policy_specificity policy =
    point policy.project_id + point policy.service_id + point policy.environment_id

unfoldable pub compare_policies : Policy → Policy → ℤ
unfolding policy_specificity
compare_policies left right =
    let left_specificity = policy_specificity left in
    let right_specificity = policy_specificity right in
    if not (eqb left_specificity right_specificity)
    then if ltb right_specificity left_specificity then negsuc 0 else pos 1
    else if not (eqb_ℤ left.priority right.priority)
    then if ltb_ℤ right.priority left.priority then negsuc 0 else pos 1
    else if ltb right.created_at left.created_at
    then negsuc 0
    else if ltb left.created_at right.created_at
    then pos 1
    else pos 0

unfoldable pub precedes : Policy → Policy → Bool
precedes left right = ltb_ℤ (compare_policies left right) (pos 0)

-- The loop over the listed policies.
unfoldable pub in_scope :
    (project_id service_id environment_id : String) → List Policy → List Policy
in_scope project_id service_id environment_id [] = []
in_scope project_id service_id environment_id (item ∷ items) =
    let rest = in_scope project_id service_id environment_id items in
    if not (item.project_id == "") && not (item.project_id == project_id)
    then rest
    else if not (item.service_id == "") && not (item.service_id == service_id)
    then rest
    else if not (item.environment_id == "") && not (item.environment_id == environment_id)
    then rest
    else item ∷ rest

abbrev pub workflow_query : (organization_id applies_to : String) → PolicyQuery
workflow_query organization_id applies_to = record zero_policy_query {
  organization_id = organization_id;
  applies_to = normalize_applies_to applies_to;
  enabled_only = true;
}

unfoldable pub resolve_policies_for_workflow :
    (organization_id project_id service_id environment_id applies_to : String) → App (List Policy)
resolve_policies_for_workflow organization_id project_id service_id environment_id applies_to = do
  items ← list_policies (workflow_query organization_id applies_to)
  return (sort_stable precedes (in_scope project_id service_id environment_id items))
