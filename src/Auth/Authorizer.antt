-- ===== src/Auth/Authorizer.antt =====
-- internal/auth/authorizer.go: the questions that the operations ask before they act.
use change_control_plane.Prelude.{
  String, Bool, true, false, ◌&&◌, ◌||◌, List, [], ◌∷◌, ◌==◌, if◌then◌else◌, contains,
}
use change_control_plane.Types.{Service, Team}
use change_control_plane.Auth.{
  Identity, organization_role, project_role, has_organization_access, has_project_access,
}
pub mod Permissions

unfoldable pub has_any_role : String → List String → Bool
has_any_role role [] = false
has_any_role role (candidate ∷ allowed) =
    let rest = has_any_role role allowed in if role == candidate then true else rest

-- `hasAnyRole(identity.OrganizationRole(organizationID), ...)`
unfoldable pub in_organization : Identity → String → List String → Bool
unfolding has_any_role organization_role
in_organization i organization_id allowed =
    has_any_role (organization_role i organization_id) allowed

-- `hasAnyRole(identity.ProjectRole(projectID), ...)`
unfoldable pub in_project : Identity → String → List String → Bool
unfolding has_any_role project_role
in_project i project_id allowed = has_any_role (project_role i project_id) allowed

module _ (i : Identity) where
  unfoldable pub can_create_organization : Bool
  can_create_organization = i.authenticated && i.actor_type == "user"

  unfoldable pub can_view_organization : String → Bool
  unfolding has_organization_access
  can_view_organization organization_id = has_organization_access i organization_id

  unfoldable pub can_manage_organization : String → Bool
  unfolding in_organization
  can_manage_organization organization_id = in_organization i organization_id ("org_admin" ∷ [])

  unfoldable pub can_manage_browser_sessions : String → Bool
  unfolding in_organization
  can_manage_browser_sessions organization_id =
      i.actor_type == "user" && in_organization i organization_id ("org_admin" ∷ [])

  unfoldable pub can_create_project : String → Bool
  unfolding in_organization
  can_create_project organization_id = in_organization i organization_id ("org_admin" ∷ [])

  unfoldable pub can_manage_project : (organization_id project_id : String) → Bool
  unfolding in_organization in_project
  can_manage_project organization_id project_id =
      in_organization i organization_id ("org_admin" ∷ [])
      || in_project i project_id ("project_admin" ∷ [])

  unfoldable pub can_read_project : (organization_id project_id : String) → Bool
  unfolding has_organization_access has_project_access
  can_read_project organization_id project_id =
      has_organization_access i organization_id || has_project_access i project_id

  unfoldable pub can_manage_service : Service → Team → Bool
  unfolding in_organization in_project
  can_manage_service service team =
      in_organization i service.organization_id ("org_admin" ∷ [])
      || in_project i service.project_id ("project_admin" ∷ [])
      || contains team.owner_user_ids i.actor_id

  unfoldable pub can_create_environment : (organization_id project_id : String) → Bool
  unfolding in_organization in_project
  can_create_environment organization_id project_id =
      in_organization i organization_id ("org_admin" ∷ [])
      || in_project i project_id ("project_admin" ∷ [])

  unfoldable pub can_create_team : (organization_id project_id : String) → Bool
  unfolding can_create_environment
  can_create_team organization_id project_id = can_create_environment organization_id project_id

  unfoldable pub can_manage_team : (organization_id project_id : String) → Bool
  unfolding can_manage_project
  can_manage_team organization_id project_id = can_manage_project organization_id project_id

  unfoldable pub can_ingest_change : (organization_id project_id : String) → Team → Bool
  unfolding in_organization in_project
  can_ingest_change organization_id project_id team =
      in_organization i organization_id ("org_admin" ∷ "org_member" ∷ [])
      || in_project i project_id ("project_admin" ∷ "project_member" ∷ "service_owner" ∷ [])
      || contains team.owner_user_ids i.actor_id

  unfoldable pub can_assess_risk : (organization_id project_id : String) → Bool
  unfolding can_read_project
  can_assess_risk organization_id project_id = can_read_project organization_id project_id

  unfoldable pub can_plan_rollout : (organization_id project_id : String) → Bool
  unfolding in_organization in_project
  can_plan_rollout organization_id project_id =
      in_organization i organization_id ("org_admin" ∷ "org_member" ∷ [])
      || in_project i project_id ("project_admin" ∷ "project_member" ∷ "service_owner" ∷ [])

  unfoldable pub can_view_audit : String → Bool
  unfolding has_organization_access
  can_view_audit organization_id = has_organization_access i organization_id

  unfoldable pub can_manage_integrations : String → Bool
  unfolding in_organization
  can_manage_integrations organization_id = in_organization i organization_id ("org_admin" ∷ [])

  unfoldable pub can_manage_service_accounts : String → Bool
  unfolding in_organization
  can_manage_service_accounts organization_id =
      i.actor_type == "user" && in_organization i organization_id ("org_admin" ∷ [])

  unfoldable pub can_read_service_accounts : String → Bool
  unfolding in_organization
  can_read_service_accounts organization_id =
      in_organization i organization_id ("org_admin" ∷ "org_member" ∷ "viewer" ∷ [])

  unfoldable pub can_execute_rollout : (organization_id project_id : String) → Bool
  unfolding in_organization in_project
  can_execute_rollout organization_id project_id =
      in_organization i organization_id ("org_admin" ∷ "org_member" ∷ [])
      || in_project i project_id ("project_admin" ∷ "project_member" ∷ "service_owner" ∷ [])

  unfoldable pub can_record_verification : (organization_id project_id : String) → Bool
  unfolding can_execute_rollout
  can_record_verification organization_id project_id =
      can_execute_rollout organization_id project_id

  unfoldable pub can_override_rollout : (organization_id project_id : String) → Bool
  unfolding in_organization in_project
  can_override_rollout organization_id project_id =
      in_organization i organization_id ("org_admin" ∷ [])
      || in_project i project_id ("project_admin" ∷ "service_owner" ∷ [])

  unfoldable pub can_manage_rollback_policies : (organization_id project_id : String) → Bool
  unfolding can_override_rollout
  can_manage_rollback_policies organization_id project_id =
      can_override_rollout organization_id project_id

  unfoldable pub can_manage_policies : (organization_id project_id : String) → Bool
  unfolding in_organization in_project
  can_manage_policies organization_id project_id =
      in_organization i organization_id ("org_admin" ∷ [])
      || in_project i project_id ("project_admin" ∷ [])

  unfoldable pub can_view_policies : (organization_id project_id : String) → Bool
  unfolding can_read_project
  can_view_policies organization_id project_id =
      if project_id == ""
      then has_organization_access i organization_id
      else can_read_project organization_id project_id

  unfoldable pub can_view_status_history : (organization_id project_id : String) → Bool
  unfolding can_read_project
  can_view_status_history organization_id project_id =
      if project_id == ""
      then has_organization_access i organization_id
      else can_read_project organization_id project_id
