-- ===== src/Auth/Authorizer/Permissions.antt =====
-- internal/auth/authorizer.go: which permissions follow from which, and what nobody has without a
-- membership.
use change_control_plane.Prelude.{
  String, ◌≡◌, refl, Bool, true, false, [], ◌∷◌, arith, contains, Bool-cases, inl, inr, any,
}
use change_control_plane.Types.{Service, Team}
use change_control_plane.Auth.{
  Identity, organization_role, project_role, has_organization_access, has_project_access,
}
use change_control_plane.Auth.Authorizer

abbrev Implies : Bool → Bool → Type 0
Implies a b = a ≡ true → b ≡ true

organization_role_lem :
    (i : Identity) (organization_id : String)
    → has_organization_access i organization_id ≡ false
    → organization_role i organization_id ≡ ""
unfolding has_organization_access organization_role
organization_role_lem i organization_id h = ground arith

project_role_lem :
    (i : Identity) (project_id : String)
    → has_project_access i project_id ≡ false
    → project_role i project_id ≡ ""
unfolding has_project_access project_role
project_role_lem i project_id h = ground arith

-- Without a membership no role is had.
in_organization_lem :
    (i : Identity) (organization_id : String)
    → has_organization_access i organization_id ≡ false
    → (Authorizer.in_organization i organization_id ("org_admin" ∷ []) ≡ false)
      × (Authorizer.in_organization i organization_id ("org_admin" ∷ "org_member" ∷ []) ≡ false)
      × (Authorizer.in_organization i organization_id ("org_admin" ∷ "org_member" ∷ "viewer" ∷ [])
          ≡ false)
unfolding Authorizer.in_organization Authorizer.has_any_role
in_organization_lem i organization_id h =
    rw (organization_role_lem i organization_id h) (refl, refl, refl)

in_project_lem :
    (i : Identity) (project_id : String)
    → has_project_access i project_id ≡ false
    → (Authorizer.in_project i project_id ("project_admin" ∷ []) ≡ false)
      × (Authorizer.in_project i project_id ("project_admin" ∷ "service_owner" ∷ []) ≡ false)
      × (Authorizer.in_project i project_id
            ("project_admin" ∷ "project_member" ∷ "service_owner" ∷ [])
          ≡ false)
unfolding Authorizer.in_project Authorizer.has_any_role
in_project_lem i project_id h = rw (project_role_lem i project_id h) (refl, refl, refl)

module _ (i : Identity) (organization_id project_id : String) where
  executes_reads :
      Implies
        (Authorizer.can_execute_rollout i organization_id project_id)
        (Authorizer.can_read_project i organization_id project_id)
  unfolding Authorizer.can_execute_rollout Authorizer.can_read_project
  executes_reads h = elim (Bool-cases (has_organization_access i organization_id)) [
    | inl had ↦ ground arith
    | inr lacked ↦ elim (Bool-cases (has_project_access i project_id)) [
      | inl had ↦ ground arith
      | inr neither ↦
          ground (
            arith,
            in_organization_lem i organization_id lacked,
            in_project_lem i project_id neither,
          )
    ]
  ]

  -- Who may manage an organization may manage its projects, who may manage a project may override
  -- its rollouts, who may override them may execute them, and who may execute them may read the
  -- project.
  pub permissions_chain :
      Implies
        (Authorizer.can_manage_organization i organization_id)
        (Authorizer.can_manage_project i organization_id project_id)
      × Implies
          (Authorizer.can_manage_project i organization_id project_id)
          (Authorizer.can_override_rollout i organization_id project_id)
      × Implies
          (Authorizer.can_override_rollout i organization_id project_id)
          (Authorizer.can_execute_rollout i organization_id project_id)
      × Implies
          (Authorizer.can_execute_rollout i organization_id project_id)
          (Authorizer.can_read_project i organization_id project_id)
  unfolding Authorizer.can_manage_organization Authorizer.can_manage_project
      Authorizer.can_override_rollout Authorizer.can_execute_rollout Authorizer.in_organization
      Authorizer.in_project Authorizer.has_any_role
  permissions_chain = (λ h. ground arith, λ h. ground arith, λ h. ground arith, executes_reads)

  -- An actor without access to the organization and to the project, who owns no team of the
  -- service, gets the answer no to every question of the authorizer about them, that is to all but
  -- `CanCreateOrganization`.
  pub strangers_denied :
      (service : Service) (team : Team)
      → has_organization_access i organization_id ≡ false
      → has_project_access i project_id ≡ false
      → contains team.owner_user_ids i.actor_id ≡ false
      → service.organization_id ≡ organization_id
      → service.project_id ≡ project_id
      → any
          (λ allowed. allowed)
          (Authorizer.can_manage_organization i organization_id
            ∷ Authorizer.can_manage_project i organization_id project_id
            ∷ Authorizer.can_read_project i organization_id project_id
            ∷ Authorizer.can_manage_service i service team
            ∷ Authorizer.can_create_environment i organization_id project_id
            ∷ Authorizer.can_ingest_change i organization_id project_id team
            ∷ Authorizer.can_plan_rollout i organization_id project_id
            ∷ Authorizer.can_execute_rollout i organization_id project_id
            ∷ Authorizer.can_override_rollout i organization_id project_id
            ∷ Authorizer.can_manage_policies i organization_id project_id
            ∷ Authorizer.can_manage_integrations i organization_id
            ∷ Authorizer.can_read_service_accounts i organization_id
            ∷ Authorizer.can_manage_service_accounts i organization_id
            ∷ Authorizer.can_view_organization i organization_id
            ∷ Authorizer.can_manage_browser_sessions i organization_id
            ∷ Authorizer.can_create_project i organization_id
            ∷ Authorizer.can_create_team i organization_id project_id
            ∷ Authorizer.can_manage_team i organization_id project_id
            ∷ Authorizer.can_assess_risk i organization_id project_id
            ∷ Authorizer.can_view_audit i organization_id
            ∷ Authorizer.can_record_verification i organization_id project_id
            ∷ Authorizer.can_manage_rollback_policies i organization_id project_id
            ∷ Authorizer.can_view_policies i organization_id project_id
            ∷ Authorizer.can_view_status_history i organization_id project_id
            ∷ [])
        ≡ false
  unfolding Authorizer.can_manage_organization Authorizer.can_manage_project
      Authorizer.can_read_project Authorizer.can_manage_service Authorizer.can_create_environment
      Authorizer.can_ingest_change Authorizer.can_plan_rollout Authorizer.can_execute_rollout
      Authorizer.can_override_rollout Authorizer.can_manage_policies
      Authorizer.can_manage_integrations Authorizer.can_read_service_accounts
      Authorizer.can_manage_service_accounts Authorizer.can_view_organization
      Authorizer.can_manage_browser_sessions Authorizer.can_create_project
      Authorizer.can_create_team Authorizer.can_manage_team Authorizer.can_assess_risk
      Authorizer.can_view_audit Authorizer.can_record_verification
      Authorizer.can_manage_rollback_policies Authorizer.can_view_policies
      Authorizer.can_view_status_history
  strangers_denied service team no_organization no_project no_team org project =
      rw (org, project)
        (ground (
          arith,
          in_organization_lem i organization_id no_organization,
          in_project_lem i project_id no_project,
        ))
