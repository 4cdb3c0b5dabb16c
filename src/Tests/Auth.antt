-- ===== src/Tests/Auth.antt =====
-- internal/auth at concrete actors and tokens.
use change_control_plane.Prelude.{
  String, ◌≡◌, refl, true, false, none, some, [], ◌∷◌, ◌==◌, inr, any, if◌then◌else◌,
}
use change_control_plane.Prelude.Text.{join, split_at}
use change_control_plane.Types.{
  zero_service, zero_team, zero_user, zero_organization_membership, ServiceAccount,
  zero_service_account, ApiToken, zero_api_token,
}
use change_control_plane.Auth.{
  Identity, zero_identity, has_organization_access, has_project_access, organization_ids,
  sort_texts,
}
use change_control_plane.Auth.Authorizer
use change_control_plane.Auth.Authorizer.Permissions.{permissions_chain, strangers_denied}
use change_control_plane.Auth.Service.{
  IdentityStore, Credentials, load_user_identity, load_machine_identity, user_identity,
  add_organizations, add_projects, resolve_active_organization, with_organization, admit_user,
  admit_machine, admit_token, admit_prefix, token_accepted, machine_identity,
}
use change_control_plane.Auth.Service.Loaded.{IsSettled, load_user_identity-IsSettled}
use change_control_plane.Auth.Service.Machine.{IsAdmitted, load_machine_identity-IsAdmitted}

abbrev owner : Identity
owner = record zero_identity { project_roles = ("prj_1", "service_owner") ∷ [] }

permissions_chain_example :
    (Authorizer.can_manage_organization owner "org_1" ≡ true
      → Authorizer.can_manage_project owner "org_1" "prj_1" ≡ true)
    × (Authorizer.can_manage_project owner "org_1" "prj_1" ≡ true
        → Authorizer.can_override_rollout owner "org_1" "prj_1" ≡ true)
    × (Authorizer.can_override_rollout owner "org_1" "prj_1" ≡ true
        → Authorizer.can_execute_rollout owner "org_1" "prj_1" ≡ true)
    × (Authorizer.can_execute_rollout owner "org_1" "prj_1" ≡ true
        → Authorizer.can_read_project owner "org_1" "prj_1" ≡ true)
permissions_chain_example = permissions_chain owner "org_1" "prj_1"

no_organization : has_organization_access owner "" ≡ false
unfolding has_organization_access
no_organization = refl

no_project : has_project_access owner "" ≡ false
unfolding has_project_access
no_project = refl

strangers_denied_example :
    any
      (λ allowed. allowed)
      (Authorizer.can_manage_organization owner ""
        ∷ Authorizer.can_manage_project owner "" ""
        ∷ Authorizer.can_read_project owner "" ""
        ∷ Authorizer.can_manage_service owner zero_service zero_team
        ∷ Authorizer.can_create_environment owner "" ""
        ∷ Authorizer.can_ingest_change owner "" "" zero_team
        ∷ Authorizer.can_plan_rollout owner "" ""
        ∷ Authorizer.can_execute_rollout owner "" ""
        ∷ Authorizer.can_override_rollout owner "" ""
        ∷ Authorizer.can_manage_policies owner "" ""
        ∷ Authorizer.can_manage_integrations owner ""
        ∷ Authorizer.can_read_service_accounts owner ""
        ∷ Authorizer.can_manage_service_accounts owner ""
        ∷ Authorizer.can_view_organization owner ""
        ∷ Authorizer.can_manage_browser_sessions owner ""
        ∷ Authorizer.can_create_project owner ""
        ∷ Authorizer.can_create_team owner "" ""
        ∷ Authorizer.can_manage_team owner "" ""
        ∷ Authorizer.can_assess_risk owner "" ""
        ∷ Authorizer.can_view_audit owner ""
        ∷ Authorizer.can_record_verification owner "" ""
        ∷ Authorizer.can_manage_rollback_policies owner "" ""
        ∷ Authorizer.can_view_policies owner "" ""
        ∷ Authorizer.can_view_status_history owner "" ""
        ∷ [])
    ≡ false
strangers_denied_example =
    strangers_denied owner "" "" zero_service zero_team no_organization no_project refl refl refl

abbrev robot : ServiceAccount
robot = record zero_service_account {
  organization_id = "org_1";
  role = "org_member";
  status = "active";
}

-- Its hash is itself.
abbrev robot_token : ApiToken
robot_token = record zero_api_token {
  service_account_id = "sa_1";
  status = "active";
  token_hash = "ccpt_a_b";
}

-- A store of one account, its token, and one member.
abbrev small_store : IdentityStore Unit
small_store = record {
  organization_memberships = λ w id.
      some
        (record zero_organization_membership { organization_id = "org_1"; role = "viewer" } ∷ []);
  project_memberships = λ w id. some [];
  get_service_account = λ w id. some robot;
  get_api_token_by_prefix = λ w prefix. if prefix == "ccpt_a" then some robot_token else none;
  update_api_token = λ w token. (w, false);
}

abbrev same : String → String
same text = text

abbrev by_password : Credentials
by_password = record {
  actor_type = "user";
  auth_method = "password";
  auth_provider_id = "";
  auth_provider = "";
  issued_at = 3;
  expires_at = 9;
  browser_session_id = "";
  browser_session_revoked_at = none;
}

abbrev member : Identity
member = record zero_identity {
  authenticated = true;
  actor_type = "user";
  auth_method = "password";
  token_issued_at = 3;
  token_expires_at = 9;
  active_organization_id = "org_1";
  organization_memberships =
      ("org_1", record zero_organization_membership { organization_id = "org_1"; role = "viewer" })
      ∷ [];
  organization_roles = ("org_1", "viewer") ∷ [];
}

member_loaded : load_user_identity small_store same tt zero_user by_password "" ≡ inr member
unfolding load_user_identity admit_user user_identity add_organizations add_projects
    resolve_active_organization with_organization has_organization_access organization_ids
    sort_texts
member_loaded = refl

load_user_identity-IsSettled_example : IsSettled member
load_user_identity-IsSettled_example =
    load_user_identity-IsSettled small_store same tt zero_user by_password "" member member_loaded

abbrev admitted_robot : Identity
admitted_robot = record zero_identity {
  authenticated = true;
  actor_type = "service_account";
  auth_method = "api_token";
  service_account = record robot { last_used_at = some 6 };
  active_organization_id = "org_1";
  organization_roles = ("org_1", "org_member") ∷ [];
}

robot_loaded :
    (load_machine_identity small_store same tt "ccpt_a_b" 5 6 "org_1").1 ≡ inr admitted_robot
unfolding load_machine_identity admit_prefix admit_token admit_machine token_accepted
    machine_identity resolve_active_organization with_organization has_organization_access split_at
    join
robot_loaded = refl

load_machine_identity-IsAdmitted_example :
    IsAdmitted small_store same tt "ccpt_a_b" 5 admitted_robot
load_machine_identity-IsAdmitted_example =
    load_machine_identity-IsAdmitted small_store same tt "ccpt_a_b" 5 6 "org_1" admitted_robot
      robot_loaded
