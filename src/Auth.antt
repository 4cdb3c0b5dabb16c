-- ===== src/Auth.antt =====
-- internal/auth/identity.go: who acts, and the roles that the actor has.
pub mod Authorizer
pub mod Service
use change_control_plane.Prelude.{
  String, Bool, true, false, not, ◌&&◌, Option, none, some, List, [], ◌∷◌, ◌++◌, ◌==◌,
  if◌then◌else◌, Assoc, lookup, contains, text_ltb,
}
use change_control_plane.Types.{
  Time, ActorType, User, zero_user, ServiceAccount, zero_service_account, OrganizationMembership,
  ProjectMembership,
}

pub record Identity : Type 0 where
  pub authenticated : Bool
  pub actor_id : String
  pub actor_type : ActorType
  pub auth_method : String
  pub auth_provider_id : String
  pub auth_provider : String
  pub token_issued_at : Time
  pub token_expires_at : Time
  pub browser_session_id : String
  pub browser_session_revoked_at : Option Time
  pub user : User
  pub service_account : ServiceAccount
  pub active_organization_id : String
  pub organization_memberships : Assoc OrganizationMembership
  pub project_memberships : Assoc ProjectMembership
  pub organization_roles : Assoc String
  pub project_roles : Assoc String

-- `Identity{}`
abbrev pub zero_identity : Identity
zero_identity = record {
  authenticated = false;
  actor_id = "";
  actor_type = "";
  auth_method = "";
  auth_provider_id = "";
  auth_provider = "";
  token_issued_at = 0;
  token_expires_at = 0;
  browser_session_id = "";
  browser_session_revoked_at = none;
  user = zero_user;
  service_account = zero_service_account;
  active_organization_id = "";
  organization_memberships = [];
  project_memberships = [];
  organization_roles = [];
  project_roles = [];
}

abbrev pub is_present {ℓ} : {A : Type ℓ} → Option A → Bool
is_present none = false
is_present (some value) = true

unfoldable pub actor_label : Identity → String
actor_label i =
    if i.actor_type == "service_account" && not (i.service_account.name == "")
    then i.service_account.name
    else if not (i.user.display_name == "")
    then i.user.display_name
    else if not (i.user.email == "")
    then i.user.email
    else "system"

abbrev pub member_role : Option OrganizationMembership → String
member_role none = ""
member_role (some membership) = membership.role

abbrev pub role_or : Option String → String → String
role_or none fallback = fallback
role_or (some role) fallback = role

unfoldable pub organization_role : Identity → String → String
organization_role i org_id =
    role_or (lookup org_id i.organization_roles)
      (member_role (lookup org_id i.organization_memberships))

abbrev pub project_member_role : Option ProjectMembership → String
project_member_role none = ""
project_member_role (some membership) = membership.role

unfoldable pub project_role : Identity → String → String
project_role i project_id =
    role_or (lookup project_id i.project_roles)
      (project_member_role (lookup project_id i.project_memberships))

unfoldable pub has_organization_access : Identity → String → Bool
has_organization_access i org_id =
    if is_present (lookup org_id i.organization_roles)
    then true
    else is_present (lookup org_id i.organization_memberships)

unfoldable pub has_project_access : Identity → String → Bool
has_project_access i project_id =
    if is_present (lookup project_id i.project_roles)
    then true
    else is_present (lookup project_id i.project_memberships)

abbrev pub keys {ℓ} : {V : Type ℓ} → Assoc V → List String
keys [] = []
keys (entry ∷ entries) = entry.0 ∷ keys entries

abbrev pub unseen : (seen ids : List String) → List String
unseen seen [] = []
unseen seen (id ∷ ids) = let rest = unseen seen ids in if contains seen id then rest else id ∷ rest

abbrev pub put_text : String → List String → List String
put_text id [] = id ∷ []
put_text id (next ∷ ids) =
    let rest = put_text id ids in if text_ltb next id then next ∷ rest else id ∷ next ∷ ids

-- `sort.Strings`
unfoldable pub sort_texts : List String → List String
sort_texts [] = []
sort_texts (id ∷ ids) = put_text id (sort_texts ids)

unfoldable pub organization_ids : Identity → List String
unfolding sort_texts
organization_ids i =
    let members = keys i.organization_memberships in
    sort_texts (members ++ unseen members (keys i.organization_roles))
