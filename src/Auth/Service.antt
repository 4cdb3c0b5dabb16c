-- ===== src/Auth/Service.antt =====
-- internal/auth/service.go: from what a request carries to an identity. The store and the hash of
-- opaque tokens are parameters; of an error of the store only that there is one is kept.
use change_control_plane.Prelude.{
  ℕ, ◌<◌, String, Bool, true, false, not, ◌&&◌, ◌||◌, Option, none, some, List, [], ◌∷◌, ◌==◌, ◌⊎◌,
  inl, inr, if◌then◌else◌, Assoc, lookup, insert, ltb, length, split_at,
}
use change_control_plane.Prelude.Text.{join}
use change_control_plane.Types.{
  Time, User, ServiceAccount, OrganizationMembership, ProjectMembership, ApiToken,
}
use change_control_plane.Auth.{
  Identity, zero_identity, has_organization_access, organization_ids, is_present,
}
pub mod Loaded
pub mod Machine

pub data AuthError : Type 0 where
  unauthorized : AuthError
  forbidden : AuthError
  store_failed : AuthError

abbrev pub first_of : List String → String
first_of [] = ""
first_of (id ∷ ids) = id

unfoldable pub resolve_active_organization : Identity → String → AuthError ⊎ String
resolve_active_organization i explicit =
    if not (explicit == "")
    then (if has_organization_access i explicit then inr explicit else inl forbidden)
    else if i.actor_type == "service_account" && not (i.service_account.organization_id == "")
    then inr i.service_account.organization_id
    else if not (i.user.organization_id == "") && has_organization_access i i.user.organization_id
    then inr i.user.organization_id
    else inr (first_of (organization_ids i))

-- `identity.ActiveOrganizationID = resolvedOrganizationID`
unfoldable pub with_organization : Identity → AuthError ⊎ String → AuthError ⊎ Identity
with_organization i (inl error) = inl error
with_organization i (inr id) = inr (record i { active_organization_id = id })

unfoldable pub add_organizations : List OrganizationMembership → Identity → Identity
add_organizations [] i = i
add_organizations (membership ∷ memberships) i = add_organizations memberships (record i {
  organization_memberships =
      insert i.organization_memberships membership.organization_id membership;
  organization_roles = insert i.organization_roles membership.organization_id membership.role;
})

unfoldable pub add_projects : List ProjectMembership → Identity → Identity
add_projects [] i = i
add_projects (membership ∷ memberships) i = add_projects memberships (record i {
  project_memberships = insert i.project_memberships membership.project_id membership;
  project_roles = insert i.project_roles membership.project_id membership.role;
})

pub record IdentityStore (W : Type 0) : Type 0 where
  pub organization_memberships : W → String → Option (List OrganizationMembership)
  pub project_memberships : W → String → Option (List ProjectMembership)
  pub get_service_account : W → String → Option ServiceAccount
  pub get_api_token_by_prefix : W → String → Option ApiToken
  -- and whether the update failed
  pub update_api_token : W → ApiToken → W × Bool

-- How the request was authenticated.
pub record Credentials : Type 0 where
  pub actor_type : String
  pub auth_method : String
  pub auth_provider_id : String
  pub auth_provider : String
  pub issued_at : Time
  pub expires_at : Time
  pub browser_session_id : String
  pub browser_session_revoked_at : Option Time

unfoldable pub user_identity :
    User → Credentials → List OrganizationMembership → List ProjectMembership → Identity
unfolding add_organizations add_projects
user_identity user c organizations projects = add_projects projects (
    add_organizations organizations (record zero_identity {
      authenticated = true;
      actor_id = user.id;
      actor_type = c.actor_type;
      auth_method = c.auth_method;
      auth_provider_id = c.auth_provider_id;
      auth_provider = c.auth_provider;
      token_issued_at = c.issued_at;
      token_expires_at = c.expires_at;
      browser_session_id = c.browser_session_id;
      browser_session_revoked_at = c.browser_session_revoked_at;
      user = user;
    }))

abbrev or_zero_time : Option Time → Time
or_zero_time none = 0
or_zero_time (some time) = time

unfoldable pub machine_identity : ServiceAccount → ApiToken → Time → Identity
machine_identity account token now = record zero_identity {
  authenticated = true;
  actor_id = account.id;
  actor_type = "service_account";
  auth_method = "api_token";
  token_expires_at = or_zero_time token.expires_at;
  service_account = record account { last_used_at = some now };
  organization_roles = (account.organization_id, account.role) ∷ [];
}

-- `time.Now().UTC().After(*storedToken.ExpiresAt)`
abbrev pub expired : Option Time → Time → Bool
expired none now = false
expired (some time) now = ltb time now

-- The guards on a stored token.
unfoldable pub token_accepted : (String → String) → String → ApiToken → Time → Bool
token_accepted hash raw_token token now =
    token.token_hash == hash raw_token
    && not (
        not (token.status == "active")
        || token.service_account_id == ""
        || is_present token.revoked_at)
    && not (expired token.expires_at now)

abbrev prefix_of : List String → Option String
prefix_of (first ∷ second ∷ third ∷ parts) = some (join (first ∷ second ∷ []) "_")
prefix_of _ = none

-- From the answers of the store on.
unfoldable pub admit_user :
    User
    → Credentials
    → String
    → Option (List OrganizationMembership)
    → Option (List ProjectMembership)
    → AuthError ⊎ Identity
unfolding user_identity resolve_active_organization with_organization
admit_user user c active_organization_id none projects = inl store_failed
admit_user user c active_organization_id (some organizations) none = inl store_failed
admit_user user c active_organization_id (some organizations) (some projects) =
    let identity = user_identity user c organizations projects in
    with_organization identity (resolve_active_organization identity active_organization_id)

module _ {W : Type 0} (store : IdentityStore W) (hash : String → String) where
  unfoldable pub load_user_identity : W → User → Credentials → String → AuthError ⊎ Identity
  unfolding admit_user
  load_user_identity w user c active_organization_id =
      admit_user user c active_organization_id (store.organization_memberships w user.id)
        (store.project_memberships w user.id)

  -- From the service account on; `now` is the time of the update.
  unfoldable pub admit_machine :
      W → ApiToken → Option ServiceAccount → Time → String → W × (AuthError ⊎ Identity)
  unfolding machine_identity resolve_active_organization with_organization
  admit_machine w token none now active_organization_id = (w, inl unauthorized)
  admit_machine w token (some account) now active_organization_id =
      let update = store.update_api_token w (record token { last_used_at = some now }) in
      let identity = machine_identity account token now in
      if not (account.status == "active")
      then (w, inl unauthorized)
      else if update.1
      then (update.0, inl store_failed)
      else (
        update.0,
        with_organization identity (resolve_active_organization identity active_organization_id),
      )

  unfoldable pub admit_token :
      W → String → Option ApiToken → (checked now : Time) → String → W × (AuthError ⊎ Identity)
  unfolding admit_machine token_accepted
  admit_token w raw_token none checked now active_organization_id = (w, inl unauthorized)
  admit_token w raw_token (some token) checked now active_organization_id =
      if token_accepted hash raw_token token checked
      then admit_machine w token (store.get_service_account w token.service_account_id) now
          active_organization_id
      else (w, inl unauthorized)

  unfoldable pub admit_prefix :
      W → String → Option String → (checked now : Time) → String → W × (AuthError ⊎ Identity)
  unfolding admit_token
  admit_prefix w raw_token none checked now active_organization_id = (w, inl unauthorized)
  admit_prefix w raw_token (some prefix) checked now active_organization_id =
      admit_token w raw_token (store.get_api_token_by_prefix w prefix) checked now
        active_organization_id

  -- `checked` and `now` are the two readings of the clock.
  unfoldable pub load_machine_identity :
      W → String → (checked now : Time) → String → W × (AuthError ⊎ Identity)
  unfolding admit_prefix
  load_machine_identity w raw_token checked now active_organization_id =
      admit_prefix w raw_token (prefix_of (split_at b'_' raw_token)) checked now
        active_organization_id
