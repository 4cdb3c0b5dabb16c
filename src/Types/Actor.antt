-- ===== src/Types/Actor.antt =====
-- pkg/types/auth.go, pkg/types/domain.go: users, service accounts, memberships, tokens and sessions. Each `zero_` value is Go's.
use change_control_plane.Prelude.{String, Option, none}
use change_control_plane.Prelude.Int.{ℤ, pos}
use change_control_plane.Types.Base.{Time, BaseRecord, zero_base_record}

pub record User : Type 0 where
  pub base : BaseRecord
  pub open base use *
  pub organization_id : String
  pub email : String
  pub display_name : String
  pub status : String
  pub password_salt : String
  pub password_hash : String
  pub password_iterations : ℤ

abbrev pub zero_user : User
zero_user = record {
  base = zero_base_record;
  organization_id = "";
  email = "";
  display_name = "";
  status = "";
  password_salt = "";
  password_hash = "";
  password_iterations = pos 0;
}

pub record ServiceAccount : Type 0 where
  pub base : BaseRecord
  pub open base use *
  pub organization_id : String
  pub name : String
  pub description : String
  pub role : String
  pub created_by_user_id : String
  pub status : String
  pub last_used_at : Option Time

abbrev pub zero_service_account : ServiceAccount
zero_service_account = record {
  base = zero_base_record;
  organization_id = "";
  name = "";
  description = "";
  role = "";
  created_by_user_id = "";
  status = "";
  last_used_at = none;
}

pub record OrganizationMembership : Type 0 where
  pub base : BaseRecord
  pub open base use *
  pub user_id : String
  pub organization_id : String
  pub role : String
  pub status : String

abbrev pub zero_organization_membership : OrganizationMembership
zero_organization_membership = record {
  base = zero_base_record;
  user_id = "";
  organization_id = "";
  role = "";
  status = "";
}

pub record ProjectMembership : Type 0 where
  pub base : BaseRecord
  pub open base use *
  pub user_id : String
  pub organization_id : String
  pub project_id : String
  pub role : String
  pub status : String

abbrev pub zero_project_membership : ProjectMembership
zero_project_membership = record {
  base = zero_base_record;
  user_id = "";
  organization_id = "";
  project_id = "";
  role = "";
  status = "";
}

pub record ApiToken : Type 0 where
  pub base : BaseRecord
  pub open base use *
  pub organization_id : String
  pub user_id : String
  pub service_account_id : String
  pub name : String
  pub token_prefix : String
  pub token_hash : String
  pub status : String
  pub last_used_at : Option Time
  pub revoked_at : Option Time
  pub expires_at : Option Time

abbrev pub zero_api_token : ApiToken
zero_api_token = record {
  base = zero_base_record;
  organization_id = "";
  user_id = "";
  service_account_id = "";
  name = "";
  token_prefix = "";
  token_hash = "";
  status = "";
  last_used_at = none;
  revoked_at = none;
  expires_at = none;
}

pub record BrowserSession : Type 0 where
  pub base : BaseRecord
  pub open base use *
  pub user_id : String
  pub session_hash : String
  pub auth_method : String
  pub auth_provider_id : String
  pub auth_provider : String
  pub last_seen_at : Option Time
  pub expires_at : Time
  pub revoked_at : Option Time

abbrev pub zero_browser_session : BrowserSession
zero_browser_session = record {
  base = zero_base_record;
  user_id = "";
  session_hash = "";
  auth_method = "";
  auth_provider_id = "";
  auth_provider = "";
  last_seen_at = none;
  expires_at = 0;
  revoked_at = none;
}
