-- ===== src/Auth/Service/Machine.antt =====
-- internal/auth/service.go: what a machine was admitted by.
use change_control_plane.Prelude.{
  String, ◌≡◌, refl, true, false, Option, none, some, ◌==◌, inl, inr, arith, eq_iff, eq_refl,
  Bool-cases,
}
use change_control_plane.Types.{Time, ServiceAccount, ApiToken}
use change_control_plane.Auth.{Identity, has_organization_access, is_present}
use change_control_plane.Auth.Service.{
  IdentityStore, resolve_active_organization, with_organization, machine_identity, admit_prefix,
  load_machine_identity, admit_token, admit_machine, token_accepted, expired,
}
use change_control_plane.Auth.Service.Loaded.{
  IsSettled, HasOwn, IfLoaded, resolved, with_organization-IfLoaded, loaded_settled,
}

own_role :
    (account : ServiceAccount) (token : ApiToken) (now : Time)
    → has_organization_access (machine_identity account token now) account.organization_id ≡ true
unfolding machine_identity has_organization_access
own_role account token now = rw (eq_refl account.organization_id) refl

module _ {W : Type 0} (store : IdentityStore W) (hash : String → String) where
  -- The token and the account that a machine was admitted by.
  pub record IsAdmitted (w : W) (raw_token : String) (checked : Time) (i : Identity) : Type 0 where
    pub prefix : String
    pub token : ApiToken
    pub account : ServiceAccount
    pub token_stored : store.get_api_token_by_prefix w prefix ≡ some token
    pub hashes : token.token_hash ≡ hash raw_token
    pub active : token.status ≡ "active"
    pub unrevoked : is_present token.revoked_at ≡ false
    pub in_time : expired token.expires_at checked ≡ false
    pub account_stored : store.get_service_account w token.service_account_id ≡ some account
    pub account_active : account.status ≡ "active"
    pub settled : IsSettled i

  machine_settled :
      (account : ServiceAccount) (token : ApiToken) (now : Time) (explicit : String)
      → let identity = machine_identity account token now in
        IfLoaded (with_organization identity (resolve_active_organization identity explicit))
  unfolding machine_identity
  machine_settled account token now explicit =
      let identity = machine_identity account token now in
      let own : HasOwn identity = λ h. own_role account token now in
      with_organization-IfLoaded identity _ (λ id found. resolved identity explicit id own found)

  -- What the account of an admitted machine is.
  record IsAccount (found : Option ServiceAccount) (i : Identity) : Type 0 where
    pub account : ServiceAccount
    pub stored : found ≡ some account
    pub active : account.status ≡ "active"
    pub settled : IsSettled i

  admit_machine-IsAccount :
      (w : W) (token : ApiToken) (found : Option ServiceAccount) (now : Time) (explicit : String)
      (i : Identity)
      → (admit_machine store hash w token found now explicit).1 ≡ inr i
      → IsAccount found i
  unfolding admit_machine
  admit_machine-IsAccount w token none now explicit i loaded = absurd (ground arith)
  admit_machine-IsAccount w token (some account) now explicit i loaded =
      elim (Bool-cases (account.status == "active")) [
        | inl active ↦
            elim (Bool-cases
              (store.update_api_token w (record token { last_used_at = some now })).1) [
                | inl failed ↦ absurd (ground arith)
                | inr updated ↦ record {
                  account = account;
                  stored = refl;
                  active = (eq_iff account.status "active").0 active;
                  settled =
                      loaded_settled _ i (rw (active, updated) at loaded)
                        (machine_settled account token now explicit);
                }
              ]
        | inr inactive ↦ absurd (ground arith)
      ]

  accepted :
      (raw_token : String) (token : ApiToken) (checked : Time)
      → token_accepted hash raw_token token checked ≡ true
      → (token.token_hash ≡ hash raw_token)
        × (token.status ≡ "active")
        × (is_present token.revoked_at ≡ false)
        × (expired token.expires_at checked ≡ false)
  unfolding token_accepted
  accepted raw_token token checked h =
      ground (arith, eq_iff token.token_hash (hash raw_token), eq_iff token.status "active")

  admit_token-IsAdmitted :
      (w : W) (raw_token prefix : String) (found : Option ApiToken) (checked now : Time)
      (explicit : String) (i : Identity)
      → store.get_api_token_by_prefix w prefix ≡ found
      → (admit_token store hash w raw_token found checked now explicit).1 ≡ inr i
      → IsAdmitted w raw_token checked i
  unfolding admit_token
  admit_token-IsAdmitted w raw_token prefix none checked now explicit i stored loaded =
      absurd (ground arith)
  admit_token-IsAdmitted w raw_token prefix (some token) checked now explicit i stored loaded =
      elim (Bool-cases (token_accepted hash raw_token token checked)) [
        | inl fit ↦
            let guards = accepted raw_token token checked fit in
            let a = admit_machine-IsAccount w token _ now explicit i (rw fit at loaded) in
            record {
              prefix = prefix;
              token = token;
              account = a.account;
              token_stored = stored;
              hashes = guards.0;
              active = guards.1;
              unrevoked = ground arith;
              in_time = ground arith;
              account_stored = a.stored;
              account_active = a.active;
              settled = a.settled;
            }
        | inr unfit ↦ absurd (ground arith)
      ]

  admit_prefix-IsAdmitted :
      (w : W) (raw_token : String) (found : Option String) (checked now : Time) (explicit : String)
      (i : Identity)
      → (admit_prefix store hash w raw_token found checked now explicit).1 ≡ inr i
      → IsAdmitted w raw_token checked i
  unfolding admit_prefix
  admit_prefix-IsAdmitted w raw_token none checked now explicit i loaded = absurd (ground arith)
  admit_prefix-IsAdmitted w raw_token (some prefix) checked now explicit i loaded =
      admit_token-IsAdmitted w raw_token prefix _ checked now explicit i refl loaded

  -- A machine is let in only by a token that is stored, has the hash of the one presented, is active,
  -- not revoked and not expired, of a stored account that is active; its active organization is one
  -- that the account has access to, or none.
  pub load_machine_identity-IsAdmitted :
      (w : W) (raw_token : String) (checked now : Time) (active_organization_id : String)
      (i : Identity)
      → (load_machine_identity store hash w raw_token checked now active_organization_id).1 ≡ inr i
      → IsAdmitted w raw_token checked i
  unfolding load_machine_identity
  load_machine_identity-IsAdmitted w raw_token checked now active_organization_id i loaded =
      admit_prefix-IsAdmitted w raw_token _ checked now active_organization_id i loaded
