-- ===== src/Auth/Service/Loaded.antt =====
-- internal/auth/service.go: what holds of an identity that was loaded.
use change_control_plane.Prelude.{
  String, ◌≡◌, refl, sym, subst, ◌∙◌, true, false, Option, none, some, List, [], ◌∷◌, ◌++◌, ◌==◌,
  ◌⊎◌, inl, inr, arith, eq_refl, Bool-cases, All, All-map, Assoc, lookup, contains, text_ltb,
  false≢true,
}
use change_control_plane.Types.{
  User, zero_service_account, OrganizationMembership, ProjectMembership,
}
use change_control_plane.Auth.{
  Identity, has_organization_access, organization_ids, is_present, keys, unseen, put_text,
  sort_texts,
}
use change_control_plane.Auth.Service.{
  AuthError, IdentityStore, Credentials, resolve_active_organization, with_organization, first_of,
  user_identity, add_organizations, add_projects, admit_user, load_user_identity,
}

-- The active organization is one that the actor has access to, or none.
abbrev pub IsSettled : Identity → Type 0
IsSettled i =
    (i.active_organization_id ≡ "") ⊎ (has_organization_access i i.active_organization_id ≡ true)

present-cons :
    {V : Type 0} (entry : String × V) (entries : Assoc V) (id : String)
    → is_present (lookup id entries) ≡ true
    → is_present (lookup id (entry ∷ entries)) ≡ true
present-cons entry entries id h = ground arith

keys_present :
    {V : Type 0} (entries : Assoc V)
    → All (λ id. is_present (lookup id entries) ≡ true) (keys entries)
keys_present [] = tt
keys_present (entry ∷ entries) = (
  rw (eq_refl entry.0) refl,
  All-map (keys entries) (present-cons entry entries) (keys_present entries),
)

unseen-All : (P : String → Type 0) (seen ids : List String) → All P ids → All P (unseen seen ids)
unseen-All P seen [] h = tt
unseen-All P seen (id ∷ ids) (h, hs) = elim (Bool-cases (contains seen id)) [
  | inl old ↦ rw old (unseen-All P seen ids hs)
  | inr new ↦ rw new (h, unseen-All P seen ids hs)
]

append-All : (P : String → Type 0) (xs ys : List String) → All P xs → All P ys → All P (xs ++ ys)
append-All P [] ys h k = k
append-All P (x ∷ xs) ys (h, hs) k = (h, append-All P xs ys hs k)

put_text-All :
    (P : String → Type 0) (id : String) (ids : List String)
    → P id
    → All P ids
    → All P (put_text id ids)
put_text-All P id [] h hs = (h, tt)
put_text-All P id (next ∷ ids) h (k, ks) = elim (Bool-cases (text_ltb next id)) [
  | inl less ↦ rw less (k, put_text-All P id ids h ks)
  | inr more ↦ rw more (h, (k, ks))
]

sort_texts-All : (P : String → Type 0) (ids : List String) → All P ids → All P (sort_texts ids)
unfolding sort_texts
sort_texts-All P [] h = tt
sort_texts-All P (id ∷ ids) (h, hs) = put_text-All P id (sort_texts ids) h (sort_texts-All P ids hs)

organization_ids-All :
    (i : Identity) → All (λ id. has_organization_access i id ≡ true) (organization_ids i)
unfolding organization_ids has_organization_access
organization_ids-All i =
    let members =
      All-map {Q = λ id. has_organization_access i id ≡ true} (keys i.organization_memberships)
        (λ id h. ground arith) (keys_present i.organization_memberships) in
    let roles =
      All-map {Q = λ id. has_organization_access i id ≡ true} (keys i.organization_roles)
        (λ id h. ground arith) (keys_present i.organization_roles) in
    sort_texts-All _ _ (
      append-All _ (keys i.organization_memberships) _ members
        (unseen-All _ (keys i.organization_memberships) (keys i.organization_roles) roles))

first_of-All :
    (P : String → Type 0) (ids : List String) → All P ids → (first_of ids ≡ "") ⊎ P (first_of ids)
first_of-All P [] h = inl refl
first_of-All P (id ∷ ids) (h, hs) = inr h

-- The account's own organization, if it has one, is open to the actor.
abbrev pub HasOwn : Identity → Type 0
HasOwn i =
    (i.service_account.organization_id == "") ≡ false
    → has_organization_access i i.service_account.organization_id ≡ true

pub resolved :
    (i : Identity) (explicit id : String)
    → HasOwn i
    → resolve_active_organization i explicit ≡ inr id
    → (id ≡ "") ⊎ (has_organization_access i id ≡ true)
unfolding resolve_active_organization
resolved i explicit id own found =
    let fallback = first_of-All _ (organization_ids i) (organization_ids-All i) in ground arith

abbrev pub IfLoaded : AuthError ⊎ Identity → Type 0
IfLoaded (inl error) = Unit
IfLoaded (inr i) = IsSettled i

pub with_organization-IfLoaded :
    (i : Identity) (found : AuthError ⊎ String)
    → ((id : String) → found ≡ inr id → (id ≡ "") ⊎ (has_organization_access i id ≡ true))
    → IfLoaded (with_organization i found)
unfolding with_organization has_organization_access
with_organization-IfLoaded i (inl error) h = tt
with_organization-IfLoaded i (inr id) h = h id refl

add_organizations-account :
    (memberships : List OrganizationMembership) (i : Identity)
    → (add_organizations memberships i).service_account ≡ i.service_account
unfolding add_organizations
add_organizations-account [] i = refl
add_organizations-account (membership ∷ memberships) i = add_organizations-account memberships _

add_projects-account :
    (memberships : List ProjectMembership) (i : Identity)
    → (add_projects memberships i).service_account ≡ i.service_account
unfolding add_projects
add_projects-account [] i = refl
add_projects-account (membership ∷ memberships) i = add_projects-account memberships _

user_identity-account :
    (user : User) (c : Credentials) (organizations : List OrganizationMembership)
    (projects : List ProjectMembership)
    → (user_identity user c organizations projects).service_account ≡ zero_service_account
unfolding user_identity
user_identity-account user c organizations projects =
    add_projects-account projects _ ∙ add_organizations-account organizations _

admit_user-IfLoaded :
    (user : User) (c : Credentials) (explicit : String)
    (organizations : Option (List OrganizationMembership))
    (projects : Option (List ProjectMembership))
    → IfLoaded (admit_user user c explicit organizations projects)
unfolding admit_user
admit_user-IfLoaded user c explicit none projects = tt
admit_user-IfLoaded user c explicit (some organizations) none = tt
admit_user-IfLoaded user c explicit (some organizations) (some projects) =
    let i = user_identity user c organizations projects in
    let own : HasOwn i = λ h.
      absurd (false≢true (sym h ∙ rw (user_identity-account user c organizations projects) refl)) in
    with_organization-IfLoaded i _ (λ id found. resolved i explicit id own found)

pub loaded_settled :
    (result : AuthError ⊎ Identity) (i : Identity) → result ≡ inr i → IfLoaded result → IsSettled i
loaded_settled result i e h = subst IfLoaded e h

module _ {W : Type 0} (store : IdentityStore W) (hash : String → String) where
  -- The active organization of a user that was loaded is one that the user has access to, or none.
  pub load_user_identity-IsSettled :
      (w : W) (user : User) (c : Credentials) (active_organization_id : String) (i : Identity)
      → load_user_identity store hash w user c active_organization_id ≡ inr i
      → IsSettled i
  unfolding load_user_identity
  load_user_identity-IsSettled w user c active_organization_id i loaded =
      loaded_settled _ i loaded (admit_user-IfLoaded user c active_organization_id _ _)
