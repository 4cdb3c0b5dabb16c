-- ===== src/App/Policies/Handlers.antt =====
-- internal/app/policies.go: what `CreatePolicy` and `UpdatePolicy` do to the tables.
use change_control_plane.Prelude.{
  String, ◌≡◌, refl, sym, ◌∙◌, ap, subst, true, false, not, some, List, [], ◌∷◌, ◌==◌, lookup,
  eq_refl, arith, All,
}
use change_control_plane.Prelude.Text.{trim}
use change_control_plane.Types.{Policy, CreatePolicyRequest, UpdatePolicyRequest}
use change_control_plane.Auth.{Identity, is_present}
use change_control_plane.Auth.Authorizer.{can_manage_policies}
use change_control_plane.App.{Tables, Call, Run, done, failed, tables_after}
use change_control_plane.App.Meets.{
  Meets, meets_done, meets_failed, bind-Reads, require_rule, require_identity_rule, found_rule,
  branch_then_rule,
}
use change_control_plane.App.Store
use change_control_plane.App.Store.{put_policy, get_policy}
use change_control_plane.App.Record.{data_of, denied, recorded}
use change_control_plane.App.Policies.{prepared, drafted, changed, create_policy, update_policy}
use change_control_plane.App.Policies.Prepare.{IsReady, prepare_policy-IsReady}
use change_control_plane.App.Policies.Unique.{
  IsFree, IsConsistent, ensure_policy_code_unique-IsFree, insert-IsConsistent,
}

-- A valid policy with a code of its own was written, and besides it only the logs.
pub record IsStored (t : Tables) (current_policy_id : String) (policy : Policy) (u : Tables)
    : Type 0 where
  pub ready : IsReady t policy
  pub free : IsFree t.policies policy.organization_id current_policy_id policy.code
  pub written : data_of u ≡ data_of (put_policy policy t)

pub record IsCreated (call : Call) (req : CreatePolicyRequest) (t : Tables) (policy : Policy)
    (u : Tables) : Type 0 where
  pub identity : Identity
  pub caller : call.identity ≡ some identity
  pub permitted :
      can_manage_policies identity (trim req.organization_id) (trim req.project_id) ≡ true
  pub requested : policy ≡ prepared (drafted call req)
  pub is_stored : IsStored t "" policy u

-- `CreatePolicy` either fails and leaves all tables but the logs as they are, or it stores the policy
-- of the request, prepared: the caller may manage policies there, the policy is valid, its scope
-- belongs to its organization, and no policy of the organization has its code.
pub create_policy-IsCreated :
    (call : Call) (req : CreatePolicyRequest) (t : Tables)
    → Meets (IsCreated call req t) (λ e u. data_of u ≡ data_of t) (create_policy call req t)
unfolding create_policy denied Store.create_policy recorded
create_policy-IsCreated call req t = require_identity_rule call _ refl λ identity caller known.
    require_rule (not (trim req.organization_id == "")) _ _
      (λ some_organization.
        require_rule (can_manage_policies identity (trim req.organization_id) (trim req.project_id))
          _ _
          (λ permitted.
            bind-Reads t _ (prepare_policy-IsReady t (drafted call req)) (λ _. refl)
              λ policy ready.
                bind-Reads t _
                  (ensure_policy_code_unique-IsFree t policy.organization_id "" policy.code)
                  (λ _. refl)
                  λ _ free. meets_done (record {
                    identity = identity;
                    caller = caller;
                    permitted = permitted;
                    requested = ready.0;
                    is_stored = record { ready = ready.1; free = free; written = refl };
                  }))
          (λ h. meets_failed refl))
      (λ h. meets_failed refl)

pub record IsUpdated (call : Call) (id : String) (req : UpdatePolicyRequest) (t : Tables)
    (policy : Policy) (u : Tables) : Type 0 where
  pub identity : Identity
  pub caller : call.identity ≡ some identity
  pub current : Policy
  pub was_stored : lookup id t.policies ≡ some current
  pub permitted : can_manage_policies identity current.organization_id current.project_id ≡ true
  pub requested : policy ≡ prepared (changed call req current)
  pub is_stored : IsStored t policy.id policy u

-- `UpdatePolicy` either fails and leaves all tables but the logs as they are, or it replaces the stored
-- policy by its changed form, prepared: the caller may manage policies where it stood, the policy is
-- valid, its scope belongs to its organization, and no other policy of the organization has its code.
pub update_policy-IsUpdated :
    (call : Call) (id : String) (req : UpdatePolicyRequest) (t : Tables)
    → Meets (IsUpdated call id req t) (λ e u. data_of u ≡ data_of t) (update_policy call id req t)
unfolding update_policy denied Store.update_policy recorded
update_policy-IsUpdated call id req t = require_identity_rule call _ refl λ identity caller known.
    found_rule (lookup id t.policies) _ _ (λ h. refl)
      λ current was_stored.
        require_rule (can_manage_policies identity current.organization_id current.project_id) _ _
          (λ permitted.
            bind-Reads t _ (prepare_policy-IsReady t (changed call req current)) (λ _. refl)
              λ policy ready.
                bind-Reads t _
                  (ensure_policy_code_unique-IsFree t policy.organization_id policy.id policy.code)
                  (λ _. refl)
                  λ _ free.
                    branch_then_rule (is_present (lookup policy.id t.policies)) _ _ t _
                      (λ present. meets_done (record {
                        identity = identity;
                        caller = caller;
                        current = current;
                        was_stored = was_stored;
                        permitted = permitted;
                        requested = ready.0;
                        is_stored = record { ready = ready.1; free = free; written = refl };
                      }))
                      (λ absent. meets_failed refl))
          (λ h. meets_failed refl)

-- A request of the API that writes policies.
pub data Write : Type 0 where
  creates : Call → CreatePolicyRequest → Write
  updates : Call → String → UpdatePolicyRequest → Write

pub run : List Write → Tables → Tables
run [] t = t
run (creates call req ∷ more) t = run more (tables_after (create_policy call req t))
run (updates call id req ∷ more) t = run more (tables_after (update_policy call id req t))

-- The identifiers that are made are not empty.
unfoldable pub Identifies : Write → Type 0
Identifies (creates call req) = (call.new_id "pol" 0 == "") ≡ false
Identifies (updates call id req) = Unit

of_same_data :
    (t u : Tables) → data_of u ≡ data_of t → IsConsistent t.policies → IsConsistent u.policies
of_same_data t u same valid = subst (λ (v : Tables). IsConsistent v.policies) (sym same) valid

after_create :
    (call : Call) (req : CreatePolicyRequest) (t : Tables)
    → (call.new_id "pol" 0 == "") ≡ false
    → IsConsistent t.policies
    → (r : Run Policy) → Meets (IsCreated call req t) (λ e u. data_of u ≡ data_of t) r
    → IsConsistent (tables_after r).policies
unfolding drafted prepared
after_create call req t some_id valid (failed e u) (meets_failed same) = of_same_data t u same valid
after_create call req t some_id valid (done p u) (meets_done c) =
    of_same_data (put_policy p t) u c.is_stored.written (
      insert-IsConsistent t.policies p "" valid
        (subst (λ (x : Policy). (x.id == "") ≡ false) (sym c.requested) some_id) refl
        c.is_stored.free)

-- An update keeps the identifier.
id-changed :
    (call : Call) (req : UpdatePolicyRequest) (p : Policy)
    → (prepared (changed call req p)).id ≡ p.id
unfolding prepared changed
id-changed call req p = refl

after_update :
    (call : Call) (id : String) (req : UpdatePolicyRequest) (t : Tables)
    → IsConsistent t.policies
    → (r : Run Policy) → Meets (IsUpdated call id req t) (λ e u. data_of u ≡ data_of t) r
    → IsConsistent (tables_after r).policies
after_update call id req t valid (failed e u) (meets_failed same) = of_same_data t u same valid
after_update call id req t valid (done p u) (meets_done c) =
    let place : p.id ≡ id =
      ap (λ (x : Policy). x.id) c.requested
      ∙ id-changed call req c.current
      ∙ valid.keyed id c.current c.was_stored in
    of_same_data (put_policy p t) u c.is_stored.written (
      insert-IsConsistent t.policies p p.id valid
        (subst (λ x. (x == "") ≡ false) (sym place) (valid.identified id c.current c.was_stored))
        (ground (arith, eq_refl p.id)) c.is_stored.free)

-- Whatever is asked of the two handlers, and whether it succeeds or fails: policies stand under their
-- identifiers, none of which is empty, and no two of an organization have codes that differ in their
-- case at most. Asked of the start is the same, and of the new identifiers that none is empty.
pub run-IsConsistent :
    (writes : List Write) (t : Tables)
    → All Identifies writes
    → IsConsistent t.policies
    → IsConsistent (run writes t).policies
unfolding run Identifies
run-IsConsistent [] t named valid = valid
run-IsConsistent (creates call req ∷ more) t (named, rest) valid =
    run-IsConsistent more _ rest
      (after_create call req t named valid _ (create_policy-IsCreated call req t))
run-IsConsistent (updates call id req ∷ more) t (named, rest) valid =
    run-IsConsistent more _ rest
      (after_update call id req t valid _ (update_policy-IsUpdated call id req t))
