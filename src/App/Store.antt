-- ===== src/App/Store.antt =====
-- internal/app/store.go: listings of `InMemoryStore`, and its operations on policies, executions and
-- verification results. Of the orders in which Go may visit a map, it is the one of the entries, and
-- every sort keeps the order of equal items.
pub mod Listing
pub mod Paging
use change_control_plane.Prelude.{
  ℕ, zero, suc, ◌-◌, ◌+◌, String, Bool, true, false, not, ◌&&◌, ◌||◌, Option, none, some, List, [],
  ◌∷◌, ◌==◌, if◌then◌else◌, Assoc, lookup, insert, length, ltb, leb,
}
use change_control_plane.Prelude.Int.{ℤ, pos, ◌+ℤ◌, ltb_ℤ, leb_ℤ, int64, pos_part}
use change_control_plane.Types.{Time, Policy, PolicyDecision, RolloutExecution, VerificationResult}
use change_control_plane.Auth.{is_present}
use change_control_plane.App.{
  Tables, AppError, not_found, panic, Run, done, failed, App, found, branch, ◌>>=◌, ◌>>◌, return,
  fail, modify,
}

-- The end of the page: `end`, cut at the length.
abbrev pub page_end : (count start : ℕ) (limit : ℤ) → ℤ
page_end count start limit =
    let stop = int64 (pos start +ℤ limit) in if ltb_ℤ (pos count) stop then pos count else stop

module _ {A : Type 0} where
  unfoldable pub put_before : (before : A → A → Bool) → A → List A → List A
  put_before before x [] = x ∷ []
  put_before before x (y ∷ ys) =
      let rest = put_before before x ys in if before y x then y ∷ rest else x ∷ y ∷ ys

  -- `sort.Slice`, `sort.SliceStable`, `slices.SortFunc`
  unfoldable pub sort_stable : (before : A → A → Bool) → List A → List A
  unfolding put_before
  sort_stable before [] = []
  sort_stable before (x ∷ xs) = put_before before x (sort_stable before xs)

  unfoldable pub filter_values : (A → Bool) → Assoc A → List A
  filter_values match [] = []
  filter_values match (entry ∷ items) =
      let rest = filter_values match items in if match entry.1 then entry.1 ∷ rest else rest

  unfoldable pub filter_sorted_values : (A → Time) → (A → Bool) → Assoc A → List A
  unfolding filter_values sort_stable
  filter_sorted_values created_at match items =
      sort_stable (λ x y. ltb (created_at x) (created_at y)) (filter_values match items)

  -- `items[n:]` and `items[:n]`, for `n` at most the length
  abbrev pub drop : ℕ → List A → List A
  drop zero items = items
  drop (suc n) [] = []
  drop (suc n) (x ∷ items) = drop n items

  abbrev pub take : ℕ → List A → List A
  take zero items = []
  take (suc n) [] = []
  take (suc n) (x ∷ items) = x ∷ take n items

  -- `none` is the panic of a slice that ends before it starts.
  unfoldable pub paginate : List A → (offset limit : ℤ) → Option (List A)
  paginate items offset limit =
      let start = pos_part offset in
      let stop = page_end (length items) start limit in
      if leb (length items) start
      then some []
      else if leb_ℤ limit (pos 0)
      then some (drop start items)
      else if ltb_ℤ stop (pos start)
      then none
      else some (take (pos_part stop - start) (drop start items))

pub record PolicyQuery : Type 0 where
  pub organization_id : String
  pub project_id : String
  pub service_id : String
  pub environment_id : String
  pub applies_to : String
  pub enabled_only : Bool
  pub limit : ℤ
  pub offset : ℤ

abbrev pub zero_policy_query : PolicyQuery
zero_policy_query = record {
  organization_id = "";
  project_id = "";
  service_id = "";
  environment_id = "";
  applies_to = "";
  enabled_only = false;
  limit = pos 0;
  offset = pos 0;
}

-- `query.X != "" && item.X != query.X`, negated
abbrev pub fits : (wanted actual : String) → Bool
fits wanted actual = wanted == "" || actual == wanted

unfoldable pub policy_fits : PolicyQuery → Policy → Bool
policy_fits query item =
    fits query.organization_id item.organization_id
    && fits query.project_id item.project_id
    && fits query.service_id item.service_id
    && fits query.environment_id item.environment_id
    && fits query.applies_to item.applies_to
    && not (query.enabled_only && not item.enabled)

abbrev pub eqb_ℤ : ℤ → ℤ → Bool
eqb_ℤ a b = leb_ℤ a b && leb_ℤ b a

unfoldable pub policy_before : Policy → Policy → Bool
policy_before left right =
    if eqb_ℤ left.priority right.priority
    then ltb right.created_at left.created_at
    else ltb_ℤ right.priority left.priority

abbrev pub policies_of : PolicyQuery → Assoc Policy → List Policy
policies_of query policies =
    sort_stable policy_before
      (filter_sorted_values (λ (p : Policy). p.created_at) (policy_fits query) policies)

unfoldable pub list_policies : PolicyQuery → App (List Policy)
unfolding sort_stable filter_sorted_values paginate
list_policies query t =
    found (paginate (policies_of query t.policies) query.offset query.limit) panic t

abbrev pub get_policy : String → App Policy
get_policy id t = found (lookup id t.policies) (not_found "") t

abbrev pub put_policy : Policy → Tables → Tables
put_policy policy t = record t { policies = insert t.policies policy.id policy }

unfoldable pub create_policy : Policy → App (Unit {0})
create_policy policy = modify (put_policy policy)

unfoldable pub update_policy : Policy → App (Unit {0})
update_policy policy t =
    branch (is_present (lookup policy.id t.policies)) (modify (put_policy policy))
      (fail (not_found "")) t

unfoldable pub create_policy_decision : PolicyDecision → App (Unit {0})
create_policy_decision decision =
    modify λ t. record t { policy_decisions = insert t.policy_decisions decision.id decision }

abbrev pub put_execution : RolloutExecution → Tables → Tables
put_execution execution t = record t {
  rollout_executions = insert t.rollout_executions execution.id execution;
}

abbrev pub get_rollout_execution : String → App RolloutExecution
get_rollout_execution id t = found (lookup id t.rollout_executions) (not_found "") t

unfoldable pub update_rollout_execution : RolloutExecution → App (Unit {0})
update_rollout_execution execution t =
    branch (is_present (lookup execution.id t.rollout_executions))
      (modify (put_execution execution)) (fail (not_found "")) t

abbrev pub put_result : VerificationResult → Tables → Tables
put_result result t = record t {
  verification_results = insert t.verification_results result.id result;
}

unfoldable pub create_verification_result : VerificationResult → App (Unit {0})
create_verification_result result = modify (put_result result)

pub record VerificationResultQuery : Type 0 where
  pub organization_id : String
  pub project_id : String
  pub rollout_execution_id : String
  pub limit : ℤ
  pub offset : ℤ

unfoldable pub result_fits : VerificationResultQuery → VerificationResult → Bool
result_fits query item =
    fits query.organization_id item.organization_id
    && fits query.project_id item.project_id
    && fits query.rollout_execution_id item.rollout_execution_id

unfoldable pub list_verification_results : VerificationResultQuery → App (List VerificationResult)
unfolding filter_sorted_values paginate
list_verification_results query t =
    found
      (paginate
        (filter_sorted_values (λ (r : VerificationResult). r.created_at) (result_fits query)
          t.verification_results)
        query.offset query.limit)
      panic t

-- Whether the claim of an execution is still held.
abbrev pub is_held : Time → RolloutExecution → Bool
is_held stale_before execution = elim execution.last_reconciled_at [
  | none ↦ false
  | some at ↦ leb stale_before at
]

abbrev pub reconciled_at : Time → RolloutExecution → RolloutExecution
reconciled_at claimed_at execution = record execution {
  last_reconciled_at = some claimed_at;
  base = record execution.base { updated_at = claimed_at };
}

unfoldable pub claim_rollout_execution : String → (stale_before claimed_at : Time) → App Bool
unfolding found branch
claim_rollout_execution id stale_before claimed_at = do
  execution ← get_rollout_execution id
  branch (is_held stale_before execution) (return false) do
    modify λ t. record t {
      rollout_executions = insert t.rollout_executions id (reconciled_at claimed_at execution);
    }
    return true
