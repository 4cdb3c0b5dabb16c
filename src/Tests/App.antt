-- ===== src/Tests/App.antt =====
-- internal/app at concrete tables: an organization with a project, policies and executions.
use change_control_plane.Prelude.{
  ◌+◌, ◌-◌, sym, ap, subst, ◌∙◌, Bool-cases, inl, inr, eq_iff, some-injective, ◌≤◌, ◌<◌, ◌^◌,
  String, ◌≡◌, ◌↔◌, refl, Bool, true, false, none, some, List, map, [], ◌∷◌, ◌++◌, ◌==◌, ◌&&◌,
  lookup, arith, any, length, All,
}
use change_control_plane.Prelude.Int.{pos, half64}
use change_control_plane.Prelude.Text.{trim, lower, equal_fold, is_blank, normalized}
use change_control_plane.Types.{
  Policy, zero_policy, RolloutExecution, zero_rollout_execution, Integration, zero_integration,
  zero_project, CreatePolicyRequest, zero_create_policy_request, UpdatePolicyRequest,
  zero_update_policy_request, AdvanceRolloutExecutionRequest, RecordVerificationResultRequest,
  zero_record_verification_result_request, text, metadata, end, entry, Metadata, Any,
}
use change_control_plane.Auth.{Identity, zero_identity, organization_role}
use change_control_plane.Auth.Authorizer.{
  can_manage_policies, can_execute_rollout, can_override_rollout, in_organization, has_any_role,
}
use change_control_plane.App.{
  Tables, Call, Run, done, failed, tables_after, require, require_identity, found, branch,
}
use change_control_plane.App.Meets.{Meets, Reads}
use change_control_plane.App.Store.{paginate, list_policies}
use change_control_plane.App.Store
use change_control_plane.Policies.Normal
use change_control_plane.Rollouts.Lifecycle
use change_control_plane.App.Store.Listing.{IsOrdered}
use change_control_plane.App.Store.Paging.{paginate-append, paginate-eq-none_iff}
use change_control_plane.App.Record.{data_of}
use change_control_plane.App.Policies.{
  create_policy, update_policy, prepare_policy, prepared, drafted, validate_policy_scope,
  project_in_scope, service_in_scope, environment_in_scope, ensure_policy_code_unique, valid,
}
use change_control_plane.App.Policies.Handlers.{
  IsCreated, IsUpdated, create_policy-IsCreated, update_policy-IsUpdated, Write, creates, updates,
  run, Identifies, run-IsConsistent,
}
use change_control_plane.App.Policies.Unique.{IsConsistent}
use change_control_plane.App.Policies.Resolve.{resolve_policies_for_workflow}
use change_control_plane.App.Policies.Resolve.Order.{
  goes_first, counts, resolve_policies_for_workflow-IsOrdered,
}
use change_control_plane.App.Policies.Decisions.{
  PolicyEvaluationReference, evaluate_policies, any_policy_decision,
}
use change_control_plane.App.Policies.Decisions.Blocking.{applies, evaluate_policies-applies}
use change_control_plane.App.Executions.{
  advance_rollout_execution, advance_permitted, integration_allows_active_control,
  normalize_integration_mode, execution_advisory_mode_state,
  manual_control_blocked_by_advisory_mode, accepted,
}
use change_control_plane.App.Executions.Advance.{
  IsAdvanced, IsHeld, is_advisory, advance_rollout_execution-IsAdvanced,
}
use change_control_plane.App.Executions.Verify.{record_verification_result_internal}
use change_control_plane.App.Executions.Verify.Recorded.{
  IsRecorded, IsFailed, record_verification_result_internal-IsRecorded,
}
use change_control_plane.App.Executions.Verify.Advisory.{
  HasStatus, record_verification_result_internal-HasStatus,
}
use change_control_plane.Redaction.{redact_metadata}
use change_control_plane.Redaction.Clean.{is_clean, redact_metadata_lem}
use change_control_plane.Tests.Policies.{roles_input}

abbrev pub admin : Identity
admin = record zero_identity {
  authenticated = true;
  actor_id = "user_1";
  actor_type = "user";
  active_organization_id = "org_1";
  organization_roles = ("org_1", "org_admin") ∷ [];
}

abbrev pub by_admin : Call
by_admin = record {
  identity = some admin;
  now = 500;
  new_id = λ prefix n. prefix;
  format = record { print = λ time. "now"; parse = λ text. none };
}

abbrev freeze : Policy
freeze = record zero_policy {
  base = record { id = "pol_1"; created_at = 100; updated_at = 100; metadata = [] };
  organization_id = "org_1";
  name = "Freeze";
  code = "freeze";
  applies_to = "rollout_plan";
  mode = "block";
  enabled = true;
}

abbrev running : RolloutExecution
running = record zero_rollout_execution {
  base = record { id = "exec_1"; created_at = 100; updated_at = 100; metadata = [] };
  organization_id = "org_1";
  project_id = "prj_1";
  backend_type = "kubernetes";
  backend_integration_id = "int_1";
  status = "in_progress";
}

abbrev observer : Integration
observer = record zero_integration { enabled = true; mode = "advisory" }

abbrev pub tables : Tables
tables = record {
  projects = ("prj_1", record zero_project { organization_id = "org_1" }) ∷ [];
  teams = [];
  services = [];
  environments = [];
  change_sets = [];
  risk_assessments = [];
  rollout_plans = [];
  rollout_executions = ("exec_1", running) ∷ [];
  verification_results = [];
  policies = ("pol_1", freeze) ∷ [];
  policy_decisions = [];
  integrations = ("int_1", observer) ∷ [];
  audit_events = [];
  status_events = [];
  outbox_events = [];
}

abbrev new_policy : CreatePolicyRequest
new_policy = record zero_create_policy_request {
  organization_id = " org_1 ";
  name = "Freeze";
  code = "Freeze!";
  mode = "block";
}

create_policy-IsCreated_example :
    Meets
      (IsCreated by_admin new_policy tables)
      (λ e u. data_of u ≡ data_of tables)
      (create_policy by_admin new_policy tables)
create_policy-IsCreated_example = create_policy-IsCreated by_admin new_policy tables

abbrev renaming : UpdatePolicyRequest
renaming = record zero_update_policy_request { code = some "Hard Freeze" }

update_policy-IsUpdated_example :
    Meets
      (IsUpdated by_admin "pol_1" renaming tables)
      (λ e u. data_of u ≡ data_of tables)
      (update_policy by_admin "pol_1" renaming tables)
update_policy-IsUpdated_example = update_policy-IsUpdated by_admin "pol_1" renaming tables

abbrev writes : List Write
writes = creates by_admin new_policy ∷ updates by_admin "pol_1" renaming ∷ []

writes-Identifies : All Identifies writes
unfolding Identifies
writes-Identifies = (refl, (tt, tt))

-- The only entry of a table.
pub single :
    {V : Type 0} (k i : String) (v w : V) → lookup i ((k, v) ∷ []) ≡ some w → (k ≡ i) × (v ≡ w)
single k i v w h = elim (Bool-cases (k == i)) [
  | inl same ↦ ((eq_iff k i).0 same, some-injective _ _ (rw same at h))
  | inr other ↦ let bad : none ≡ some w = rw other at h in cc
]

policies-IsConsistent : IsConsistent tables.policies
policies-IsConsistent = record {
  keyed = λ i p h.
      sym (ap (λ (x : Policy). x.id) (single "pol_1" i freeze p h).1)
      ∙ (single "pol_1" i freeze p h).0;
  identified = λ i p h. subst (λ x. (x == "") ≡ false) (single "pol_1" i freeze p h).0 refl;
  unique = λ i j p q h k same fold.
      sym (single "pol_1" i freeze p h).0 ∙ (single "pol_1" j freeze q k).0;
}

run-IsConsistent_example : IsConsistent (run writes tables).policies
run-IsConsistent_example = run-IsConsistent writes tables writes-Identifies policies-IsConsistent

abbrev reference : PolicyEvaluationReference
reference = record {
  risk_assessment_id = "risk_1";
  rollout_plan_id = "";
  rollout_execution_id = "";
  release_id = "";
  config_set_id = "";
  database_change_id = "";
  metadata = [];
}

evaluate_policies-applies_example :
    Reads tables
      (λ decisions.
        any_policy_decision decisions "block"
        ≡ any
            (λ (e : String × Policy). applies roles_input e.1 && e.1.mode == "block")
            tables.policies)
      (evaluate_policies by_admin roles_input reference tables)
evaluate_policies-applies_example =
    evaluate_policies-applies by_admin roles_input reference tables "block"

resolve_policies_for_workflow-IsOrdered_example :
    Reads tables
      (λ items.
        IsOrdered goes_first items
        × (any (λ (p : Policy). p.mode == "block") items
            ≡ any
                (λ (e : String × Policy).
                  counts "org_1" "prj_1" "" "" "rollout_plan" e.1 && e.1.mode == "block")
                tables.policies))
      (resolve_policies_for_workflow "org_1" "prj_1" "" "" "rollout_plan" tables)
resolve_policies_for_workflow-IsOrdered_example =
    resolve_policies_for_workflow-IsOrdered tables "org_1" "prj_1" "" "" "rollout_plan"
      (λ (p : Policy). p.mode == "block")

abbrev undo_request : AdvanceRolloutExecutionRequest
undo_request = record { action = "rollback"; reason = "too many errors" }

advance_rollout_execution-IsAdvanced_example :
    Meets
      (IsAdvanced by_admin "exec_1" undo_request tables)
      (λ e u. IsHeld by_admin "exec_1" undo_request tables u)
      (advance_rollout_execution by_admin "exec_1" undo_request tables)
advance_rollout_execution-IsAdvanced_example =
    advance_rollout_execution-IsAdvanced by_admin "exec_1" undo_request tables

executions-keyed :
    (i : String) (e : RolloutExecution) → lookup i tables.rollout_executions ≡ some e → e.id ≡ i
executions-keyed i e h =
    let found = single "exec_1" i running e h in
    sym (ap (λ (x : RolloutExecution). x.id) found.1) ∙ found.0

abbrev failure : RecordVerificationResultRequest
failure = record zero_record_verification_result_request {
  outcome = "fail";
  decision = "rollback";
  automated = true;
}

record_verification_result_internal-IsRecorded_example :
    Meets
      (IsRecorded by_admin "exec_1" failure tables)
      (λ e u. IsFailed by_admin "exec_1" failure tables u)
      (record_verification_result_internal by_admin "exec_1" failure tables)
record_verification_result_internal-IsRecorded_example =
    record_verification_result_internal-IsRecorded by_admin "exec_1" failure tables executions-keyed

running-is_advisory : is_advisory tables running ≡ true
unfolding is_advisory equal_fold lower trim is_blank integration_allows_active_control
    normalize_integration_mode normalized
running-is_advisory = refl

record_verification_result_internal-HasStatus_example :
    HasStatus "exec_1" "in_progress"
      (tables_after (record_verification_result_internal by_admin "exec_1" failure tables))
record_verification_result_internal-HasStatus_example =
    record_verification_result_internal-HasStatus by_admin "exec_1" failure tables running
      executions-keyed refl running-is_advisory

abbrev letters : List String
letters = "a" ∷ "b" ∷ "c" ∷ []

paginate-append_example :
    (page rest : List String) × (paginate letters (pos 1) (pos 1) ≡ some page)
    × (paginate letters (pos 2) (pos 0) ≡ some rest)
    × (paginate letters (pos 1) (pos 0) ≡ some (page ++ rest))
    × (length page ≤ 1)
paginate-append_example = paginate-append letters 1 1 (omega arith) (omega arith)

paginate-eq-none_iff_example :
    (paginate letters (pos 1) (pos (2 ^ 63 - 1)) ≡ none)
    ↔ ((1 < length letters) × (half64 ≤ 1 + (2 ^ 63 - 1)))
paginate-eq-none_iff_example =
    paginate-eq-none_iff letters 1 (2 ^ 63 - 1) (omega arith) (omega arith) (omega arith)

abbrev settings : Metadata
settings =
    ("api_token", text "abc")
    ∷ ("nested", metadata (entry "note" (text "Bearer xyz") (entry "token_env" (text "TOKEN") end)))
    ∷ []

redact_metadata_lem_example :
    (is_clean (redact_metadata settings) ≡ true)
    × (map (λ (item : String × Any). item.0) (redact_metadata settings)
        ≡ map (λ (item : String × Any). item.0) settings)
redact_metadata_lem_example = redact_metadata_lem settings

abbrev succeeds : {A : Type 0} → Run A → Bool
succeeds (done a t) = true
succeeds (failed e t) = false

abbrev another_policy : CreatePolicyRequest
another_policy = record new_policy { code = "hard freeze" }

create_policy_test :
    map (λ req. succeeds (create_policy by_admin req tables)) (new_policy ∷ another_policy ∷ [])
    ≡ false ∷ true ∷ []
unfolding create_policy require_identity require can_manage_policies in_organization has_any_role
    organization_role trim prepare_policy prepared drafted validate_policy_scope project_in_scope
    service_in_scope environment_in_scope ensure_policy_code_unique list_policies paginate
    equal_fold lower valid Normal.validate_applies_to normalized Normal.validate_mode
    Normal.validate_conditions Normal.first_unsupported Normal.normalize_unique Store.policy_fits
    Store.create_policy
create_policy_test = refl

-- The live execution is left alone, the simulated one is rolled back.
abbrev simulated : Tables
simulated = record tables {
  rollout_executions = ("exec_1", record running { backend_type = "simulated" }) ∷ [];
}

advance_rollout_execution_test :
    map
      (λ t. succeeds (advance_rollout_execution by_admin "exec_1" undo_request t))
      (tables ∷ simulated ∷ [])
    ≡ false ∷ true ∷ []
unfolding advance_rollout_execution advance_permitted require_identity require in_organization
    has_any_role organization_role trim found can_execute_rollout can_override_rollout
    manual_control_blocked_by_advisory_mode branch execution_advisory_mode_state equal_fold is_blank
    accepted integration_allows_active_control Lifecycle.advance_execution
    Lifecycle.next_execution_state Store.update_rollout_execution
advance_rollout_execution_test = refl
