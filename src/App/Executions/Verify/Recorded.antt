-- ===== src/App/Executions/Verify/Recorded.antt =====
-- internal/app/operations.go: what `recordVerificationResultInternal` does to the tables.
use change_control_plane.Prelude.{
  String, ◌≡◌, refl, sym, ◌∙◌, ap, subst, Bool, true, false, not, ◌||◌, Option, none, some, lookup,
  contains, last?, last?-append, last?-split, some-injective, ◌++◌, ◌⊎◌, inl, inr, List, ◌∷◌, [],
}
use change_control_plane.Prelude.Text.{trim}
use change_control_plane.Prelude.Int.{pos}
use change_control_plane.Types.{
  RolloutExecution, VerificationResult, RecordVerificationResultRequest,
}
use change_control_plane.Auth.{Identity}
use change_control_plane.Auth.Authorizer.{can_override_rollout, can_record_verification}
use change_control_plane.App.{Tables, Call}
use change_control_plane.App.Meets.{
  Meets, meets_done, meets_failed, mono, bind, bind-Reads, found_rule, found_known_rule,
  branch_rule, require_rule, require_identity_rule,
}
use change_control_plane.App.Store.{
  list_verification_results, paginate, filter_sorted_values, result_fits,
}
use change_control_plane.App.Store.Paging.{paginate-rest}
use change_control_plane.App.Record.{data_of, denied, recorded}
use change_control_plane.App.Executions.Advance.{
  is_advisory, execution_advisory_mode_state-is_advisory,
}
use change_control_plane.App.Executions.Verify.{
  request_in_mode, should_skip_automated_verification_record, result_of, record_admitted,
  results_query, record_verification_result_internal,
}
use change_control_plane.App.Executions.Verify.Applied.{IsOrphaned, IsResult, store_result-IsResult}

-- The results of an execution, the latest one last.
abbrev pub results_of : RolloutExecution → Tables → List VerificationResult
results_of current t =
    filter_sorted_values (λ (r : VerificationResult). r.created_at)
      (result_fits (results_query current)) t.verification_results

-- The latest result of the execution.
pub record IsLatest (current : RolloutExecution) (t : Tables) (latest : VerificationResult)
    : Type 0 where
  pub earlier : List VerificationResult
  pub ordered : results_of current t ≡ earlier ++ (latest ∷ [])

-- The operation ended without an error.
pub data Ending (call : Call) (current : RolloutExecution) (req : RecordVerificationResultRequest)
    (t : Tables) : Option VerificationResult × Bool → Tables → Type 0 where
  -- an automated request repeats the latest result, which is returned
  repeated :
      {latest : VerificationResult} {u : Tables}
      → IsLatest current t latest
      → should_skip_automated_verification_record current (some latest) req ≡ true
      → data_of u ≡ data_of t
      → Ending call current req t (some latest, false) u
  -- the result is stored, which is no such repetition
  stored :
      {u : Tables}
      → ((latest : VerificationResult)
          → IsLatest current t latest
          → should_skip_automated_verification_record current (some latest) req ≡ false)
      → IsResult call current req t u
      → Ending call current req t (some (result_of call current req), true) u

-- What is known of the call before anything is written.
pub record IsAdmitted (call : Call) (id : String) (req : RecordVerificationResultRequest)
    (t : Tables) (current : RolloutExecution) : Type 0 where
  pub identity : Identity
  pub caller : call.identity ≡ some identity
  pub was_stored : lookup id t.rollout_executions ≡ some current
  pub permitted : can_record_verification identity current.organization_id current.project_id ≡ true
  pub overrides :
      (req.automated
        || not (contains ("rollback" ∷ "pause" ∷ "failed" ∷ []) (trim req.decision))
        || can_override_rollout identity current.organization_id current.project_id)
      ≡ true

-- The request, as it is taken in the mode of the execution.
pub record IsTaken (t : Tables) (current : RolloutExecution)
    (req taken : RecordVerificationResultRequest) : Type 0 where
  pub state : Bool × String
  pub mode : state.0 ≡ is_advisory t current
  pub form : taken ≡ request_in_mode state req

pub record IsRecorded (call : Call) (id : String) (req : RecordVerificationResultRequest)
    (t : Tables) (answer : Option VerificationResult × Bool) (u : Tables) : Type 0 where
  pub current : RolloutExecution
  pub admitted : IsAdmitted call id req t current
  pub taken : RecordVerificationResultRequest
  pub is_taken : IsTaken t current req taken
  pub ending : Ending call current taken t answer u

-- Nothing but the logs was written, or an orphan.
pub data IsFailed (call : Call) (id : String) (req : RecordVerificationResultRequest) (t : Tables)
    (u : Tables) : Type 0 where
  unchanged : data_of u ≡ data_of t → IsFailed call id req t u
  orphaned :
      {current : RolloutExecution} {taken : RecordVerificationResultRequest}
      → IsAdmitted call id req t current
      → IsTaken t current req taken
      → IsOrphaned call current taken t u
      → IsFailed call id req t u

module _ (call : Call) (id : String) (req : RecordVerificationResultRequest) (t : Tables) where
  ending_of :
      (current : RolloutExecution) (taken : RecordVerificationResultRequest)
      (latest : Option VerificationResult)
      → last? (results_of current t) ≡ latest
      → should_skip_automated_verification_record current latest taken ≡ true
      → Ending call current taken t (latest, false) t
  unfolding should_skip_automated_verification_record
  ending_of current taken none at_end h = cc
  ending_of current taken (some latest) at_end h =
      let split = last?-split (results_of current t) latest at_end in
      repeated (record { earlier = split.0; ordered = split.1 }) h refl

  fresh_of :
      (current : RolloutExecution) (taken : RecordVerificationResultRequest)
      → should_skip_automated_verification_record current (last? (results_of current t)) taken
        ≡ false
      → (latest : VerificationResult) → IsLatest current t latest
      → should_skip_automated_verification_record current (some latest) taken ≡ false
  fresh_of current taken fresh latest is =
      let at_end = ap last? is.ordered ∙ last?-append is.earlier latest in
      ap (λ o. should_skip_automated_verification_record current o taken) (sym at_end) ∙ fresh

  failure_of :
      (current : RolloutExecution) (taken : RecordVerificationResultRequest) (u : Tables)
      → IsAdmitted call id req t current
      → IsTaken t current req taken
      → (data_of u ≡ data_of t) ⊎ IsOrphaned call current taken t u
      → IsFailed call id req t u
  failure_of current taken u admitted is_taken (inl same) = unchanged same
  failure_of current taken u admitted is_taken (inr orphan) = orphaned admitted is_taken orphan

  stored_of :
      (current : RolloutExecution) (taken : RecordVerificationResultRequest)
      (r : VerificationResult) (u v : Tables)
      → ((latest : VerificationResult)
          → IsLatest current t latest
          → should_skip_automated_verification_record current (some latest) taken ≡ false)
      → r ≡ result_of call current taken
      → IsResult call current taken t u
      → data_of v ≡ data_of u
      → Ending call current taken t (some r, true) v
  stored_of current taken r u v fresh same result logged =
      subst (λ x. Ending call current taken t (some x, true) v) (sym same)
        (stored fresh (record { applies = result.applies; written = logged ∙ result.written }))

  record_admitted-IsRecorded :
      (identity : Identity) (event_id : String) (current : RolloutExecution)
      → IsAdmitted call id req t current
      → lookup current.id t.rollout_executions ≡ some current
      → Meets
          (IsRecorded call id req t)
          (λ e u. IsFailed call id req t u)
          (record_admitted call identity event_id req current t)
  unfolding record_admitted list_verification_results recorded
  record_admitted-IsRecorded identity event_id current admitted there =
      bind-Reads t _ (execution_advisory_mode_state-is_advisory t current) (λ _. unchanged refl)
        λ state mode.
          let taken = request_in_mode state req in
          let is_taken : IsTaken t current req taken = record {
            state = state;
            mode = mode;
            form = refl;
          } in
          let is_listed : (xs : List VerificationResult)
              → paginate (results_of current t) (pos 0) (pos 0) ≡ some xs
              → results_of current t ≡ xs =
            λ xs h. some-injective _ _ (sym (paginate-rest (results_of current t) 0) ∙ h) in
          found_rule (paginate (results_of current t) (pos 0) (pos 0)) _ _ (λ h. unchanged refl)
            λ existing listed.
              branch_rule (should_skip_automated_verification_record current (last? existing) taken)
                _ _
                (λ skip. meets_done (record {
                  current = current;
                  admitted = admitted;
                  taken = taken;
                  is_taken = is_taken;
                  ending =
                      ending_of current taken (last? existing)
                        (ap last? (is_listed existing listed)) skip;
                }))
                (λ fresh.
                  bind
                    (mono (store_result-IsResult call current taken t there) (λ r u h. h)
                      (λ e u h. failure_of current taken u admitted is_taken h))
                    λ r u h. meets_done (record {
                      current = current;
                      admitted = admitted;
                      taken = taken;
                      is_taken = is_taken;
                      ending =
                          stored_of current taken r u _
                            (fresh_of current taken (
                              ap
                                (λ xs.
                                  should_skip_automated_verification_record current (last? xs)
                                    taken)
                                (is_listed existing listed)
                              ∙ fresh))
                            h.0 h.1 refl;
                    }))

  -- Recording a verification result comes to one of four ends, the logs left aside, for executions
  -- that stand under their identifiers. It fails, and the tables are as they were. It fails after the
  -- result was stored, whose decision cannot be applied: the result stays, the execution is as it was.
  -- An automated request repeats the latest result, which is returned. Or it does not, and the result
  -- is stored, with the execution as the decision changes it. In the last three cases the caller may record
  -- verifications there, and override the rollout where a request by hand asks for that, and an
  -- execution whose backend allows no active control takes the request as an advice.
  pub record_verification_result_internal-IsRecorded :
      ((i : String) (e : RolloutExecution) → lookup i t.rollout_executions ≡ some e → e.id ≡ i)
      → Meets
          (IsRecorded call id req t)
          (λ e u. IsFailed call id req t u)
          (record_verification_result_internal call id req t)
  unfolding record_verification_result_internal list_verification_results denied recorded
  record_verification_result_internal-IsRecorded keyed =
      require_identity_rule call _ (unchanged refl) λ identity caller known.
        found_rule (lookup id t.rollout_executions) _ _ (λ h. unchanged refl)
          λ current was_stored.
            require_rule
              (can_record_verification identity current.organization_id current.project_id) _ _
              (λ permitted.
                require_rule
                  (req.automated
                    || not (contains ("rollback" ∷ "pause" ∷ "failed" ∷ []) (trim req.decision))
                    || can_override_rollout identity current.organization_id current.project_id)
                  _ _
                  (λ overrides.
                    let admitted : IsAdmitted call id req t current = record {
                      identity = identity;
                      caller = caller;
                      was_stored = was_stored;
                      permitted = permitted;
                      overrides = overrides;
                    } in
                    found_known_rule (lookup id t.rollout_executions) _ _ was_stored (
                      record_admitted-IsRecorded identity current.id current admitted (
                        ap (λ i. lookup i t.rollout_executions) (keyed id current was_stored)
                        ∙ was_stored)))
                  (λ h. meets_failed (unchanged refl)))
              (λ h. meets_failed (unchanged refl))
