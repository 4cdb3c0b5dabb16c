-- ===== src/App/Executions/Verify/Advisory.antt =====
-- internal/app/operations.go, runtime.go: verification results of executions whose backend allows no active
-- control.
use change_control_plane.Prelude.{
  String, ◌≡◌, refl, sym, ◌∙◌, ap, subst, Bool, true, Option, some, some-injective, lookup,
  lookup-insert, eq_refl, Bool-cases, inl, inr,
}
use change_control_plane.Prelude.Text.{trim}
use change_control_plane.Prelude.Text.Search.{has_prefix}
use change_control_plane.Types.{
  RolloutExecution, VerificationResult, RecordVerificationResultRequest,
}
use change_control_plane.Rollouts.Lifecycle.{apply_verification_decision}
use change_control_plane.App.{Tables, Call, Run, done, failed, tables_after}
use change_control_plane.App.Meets.{Meets, meets_done, meets_failed}
use change_control_plane.App.Record.{data_of}
use change_control_plane.App.Executions.{updated}
use change_control_plane.App.Executions.Advance.{is_advisory}
use change_control_plane.App.Executions.Verify.{
  advisory_decision, request_in_mode, advisory_verification_request, result_of,
  record_verification_result_internal,
}
use change_control_plane.App.Executions.Verify.Applied.{advisory-applied, id-applied, either}
use change_control_plane.App.Executions.Verify.Recorded.{
  IsRecorded, IsFailed, unchanged, orphaned, Ending, repeated, stored,
  record_verification_result_internal-IsRecorded,
}

advisory_decision-cases :
    (P : String → Type 0) (decision : String)
    → P "advisory_rollback"
    → P "advisory_pause"
    → P "advisory_failed"
    → P "advisory_verified"
    → P (advisory_decision decision)
unfolding advisory_decision
advisory_decision-cases P decision a b c d =
    either P _ _ _ a (either P _ _ _ b (either P _ _ _ c d))

-- A decision that is made an advice, or is one.
advised :
    (state : Bool × String) (req : RecordVerificationResultRequest)
    → state.0 ≡ true
    → has_prefix (trim (request_in_mode state req).decision) "advisory_" ≡ true
unfolding request_in_mode advisory_verification_request trim
advised (mode, message) req h = elim (Bool-cases (has_prefix (trim req.decision) "advisory_")) [
  | inl already ↦ rw (h, already) already
  | inr plain ↦
      rw (h, plain)
        (advisory_decision-cases (λ d. has_prefix (trim d) "advisory_" ≡ true) (trim req.decision)
          refl refl refl refl)
]

-- The execution under the identifier has this status.
pub HasStatus : String → String → Tables → Type 0
HasStatus id status t =
    (e : RolloutExecution) × (lookup id t.rollout_executions ≡ some e) × (e.status ≡ status)

module _ (call : Call) (id : String) (req : RecordVerificationResultRequest) (t : Tables)
    (current : RolloutExecution) where
  of_same :
      (u : Tables)
      → data_of u ≡ data_of t
      → lookup id t.rollout_executions ≡ some current
      → HasStatus id current.status u
  unfolding HasStatus
  of_same u same there =
      (current, ap (λ (w : Tables). lookup id w.rollout_executions) same ∙ there, refl)

  of_ending :
      (keyed : current.id ≡ id) (there : lookup id t.rollout_executions ≡ some current)
      (taken : RecordVerificationResultRequest)
      → has_prefix (trim taken.decision) "advisory_" ≡ true
      → (answer : Option VerificationResult × Bool) (u : Tables)
      → Ending call current taken t answer u
      → HasStatus id current.status u
  unfolding HasStatus result_of
  of_ending keyed there taken advice answer u (repeated latest h same) = of_same u same there
  of_ending keyed there taken advice answer u (stored fresh r) =
      let result = result_of call current taken in
      let next = updated call.now (apply_verification_decision current result call.now).0 in
      let place : next.id ≡ id = id-applied current result call.now ∙ keyed in
      (
        next,
        ap (λ (w : Tables). lookup id w.rollout_executions) r.written
            ∙ lookup-insert t.rollout_executions next.id id next
            ∙ rw (place, eq_refl id) refl,
        advisory-applied current result call.now advice,
      )

  module _
      (keyed : (i : String) (e : RolloutExecution)
        → lookup i t.rollout_executions ≡ some e
        → e.id ≡ i)
      (there : lookup id t.rollout_executions ≡ some current)
      (advisory : is_advisory t current ≡ true) where
    of_run :
        (r : Run (Option VerificationResult × Bool))
        → Meets (IsRecorded call id req t) (λ e u. IsFailed call id req t u) r
        → HasStatus id current.status (tables_after r)
    unfolding HasStatus
    of_run (failed e u) (meets_failed (unchanged same)) = of_same u same there
    of_run (failed e u) (meets_failed (orphaned admitted taken orphan)) =
        (current, ap (λ (w : Tables). lookup id w.rollout_executions) orphan.written ∙ there, refl)
    of_run (done answer u) (meets_done c) =
        let same : c.current ≡ current = some-injective _ _ (sym c.admitted.was_stored ∙ there) in
        let mode = c.is_taken.mode ∙ ap (is_advisory t) same ∙ advisory in
        of_ending (keyed id current there) there c.taken
          (subst (λ r. has_prefix (trim r.decision) "advisory_" ≡ true) (sym c.is_taken.form)
            (advised c.is_taken.state req mode))
          answer u (subst (λ x. Ending call x c.taken t answer u) same c.ending)

    -- Whatever verification result is recorded for an execution whose backend is live and allows no
    -- active control, and whether that succeeds or fails, the status of the execution stays. Stored
    -- executions stand under their identifiers.
    pub record_verification_result_internal-HasStatus :
        HasStatus id current.status
          (tables_after (record_verification_result_internal call id req t))
    record_verification_result_internal-HasStatus =
        of_run _ (record_verification_result_internal-IsRecorded call id req t keyed)
