-- ===== src/App/Executions/Verify/Applied.antt =====
-- internal/app/operations.go: what the transaction of `recordVerificationResultInternal` writes.
use change_control_plane.Prelude.{
  String, ◌≡◌, refl, sym, ◌∙◌, ap, Bool, true, false, false≢true, not, ◌||◌, Option, none, some,
  ◌==◌, lookup, if◌then◌else◌, ◌⊎◌, inl, inr, eq_iff, Bool-cases,
}
use change_control_plane.Prelude.Text.Search.{has_prefix}
use change_control_plane.Types.{
  Time, RolloutExecution, VerificationResult, RecordVerificationResultRequest,
}
use change_control_plane.Rollouts.Lifecycle.{
  Error, unsupported_decision, is_none, apply_verification_decision,
}
use change_control_plane.Auth.{is_present}
use change_control_plane.App.{Tables, Call}
use change_control_plane.App.Meets.{
  Meets, meets_done, meets_failed, mono, bind, Reads, branch_then_rule, require_rule,
}
use change_control_plane.App.Store.{
  put_execution, put_result, update_rollout_execution, create_verification_result,
}
use change_control_plane.App.Record.{data_of}
use change_control_plane.App.Executions.{accepted, updated}
use change_control_plane.App.Executions.Verify.{result_of, store_result}

pub either : {A : Type 0} (P : A → Type 0) (c : Bool) (x y : A) → P x → P y → P (if c then x else y)
either P true x y h k = h
either P false x y h k = k

-- A name without the prefix is not one with it.
differs :
    (decision name : String)
    → has_prefix decision "advisory_" ≡ true
    → has_prefix name "advisory_" ≡ false
    → (decision == name) ≡ false
differs decision name h k = elim (Bool-cases (decision == name)) [
  | inl same ↦
      let bad = sym h ∙ ap (λ d. has_prefix d "advisory_") ((eq_iff decision name).0 same) ∙ k in
      elim (false≢true (sym bad)) [ ]
  | inr other ↦ other
]

module _ (execution : RolloutExecution) (result : VerificationResult) (now : Time) where
  abbrev applied : RolloutExecution × Option Error
  applied = apply_verification_decision execution result now

  -- What an applied decision notes, whatever it is.
  abbrev noted : RolloutExecution
  noted = record execution {
    last_verification_result = result.id;
    last_decision = result.decision;
    last_decision_reason = result.summary;
  }

  applied-cases :
      (P : RolloutExecution × Option Error → Type 0)
      → P (record noted { status = "verified" }, none)
      → P (record noted { status = "paused" }, none)
      → P (record noted { status = "rolled_back"; completed_at = some now }, none)
      → P (record noted { status = "failed"; completed_at = some now }, none)
      → P (noted, none)
      → P (noted, some (unsupported_decision result.decision))
      → P applied
  unfolding apply_verification_decision
  applied-cases P a b c d e f =
      either P _ _ _ a (either P _ _ _ b (either P _ _ _ c (either P _ _ _ d (either P _ _ _ e f))))

  pub id-applied : applied.0.id ≡ execution.id
  id-applied =
      applied-cases (λ (r : RolloutExecution × Option Error). r.0.id ≡ execution.id) refl refl refl
        refl refl refl

  advised_status :
      (c : Bool) (e : Error)
      → (if◌then◌else◌ {A = RolloutExecution × Option Error} c
          (noted, none)
          (noted, some e)).0.status
        ≡ execution.status
  advised_status true e = refl
  advised_status false e = refl

  -- An advisory decision leaves the status alone.
  pub advisory-applied :
      has_prefix result.decision "advisory_" ≡ true → applied.0.status ≡ execution.status
  unfolding apply_verification_decision
  advisory-applied h =
      let d = result.decision in
      rw
        (
          differs d "continue" h refl,
          differs d "verified" h refl,
          differs d "pause" h refl,
          differs d "manual_review_required" h refl,
          differs d "rollback" h refl,
          differs d "failed" h refl,
        )
        (either (λ (r : RolloutExecution × Option Error). r.0.status ≡ execution.status) _ _ _ refl
          refl)

accepted-pair :
    (t : Tables) (r : RolloutExecution × Option Error)
    → Reads t (λ moved. (r.1 ≡ none) × (moved ≡ r.0)) (accepted r t)
unfolding accepted
accepted-pair t (execution, none) = meets_done (refl, (refl, refl))
accepted-pair t (execution, some e) = meets_failed refl

-- The result is stored, and its decision could not be applied.
pub record IsOrphaned (call : Call) (current : RolloutExecution)
    (req : RecordVerificationResultRequest) (t u : Tables) : Type 0 where
  pub written : data_of u ≡ data_of (put_result (result_of call current req) t)
  pub refused :
      is_none (apply_verification_decision current (result_of call current req) call.now).1 ≡ false

-- The result and the execution are stored.
pub record IsResult (call : Call) (current : RolloutExecution)
    (req : RecordVerificationResultRequest) (t u : Tables) : Type 0 where
  pub applies : (apply_verification_decision current (result_of call current req) call.now).1 ≡ none
  pub written :
      data_of u
      ≡ data_of (
          put_execution
            (updated call.now
              (apply_verification_decision current (result_of call current req) call.now).0)
            (put_result (result_of call current req) t))

module _ (call : Call) (current : RolloutExecution) (req : RecordVerificationResultRequest)
    (t : Tables) where
  abbrev pub result : VerificationResult
  result = result_of call current req

  accepted-result :
      (r : RolloutExecution × Option Error) (u : Tables)
      → Meets
          (λ moved v. (v ≡ u) × (r.1 ≡ none) × (moved ≡ r.0))
          (λ e v. (v ≡ u) × (is_none r.1 ≡ false))
          (accepted r u)
  unfolding accepted
  accepted-result (execution, none) u = meets_done (refl, refl, refl)
  accepted-result (execution, some e) u = meets_failed (refl, refl)

  pub store_result-IsResult :
      lookup current.id t.rollout_executions ≡ some current
      → Meets
          (λ r u. (r ≡ result) × IsResult call current req t u)
          (λ e u. (data_of u ≡ data_of t) ⊎ IsOrphaned call current req t u)
          (store_result call current req t)
  unfolding store_result create_verification_result update_rollout_execution
  store_result-IsResult there =
      require_rule (not (result.outcome == "" || result.decision == "")) _ _
        (λ given.
          let applied_now = apply_verification_decision current result call.now in
          bind
            (mono (accepted-result applied_now (put_result result t)) (λ a v h. h)
              (λ e v h. inr (record { written = ap data_of h.0; refused = h.1 })))
            λ moved v h.
              let place : moved.id ≡ current.id =
                ap (λ (x : RolloutExecution). x.id) h.2 ∙ id-applied current result call.now in
              let found_there : lookup moved.id v.rollout_executions ≡ some current =
                ap (λ (w : Tables). lookup moved.id w.rollout_executions) h.0
                ∙ ap (λ i. lookup i t.rollout_executions) place
                ∙ there in
              branch_then_rule (is_present (lookup moved.id v.rollout_executions)) _ _ v _
                (λ present. meets_done (
                  refl,
                  record {
                    applies = h.1;
                    written =
                        ap (λ m. data_of (put_execution (updated call.now m) v)) h.2
                        ∙ ap (λ w. data_of (put_execution (updated call.now applied_now.0) w)) h.0;
                  },
                ))
                (λ absent. elim (false≢true (sym absent ∙ ap is_present found_there)) [ ]))
        (λ h. meets_failed (inl refl))
