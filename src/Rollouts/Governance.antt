-- ===== src/Rollouts/Governance.antt =====
-- From the risk of a change (internal/risk) to the plan of its rollout and the life of its
-- execution (internal/rollouts): which changes wait for an approval.
use mathlib.Core.List.{Memᴰ}
use change_control_plane.Prelude.{
  String, ◌≡◌, refl, true, false, List, [], ◌∷◌, Bool-cases, eq_iff, ◌⊎◌, inl, inr, ◌↔◌, arith,
  ◌==◌, contains,
}
use change_control_plane.Types.{
  Time, ChangeSet, Service, Environment, RiskAssessment, PolicyDecision, RolloutExecution,
}
use change_control_plane.Risk.{tally_of, assess}
use change_control_plane.Risk.Recommend.{is_regulated}
use change_control_plane.Risk.Advice.{NeedsApproval, approval_needed_iff}
use change_control_plane.Rollouts.Planner.{plan, needs_review, requires_approval, any_needs_review}
use change_control_plane.Rollouts.Lifecycle.{initial_execution_status}
use change_control_plane.Rollouts.Lifecycle.Trace.{Call, run, actions}
use change_control_plane.Rollouts.Lifecycle.Approval.{IsGated, run-IsGated}

approval_required-plan :
    (id : String) (now : Time) (c : ChangeSet) (s : Service) (e : Environment) (a : RiskAssessment)
    (decisions : List PolicyDecision)
    → (plan id now c s e a decisions).approval_required ≡ requires_approval a decisions
unfolding plan
approval_required-plan id now c s e a decisions = ground arith

requires_approval_iff :
    (a : RiskAssessment) (decisions : List PolicyDecision)
    → (requires_approval a decisions ≡ true) ↔ (
        ((a.recommended_approval_level == "self-serve") ≡ false)
        ⊎ (any_needs_review decisions ≡ true))
unfolding requires_approval
requires_approval_iff a decisions = (λ h. ground arith, λ h. ground arith)

-- Some decision asks for an approval or for a review by hand.
abbrev pub AsksReview : List PolicyDecision → Type 0
AsksReview decisions =
    (d : PolicyDecision) × Memᴰ d decisions
    × ((d.outcome ≡ "require_approval") ⊎ (d.outcome ≡ "require_manual_review"))

needs_review_iff :
    (d : PolicyDecision)
    → (needs_review d ≡ true)
      ↔ ((d.outcome ≡ "require_approval") ⊎ (d.outcome ≡ "require_manual_review"))
unfolding needs_review
needs_review_iff d = (
  λ h. elim (Bool-cases (d.outcome == "require_approval")) [
    | inl same ↦ inl ((eq_iff d.outcome "require_approval").0 same)
    | inr other ↦ inr ((eq_iff d.outcome "require_manual_review").0 (ground arith))
  ],
  λ h. elim h [ inl same ↦ rw same refl | inr same ↦ rw same refl ],
)

any_needs_review-AsksReview :
    (decisions : List PolicyDecision) → any_needs_review decisions ≡ true → AsksReview decisions
unfolding any_needs_review
any_needs_review-AsksReview [] h = cc
any_needs_review-AsksReview (d ∷ ds) h = elim (Bool-cases (needs_review d)) [
  | inl asks ↦ (d, Memᴰ.head refl, (needs_review_iff d).0 asks)
  | inr not_it ↦
      let later = any_needs_review-AsksReview ds (ground arith) in
      (later.0, Memᴰ.tail later.1, later.2)
]

any_needs_review-of_Memᴰ :
    (d : PolicyDecision) (decisions : List PolicyDecision)
    → Memᴰ d decisions
    → needs_review d ≡ true
    → any_needs_review decisions ≡ true
unfolding any_needs_review
any_needs_review-of_Memᴰ d [] there asks = elim there [ ]
any_needs_review-of_Memᴰ d (x ∷ ds) (Memᴰ.head same) asks = rw (← same) (rw asks refl)
any_needs_review-of_Memᴰ d (x ∷ ds) (Memᴰ.tail there) asks =
    ground (arith, any_needs_review-of_Memᴰ d ds there asks)

any_needs_review_iff :
    (decisions : List PolicyDecision) → (any_needs_review decisions ≡ true) ↔ AsksReview decisions
any_needs_review_iff decisions = (
  any_needs_review-AsksReview decisions,
  λ h. any_needs_review-of_Memᴰ h.0 decisions h.1 ((needs_review_iff h.0).1 h.2),
)

module _ (id : String) (now : Time) (c : ChangeSet) (s : Service) (e : Environment)
    (decisions : List PolicyDecision) where
  -- The risk of the change needs an approval, or one of the decisions asks for a review.
  abbrev pub AsksApproval : Type 0
  AsksApproval =
      NeedsApproval (tally_of c s e).score e.production (is_regulated s e) ⊎ AsksReview decisions

  -- The plan of a change that is assessed requires an approval exactly when the risk of the change
  -- needs one, or one of the decisions has the outcome `require_approval` or
  -- `require_manual_review`.
  pub approval_required_iff :
      ((plan id now c s e (assess id now c s e) decisions).approval_required ≡ true) ↔ AsksApproval
  approval_required_iff =
      let required = requires_approval_iff (assess id now c s e) decisions in
      let reviewed = any_needs_review_iff decisions in
      let needed = approval_needed_iff id now c s e in
      rw (approval_required-plan id now c s e (assess id now c s e) decisions) (
        λ h. elim (required.0 h) [
          | inl other ↦ inl (needed.0 other)
          | inr review ↦ inr (reviewed.0 review)
        ],
        λ h.
            required.1
              (elim h [ inl risk ↦ inl (needed.1 risk) | inr review ↦ inr (reviewed.1 review) ]),
      )

  -- An execution of the plan of an assessed change, as it is created, whose change asks for an approval, is still waiting
  -- for it, or rolled back, after any calls of `AdvanceExecution` none of which is an `approve`.
  pub unapproved-IsGated :
      (execution : RolloutExecution) (calls : List Call)
      → execution.status
        ≡ initial_execution_status (plan id now c s e (assess id now c s e) decisions)
      → AsksApproval
      → contains (actions calls) "approve" ≡ false
      → IsGated (run execution calls)
  unfolding initial_execution_status
  unapproved-IsGated execution calls created asks unapproved =
      run-IsGated execution calls unapproved (inl (rw (approval_required_iff.1 asks) at created))
