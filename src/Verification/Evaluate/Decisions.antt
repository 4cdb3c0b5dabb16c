-- ===== src/Verification/Evaluate/Decisions.antt =====
-- internal/verification/engine.go: the decisions that a judgement of the signals may make.
use change_control_plane.Prelude.{
  String, ◌≡◌, ◌≢◌, refl, inl, inr, false, ◌||◌, Option, none, some, List, ◌==◌, arith, eq_iff,
  Bool-cases, is_empty,
}
use change_control_plane.Prelude.Text.{lower, trim, lower_char, shift, trim_left, trim_right}
use change_control_plane.Prelude.Text.Laws.{lower_idem, trim_idem, trim-lower}
use change_control_plane.Types.{
  RollbackPolicy, VerificationResult, RecordVerificationResultRequest, SyncResult,
}
use change_control_plane.Verification.{effective_snapshot_health}
use change_control_plane.Verification.Evaluate.{
  failure_request, unsignalled_request, exhausted, judged,
}

-- The decisions that an evaluation makes.
pub data IsDecision : String → Type 0 where
  verified : IsDecision "verified"
  manual_review : IsDecision "manual_review_required"
  pause : IsDecision "pause"
  rollback : IsDecision "rollback"
  failed : IsDecision "failed"

-- The decisions other than `verified`.
pub data IsUnverified : String → Type 0 where
  review : IsUnverified "manual_review_required"
  hold : IsUnverified "pause"
  undo : IsUnverified "rollback"
  give_up : IsUnverified "failed"

pub IsUnverified-ne : (decision : String) → IsUnverified decision → decision ≢ "verified"
IsUnverified-ne decision review e = ground (arith, eq_iff "manual_review_required" "verified")
IsUnverified-ne decision hold e = ground (arith, eq_iff "pause" "verified")
IsUnverified-ne decision undo e = ground (arith, eq_iff "rollback" "verified")
IsUnverified-ne decision give_up e = ground (arith, eq_iff "failed" "verified")

critical_kind : (lower (trim "critical") == "healthy" || lower (trim "critical") == "pass") ≡ false
unfolding lower trim lower_char shift trim_left trim_right
critical_kind = refl

kind_idem : (s : String) → lower (trim (lower (trim s))) ≡ lower (trim s)
kind_idem s = rw (trim-lower (trim s), lower_idem (trim (trim s)), trim_idem s) refl

-- With a breach the health is neither `healthy` nor `pass`.
pub breached_health :
    (snapshot_health : String) (breaches : List String)
    → is_empty breaches ≡ false
    → let kind = lower (trim (effective_snapshot_health snapshot_health breaches)) in
      (kind == "healthy" || kind == "pass") ≡ false
unfolding effective_snapshot_health
breached_health snapshot_health breaches breached =
    let health = lower (trim snapshot_health) in
    elim (Bool-cases (
      health == ""
      || health == "healthy"
      || health == "pass"
      || health == "warning"
      || health == "degraded")) [
        | inl raised ↦ rw (breached, raised) critical_kind
        | inr kept ↦
            rw (breached, kept) (let same = kind_idem snapshot_health in rw same (ground arith))
      ]

abbrev pub IfSome :
    (RecordVerificationResultRequest → Type 0) → Option RecordVerificationResultRequest → Type 0
IfSome P none = Unit
IfSome P (some request) = P request

abbrev pub Decides : RecordVerificationResultRequest → Type 0
Decides request = IsDecision request.decision

abbrev pub StaysUnverified : RecordVerificationResultRequest → Type 0
StaysUnverified request = IsUnverified request.decision

module _ (draft : RecordVerificationResultRequest) (health : String) (breaches : List String)
    (backend : SyncResult) (policy : RollbackPolicy) (results : List VerificationResult) where
  pub judged-Decides : IfSome Decides (judged draft health breaches backend policy results)
  unfolding judged
  judged-Decides =
      let kind = lower (trim health) in
      elim (Bool-cases (kind == "healthy" || kind == "pass")) [
        | inl good ↦ rw good verified
        | inr not_good ↦ elim (Bool-cases (kind == "warning" || kind == "degraded")) [
          | inl warned ↦ elim (Bool-cases (exhausted policy results)) [
            | inl spent ↦ rw (not_good, warned, spent) rollback
            | inr left ↦ rw (not_good, warned, left) manual_review
          ]
          | inr not_warned ↦
              elim (Bool-cases (kind == "critical" || kind == "fail" || kind == "unhealthy")) [
                | inl bad ↦
                    elim (Bool-cases
                      (policy.rollback_on_critical_signals || exhausted policy results)) [
                        | inl must ↦ rw (not_good, not_warned, bad, must) rollback
                        | inr may ↦ rw (not_good, not_warned, bad, may) pause
                      ]
                | inr other ↦ rw (not_good, not_warned, other) tt
              ]
        ]
      ]

  -- A breach is never judged as passed.
  pub judged-IsUnverified :
      (lower (trim health) == "healthy" || lower (trim health) == "pass") ≡ false
      → IfSome StaysUnverified (judged draft health breaches backend policy results)
  unfolding judged
  judged-IsUnverified not_good =
      let kind = lower (trim health) in
      elim (Bool-cases (kind == "warning" || kind == "degraded")) [
        | inl warned ↦ elim (Bool-cases (exhausted policy results)) [
          | inl spent ↦ rw (not_good, warned, spent) undo
          | inr left ↦ rw (not_good, warned, left) review
        ]
        | inr not_warned ↦
            elim (Bool-cases (kind == "critical" || kind == "fail" || kind == "unhealthy")) [
              | inl bad ↦
                  elim (Bool-cases
                    (policy.rollback_on_critical_signals || exhausted policy results)) [
                      | inl must ↦ rw (not_good, not_warned, bad, must) undo
                      | inr may ↦ rw (not_good, not_warned, bad, may) hold
                    ]
              | inr other ↦ rw (not_good, not_warned, other) tt
            ]
      ]

pub failure_request-Decides :
    (backend : SyncResult) (policy : RollbackPolicy) → Decides (failure_request backend policy)
unfolding failure_request
failure_request-Decides backend policy = elim (Bool-cases policy.rollback_on_provider_failure) [
  | inl back ↦ rw back rollback
  | inr stay ↦ rw stay failed
]

pub unsignalled_request-Decides :
    (backend : SyncResult) (policy : RollbackPolicy) → Decides (unsignalled_request backend policy)
unfolding unsignalled_request
unsignalled_request-Decides backend policy = verified

pub failure_request-IsUnverified :
    (backend : SyncResult) (policy : RollbackPolicy)
    → StaysUnverified (failure_request backend policy)
unfolding failure_request
failure_request-IsUnverified backend policy =
    elim (Bool-cases policy.rollback_on_provider_failure) [
      | inl back ↦ rw back undo
      | inr stay ↦ rw stay give_up
    ]
