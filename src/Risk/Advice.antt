-- ===== src/Risk/Advice.antt =====
-- internal/risk/engine.go: the level that a score is given, and what is recommended at each level.
use change_control_plane.Prelude.{
  String, ◌≡◌, refl, Bool, true, false, not, arith, ◌==◌, if◌then◌else◌, ◌⊎◌, inl, inr, ◌↔◌,
  Bool-cases,
}
use change_control_plane.Prelude.Int.{ℤ, pos, ◌≤ℤ◌, ◌<ℤ◌, ltb_ℤ}
use change_control_plane.Prelude.Text.{normalized}
use change_control_plane.Types.{Time, ChangeSet, Service, Environment}
use change_control_plane.Risk.Recommend.{is_regulated, recommended_approval}
use change_control_plane.Risk.{tally_of, classify, assess}
use change_control_plane.Risk.Monotone.{AtLeast, score_mono}
use change_control_plane.Risk.Bounds.{CountsFit}
use change_control_plane.Policies.Normal.{risk_level_rank}

rank_low : risk_level_rank "low" ≡ pos 0
unfolding risk_level_rank normalized
rank_low = refl

rank_medium : risk_level_rank "medium" ≡ pos 1
unfolding risk_level_rank normalized
rank_medium = refl

rank_high : risk_level_rank "high" ≡ pos 2
unfolding risk_level_rank normalized
rank_high = refl

rank_critical : risk_level_rank "critical" ≡ pos 3
unfolding risk_level_rank normalized
rank_critical = refl

-- The rank of the level of a score, as the policies read it.
rank-classify :
    (score : ℤ)
    → risk_level_rank (classify score) ≡ (
        if not (ltb_ℤ score (pos 80))
        then pos 3
        else if not (ltb_ℤ score (pos 55))
        then pos 2
        else if not (ltb_ℤ score (pos 30))
        then pos 1
        else pos 0)
unfolding classify
rank-classify score = ground (arith, rank_low, rank_medium, rank_high, rank_critical)

classify_mono : (m n : ℤ) → m ≤ℤ n → risk_level_rank (classify m) ≤ℤ risk_level_rank (classify n)
classify_mono m n h = rw (rank-classify m, rank-classify n) (ground arith)

-- For one service and environment, a change that has at least the flags, the counts and the change
-- types of another one has at least the rank of its level, by the ranks that the policies use, if
-- doubling its counts does not wrap.
pub level_mono :
    (id : String) (now : Time) (c d : ChangeSet) (s : Service) (e : Environment)
    → AtLeast c d
    → CountsFit d
    → risk_level_rank (assess id now c s e).level ≤ℤ risk_level_rank (assess id now d s e).level
unfolding assess
level_mono id now c d s e more fit =
    classify_mono (tally_of c s e).score (tally_of d s e).score (score_mono c d s e more fit)

-- The level of a score, with its range.
data Graded (score : ℤ) (level : String) : Type 0 where
  low : level ≡ "low" → score <ℤ pos 30 → Graded score level
  medium : level ≡ "medium" → pos 30 ≤ℤ score → score <ℤ pos 55 → Graded score level
  high : level ≡ "high" → pos 55 ≤ℤ score → score <ℤ pos 80 → Graded score level
  critical : level ≡ "critical" → pos 80 ≤ℤ score → Graded score level

grade : (score : ℤ) → Graded score (classify score)
unfolding classify
grade score = elim (Bool-cases (ltb_ℤ score (pos 80))) [
  | inl below_80 ↦ elim (Bool-cases (ltb_ℤ score (pos 55))) [
    | inl below_55 ↦ elim (Bool-cases (ltb_ℤ score (pos 30))) [
      | inl below_30 ↦ low (rw (below_80, below_55, below_30)) (ground arith)
      | inr h ↦ medium (rw (below_80, below_55, h)) (ground arith) (ground arith)
    ]
    | inr h ↦ high (rw (below_80, h)) (ground arith) (ground arith)
  ]
  | inr h ↦ critical (rw h) (ground arith)
]

-- When a change needs an approval.
abbrev pub NeedsApproval : ℤ → Bool → Bool → Type 0
NeedsApproval score production regulated =
    (regulated ≡ true)
    ⊎ (pos 80 ≤ℤ score)
    ⊎ ((pos 55 ≤ℤ score) × (production ≡ true))
    ⊎ ((pos 30 ≤ℤ score) × (score <ℤ pos 55))

approval_at :
    (score : ℤ) (level : String) (production regulated : Bool)
    → Graded score level
    → ((recommended_approval level production regulated == "self-serve") ≡ false)
      ↔ NeedsApproval score production regulated
unfolding recommended_approval
approval_at score level production true g = (λ h. inl refl, λ h. refl)
approval_at score level true false (low e h) = rw e (λ k. cc, λ k. absurd (ground arith))
approval_at score level false false (low e h) = rw e (λ k. cc, λ k. absurd (ground arith))
approval_at score level true false (medium e h k) = rw e (λ _. ground arith, λ _. refl)
approval_at score level false false (medium e h k) = rw e (λ _. ground arith, λ _. refl)
approval_at score level true false (high e h k) = rw e (λ _. ground arith, λ _. refl)
approval_at score level false false (high e h k) = rw e (λ l. cc, λ l. absurd (ground arith))
approval_at score level true false (critical e h) = rw e (λ _. ground arith, λ _. refl)
approval_at score level false false (critical e h) = rw e (λ _. ground arith, λ _. refl)

module _ (id : String) (now : Time) (c : ChangeSet) (s : Service) (e : Environment) where
  -- The approval that an assessment recommends is another one than `self-serve` exactly when the
  -- service or its environment is regulated, the score is at least 80, it is at least 55 in
  -- production, or it is from 30 to 54.
  pub approval_needed_iff :
      (((assess id now c s e).recommended_approval_level == "self-serve") ≡ false)
      ↔ NeedsApproval (tally_of c s e).score e.production (is_regulated s e)
  unfolding assess
  approval_needed_iff =
      approval_at (tally_of c s e).score _ e.production (is_regulated s e)
        (grade (tally_of c s e).score)
