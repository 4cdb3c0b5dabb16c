-- ===== src/Policies/Meaning.antt =====
-- internal/policies/evaluator.go: what `EvaluatePolicy` decides, said without its loops.
use change_control_plane.Prelude.{
  String, ◌≡◌, ◌≢◌, ◌↔◌, refl, ap, ◌∙◌, Bool, true, false, not, ◌&&◌, ◌||◌, Option, none, some,
  List, [], ◌==◌, eq_iff, any, is_empty, arith, Bool-cases, inl, inr,
}
use change_control_plane.Prelude.Int.{◌≤ℤ◌}
use change_control_plane.Prelude.Text.{normalized}
use change_control_plane.Prelude.Text.Laws.{normalized_idem}
use change_control_plane.Types.{ChangeSet, Service, Policy, PolicyCondition, RiskAssessment}
use change_control_plane.Policies.Normal.{
  normalize_unique, normalize_applies_to, normalize_conditions, risk_level_rank,
}
use change_control_plane.Policies.{
  EvaluationInput, intersect_normalized, touch_matches, matched_required_touches,
  capability_missing, matched_missing_capabilities, require, ◌>>=◌, meets_risk,
  is_regulated_for_policy, or_default, evaluate_conditions, evaluate_policy,
}
use change_control_plane.Policies.Membership.{
  is_given, is_empty-normalize_unique, shares, any-normalize_unique, is_empty-intersect_normalized,
  is_empty-matched_required_touches, is_empty-matched_missing_capabilities,
}

abbrev pub Implies : Bool → Bool → Type 0
Implies a b = a ≡ true → b ≡ true

-- The policy is enabled and for this step of the workflow, and every condition that it states
-- holds. A list of values states a condition if one of them is not blank; it holds if one of the
-- values, in lower case and without spaces around it, fits the change.
pub record Matches (policy : Policy) (input : EvaluationInput) : Type 0 where
  pub enabled : policy.enabled ≡ true
  pub applies : normalize_applies_to policy.applies_to ≡ normalize_applies_to input.applies_to
  pub production : Implies policy.conditions.production_only input.environment.production
  pub regulated :
      Implies policy.conditions.regulated_only
        (is_regulated_for_policy input.service input.environment)
  pub risk :
      normalized policy.conditions.min_risk_level ≢ ""
      → risk_level_rank policy.conditions.min_risk_level ≤ℤ risk_level_rank input.assessment.level
  pub types :
      Implies
        (is_given policy.conditions.required_change_types)
        (shares policy.conditions.required_change_types input.change.change_types)
  pub touches : Implies (is_given policy.conditions.required_touches) (
      any
        (λ touch. touch_matches input.change (normalized touch))
        policy.conditions.required_touches)
  pub capabilities : Implies (is_given policy.conditions.missing_capabilities) (
      any
        (λ capability. capability_missing input.service (normalized capability))
        policy.conditions.missing_capabilities)

abbrev pub is_some : Option (List String) → Bool
is_some none = false
is_some (some reasons) = true

is_some-require :
    (wanted holds : Bool) (reason : String) (reasons : List String)
    → is_some (require wanted holds reason reasons) ≡ not wanted || holds
unfolding require
is_some-require wanted holds reason reasons = ground arith

is_some-bind :
    (m : Option (List String)) (wanted holds : Bool) (reason : String)
    → is_some (m >>= require wanted holds reason) ≡ (is_some m && (not wanted || holds))
is_some-bind none wanted holds reason = refl
is_some-bind (some reasons) wanted holds reason = is_some-require wanted holds reason reasons

is_some-finish :
    (m : Option (List String)) → is_some (m >>= λ reasons. some (or_default reasons)) ≡ is_some m
is_some-finish none = refl
is_some-finish (some reasons) = refl

-- One condition, as it stands in the code.
abbrev holds_if : Bool → Bool → Bool
holds_if wanted holds = not wanted || holds

is_some-evaluate_conditions :
    (c : PolicyCondition) (i : EvaluationInput)
    → is_some (evaluate_conditions c i) ≡ (
        holds_if c.production_only i.environment.production
        && holds_if c.regulated_only (is_regulated_for_policy i.service i.environment)
        && holds_if (not (c.min_risk_level == "")) (meets_risk i.assessment c.min_risk_level)
        && holds_if
            (not (is_empty c.required_change_types))
            (not (is_empty (intersect_normalized c.required_change_types i.change.change_types)))
        && holds_if
            (not (is_empty c.required_touches))
            (not (is_empty (matched_required_touches c.required_touches i.change)))
        && holds_if
            (not (is_empty c.missing_capabilities))
            (not (is_empty (matched_missing_capabilities c.missing_capabilities i.service))))
unfolding evaluate_conditions
is_some-evaluate_conditions c i = simp (is_some-finish, is_some-bind, is_some-require)

not-not : (b : Bool) → not (not b) ≡ b
not-not true = refl
not-not false = refl

given_lem : (values : List String) → not (is_empty (normalize_unique values)) ≡ is_given values
given_lem values = ap not (is_empty-normalize_unique values) ∙ not-not (is_given values)

types_lem :
    (values items : List String)
    → holds_if
        (not (is_empty (normalize_unique values)))
        (not (is_empty (intersect_normalized (normalize_unique values) items)))
      ≡ holds_if (is_given values) (shares values items)
types_lem values items = elim (Bool-cases (is_given values)) [
  | inl some_given ↦ rw (
    given_lem values,
    is_empty-intersect_normalized values items some_given,
    not-not (shares values items),
  )
  | inr blank ↦ rw (given_lem values, blank)
]

touches_lem :
    (values : List String) (change : ChangeSet)
    → not (is_empty (matched_required_touches (normalize_unique values) change))
      ≡ any (λ touch. touch_matches change (normalized touch)) values
touches_lem values change =
    rw (is_empty-matched_required_touches (normalize_unique values) change, not-not)
      (any-normalize_unique (touch_matches change) values (unfold touch_matches in refl))

capabilities_lem :
    (values : List String) (service : Service)
    → not (is_empty (matched_missing_capabilities (normalize_unique values) service))
      ≡ any (λ capability. capability_missing service (normalized capability)) values
capabilities_lem values service =
    rw (is_empty-matched_missing_capabilities (normalize_unique values) service, not-not)
      (any-normalize_unique (capability_missing service) values (unfold capability_missing in refl))

meets_risk-normalized :
    (assessment : RiskAssessment) (minimum : String)
    → meets_risk assessment (normalized minimum) ≡ meets_risk assessment minimum
unfolding meets_risk risk_level_rank
meets_risk-normalized assessment minimum = rw (normalized_idem minimum)

-- The same after `NormalizeConditions`, said of the condition as it was given.
is_some-normalize_conditions :
    (c : PolicyCondition) (i : EvaluationInput)
    → is_some (evaluate_conditions (normalize_conditions c) i) ≡ (
        holds_if c.production_only i.environment.production
        && holds_if c.regulated_only (is_regulated_for_policy i.service i.environment)
        && holds_if
            (not (normalized c.min_risk_level == ""))
            (meets_risk i.assessment c.min_risk_level)
        && holds_if
            (is_given c.required_change_types)
            (shares c.required_change_types i.change.change_types)
        && holds_if
            (is_given c.required_touches)
            (any (λ touch. touch_matches i.change (normalized touch)) c.required_touches)
        && holds_if (is_given c.missing_capabilities) (
            any
              (λ capability. capability_missing i.service (normalized capability))
              c.missing_capabilities))
unfolding normalize_conditions
is_some-normalize_conditions c i = rw (
  is_some-evaluate_conditions (normalize_conditions c) i,
  meets_risk-normalized i.assessment c.min_risk_level,
  types_lem c.required_change_types i.change.change_types,
  given_lem c.required_touches,
  touches_lem c.required_touches i.change,
  given_lem c.missing_capabilities,
  capabilities_lem c.missing_capabilities i.service,
)

or_default-ne-nil : (reasons : List String) → or_default reasons ≢ []
unfolding or_default
or_default-ne-nil reasons h = ground arith

module _ (policy : Policy) (input : EvaluationInput) where
  Matches-of-evaluate_policy : is_some (evaluate_policy policy input) ≡ true → Matches policy input
  unfolding evaluate_policy meets_risk
  Matches-of-evaluate_policy h = ground (
    arith,
    is_some-normalize_conditions policy.conditions input,
    eq_iff (normalize_applies_to policy.applies_to) (normalize_applies_to input.applies_to),
    eq_iff (normalized policy.conditions.min_risk_level) "",
  )

  evaluate_policy-of-Matches : Matches policy input → is_some (evaluate_policy policy input) ≡ true
  unfolding evaluate_policy meets_risk
  evaluate_policy-of-Matches m = ground (
    arith,
    is_some-normalize_conditions policy.conditions input,
    eq_iff (normalize_applies_to policy.applies_to) (normalize_applies_to input.applies_to),
    eq_iff (normalized policy.conditions.min_risk_level) "",
  )

-- A policy applies to a change exactly when it matches it: it is enabled, it is for this step of the
-- workflow, and each condition that it states, read as it was given, holds of the change.
pub evaluate_policy-Matches :
    (policy : Policy) (input : EvaluationInput)
    → (is_some (evaluate_policy policy input) ≡ true) ↔ Matches policy input
evaluate_policy-Matches policy input =
    (Matches-of-evaluate_policy policy input, evaluate_policy-of-Matches policy input)
