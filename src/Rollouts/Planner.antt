-- ===== src/Rollouts/Planner.antt =====
-- internal/rollouts/planner.go. The time and the fresh identifier of a plan are arguments.
use change_control_plane.Prelude.{
  String, Bool, true, false, not, ◌&&◌, ◌||◌, List, [], ◌∷◌, ◌==◌, if◌then◌else◌, append_if,
}
use change_control_plane.Types.{
  Time, ChangeSet, Service, Environment, RiskAssessment, PolicyDecision, RolloutPlan, RolloutStep,
}

unfoldable pub needs_review : PolicyDecision → Bool
needs_review decision =
    decision.outcome == "require_approval" || decision.outcome == "require_manual_review"

-- The loop of `requiresApproval` over the decisions.
unfoldable pub any_needs_review : List PolicyDecision → Bool
unfolding needs_review
any_needs_review [] = false
any_needs_review (decision ∷ decisions) =
    let rest = any_needs_review decisions in if needs_review decision then true else rest

unfoldable pub requires_approval : RiskAssessment → List PolicyDecision → Bool
requires_approval assessment decisions =
    if not (assessment.recommended_approval_level == "self-serve")
    then true
    else any_needs_review decisions

unfoldable pub rollout_steps : RiskAssessment → Environment → List RolloutStep
rollout_steps assessment environment =
    if assessment.recommended_rollout_strategy == "phased-rollout"
    then record {
      name = "precheck";
      description = "Validate rollback readiness, observability, and deployment freeze status.";
      guards = "rollback-ready" ∷ "verification-hooks-enabled" ∷ [];
    }
      ∷ record {
        name = "phase-one";
        description = "Roll out to the first low-risk cohort or region.";
        guards = "canary-metrics-green" ∷ [];
      }
      ∷ record {
        name = "phase-two";
        description = "Expand to additional production capacity with continuous verification.";
        guards = "customer-journey-steady" ∷ [];
      }
      ∷ record {
        name = "complete";
        description = "Complete rollout after guardrails remain green.";
        guards = [];
      }
      ∷ []
    else if assessment.recommended_rollout_strategy == "canary"
    then record {
      name = "precheck";
      description = "Validate release readiness and monitoring coverage.";
      guards = "health-gates" ∷ [];
    }
      ∷ record {
        name = "canary";
        description = "Deploy to a small traffic slice or service cohort.";
        guards = "error-rate-stable" ∷ "latency-stable" ∷ [];
      }
      ∷ record {
        name = "promote";
        description = "Promote to full traffic after validation.";
        guards = [];
      }
      ∷ []
    else record {
      name = "deploy";
      description =
          if environment.production
          then "Deploy directly only after standard production health verification."
          else "Deploy directly with standard health checks.";
      guards = "baseline-health-checks" ∷ [];
    }
      ∷ []

is_risky : RiskAssessment → Bool
is_risky assessment = assessment.level == "high" || assessment.level == "critical"

unfoldable pub plan :
    String
    → Time
    → ChangeSet
    → Service
    → Environment
    → RiskAssessment
    → List PolicyDecision
    → RolloutPlan
unfolding requires_approval is_risky
plan id now change service environment assessment decisions =
    let signals =
      append_if service.customer_facing ("customer-journey-health" ∷ [])
        ("error-rate" ∷ "latency" ∷ "throughput" ∷ []) in
    let window = assessment.recommended_deployment_window in
    let draft : RolloutPlan = record {
      base = record { id = id; created_at = now; updated_at = now; metadata = [] };
      organization_id = change.organization_id;
      project_id = change.project_id;
      change_set_id = change.id;
      risk_assessment_id = assessment.id;
      strategy = assessment.recommended_rollout_strategy;
      approval_required = requires_approval assessment decisions;
      approval_level = assessment.recommended_approval_level;
      deployment_window = window;
      additional_verification = is_risky assessment || service.regulated_zone;
      rollback_precheck_required = is_risky assessment || change.touches_schema;
      business_hours_restriction = assessment.level == "low" && environment.production;
      off_hours_preferred = window == "off-hours-preferred" || window == "off-hours-required";
      verification_signals =
          append_if (service.regulated_zone || not (environment.compliance_zone == ""))
            ("compliance-signal-check" ∷ []) signals;
      rollback_conditions =
          append_if service.customer_facing ("customer journey degradation" ∷ [])
            ("error-rate breach" ∷ "latency degradation beyond threshold" ∷ []);
      guardrails = assessment.recommended_guardrails;
      steps = rollout_steps assessment environment;
      explanation =
          "rollout plan derived from deterministic risk score and policy decisions"
          ∷ "strategy optimized for safety while preserving delivery flow" ∷ [];
    } in
    if assessment.level == "critical"
    then record draft { business_hours_restriction = false }
    else draft
