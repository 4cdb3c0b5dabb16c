-- ===== src/Risk.antt =====
-- internal/risk/engine.go: the score of a change and what is recommended for it. The time and the
-- fresh identifier of an assessment are arguments. `score` adds without wrap-around, which
-- `Risk.Bounds` shows to be exact below 2 ^ 57 change types; the products of counts wrap as `int`.
-- `ConfidenceScore` is a number of thousandths.
pub mod Recommend
pub mod Points
pub mod Bounds
pub mod Monotone
pub mod Advice
use change_control_plane.Prelude.{
  ℕ, ◌-◌, String, Bool, true, false, not, ◌&&◌, ◌||◌, List, [], ◌∷◌, ◌++◌, ◌==◌, if◌then◌else◌, ltb,
  Option, none, some,
}
use change_control_plane.Prelude.Int.{ℤ, pos, ◌+ℤ◌, ltb_ℤ, int64, scale, quot}
use change_control_plane.Prelude.Text.{lower, join}
use change_control_plane.Prelude.Format.{concat, show_int}
use change_control_plane.Types.{Time, ChangeSet, Service, Environment, RiskAssessment, RiskLevel}
use change_control_plane.Risk.Recommend.{
  recommended_approval, recommended_strategy, recommended_window, recommended_guardrails,
  build_blast_radius, is_regulated, min_int,
}

pub record Tally : Type 0 where
  pub score : ℤ
  pub explanations : List String

unfoldable pub add : ℤ → String → Tally → Tally
add points explanation tally = record {
  score = tally.score +ℤ points;
  explanations = tally.explanations ++ concat ("+" ∷ show_int points ∷ " " ∷ explanation ∷ []) ∷ [];
}

-- `if b { add(points, explanation) }`
unfoldable pub add_if : Bool → ℤ → String → Tally → Tally
add_if b points explanation tally = if b then add points explanation tally else tally

-- A case of a `switch` that calls `add`: the points and the explanation.
abbrev pub Case : Type 0
Case = Option (ℕ × String)

unfoldable pub add_case : Case → Tally → Tally
add_case none tally = tally
add_case (some (points, explanation)) tally = add (pos points) explanation tally

unfoldable pub change_type_case : String → Case
unfolding lower
change_type_case change_type =
    let kind = lower change_type in
    if kind == "code"
    then some (6, "application code changes introduce runtime behavior changes")
    else if kind == "config"
    then some (8, "configuration changes can alter environment behavior quickly")
    else if kind == "infra" || kind == "infrastructure"
    then some (15, "infrastructure changes expand operational impact")
    else if kind == "schema"
    then some (16, "schema changes can introduce compatibility and rollback risk")
    else if kind == "database"
    then some (8, "database-related changes require persistence and compatibility review")
    else if kind == "iam"
    then some (18, "IAM changes can affect access and privilege boundaries")
    else if kind == "secret" || kind == "secrets"
    then some (14, "secret changes can disrupt connectivity and runtime access")
    else if kind == "dependency" || kind == "dependencies"
    then some (9, "dependency changes can introduce compatibility regressions")
    else none

unfoldable pub add_change_types : List String → Tally → Tally
add_change_types [] tally = tally
add_change_types (change_type ∷ rest) tally =
    add_change_types rest (add_case (change_type_case change_type) tally)

unfoldable pub environment_case : Environment → Case
unfolding lower
environment_case environment =
    let kind = lower environment.type in
    if environment.production
    then some (20, "production environment increases blast radius and customer exposure")
    else if kind == "staging"
    then some (8, "staging change still matters because it gates production confidence")
    else if kind == "preview" || kind == "ephemeral"
    then some (3, "ephemeral environments have contained but non-zero operational cost")
    else none

unfoldable pub criticality_case : Service → Case
unfolding lower
criticality_case service =
    let kind = lower service.criticality in
    if kind == "high"
    then some (12, "service is marked high criticality")
    else if kind == "critical" || kind == "mission_critical"
    then some (18, "service is mission critical")
    else if kind == "medium"
    then some (6, "service has moderate criticality")
    else none

-- `min(12, change.FileCount/5+1)`
unfoldable pub file_points : ℤ → ℤ
file_points count = min_int (pos 12) (quot count 5 +ℤ pos 1)

-- `min(cap, count*2)`
unfoldable pub doubled_points : ℕ → ℤ → ℤ
doubled_points cap count = min_int (pos cap) (int64 (scale 2 count))

unfoldable pub add_counts : ChangeSet → Tally → Tally
add_counts change tally =
    let files =
      add_if (ltb_ℤ (pos 0) change.file_count) (file_points change.file_count)
        (concat ("change touches " ∷ show_int change.file_count ∷ " files" ∷ [])) tally in
    add_if (ltb_ℤ (pos 0) change.resource_count) (doubled_points 10 change.resource_count)
      (concat (
        "change touches "
        ∷ show_int change.resource_count
        ∷ " infrastructure or runtime resources"
        ∷ []))
      files

unfoldable pub add_touches : ChangeSet → Tally → Tally
add_touches change tally =
    let infrastructure =
      add_if change.touches_infrastructure (pos 10) "change affects infrastructure state" tally in
    let iam =
      add_if change.touches_iam (pos 16) "change affects IAM or permissions" infrastructure in
    let secrets =
      add_if change.touches_secrets (pos 14) "change affects secrets or secret references" iam in
    let schema =
      add_if change.touches_schema (pos 14) "change affects database schema or data compatibility"
        secrets in
    add_if change.dependency_changes (pos 7) "change includes dependency updates" schema

unfoldable pub add_service : ChangeSet → Service → Environment → Tally → Tally
add_service change service environment tally =
    let facing = add_if service.customer_facing (pos 8) "service is customer-facing" tally in
    let incidents =
      add_if (ltb_ℤ (pos 0) change.historical_incident_count)
        (doubled_points 12 change.historical_incident_count)
        (concat (
          "service has "
          ∷ show_int change.historical_incident_count
          ∷ " historical incidents"
          ∷ []))
        facing in
    let rollback =
      add_if change.poor_rollback_history (pos 10) "service has poor rollback history" incidents in
    let observed =
      add_if (not service.has_observability) (pos 9) "service lacks observability coverage"
        rollback in
    let slo = add_if (not service.has_slo) (pos 7) "service lacks SLO coverage" observed in
    add_if (is_regulated service environment) (pos 12)
      "regulated zone handling requires additional control" slo

unfoldable pub tally_of : ChangeSet → Service → Environment → Tally
tally_of change service environment =
    let types =
      add_change_types change.change_types (record { score = pos 5; explanations = [] }) in
    let placed =
      add_case (criticality_case service) (add_case (environment_case environment) types) in
    add_service change service environment (add_touches change (add_counts change placed))

unfoldable pub classify : ℤ → RiskLevel
classify score =
    if not (ltb_ℤ score (pos 80))
    then "critical"
    else if not (ltb_ℤ score (pos 55))
    then "high"
    else if not (ltb_ℤ score (pos 30))
    then "medium"
    else "low"

-- In thousandths. The subtractions are exact: 900 - 150 - 50 is above the floor of 450.
unfoldable pub confidence_of : ChangeSet → Service → ℕ
confidence_of change service =
    let covered = if not service.has_observability || not service.has_slo then 900 - 150 else 900 in
    let repeated =
      if ltb_ℤ (pos 2) change.historical_incident_count then covered - 50 else covered in
    if ltb repeated 450 then 450 else repeated

unfoldable pub assess : String → Time → ChangeSet → Service → Environment → RiskAssessment
assess id now change service environment =
    let tally = tally_of change service environment in
    let level = classify tally.score in
    record {
      base = record { id = id; created_at = now; updated_at = now; metadata = [] };
      organization_id = change.organization_id;
      project_id = change.project_id;
      change_set_id = change.id;
      service_id = change.service_id;
      environment_id = change.environment_id;
      score = tally.score;
      level = level;
      confidence_score = pos (confidence_of change service);
      explanation = tally.explanations;
      blast_radius = build_blast_radius change service environment;
      recommended_approval_level =
          recommended_approval level environment.production (is_regulated service environment);
      recommended_rollout_strategy = recommended_strategy level environment service;
      recommended_deployment_window = recommended_window level environment;
      recommended_guardrails = recommended_guardrails level change service environment;
    }
