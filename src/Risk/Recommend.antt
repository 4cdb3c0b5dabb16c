-- ===== src/Risk/Recommend.antt =====
-- internal/risk/engine.go: the recommendations that follow from the level of risk.
use change_control_plane.Prelude.{
  String, Bool, not, ◌&&◌, ◌||◌, List, [], ◌∷◌, ◌==◌, if◌then◌else◌, append_if,
}
use change_control_plane.Prelude.Int.{ℤ, pos, ◌+ℤ◌, ltb_ℤ, int64}
use change_control_plane.Prelude.Text.{join}
use change_control_plane.Prelude.Format.{concat, show_int}
use change_control_plane.Types.{ChangeSet, Service, Environment, BlastRadius, RiskLevel}

unfoldable pub min_int : ℤ → ℤ → ℤ
min_int a b = if ltb_ℤ a b then a else b

unfoldable pub max_int : ℤ → ℤ → ℤ
max_int a b = if ltb_ℤ b a then a else b

-- `service.RegulatedZone || environment.ComplianceZone != ""`
unfoldable pub is_regulated : Service → Environment → Bool
is_regulated service environment = service.regulated_zone || not (environment.compliance_zone == "")

unfoldable pub recommended_approval : RiskLevel → (production regulated : Bool) → String
recommended_approval level production regulated =
    if regulated || level == "critical"
    then "change-advisory-board"
    else if production && level == "high"
    then "platform-owner"
    else if level == "medium"
    then "team-lead"
    else "self-serve"

unfoldable pub recommended_strategy : RiskLevel → Environment → Service → String
recommended_strategy level environment service =
    if not environment.production && level == "low"
    then "direct-deploy"
    else if level == "critical"
    then "phased-rollout"
    else if level == "high"
    then (if service.customer_facing then "canary" else "phased-rollout")
    else if level == "medium"
    then "canary"
    else "direct-deploy"

unfoldable pub recommended_window : RiskLevel → Environment → String
recommended_window level environment =
    if not environment.production
    then "team-defined"
    else if level == "critical"
    then "off-hours-required"
    else if level == "high"
    then "off-hours-preferred"
    else "business-hours-allowed"

unfoldable pub recommended_guardrails : RiskLevel → ChangeSet → Service → Environment → List String
unfolding is_regulated
recommended_guardrails level change service environment =
    let base = "health-check-gates" ∷ "error-budget-monitoring" ∷ [] in
    let risky =
      append_if (level == "high" || level == "critical")
        ("manual-rollback-ready" ∷ "canary-metric-checks" ∷ []) base in
    let schema =
      append_if change.touches_schema ("schema-compatibility-check" ∷ "rollback-database-plan" ∷ [])
        risky in
    let secure =
      append_if (change.touches_iam || change.touches_secrets)
        ("security-review" ∷ "access-regression-check" ∷ []) schema in
    let regulated =
      append_if (is_regulated service environment)
        ("evidence-capture" ∷ "regulated-signal-review" ∷ []) secure in
    append_if (not service.has_observability || not service.has_slo)
      ("operator-observability-watch" ∷ []) regulated

blast_scope : Service → Environment → String
blast_scope service environment =
    if environment.production
      && service.customer_facing
      && not (ltb_ℤ service.dependent_services_count (pos 2))
    then "broad"
    else if environment.production || ltb_ℤ (pos 0) service.dependent_services_count
    then "moderate"
    else "contained"

unfoldable pub build_blast_radius : ChangeSet → Service → Environment → BlastRadius
unfolding blast_scope is_regulated max_int
build_blast_radius change service environment =
    let services_impacted = int64 (pos 1 +ℤ max_int (pos 0) service.dependent_services_count) in
    let resources_impacted = max_int (pos 1) change.resource_count in
    let customer = append_if service.customer_facing ("primary-customer-path" ∷ []) [] in
    let counted =
      concat (show_int services_impacted ∷ " service(s) impacted" ∷ [])
      ∷ concat (show_int resources_impacted ∷ " resource(s) touched" ∷ [])
      ∷ [] in
    let exposed = append_if environment.production ("production exposure present" ∷ []) counted in
    let facing =
      append_if service.customer_facing ("customer-facing surface included" ∷ []) exposed in
    let parts =
      append_if (is_regulated service environment) ("regulated controls in scope" ∷ []) facing in
    record {
      scope = blast_scope service environment;
      services_impacted = services_impacted;
      resources_impacted = resources_impacted;
      customer_journeys = append_if environment.production ("production-traffic" ∷ []) customer;
      regulated_systems = is_regulated service environment;
      production_impact = environment.production;
      customer_facing_impact = service.customer_facing;
      summary = join parts ", ";
    }
