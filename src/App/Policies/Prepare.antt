-- ===== src/App/Policies/Prepare.antt =====
-- internal/app/policies.go: what `preparePolicy` lets through.
use change_control_plane.Prelude.{
  String, ◌≡◌, refl, true, not, ◌||◌, Option, none, some, ◌==◌, lookup,
}
use change_control_plane.Prelude.Text.{is_blank}
use change_control_plane.Types.{Project, Service, Environment, Policy}
use change_control_plane.Policies.Normal.{
  Error, validate_applies_to, validate_mode, validate_conditions,
}
use change_control_plane.App.{Tables}
use change_control_plane.App.Meets.{
  meets_done, meets_failed, mono, Reads, bind-Reads, found_rule, branch_rule, require_rule,
  require_end_rule,
}
use change_control_plane.App.Policies.{
  valid, project_in_scope, service_in_scope, environment_in_scope, validate_policy_scope, prepared,
  prepare_policy,
}

-- A blank identifier, or that of a project of the organization.
pub data ProjectFits (organization_id project_id : String) (t : Tables) : Type 0 where
  no_project : is_blank project_id ≡ true → ProjectFits organization_id project_id t
  own_project :
      (p : Project)
      → lookup project_id t.projects ≡ some p
      → (p.organization_id == organization_id) ≡ true
      → ProjectFits organization_id project_id t

-- A blank identifier, or that of a service of the organization, and of the project if there is one.
pub data ServiceFits (organization_id project_id service_id : String) (t : Tables) : Type 0 where
  no_service : is_blank service_id ≡ true → ServiceFits organization_id project_id service_id t
  own_service :
      (service : Service)
      → lookup service_id t.services ≡ some service
      → (service.organization_id == organization_id) ≡ true
      → (project_id == "" || service.project_id == project_id) ≡ true
      → ServiceFits organization_id project_id service_id t

-- A blank identifier, or that of a environment of the organization, and of the project if there is one.
pub data EnvironmentFits (organization_id project_id environment_id : String) (t : Tables)
    : Type 0 where
  no_environment :
      is_blank environment_id ≡ true → EnvironmentFits organization_id project_id environment_id t
  own_environment :
      (environment : Environment)
      → lookup environment_id t.environments ≡ some environment
      → (environment.organization_id == organization_id) ≡ true
      → (project_id == "" || environment.project_id == project_id) ≡ true
      → EnvironmentFits organization_id project_id environment_id t

-- What is known of a policy that `preparePolicy` returns.
pub record IsReady (t : Tables) (policy : Policy) : Type 0 where
  pub named : not (policy.name == "") ≡ true
  pub coded : not (policy.code == "") ≡ true
  pub applies : validate_applies_to policy.applies_to ≡ none
  pub has_mode : validate_mode policy.mode ≡ none
  pub has_conditions : validate_conditions policy.conditions ≡ none
  pub in_project : ProjectFits policy.organization_id policy.project_id t
  pub in_service : ServiceFits policy.organization_id policy.project_id policy.service_id t
  pub in_environment :
      EnvironmentFits policy.organization_id policy.project_id policy.environment_id t

module _ (t : Tables) where
  valid-eq-none : (o : Option Error) → Reads t (λ _. o ≡ none) (valid o t)
  unfolding valid
  valid-eq-none none = meets_done (refl, refl)
  valid-eq-none (some e) = meets_failed refl

  project_in_scope-Fits :
      (organization_id project_id : String)
      → Reads t
          (λ _. ProjectFits organization_id project_id t)
          (project_in_scope organization_id project_id t)
  unfolding project_in_scope
  project_in_scope-Fits o p =
      branch_rule (is_blank p) _ _ (λ blank. meets_done (refl, no_project blank))
        λ given.
          found_rule (lookup p t.projects) _ _ (λ missing. refl)
            λ project is_there.
              require_end_rule (project.organization_id == o) _
                (λ same. (refl, own_project project is_there same)) (λ other. meets_failed refl)

  service_in_scope-Fits :
      (organization_id project_id service_id : String)
      → Reads t
          (λ _. ServiceFits organization_id project_id service_id t)
          (service_in_scope organization_id project_id service_id t)
  unfolding service_in_scope
  service_in_scope-Fits o p i =
      branch_rule (is_blank i) _ _ (λ blank. meets_done (refl, no_service blank))
        λ given.
          found_rule (lookup i t.services) _ _ (λ missing. refl)
            λ service is_there.
              require_rule (service.organization_id == o) _ _
                (λ same.
                  require_end_rule (p == "" || service.project_id == p) _
                    (λ inside. (refl, own_service service is_there same inside))
                    (λ outside. meets_failed refl))
                (λ other. meets_failed refl)

  environment_in_scope-Fits :
      (organization_id project_id environment_id : String)
      → Reads t
          (λ _. EnvironmentFits organization_id project_id environment_id t)
          (environment_in_scope organization_id project_id environment_id t)
  unfolding environment_in_scope
  environment_in_scope-Fits o p i =
      branch_rule (is_blank i) _ _ (λ blank. meets_done (refl, no_environment blank))
        λ given.
          found_rule (lookup i t.environments) _ _ (λ missing. refl)
            λ environment is_there.
              require_rule (environment.organization_id == o) _ _
                (λ same.
                  require_end_rule (p == "" || environment.project_id == p) _
                    (λ inside. (refl, own_environment environment is_there same inside))
                    (λ outside. meets_failed refl))
                (λ other. meets_failed refl)

  validate_policy_scope-Fits :
      (o p s e : String)
      → Reads t
          (λ _. ProjectFits o p t × ServiceFits o p s t × EnvironmentFits o p e t)
          (validate_policy_scope o p s e t)
  unfolding validate_policy_scope
  validate_policy_scope-Fits o p s e =
      bind-Reads t _ (project_in_scope-Fits o p) (λ _. refl)
        λ _ in_project.
          bind-Reads t _ (service_in_scope-Fits o p s) (λ _. refl)
            λ _ in_service.
              mono (environment_in_scope-Fits o p e) (λ _ u h. (h.0, (in_project, in_service, h.1)))
                (λ _ u h. h)

  -- A policy that `preparePolicy` returns is the one given, prepared, and valid.
  pub prepare_policy-IsReady :
      (given : Policy)
      → Reads t (λ policy. (policy ≡ prepared given) × IsReady t policy) (prepare_policy given t)
  unfolding prepare_policy
  prepare_policy-IsReady given =
      let p = prepared given in
      require_rule (not (p.name == "")) _ _
        (λ named.
          require_rule (not (p.code == "")) _ _
            (λ coded.
              bind-Reads t _ (valid-eq-none (validate_applies_to p.applies_to)) (λ _. refl)
                λ _ applies.
                  bind-Reads t _ (valid-eq-none (validate_mode p.mode)) (λ _. refl)
                    λ _ has_mode.
                      bind-Reads t _ (valid-eq-none (validate_conditions p.conditions)) (λ _. refl)
                        λ _ ok.
                          bind-Reads t _
                            (validate_policy_scope-Fits p.organization_id p.project_id p.service_id
                              p.environment_id)
                            (λ _. refl)
                            λ _ fits. meets_done (
                              refl,
                              (
                                refl,
                                record {
                                  named = named;
                                  coded = coded;
                                  applies = applies;
                                  has_mode = has_mode;
                                  has_conditions = ok;
                                  in_project = fits.0;
                                  in_service = fits.1;
                                  in_environment = fits.2;
                                },
                              ),
                            ))
            (λ h. meets_failed refl))
        (λ h. meets_failed refl)
