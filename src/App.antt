-- ===== src/App.antt =====
-- internal/app: the operations of the application over the store in memory. `Tables` is
-- `InMemoryStore`, as far as the operations below use it, and a `Call` what an operation takes from
-- outside: the identity of the context, the clock, and the identifiers it makes.
pub mod Meets
pub mod Store
pub mod Status
pub mod Record
pub mod Policies
pub mod Executions
pub mod Recovery
use change_control_plane.Prelude.{
  ℕ, String, Bool, true, false, not, ◌&&◌, ◌||◌, Option, none, some, List, [], ◌∷◌, ◌==◌,
  if◌then◌else◌, Assoc,
}
use change_control_plane.Prelude.Text.{is_blank}
use change_control_plane.Types.{
  Time, Project, Team, Service, Environment, ChangeSet, RiskAssessment, RolloutPlan,
  RolloutExecution, VerificationResult, Policy, PolicyDecision, Integration, AuditEvent,
  StatusEvent,
}
use change_control_plane.Auth.{Identity, has_organization_access}
use change_control_plane.Events.Outbox.{Outbox}
use change_control_plane.Events.Durable.{TimeFormat}

pub record Tables : Type 0 where
  pub projects : Assoc Project
  pub teams : Assoc Team
  pub services : Assoc Service
  pub environments : Assoc Environment
  pub change_sets : Assoc ChangeSet
  pub risk_assessments : Assoc RiskAssessment
  pub rollout_plans : Assoc RolloutPlan
  pub rollout_executions : Assoc RolloutExecution
  pub verification_results : Assoc VerificationResult
  pub policies : Assoc Policy
  pub policy_decisions : Assoc PolicyDecision
  pub integrations : Assoc Integration
  pub audit_events : Assoc AuditEvent
  pub status_events : Assoc StatusEvent
  pub outbox_events : Outbox

pub record Call : Type 0 where
  -- `auth.IdentityFromContext`
  pub identity : Option Identity
  pub now : Time
  -- `common.NewID`: the identifiers of a prefix that the operation makes, by their number
  pub new_id : String → ℕ → String
  pub format : TimeFormat

-- `ErrUnauthorized`, `ErrForbidden`, `ErrValidation` and `ErrNotFound` with the text wrapped around
-- them; `panic` is a run-time panic.
pub data AppError : Type 0 where
  unauthorized forbidden panic : AppError
  validation not_found : String → AppError

-- What an operation leaves: the tables, with a result or an error.
pub data Run (A : Type 0) : Type 0 where
  done : A → Tables → Run A
  failed : AppError → Tables → Run A

abbrev pub App : Type 0 → Type 0
App A = Tables → Run A

module _ {A : Type 0} where
  abbrev pub return : A → App A
  return = done

  abbrev pub fail : AppError → App A
  fail = failed

  abbrev pub tables_after : Run A → Tables
  tables_after (done a t) = t
  tables_after (failed e t) = t

  -- A value that a lookup may not find.
  unfoldable pub found : Option A → AppError → App A
  found none e t = failed e t
  found (some a) e t = done a t

  -- The part of an operation after one of its tests.
  unfoldable pub branch : Bool → (on_true on_false : App A) → App A
  branch true on_true on_false t = on_true t
  branch false on_true on_false t = on_false t

module _ {A B : Type 0} where
  abbrev pub and_then : Run A → (A → App B) → Run B
  and_then (done a t) k = k a t
  and_then (failed e t) k = failed e t

  infixl 5 ◌>>=◌ ◌>>◌
  abbrev pub ◌>>=◌ : App A → (A → App B) → App B
  m >>= k = λ t. and_then (m t) k

  abbrev pub ◌>>◌ : App A → App B → App B
  m >> n = m >>= λ _. n

abbrev pub modify : (Tables → Tables) → App (Unit {0})
modify f t = done tt (f t)

-- `if !ok { return err }`
unfoldable pub require : Bool → App (Unit {0}) → App (Unit {0})
require true otherwise t = done tt t
require false otherwise t = otherwise t

admitted : Option Identity → App Identity
unfolding require
admitted none = fail unauthorized
admitted (some identity) = require identity.authenticated (fail unauthorized) >> return identity

unfoldable pub require_identity : Call → App Identity
unfolding admitted
require_identity call = admitted call.identity

unfoldable pub require_active_organization : Identity → App String
unfolding branch
require_active_organization identity =
    branch (identity.active_organization_id == "")
      (fail (validation "active organization scope is required"))
      (branch (not (has_organization_access identity identity.active_organization_id))
        (fail forbidden) (return identity.active_organization_id))

unfoldable pub value_or_default : String → String → String
unfolding is_blank
value_or_default value fallback = if is_blank value then fallback else value
