-- ===== src/Tests.antt =====
-- Concrete inputs, and the theorems applied to them.
mod Rollouts
mod Risk
mod Policies
mod Events
mod Auth
mod App
mod Recovery
mod Verification
mod Delivery
use change_control_plane.Prelude.{true, []}
use change_control_plane.Prelude.{◌∷◌}
use change_control_plane.Prelude.Int.{pos}
use change_control_plane.Types.{
  ChangeSet, zero_change_set, Service, zero_service, Environment, zero_environment,
}

-- A change of roles in a regulated production service.
abbrev pub roles_change : ChangeSet
roles_change = record zero_change_set {
  change_types = "IAM" ∷ "schema" ∷ [];
  file_count = pos 12;
  resource_count = pos 3;
  touches_iam = true;
  touches_schema = true;
  historical_incident_count = pos 2;
}

abbrev pub ledger : Service
ledger = record zero_service {
  criticality = "critical";
  customer_facing = true;
  regulated_zone = true;
}

abbrev pub live : Environment
live = record zero_environment { type = "production"; production = true }

-- A small change of a staging environment.
abbrev pub code_change : ChangeSet
code_change = record zero_change_set { change_types = "code" ∷ []; file_count = pos 2 }

abbrev pub staging : Environment
staging = record zero_environment { type = "staging" }
