-- ===== src/Types/Event.antt =====
-- pkg/types/domain.go: domain events and the outbox. Each `zero_` value is Go's.
use change_control_plane.Prelude.{String, Option, none, []}
use change_control_plane.Prelude.Int.{ℤ, pos}
use change_control_plane.Types.Base.{Time, Metadata, BaseRecord, zero_base_record}

pub record DomainEvent : Type 0 where
  pub id : String
  pub type : String
  pub organization_id : String
  pub project_id : String
  pub resource_type : String
  pub resource_id : String
  pub occurred_at : Time
  pub payload : Metadata

abbrev pub zero_domain_event : DomainEvent
zero_domain_event = record {
  id = "";
  type = "";
  organization_id = "";
  project_id = "";
  resource_type = "";
  resource_id = "";
  occurred_at = 0;
  payload = [];
}

pub record OutboxEvent : Type 0 where
  pub base : BaseRecord
  pub open base use *
  pub event_type : String
  pub organization_id : String
  pub project_id : String
  pub resource_type : String
  pub resource_id : String
  pub status : String
  pub attempts : ℤ
  pub next_attempt_at : Option Time
  pub claimed_at : Option Time
  pub processed_at : Option Time
  pub last_error : String

abbrev pub zero_outbox_event : OutboxEvent
zero_outbox_event = record {
  base = zero_base_record;
  event_type = "";
  organization_id = "";
  project_id = "";
  resource_type = "";
  resource_id = "";
  status = "";
  attempts = pos 0;
  next_attempt_at = none;
  claimed_at = none;
  processed_at = none;
  last_error = "";
}
