-- ===== src/App/Record.antt =====
-- internal/app/application.go, internal/audit/service.go: what an operation leaves in the logs, when it
-- succeeds (`record`) and when the actor lacks the permission (`forbidden`). In the store in memory
-- none of the writes fails.
use change_control_plane.Prelude.{String, ◌≡◌, refl, List, [], ◌∷◌, insert}
use change_control_plane.Types.{AuditEvent, texts, DomainEvent}
use change_control_plane.Auth.{Identity, actor_label}
use change_control_plane.Events.Outbox.{create_outbox_event}
use change_control_plane.Events.Durable.{outbox_event_of}
use change_control_plane.App.{Tables, Call, failed, App, forbidden}
use change_control_plane.App.{AppError}
use change_control_plane.App.Meets.{Meets, meets_failed}
use change_control_plane.App.Status.{StatusRecordOption, emit_status_event_from_audit}

-- What is acted on.
pub record Subject : Type 0 where
  pub event_type : String
  pub resource_type : String
  pub resource_id : String
  pub organization_id : String
  pub project_id : String

module _ (call : Call) (identity : Identity) (subject : Subject) (details : List String) where
  -- `Record` of the audit service
  unfoldable pub audit_event_of : (outcome : String) → AuditEvent
  unfolding actor_label
  audit_event_of outcome = record {
    base = record {
      id = call.new_id "audit" 0;
      created_at = call.now;
      updated_at = call.now;
      metadata = [];
    };
    organization_id = subject.organization_id;
    project_id = subject.project_id;
    actor_id = identity.actor_id;
    actor_type = identity.actor_type;
    actor = actor_label identity;
    action = subject.event_type;
    resource_type = subject.resource_type;
    resource_id = subject.resource_id;
    outcome = outcome;
    details = details;
  }

  abbrev pub audited : AuditEvent → Tables → Tables
  audited event t = record t { audit_events = insert t.audit_events event.id event }

  unfoldable pub domain_event_of : AuditEvent → DomainEvent
  domain_event_of event = record {
    id = event.id;
    type = subject.event_type;
    organization_id = subject.organization_id;
    project_id = subject.project_id;
    resource_type = subject.resource_type;
    resource_id = subject.resource_id;
    occurred_at = event.created_at;
    payload = ("details", texts details) ∷ [];
  }

  abbrev published : DomainEvent → Tables → Tables
  published event t = record t {
    outbox_events =
        create_outbox_event t.outbox_events
          (outbox_event_of call.format (call.new_id "evt" 0) call.now event);
  }

  unfoldable pub recorded : List StatusRecordOption → Tables → Tables
  unfolding audit_event_of domain_event_of emit_status_event_from_audit create_outbox_event
      outbox_event_of
  recorded options t =
      let event = audit_event_of "success" in
      published (domain_event_of event)
        (emit_status_event_from_audit call identity event details options (audited event t))

  unfoldable pub denied : {A : Type 0} → App A
  unfolding audit_event_of
  denied t = failed forbidden (audited (audit_event_of "denied") t)

-- The tables without the logs.
abbrev pub data_of : Tables → Tables
data_of t = record t { audit_events = []; status_events = []; outbox_events = [] }

module _ (call : Call) (identity : Identity) (subject : Subject) (details : List String) where
  pub data_of-recorded :
      (options : List StatusRecordOption) (t : Tables)
      → data_of (recorded call identity subject details options t) ≡ data_of t
  unfolding recorded
  data_of-recorded options t = refl

  -- A refusal reaches no table but the audit log.
  pub denied_rule :
      {A : Type 0} {Q : A → Tables → Type 0} {E : AppError → Tables → Type 0} (t : Tables)
      → ((u : Tables) → data_of u ≡ data_of t → E forbidden u)
      → Meets Q E (denied call identity subject details {A = A} t)
  unfolding denied
  denied_rule t refused = meets_failed (refused _ refl)
