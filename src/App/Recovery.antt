-- ===== src/App/Recovery.antt =====
-- internal/app/outbox_recovery.go: an operator puts an outbox event that has failed back in line,
-- `RetryOutboxEvent` one with an error and `RequeueOutboxEvent` a dead letter. The operation reads the
-- event and then writes it only if its status is still the one that was read; the two halves are
-- `prepared` and `written`, since others may run in between. Maps are values here: that Go's copies
-- of an event share the map of its metadata is not modelled.
pub mod Ends
pub mod Race
pub mod Attempts
use change_control_plane.Prelude.{
  ℕ, ◌-◌, String, Bool, true, false, not, Option, none, some, List, [], ◌∷◌, ◌++◌, ◌==◌,
  if◌then◌else◌, Assoc, lookup, insert, length, leb,
}
use change_control_plane.Prelude.Text.{trim, is_blank}
use change_control_plane.Prelude.Format.{concat, show_int}
use change_control_plane.Types.{
  Metadata, Any, text, int, metadata, list, metadatas, Items, nil, cons, Objects, no_objects,
  one_more, OutboxEvent,
}
use change_control_plane.Auth.{Identity, actor_label}
use change_control_plane.Auth.Authorizer.{can_manage_organization}
use change_control_plane.Events.Outbox.{Outbox, update_outbox_event_if_status}
use change_control_plane.Events.Durable.{to_object}
use change_control_plane.App.{
  Tables, Call, AppError, validation, not_found, done, App, and_then, found, branch, require, ◌>>=◌,
  ◌>>◌, return, fail, require_identity, require_active_organization, value_or_default,
}
use change_control_plane.App.Store.{drop}
use change_control_plane.App.Status.{
  with_status_category, with_status_severity, with_status_source, with_status_states,
  with_status_summary, with_status_metadata, emit_status_event_from_audit,
}
use change_control_plane.App.Record.{Subject, audit_event_of, audited, denied}

-- What the two operations differ in.
pub record Recovery : Type 0 where
  pub required_status : String
  pub action : String
  pub event_type : String
  pub denied_event_type : String

abbrev pub retry : Recovery
retry = record {
  required_status = "error";
  action = "retry";
  event_type = "outbox_event.retry";
  denied_event_type = "outbox_event.retry.denied";
}

abbrev pub requeue : Recovery
requeue = record {
  required_status = "dead_letter";
  action = "requeue";
  event_type = "outbox_event.requeue";
  denied_event_type = "outbox_event.requeue.denied";
}

abbrev trimmed_text : Option Any → String
trimmed_text (some (text value)) = trim value
trimmed_text _ = ""

-- internal/app/integrations_live.go
unfoldable pub string_metadata_value : Metadata → String → String
string_metadata_value values key = trimmed_text (lookup key values)

unfoldable pub items_of : Items → List Any
items_of nil = []
items_of (cons item rest) = item ∷ items_of rest

unfoldable pub to_items : List Any → Items
to_items [] = nil
to_items (item ∷ items) = cons item (to_items items)

unfoldable pub metadata_of : Objects → List Any
metadata_of no_objects = []
metadata_of (one_more item rest) = metadata item ∷ metadata_of rest

abbrev listed : Option Any → List Any
unfolding items_of metadata_of
listed (some (list items)) = items_of items
listed (some (metadatas items)) = metadata_of items
listed _ = []

-- The last ten entries are kept.
unfoldable pub append_metadata_entry : Option Any → Metadata → List Any
unfolding items_of metadata_of to_object
append_metadata_entry raw entry =
    let items = listed raw ++ (metadata (to_object entry) ∷ []) in
    if leb (length items) 10 then items else drop (length items - 10) items

abbrev insert_text : String → String → Metadata → Metadata
insert_text key value values = if value == "" then values else insert values key (text value)

module _ (call : Call) (identity : Identity) where
  unfoldable pub append_outbox_recovery_metadata :
      Metadata → (action previous_status : String) → OutboxEvent → Metadata
  unfolding actor_label string_metadata_value append_metadata_entry to_items
  append_outbox_recovery_metadata values action previous_status item =
      let requested_at = call.format.print item.updated_at in
      let told = λ (key : String). string_metadata_value item.metadata key in
      let entry = insert_text "recovery_hint" (told "recovery_hint") (
        insert_text "dead_lettered_at" (told "dead_lettered_at") (
          insert_text "last_error_class" (told "last_error_class") (
            ("action", text action)
            ∷ ("requested_at", text requested_at)
            ∷ ("actor_id", text identity.actor_id)
            ∷ ("actor_type", text identity.actor_type)
            ∷ ("actor", text (actor_label identity))
            ∷ ("previous_status", text previous_status)
            ∷ ("next_status", text item.status)
            ∷ ("attempts", int item.attempts)
            ∷ ("last_error", text item.last_error)
            ∷ []))) in
      let history = append_metadata_entry (lookup "manual_recovery_history" values) entry in
      let a = insert values "manual_recovery_history" (list (to_items history)) in
      let b = insert a "manual_recovery_last_action" (text action) in
      let c = insert b "manual_recovery_last_actor_id" (text identity.actor_id) in
      let d = insert c "manual_recovery_last_actor_type" (text identity.actor_type) in
      let e = insert d "manual_recovery_last_actor" (text (actor_label identity)) in
      insert e "manual_recovery_last_requested_at" (text requested_at)

  abbrev pub event_subject : (event_type resource_id organization_id project_id : String) → Subject
  event_subject event_type resource_id organization_id project_id = record {
    event_type = event_type;
    resource_type = "outbox_event";
    resource_id = resource_id;
    organization_id = organization_id;
    project_id = project_id;
  }

  unfoldable pub recovery_details : (action previous_status : String) → OutboxEvent → List String
  unfolding concat show_int
  recovery_details action previous_status item =
      concat ("manual " ∷ action ∷ " requested" ∷ [])
      ∷ concat ("previous_status=" ∷ previous_status ∷ [])
      ∷ concat ("attempts=" ∷ show_int item.attempts ∷ [])
      ∷ (if item.last_error == "" then [] else concat ("last_error=" ∷ item.last_error ∷ []) ∷ [])

  unfoldable pub record_outbox_recovery_action :
      Recovery → (previous_status : String) → OutboxEvent → Tables → Tables
  unfolding audit_event_of emit_status_event_from_audit recovery_details string_metadata_value
      concat with_status_category with_status_severity with_status_source with_status_states
      with_status_summary with_status_metadata
  record_outbox_recovery_action recovery previous_status item t =
      let details = recovery_details recovery.action previous_status item in
      let event =
        audit_event_of call identity
          (event_subject recovery.event_type item.id item.organization_id item.project_id) details
          "success" in
      let summary = concat (
        "outbox event moved from " ∷ previous_status ∷ " to pending via manual " ∷ recovery.action
        ∷ []) in
      emit_status_event_from_audit call identity event details
        (with_status_category "operations"
          ∷ with_status_source "api"
          ∷ with_status_severity "warning"
          ∷ with_status_states previous_status item.status
          ∷ with_status_summary summary
          ∷ with_status_metadata (
              ("manual_recovery_action", text recovery.action)
              ∷ ("manual_recovery_requested_at", text (call.format.print item.updated_at))
              ∷ ("last_error_class", text (string_metadata_value item.metadata "last_error_class"))
              ∷ ("recovery_hint", text (string_metadata_value item.metadata "recovery_hint"))
              ∷ [])
          ∷ [])
        (audited call identity
          (event_subject recovery.event_type item.id item.organization_id item.project_id) details
          event t)

abbrev pub invalid_outbox_recovery_status : Recovery → (current_status : String) → AppError
invalid_outbox_recovery_status recovery current_status = validation (
    concat (
      "manual "
      ∷ recovery.action
      ∷ " only applies to "
      ∷ recovery.required_status
      ∷ " outbox events; current status is "
      ∷ value_or_default (trim current_status) "unknown"
      ∷ []))

-- The item that is to be written.
unfoldable pub reset_item : Call → Recovery → Identity → OutboxEvent → OutboxEvent
unfolding append_outbox_recovery_metadata
reset_item call recovery identity item =
    let reset = record item {
      base = record item.base { updated_at = call.now };
      status = "pending";
      claimed_at = none;
      next_attempt_at = none;
      processed_at = none;
    } in
    record reset {
      base = record reset.base {
        metadata =
            append_outbox_recovery_metadata call identity reset.metadata recovery.action item.status
              reset;
      };
    }

pub record Prepared : Type 0 where
  pub identity : Identity
  pub previous_status : String
  pub item : OutboxEvent

module _ (call : Call) (recovery : Recovery) where
  unfoldable pub prepared : (event_id : String) → App Prepared
  unfolding require_identity require_active_organization require found can_manage_organization
      denied is_blank reset_item
  prepared event_id = do
    identity ← require_identity call
    organization_id ← require_active_organization identity
    require (can_manage_organization identity organization_id) (
        denied call identity
          (event_subject call identity recovery.denied_event_type event_id organization_id "")
          ("actor lacks durable outbox recovery permission" ∷ []))
    require (not (is_blank event_id)) (fail (validation "outbox event id is required"))
    item ← λ t. found (lookup event_id t.outbox_events) (not_found "") t
    require (item.organization_id == organization_id) (
        denied call identity
          (event_subject call identity recovery.denied_event_type item.id organization_id "")
          ("outbox event does not belong to the active organization" ∷ []))
    require (item.status == recovery.required_status)
        (fail (invalid_outbox_recovery_status recovery item.status))
    return (record {
      identity = identity;
      previous_status = item.status;
      item = reset_item call recovery identity item;
    })

  abbrev written_as : Outbox × Bool → Prepared → App OutboxEvent
  written_as result p =
      branch result.1
        (λ t. done p.item (
          record_outbox_recovery_action call p.identity recovery p.previous_status p.item
            (record t { outbox_events = result.0 })))
        (λ t.
          and_then (found (lookup p.item.id t.outbox_events) (not_found "") t)
            λ current. fail (invalid_outbox_recovery_status recovery current.status))

  -- The transaction.
  unfoldable pub written : Prepared → App OutboxEvent
  unfolding update_outbox_event_if_status branch found record_outbox_recovery_action
  written p t =
      written_as (update_outbox_event_if_status t.outbox_events p.item p.previous_status) p t

  unfoldable pub recover_outbox_event : (event_id : String) → App OutboxEvent
  unfolding prepared written
  recover_outbox_event event_id = prepared event_id >>= written

abbrev pub retry_outbox_event : Call → String → App OutboxEvent
retry_outbox_event call event_id = recover_outbox_event call retry event_id

abbrev pub requeue_outbox_event : Call → String → App OutboxEvent
requeue_outbox_event call event_id = recover_outbox_event call requeue event_id
