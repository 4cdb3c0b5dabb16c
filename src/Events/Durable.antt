-- ===== src/Events/Durable.antt =====
-- internal/events/bus.go: `DurableBus`, over an `OutboxStore`. The clock and the format of times
-- (RFC 3339) are parameters, with the identifier of an event that has none.
pub mod Settlement
pub mod Delivery
pub mod Memory
use mathlib.Core.Option
use change_control_plane.Prelude.{
  ℕ, suc, zero, ◌+◌, ◌-◌, ◌^◌, ◌*◌, String, Bool, true, false, not, ◌&&◌, ◌||◌, Option, none, some,
  List, [], ◌∷◌, ◌==◌, if◌then◌else◌, Assoc, lookup, insert, remove, ◌⊎◌, inl, inr, eqb,
}
use change_control_plane.Prelude.Int.{
  ℤ, pos, negsuc, ◌+ℤ◌, ltb_ℤ, leb_ℤ, int64, scale, pos_part, neg_part,
}
use change_control_plane.Types.{
  Time, Metadata, Any, text, object, metadata, Object, end, entry, DomainEvent, OutboxEvent,
  BaseRecord, zero_outbox_event,
}
use change_control_plane.Events.{DispatchError, Subscribers, dispatch}

-- `time.RFC3339Nano`
pub record TimeFormat : Type 0 where
  pub print : Time → String
  pub parse : String → Option Time

pub record OutboxStore (W StoreError : Type 0) : Type 0 where
  pub create_event : W → OutboxEvent → W × Option StoreError
  -- `none` is a run-time panic
  pub claim_events : W → Time → ℤ → Time → Option (W × (StoreError ⊎ List OutboxEvent))
  pub update_event : W → OutboxEvent → W × Option StoreError

pub record DurableBus (W StoreError : Type 0) : Type 0 where
  pub store : OutboxStore W StoreError
  pub subscribers : Subscribers W
  pub retry_delay : ℕ
  pub max_attempts : ℤ

abbrev pub second : ℕ
second = 1000000000

abbrev pub new_durable_bus :
    {W StoreError : Type 0} → OutboxStore W StoreError → DurableBus W StoreError
new_durable_bus store = record {
  store = store;
  subscribers = [];
  retry_delay = 30 * second;
  max_attempts = pos 5;
}

abbrev pub value_or_default : String → String → String
value_or_default value fallback = if not (value == "") then value else fallback

unfoldable pub to_object : Metadata → Object
to_object [] = end
to_object (item ∷ items) = entry item.0 item.1 (to_object items)

unfoldable pub of_object : Object → Metadata
of_object end = []
of_object (entry key value rest) = (key, value) ∷ of_object rest

-- `time.Time{}.IsZero`
abbrev pub occurred : DomainEvent → Time → Time
occurred event now = if eqb event.occurred_at 0 then now else event.occurred_at

-- The record that `Publish` stores.
unfoldable pub outbox_event_of : TimeFormat → String → Time → DomainEvent → OutboxEvent
unfolding to_object
outbox_event_of format fresh now event = record zero_outbox_event {
  base = record {
    id = value_or_default event.id fresh;
    created_at = now;
    updated_at = now;
    metadata =
        ("occurred_at", text (format.print (occurred event now)))
        ∷ ("payload", metadata (to_object event.payload))
        ∷ ("resource_id", text event.resource_id)
        ∷ ("resource_type", text event.resource_type)
        ∷ [];
  };
  event_type = event.type;
  organization_id = event.organization_id;
  project_id = event.project_id;
  resource_type = event.resource_type;
  resource_id = event.resource_id;
  status = "pending";
}

abbrev payload_of : Option Any → Metadata
payload_of (some (object payload)) = of_object payload
payload_of _ = []

abbrev or_time : Option Time → Time → Time
or_time none fallback = fallback
or_time (some time) fallback = time

abbrev occurred_of : TimeFormat → Option Any → Time → Time
occurred_of format (some (text occurred_at)) created_at =
    or_time (format.parse occurred_at) created_at
occurred_of format _ created_at = created_at

unfoldable pub domain_event_from_outbox : TimeFormat → OutboxEvent → DomainEvent
unfolding of_object
domain_event_from_outbox format item = record {
  id = item.id;
  type = item.event_type;
  organization_id = item.organization_id;
  project_id = item.project_id;
  resource_type = item.resource_type;
  resource_id = item.resource_id;
  occurred_at = occurred_of format (lookup "occurred_at" item.metadata) item.created_at;
  payload = payload_of (lookup "payload" item.metadata);
}

abbrev pub five_minutes : ℤ
five_minutes = pos (300 * second)

-- `1 << (attempts - 1)` of type `time.Duration`, 64 bits wide
unfoldable pub backoff : ℕ → ℤ → ℤ
backoff retry_delay attempts =
    if leb_ℤ attempts (pos 1)
    then pos retry_delay
    else let delay = int64 (scale retry_delay (int64 (pos (2 ^ (pos_part attempts - 1))))) in
      if ltb_ℤ five_minutes delay then five_minutes else delay

abbrev retry_refused : Option Bool → Bool
retry_refused none = false
retry_refused (some retryable) = not retryable

unfoldable pub should_dead_letter : ℤ → ℤ → DispatchError → Bool
should_dead_letter attempts max_attempts error =
    if leb_ℤ max_attempts attempts then true else retry_refused error.retryable

abbrev class_of : Option Bool → String
class_of none = "unclassified"
class_of (some true) = "temporary"
class_of (some false) = "permanent"

unfoldable pub classify_dispatch_error : DispatchError → String
classify_dispatch_error error = class_of error.retryable

unfoldable pub recovery_hint_for_error : String → String
recovery_hint_for_error error_class =
    if error_class == "permanent"
    then "fix the handler or payload before replaying this event"
    else if error_class == "temporary"
    then "check upstream dependency health before forcing an immediate retry"
    else "inspect the handler and retry diagnostics before replaying"

-- `time.Add`; no time is before the zero one.
abbrev pub add_duration : Time → ℤ → Time
add_duration time duration = time + pos_part duration - neg_part duration

-- What every outcome changes.
unfoldable pub attempted : TimeFormat → Time → OutboxEvent → OutboxEvent
attempted format now item = record item {
  attempts = int64 (item.attempts +ℤ pos 1);
  claimed_at = none;
  base = record item.base {
    updated_at = now;
    metadata = insert item.metadata "last_dispatch_completed_at" (text (format.print now));
  };
}

unfoldable pub dead_lettered : TimeFormat → Time → DispatchError → OutboxEvent → OutboxEvent
unfolding classify_dispatch_error recovery_hint_for_error
dead_lettered format now error item =
    let error_class = classify_dispatch_error error in
    record item {
      last_error = error.message;
      status = "dead_letter";
      next_attempt_at = none;
      base = record item.base {
        metadata =
            insert
              (insert (insert item.metadata "last_error_class" (text error_class))
                "dead_lettered_at" (text (format.print now)))
              "recovery_hint" (text (recovery_hint_for_error error_class));
      };
    }

unfoldable pub to_retry : ℕ → Time → DispatchError → OutboxEvent → OutboxEvent
unfolding classify_dispatch_error backoff
to_retry retry_delay now error item = record item {
  last_error = error.message;
  status = "error";
  next_attempt_at = some (add_duration now (backoff retry_delay item.attempts));
  base = record item.base {
    metadata = insert item.metadata "last_error_class" (text (classify_dispatch_error error));
  };
}

unfoldable pub processed : Time → OutboxEvent → OutboxEvent
processed now item = record item {
  status = "processed";
  last_error = "";
  next_attempt_at = none;
  processed_at = some now;
  base = record item.base {
    metadata =
        remove (remove (remove item.metadata "last_error_class") "dead_lettered_at")
          "recovery_hint";
  };
}

-- `dispatched++` stands after the branch of a failure.
abbrev pub count_if : Option DispatchError → ℕ → ℕ
count_if none dispatched = suc dispatched
count_if (some error) dispatched = dispatched

module _ {W StoreError : Type 0} where
  -- The body of the loop up to the update of the store.
  unfoldable pub settled :
      DurableBus W StoreError → TimeFormat → Time → OutboxEvent → Option DispatchError → OutboxEvent
  unfolding attempted dead_lettered to_retry processed should_dead_letter
  settled bus format now item none = processed now (attempted format now item)
  settled bus format now item (some error) =
      let tried = attempted format now item in
      if should_dead_letter tried.attempts bus.max_attempts error
      then dead_lettered format now error tried
      else to_retry bus.retry_delay now error tried

  -- The loop over the claimed events; `turn` counts the readings of the clock.
  unfoldable pub dispatch_items :
      DurableBus W StoreError
      → TimeFormat
      → (clock : ℕ → Time) → (turn dispatched : ℕ) → W
      → List OutboxEvent
      → W × ℕ × Option StoreError
  unfolding settled domain_event_from_outbox dispatch
  dispatch_items bus format clock turn dispatched w [] = (w, dispatched, none)
  dispatch_items bus format clock turn dispatched w (item ∷ items) =
      let handled = dispatch bus.subscribers w (domain_event_from_outbox format item) in
      let update =
        bus.store.update_event handled.0 (settled bus format (clock turn) item handled.1) in
      elim update.1 [
        | none ↦
            dispatch_items bus format clock (suc turn) (count_if handled.1 dispatched) update.0
              items
        | some error ↦ (update.0, dispatched, some error)
      ]

  abbrev dispatch_claim :
      DurableBus W StoreError
      → TimeFormat
      → (clock : ℕ → Time) → W × (StoreError ⊎ List OutboxEvent)
      → W × ℕ × Option StoreError
  unfolding dispatch_items
  dispatch_claim bus format clock (w, inl error) = (w, 0, some error)
  dispatch_claim bus format clock (w, inr items) = dispatch_items bus format clock 1 0 w items

  -- `none` is a run-time panic.
  unfoldable pub dispatch_pending :
      DurableBus W StoreError
      → TimeFormat
      → (clock : ℕ → Time) → ℤ
      → W
      → Option (W × ℕ × Option StoreError)
  unfolding dispatch_items
  dispatch_pending bus format clock limit w =
      let now = clock 0 in
      Option.map (dispatch_claim bus format clock)
        (bus.store.claim_events w now limit (now - 120 * second))

  unfoldable pub publish :
      DurableBus W StoreError → TimeFormat → String → Time → W → DomainEvent → W × Option StoreError
  unfolding outbox_event_of
  publish bus format fresh now w event =
      bus.store.create_event w (outbox_event_of format fresh now event)
