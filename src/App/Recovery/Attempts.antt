-- ===== src/App/Recovery/Attempts.antt =====
-- internal/events/bus.go and internal/app/outbox_recovery.go: how many attempts are counted in an
-- event that the bus dispatches and operators recover.
use change_control_plane.Prelude.{ℕ, suc, ◌^◌, ◌<◌, String, ◌≡◌, refl, true, Option, arith}
use change_control_plane.Types.{Time, DomainEvent, OutboxEvent}
use change_control_plane.Auth.{Identity}
use change_control_plane.Events.{DispatchError}
use change_control_plane.Events.Outbox.{claimed, is_claimable}
use change_control_plane.Events.Durable.{TimeFormat, DurableBus, outbox_event_of, settled}
use change_control_plane.Events.Durable.Settlement.{IsDefault}
use change_control_plane.Events.Durable.Delivery.{
  IsCounted, claimed-IsCounted, settled-IsCounted, outbox_event_of-IsCounted,
}
use change_control_plane.App.{Call}
use change_control_plane.App.Recovery.{retry, requeue, reset_item}

module _ {W StoreError : Type 0} (bus : DurableBus W StoreError) (format : TimeFormat) where
  -- The values that an event takes as it is published, claimed (by one dispatch, or again once the
  -- claim is stale), settled by whoever holds a claim, retried by hand and, so many times, requeued.
  pub data History : (requeues : ℕ) → OutboxEvent → Type 0 where
    published :
        (fresh : String) (now : Time) (event : DomainEvent)
        → History 0 (outbox_event_of format fresh now event)
    claim :
        {n : ℕ} {item : OutboxEvent} (now stale : Time)
        → History n item
        → is_claimable now stale item ≡ true
        → History n (claimed now item)
    settle :
        {n : ℕ} {item : OutboxEvent} (now : Time) (outcome : Option DispatchError)
        → History n item
        → item.status ≡ "processing"
        → History n (settled bus format now item outcome)
    retried :
        {n : ℕ} {item : OutboxEvent} (call : Call) (identity : Identity)
        → History n item
        → item.status ≡ retry.required_status
        → History n (reset_item call retry identity item)
    requeued :
        {n : ℕ} {item : OutboxEvent} (call : Call) (identity : Identity)
        → History n item
        → item.status ≡ requeue.required_status
        → History (suc n) (reset_item call requeue identity item)

  retried-IsCounted :
      (n : ℕ) (call : Call) (identity : Identity) (item : OutboxEvent)
      → item.status ≡ "error"
      → IsCounted n item
      → IsCounted n (reset_item call retry identity item)
  unfolding reset_item
  retried-IsCounted n call identity item status c = record {
    tries = c.tries;
    counted = c.counted;
    at_most = c.at_most;
    open_below = λ h. c.open_below (rw status refl);
  }

  requeued-IsCounted :
      (n : ℕ) (call : Call) (identity : Identity) (item : OutboxEvent)
      → IsCounted n item
      → IsCounted (suc n) (reset_item call requeue identity item)
  unfolding reset_item
  requeued-IsCounted n call identity item c = record {
    tries = c.tries;
    counted = c.counted;
    at_most = omega (arith, c.at_most);
    open_below = λ h. omega (arith, c.at_most);
  }

  -- With the delay and the limit of `NewDurableBus`, and below 2 ^ 61 requeues, the attempts that are
  -- counted in an event do not wrap. They are at most five, and at most four as long as the event is neither processed nor given
  -- up, and each requeue of a dead letter allows one more. A retry by hand allows none. (A handing
  -- whose dispatch ends before it settles the event is not counted by the code.)
  pub History-IsCounted :
      (requeues : ℕ) (item : OutboxEvent)
      → IsDefault bus
      → requeues < 2 ^ 61
      → History requeues item
      → IsCounted requeues item
  History-IsCounted n item default few (published fresh now event) =
      outbox_event_of-IsCounted format fresh now event
  History-IsCounted n item default few (claim {item = before} now stale history free) =
      claimed-IsCounted bus format n before now stale free
        (History-IsCounted n before default few history)
  History-IsCounted n item default few (settle {item = before} now outcome history busy) =
      settled-IsCounted bus format n now before outcome default few busy
        (History-IsCounted n before default few history)
  History-IsCounted n item default few (retried {item = before} call identity history status) =
      retried-IsCounted n call identity before status
        (History-IsCounted n before default few history)
  History-IsCounted n item default few
        (requeued {n = m} {item = before} call identity history status) =
      requeued-IsCounted m call identity before
        (History-IsCounted m before default (omega arith) history)
