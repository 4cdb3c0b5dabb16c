-- ===== src/Events/Durable/Memory.antt =====
-- internal/events/bus.go over internal/app/store.go: a dispatch of the outbox in memory.
use mathlib.Core.Option
use change_control_plane.Prelude.{
  ℕ, suc, ◌-◌, ◌*◌, String, ◌≡◌, refl, sym, ◌∙◌, subst, Option, none, some, List, [], ◌∷◌, ◌==◌,
  inl, inr, arith, Bool-cases, All, All-map, lookup, insert, lookup-insert, eq_refl,
}
use change_control_plane.Prelude.Int.{pos}
use change_control_plane.Types.{Time, OutboxEvent, DomainEvent}
use change_control_plane.Events.{DispatchError, Subscribers, dispatch}
use change_control_plane.Events.Outbox.{
  Outbox, NotFound, create_outbox_event, claim_outbox_events, update_outbox_event, updated_if,
  claim_each, claim_from, sort_by_time, candidates,
}
use change_control_plane.Events.Outbox.Claims.{
  IsKeyed, IsHeld, claimed-IsHeld, sorted-IsNamed, claim_outbox_events-pos,
}
use change_control_plane.Events.Durable.{
  TimeFormat, OutboxStore, DurableBus, new_durable_bus, second, settled, attempted, dead_lettered,
  to_retry, processed, should_dead_letter, dispatch_items, dispatch_pending,
  domain_event_from_outbox, count_if,
}

-- `InMemoryStore` as the store of a bus, beside a state `V` of the handlers.
abbrev pub memory_store : {V : Type 0} → OutboxStore (Outbox × V) NotFound
memory_store = record {
  create_event = λ w event. ((create_outbox_event w.0 event, w.1), none);
  claim_events = λ w now limit stale.
      Option.map (λ (claim : Outbox × List OutboxEvent). ((claim.0, w.1), inr claim.1))
        (claim_outbox_events w.0 now limit stale);
  update_event =
      λ w event. let update = update_outbox_event w.0 event in ((update.0, w.1), update.1);
}

-- An event is stored under the identifier.
record IsPresent (store : Outbox) (id : String) : Type 0 where
  pub event : OutboxEvent
  pub stored : lookup id store ≡ some event

-- The event under the identifier is claimed by nobody.
pub record IsReleased (store : Outbox) (id : String) : Type 0 where
  pub event : OutboxEvent
  pub stored : lookup id store ≡ some event
  pub released : event.claimed_at ≡ none

insert-IsPresent :
    (store : Outbox) (event : OutboxEvent) (id : String)
    → IsPresent store id
    → IsPresent (insert store event.id event) id
insert-IsPresent store event id h = elim (Bool-cases (event.id == id)) [
  | inl same ↦ record {
    event = event;
    stored = lookup-insert store event.id id event ∙ rw same refl;
  }
  | inr other ↦ record {
    event = h.event;
    stored = lookup-insert store event.id id event ∙ rw other h.stored;
  }
]

insert-IsReleased :
    (store : Outbox) (event : OutboxEvent) (id : String)
    → event.claimed_at ≡ none
    → IsReleased store id
    → IsReleased (insert store event.id event) id
insert-IsReleased store event id free h = elim (Bool-cases (event.id == id)) [
  | inl same ↦ record {
    event = event;
    stored = lookup-insert store event.id id event ∙ rw same refl;
    released = free;
  }
  | inr other ↦ record {
    event = h.event;
    stored = lookup-insert store event.id id event ∙ rw other h.stored;
    released = h.released;
  }
]

inserted-IsReleased :
    (store : Outbox) (event : OutboxEvent)
    → event.claimed_at ≡ none
    → IsReleased (insert store event.id event) event.id
inserted-IsReleased store event free = record {
  event = event;
  stored = lookup-insert store event.id event.id event ∙ rw (eq_refl event.id) refl;
  released = free;
}

settled_same :
    {W StoreError : Type 0} (bus : DurableBus W StoreError) (format : TimeFormat) (now : Time)
    (item : OutboxEvent) (outcome : Option DispatchError)
    → let out = settled bus format now item outcome in (out.id ≡ item.id) × (out.claimed_at ≡ none)
unfolding settled attempted dead_lettered to_retry processed
settled_same bus format now item none = (refl, refl)
settled_same bus format now item (some error) =
    elim (Bool-cases
      (should_dead_letter (attempted format now item).attempts bus.max_attempts error)) [
        | inl h ↦ rw h (refl, refl)
        | inr h ↦ rw h (refl, refl)
      ]

update_present :
    (store : Outbox) (event : OutboxEvent) (found : Option OutboxEvent) (current : OutboxEvent)
    → found ≡ some current
    → updated_if found store event ≡ (insert store event.id event, none)
update_present store event none current h = absurd (ground arith)
update_present store event (some other) current h = refl

module _ {V : Type 0} (subscribers : Subscribers (Outbox × V)) (format : TimeFormat)
    (clock : ℕ → Time) where
  abbrev pub memory_bus : DurableBus (Outbox × V) NotFound
  memory_bus = record (new_durable_bus memory_store) { subscribers = subscribers }

  -- The handlers change no outbox.
  abbrev pub LeavesOutbox : Type 0
  LeavesOutbox = (w : Outbox × V) (event : DomainEvent) → (dispatch subscribers w event).0.0 ≡ w.0

  -- One turn of the loop, on an event that is stored.
  turn_lem :
      LeavesOutbox
      → (turn : ℕ) (w : Outbox × V) (item : OutboxEvent) → IsPresent w.0 item.id
      → let handled = dispatch subscribers w (domain_event_from_outbox format item) in
        let out = settled memory_bus format (clock turn) item handled.1 in
        update_outbox_event handled.0.0 out ≡ (insert w.0 out.id out, none)
  unfolding update_outbox_event
  turn_lem leaves turn w item present =
      let event = domain_event_from_outbox format item in
      let same =
        settled_same memory_bus format (clock turn) item (dispatch subscribers w event).1 in
      rw (leaves w event) (update_present w.0 _ _ present.event (rw same.0 present.stored))

  abbrev Released : Outbox → OutboxEvent → Type 0
  Released store item = IsReleased store item.id

  -- Every event of the loop is released at its end, and so are those that were at its start.
  abbrev IsEnded :
      Outbox × V → List OutboxEvent → String → (Outbox × V) × ℕ × Option NotFound → Type 0
  IsEnded w items id done =
      (done.2 ≡ none) × All (Released done.0.0) items × (IsReleased w.0 id → IsReleased done.0.0 id)

  -- The rest of the loop, once the store has answered an update.
  abbrev continued :
      (turn dispatched : ℕ) (handled : (Outbox × V) × Option DispatchError)
      → List OutboxEvent
      → Outbox × Option NotFound
      → (Outbox × V) × ℕ × Option NotFound
  continued turn dispatched handled items (store, none) =
      dispatch_items memory_bus format clock (suc turn) (count_if handled.1 dispatched)
        (store, handled.0.1) items
  continued turn dispatched handled items (store, some error) =
      ((store, handled.0.1), dispatched, some error)

  dispatch_items_lem :
      LeavesOutbox
      → (turn dispatched : ℕ) (w : Outbox × V) (items : List OutboxEvent) (id : String)
      → All (λ item. IsPresent w.0 item.id) items
      → IsEnded w items id (dispatch_items memory_bus format clock turn dispatched w items)
  unfolding dispatch_items
  dispatch_items_lem leaves turn dispatched w [] id present = (refl, tt, λ h. h)
  dispatch_items_lem leaves turn dispatched w (item ∷ items) id (present, others) =
      let handled = dispatch subscribers w (domain_event_from_outbox format item) in
      let out = settled memory_bus format (clock turn) item handled.1 in
      let same = settled_same memory_bus format (clock turn) item handled.1 in
      let next : Outbox × V = (insert w.0 out.id out, handled.0.1) in
      let kept = All-map items (λ other h. insert-IsPresent w.0 out other.id h) others in
      let rest = λ (id : String).
        dispatch_items_lem leaves (suc turn) (count_if handled.1 dispatched) next items id kept in
      let mine = subst (IsReleased next.0) same.0 (inserted-IsReleased w.0 out same.1) in
      subst (λ u. IsEnded w (item ∷ items) id (continued turn dispatched handled items u))
        (sym (turn_lem leaves turn w item present))
        (
          (rest id).0,
          ((rest item.id).2 mine, (rest id).1),
          λ h. (rest id).2 (insert-IsReleased w.0 out id same.1 h),
        )

  IsPresent-held :
      (now : Time) (store : Outbox) (id : String) → IsHeld now store id → IsPresent store id
  IsPresent-held now store id h = record { event = h.event; stored = h.stored }

  -- Over the store in memory, whose events stand under their identifiers, with a limit that is not
  -- negative and handlers that change no outbox, a dispatch does not panic and returns no error, and
  -- no event that it claimed is left claimed at its end, whatever its handlers returned.
  pub dispatch_pending-IsReleased :
      (limit : ℕ) (w : Outbox × V)
      → IsKeyed w.0
      → LeavesOutbox
      → let now = clock 0 in
        (claim : Outbox × List OutboxEvent) × (claim_outbox_events w.0 now
            (pos limit)
            (now - 120 * second)
          ≡ some claim)
        × (done : (Outbox × V) × ℕ × Option NotFound) × (dispatch_pending memory_bus format clock
              (pos limit)
              w
            ≡ some done)
        × (done.2 ≡ none)
        × All (λ item. IsReleased done.0.0 item.id) claim.1
  unfolding dispatch_pending claim_from
  dispatch_pending-IsReleased limit w keyed leaves =
      let now = clock 0 in
      let start = sort_by_time (candidates now (now - 120 * second) w.0) in
      let claim = claim_each now (pos limit) 0 w.0 start in
      let claims = claim_outbox_events-pos w.0 now limit (now - 120 * second) in
      let present =
        All-map claim.1 (λ item h. IsPresent-held now claim.0 item.id h)
          (claimed-IsHeld now (pos limit) 0 w.0 start
            (sorted-IsNamed now (now - 120 * second) w.0 keyed)) in
      let ended = dispatch_items_lem leaves 1 0 (claim.0, w.1) claim.1 "" present in
      let done = dispatch_items memory_bus format clock 1 0 (claim.0, w.1) claim.1 in
      (claim, claims, done, rw claims refl, ended.0, ended.1)
