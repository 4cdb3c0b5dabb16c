-- ===== src/Events/Durable/Delivery.antt =====
-- internal/events/bus.go: the life of an outbox event, from `Publish` on, and what reaches the
-- handlers of it.
use change_control_plane.Prelude.{
  ℕ, suc, ◌+◌, ◌^◌, ◌<◌, ◌≤◌, String, ◌≡◌, refl, ap, ◌∙◌, lookup, insert, lookup-insert, eq_refl,
  true, false, ◌||◌, Option, none, some, [], false≢true, ◌==◌, arith,
}
use change_control_plane.Prelude.Int.{pos}
use change_control_plane.Types.{Time, DomainEvent, OutboxEvent}
use change_control_plane.Events.{DispatchError, Subscribers}
use change_control_plane.Events.Outbox.{
  Outbox, claimed, is_claimable, create_outbox_event, get_outbox_event, found_or_error,
}
use change_control_plane.Events.Durable.Memory.{memory_bus}
use change_control_plane.Events.Durable.{
  TimeFormat, DurableBus, outbox_event_of, settled, processed, attempted, occurred,
  value_or_default, domain_event_from_outbox, publish,
}
use change_control_plane.Events.Durable.Settlement.{
  IsConsistent, outbox_event_of-IsConsistent, claimed-IsConsistent, settled-IsConsistent, IsDefault,
  AfterFailure, settled-AfterFailure, next_attempts, given_up, retried,
}

domain_event_from_outbox-outbox_event_of :
    (format : TimeFormat) (fresh : String) (now : Time) (event : DomainEvent)
    → ((time : Time) → format.parse (format.print time) ≡ some time)
    → domain_event_from_outbox format (outbox_event_of format fresh now event) ≡ record event {
      id = value_or_default event.id fresh;
      occurred_at = occurred event now;
      payload = [];
    }
unfolding domain_event_from_outbox outbox_event_of
domain_event_from_outbox-outbox_event_of format fresh now event reads_back =
    rw (reads_back (occurred event now)) refl

-- Published over the store in memory, an event is stored, without an error, under its identifier, or a
-- fresh one if it has none. What its handlers get of the stored event is the published one, with the
-- time at which it was published if it had none, and without its payload, as long as times can be read
-- back from their text. The payload is stored with the type `types.Metadata`, which the type
-- assertion does not accept.
pub publish-domain_event_from_outbox :
    {V : Type 0} (subscribers : Subscribers (Outbox × V)) (format : TimeFormat) (clock : ℕ → Time)
    (fresh : String) (now : Time) (w : Outbox × V) (event : DomainEvent)
    → ((time : Time) → format.parse (format.print time) ≡ some time)
    → let id = value_or_default event.id fresh in
      let after = publish (memory_bus subscribers format clock) format fresh now w event in
      (after.1 ≡ none)
      × (item : OutboxEvent) × (get_outbox_event after.0.0 id ≡ (some item, none))
      × (domain_event_from_outbox format item
          ≡ record event { id = id; occurred_at = occurred event now; payload = [] })
unfolding publish create_outbox_event get_outbox_event outbox_event_of
publish-domain_event_from_outbox subscribers format clock fresh now w event reads_back =
    let item = outbox_event_of format fresh now event in
    let there : lookup item.id (insert w.0 item.id item) ≡ some item =
      lookup-insert w.0 item.id item.id item ∙ rw (eq_refl item.id) refl in
    (
      refl,
      item,
      ap found_or_error there,
      domain_event_from_outbox-outbox_event_of format fresh now event reads_back,
    )

-- The attempts that are counted in an event which was put back in line `requeues` times after it was
-- given up.
pub record IsCounted (requeues : ℕ) (item : OutboxEvent) : Type 0 where
  pub tries : ℕ
  pub counted : item.attempts ≡ pos tries
  pub at_most : tries ≤ 5 + requeues
  pub open_below :
      (item.status == "processed" || item.status == "dead_letter") ≡ false → tries ≤ 4 + requeues

closed_text :
    (status : String)
    → status ≡ "dead_letter"
    → (status == "processed" || status == "dead_letter") ≡ false
    → ⊥
closed_text status e h = false≢true (ground (arith, rw e at h))

processed-IsCounted :
    (requeues : ℕ) (now : Time) (item : OutboxEvent) (tries : ℕ)
    → tries ≤ 5 + requeues
    → item.attempts ≡ pos tries
    → IsCounted requeues (processed now item)
unfolding processed
processed-IsCounted requeues now item tries h count = record {
  tries = tries;
  counted = count;
  at_most = h;
  open_below = λ k. ground arith;
}

module _ {W StoreError : Type 0} (bus : DurableBus W StoreError) (format : TimeFormat) where
  -- The events that publication, claims and dispatches lead to.
  pub data Life : OutboxEvent → Type 0 where
    published :
        (fresh : String) (now : Time) (event : DomainEvent)
        → Life (outbox_event_of format fresh now event)
    claim :
        {item : OutboxEvent} (now stale : Time)
        → Life item
        → is_claimable now stale item ≡ true
        → Life (claimed now item)
    settle :
        {item : OutboxEvent} (now : Time) (outcome : Option DispatchError)
        → Life item
        → item.status ≡ "processing"
        → Life (settled bus format now item outcome)

  -- Whatever publications, claims and dispatches an event goes through, it is claimed exactly while
  -- its status is `processing`, it has a time of processing exactly if its status is `processed`,
  -- it waits for a next attempt if its status is `error`, and has one only in that status or while
  -- it is processed again.
  pub Life-IsConsistent : (item : OutboxEvent) → Life item → IsConsistent item
  Life-IsConsistent item (published fresh now event) =
      outbox_event_of-IsConsistent format fresh now event
  Life-IsConsistent item (claim {item = before} now stale life free) =
      claimed-IsConsistent before now stale free (Life-IsConsistent before life)
  Life-IsConsistent item (settle {item = before} now outcome life busy) =
      settled-IsConsistent bus format now before outcome busy (Life-IsConsistent before life)

  pub claimed-IsCounted :
      (requeues : ℕ) (item : OutboxEvent) (now stale : Time)
      → is_claimable now stale item ≡ true
      → IsCounted requeues item
      → IsCounted requeues (claimed now item)
  unfolding claimed is_claimable
  claimed-IsCounted requeues item now stale free c = record {
    tries = c.tries;
    counted = c.counted;
    at_most = c.at_most;
    open_below = λ h. c.open_below (ground arith);
  }

  failed-IsCounted :
      (requeues : ℕ) (now : Time) (error : DispatchError) (n : ℕ) (out : OutboxEvent)
      → n ≤ 4 + requeues
      → AfterFailure n now error out
      → out.attempts ≡ pos (suc n)
      → IsCounted requeues out
  failed-IsCounted requeues now error n out small (given_up why status next) count = record {
    tries = suc n;
    counted = count;
    at_most = omega arith;
    open_below = λ h. absurd (closed_text out.status status h);
  }
  failed-IsCounted requeues now error n out small (retried early why status next) count = record {
    tries = suc n;
    counted = count;
    at_most = omega arith;
    open_below = λ h. omega arith;
  }

  pub settled-IsCounted :
      (requeues : ℕ) (now : Time) (item : OutboxEvent) (outcome : Option DispatchError)
      → IsDefault bus
      → requeues < 2 ^ 61
      → item.status ≡ "processing"
      → IsCounted requeues item
      → IsCounted requeues (settled bus format now item outcome)
  unfolding settled attempted
  settled-IsCounted requeues now item none default few busy c =
      let small = c.open_below (rw busy refl) in
      processed-IsCounted requeues now (attempted format now item) (suc c.tries) (omega arith)
        (rw c.counted (next_attempts c.tries (omega arith)))
  settled-IsCounted requeues now item (some error) default few busy c =
      let small = c.open_below (rw busy refl) in
      let after =
        settled-AfterFailure bus format now item error c.tries default c.counted (omega arith) in
      failed-IsCounted requeues now error c.tries _ small after.0 after.1

pub outbox_event_of-IsCounted :
    (format : TimeFormat) (fresh : String) (now : Time) (event : DomainEvent)
    → IsCounted 0 (outbox_event_of format fresh now event)
unfolding outbox_event_of
outbox_event_of-IsCounted format fresh now event = record {
  tries = 0;
  counted = refl;
  at_most = omega arith;
  open_below = λ h. omega arith;
}
