-- ===== src/Tests/Recovery.antt =====
-- internal/app/outbox_recovery.go at concrete tables: an event that waits after an error.
use change_control_plane.Prelude.{◌≡◌, refl, sym, ap, ◌∙◌, String, some, [], ◌∷◌, arith}
use change_control_plane.Prelude.Int.{pos, int64, ◌+ℤ◌}
use change_control_plane.Types.{OutboxEvent, zero_outbox_event}
use change_control_plane.Auth.{has_organization_access}
use change_control_plane.App.{Tables, Run, done, failed}
use change_control_plane.App.Meets.{Meets}
use change_control_plane.App.Recovery.{retry, requeue, recover_outbox_event}
use change_control_plane.App.Recovery.Ends.{
  IsRecovered, IsRefused, IsKeyed, recover_outbox_event-IsRecovered,
}
use change_control_plane.App.Recovery.Race.{AtMostOne, recover_twice, recover_twice-AtMostOne}
use change_control_plane.App.Recovery.{reset_item}
use change_control_plane.App.Recovery.Attempts.{
  History, published, claim, settle, retried, History-IsCounted,
}
use change_control_plane.Events.Outbox.{is_claimable, claimed}
use change_control_plane.Events.Durable.{outbox_event_of, settled}
use change_control_plane.Events.Durable.Delivery.{IsCounted}
use change_control_plane.Tests.Events.{
  bus, strokes, refused, refused_event, rollout_event, bus-IsDefault,
}
use change_control_plane.Tests.App.{admin, by_admin, tables, single}

abbrev waiting : OutboxEvent
waiting = record zero_outbox_event {
  base = record { id = "evt_1"; created_at = 100; updated_at = 100; metadata = [] };
  organization_id = "org_1";
  status = "error";
  attempts = pos 3;
  next_attempt_at = some 900;
  last_error = "timeout";
}

abbrev with_event : Tables
with_event = record tables { outbox_events = ("evt_1", waiting) ∷ [] }

with_event-IsKeyed : IsKeyed with_event.outbox_events
with_event-IsKeyed i e h =
    let found = single "evt_1" i waiting e h in
    sym (ap (λ (x : OutboxEvent). x.id) found.1) ∙ found.0

recover_outbox_event-IsRecovered_example :
    Meets
      (IsRecovered by_admin retry "evt_1" with_event)
      (λ e u. IsRefused by_admin retry "evt_1" with_event u)
      (recover_outbox_event by_admin retry "evt_1" with_event)
recover_outbox_event-IsRecovered_example =
    recover_outbox_event-IsRecovered by_admin retry "evt_1" with_event with_event-IsKeyed

recover_twice-AtMostOne_example :
    Meets
      (λ both u. ⊥)
      (λ e u. AtMostOne by_admin by_admin retry retry "evt_1" with_event u)
      (recover_twice by_admin by_admin retry retry "evt_1" with_event)
recover_twice-AtMostOne_example =
    recover_twice-AtMostOne by_admin by_admin retry retry "evt_1" with_event with_event-IsKeyed refl

abbrev status_of : Run OutboxEvent → String
status_of (done event t) = event.status
status_of (failed e t) = "failed"

retry_waiting : status_of (recover_outbox_event by_admin retry "evt_1" with_event) ≡ "pending"
unfolding recover_outbox_event has_organization_access
retry_waiting = refl

requeue_waiting : status_of (recover_outbox_event by_admin requeue "evt_1" with_event) ≡ "failed"
unfolding recover_outbox_event has_organization_access
requeue_waiting = refl

-- Published, claimed, refused, and retried by hand.
abbrev retried_event : OutboxEvent
retried_event = reset_item by_admin retry admin refused_event

retried_event-History : History bus strokes 0 retried_event
unfolding outbox_event_of is_claimable claimed settled int64 ◌+ℤ◌
retried_event-History =
    retried by_admin admin
      (settle 12 (some refused) (claim 10 3 (published "evt_7" 7 rollout_event) refl) refl) refl

History-IsCounted_example : IsCounted 0 retried_event
History-IsCounted_example =
    History-IsCounted bus strokes 0 retried_event bus-IsDefault (omega arith) retried_event-History
