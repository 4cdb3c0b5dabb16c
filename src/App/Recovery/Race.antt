-- ===== src/App/Recovery/Race.antt =====
-- internal/app/outbox_recovery.go: two operators recover the same event at the same time.
use change_control_plane.Prelude.{
  String, ◌≡◌, refl, sym, ◌∙◌, ap, true, false, some, some-injective, ◌==◌, eq_iff, eq_refl, lookup,
  insert, lookup-insert,
}
use change_control_plane.Types.{OutboxEvent}
use change_control_plane.Auth.{Identity}
use change_control_plane.Events.Outbox.{Outbox}
use change_control_plane.App.{Tables, Call, App, ◌>>=◌, return}
use change_control_plane.App.Meets.{Meets, bind, mono}
use change_control_plane.App.Recovery.{Recovery, Prepared, reset_item, prepared, written}
use change_control_plane.App.Recovery.Ends.{
  CanRecover, IsPrepared, IsCurrent, prepared-IsCurrent, IsKeyed, prepared_id, prepared_rule,
  written-IsWritten,
}

-- Both read before either writes.
unfoldable pub recover_twice :
    (first second : Call) (recovery again : Recovery) (event_id : String)
    → App (OutboxEvent × OutboxEvent)
unfolding prepared written
recover_twice first second recovery again event_id = do
  p ← prepared first recovery event_id
  q ← prepared second again event_id
  x ← written first recovery p
  y ← written second again q
  return (x, y)

-- What two recoveries of an event come to.
pub data AtMostOne (first second : Call) (recovery again : Recovery) (event_id : String)
    (t u : Tables) : Type 0 where
  none_recovers :
      u.outbox_events ≡ t.outbox_events
      → ((i j : Identity) (x y : OutboxEvent)
          → CanRecover first recovery event_id t i x
          → ¬ CanRecover second again event_id t j y)
      → AtMostOne first second recovery again event_id t u
  one_recovers :
      (x : OutboxEvent)
      → x.id ≡ event_id
      → x.status ≡ "pending"
      → u.outbox_events ≡ insert t.outbox_events event_id x
      → AtMostOne first second recovery again event_id t u

pending-prepared :
    {call : Call} {recovery : Recovery} {event_id : String} {t : Tables} {p : Prepared}
    → IsPrepared call recovery event_id t p
    → p.item.status ≡ "pending"
unfolding reset_item
pending-prepared h = ap (λ (x : OutboxEvent). x.status) h.reset

-- A pending event has lost the status that was read.
not-IsCurrent :
    {call : Call} {recovery : Recovery} {event_id : String} {t : Tables} {p : Prepared}
    (outbox : Outbox) (x : OutboxEvent)
    → IsKeyed t.outbox_events
    → IsPrepared call recovery event_id t p
    → (recovery.required_status == "pending") ≡ false
    → x.status ≡ "pending"
    → lookup event_id outbox ≡ some x
    → ¬ IsCurrent p.item p.previous_status outbox
not-IsCurrent {recovery = recovery} {event_id = event_id} outbox x keyed h other pending there c =
    let is_id = prepared_id keyed h in
    let found : lookup event_id outbox ≡ some c.current = rw is_id at c.is_stored in
    let same : x ≡ c.current = some-injective _ _ (sym there ∙ found) in
    let was = (eq_iff c.current.status _).0 c.same_status in
    let required = (eq_iff h.item.status recovery.required_status).0 h.allowed.has_status in
    let is_pending : recovery.required_status ≡ "pending" =
      sym required
      ∙ sym h.was_read
      ∙ sym was
      ∙ ap (λ (y : OutboxEvent). y.status) (sym same)
      ∙ pending in
    let bad : true ≡ false = sym (eq_refl "pending") ∙ rw is_pending at other in cc

stored_there :
    {event_id : String} (outbox : Outbox) (x : OutboxEvent)
    → x.id ≡ event_id
    → lookup event_id (insert outbox x.id x) ≡ some x
stored_there {event_id = event_id} outbox x is_id =
    lookup-insert outbox x.id event_id x ∙ rw is_id (rw (eq_refl event_id) refl)

-- Two operators who read the same event before either writes do not both recover it. If both may
-- recover it, exactly one does: the event is then pending, and all others are as they were. The
-- status that the second asks for is not `pending`, and the events are stored by their identifiers.
pub recover_twice-AtMostOne :
    (first second : Call) (recovery again : Recovery) (event_id : String) (t : Tables)
    → IsKeyed t.outbox_events
    → (again.required_status == "pending") ≡ false
    → Meets
        (λ both u. ⊥)
        (λ e u. AtMostOne first second recovery again event_id t u)
        (recover_twice first second recovery again event_id t)
unfolding recover_twice
recover_twice-AtMostOne first second recovery again event_id t keyed other =
    prepared_rule first recovery event_id _
      (λ e u no. none_recovers no.0.same_outbox (λ i j x y c d. no.1 i x c))
      λ p h.
        prepared_rule second again event_id _
          (λ e u no. none_recovers no.0.same_outbox (λ i j x y c d. no.1 j y d))
          λ q k.
            bind
              (mono (written-IsWritten first recovery p t) (λ x u w. w)
                (λ e u w. absurd (w.1 (prepared-IsCurrent keyed h))))
              λ x u w.
                let there : lookup event_id u.outbox_events ≡ some p.item =
                  ap (lookup event_id) w.stored
                  ∙ stored_there t.outbox_events p.item (prepared_id keyed h) in
                bind
                  (mono (written-IsWritten second again q u)
                    (λ y v z.
                      not-IsCurrent u.outbox_events p.item keyed k other (pending-prepared h) there
                        z.is_current)
                    (λ e v z. one_recovers p.item (prepared_id keyed h) (pending-prepared h) (
                      ap (λ (s : Tables). s.outbox_events) z.0
                      ∙ w.stored
                      ∙ ap (λ i. insert t.outbox_events i p.item) (prepared_id keyed h))))
                  λ y v never. absurd never
