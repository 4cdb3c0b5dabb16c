-- ===== src/App/Recovery/Ends.antt =====
-- internal/app/outbox_recovery.go: when a recovery succeeds, and what it leaves.
use change_control_plane.Prelude.{
  String, ◌≡◌, refl, sym, ◌∙◌, ap, subst, true, false, not, Option, none, some, ◌==◌, eq_refl,
  lookup, insert, arith, Bool-cases, inl, inr,
}
use change_control_plane.Prelude.Text.{is_blank}
use change_control_plane.Types.{Time, OutboxEvent}
use change_control_plane.Auth.{Identity, has_organization_access}
use change_control_plane.Auth.Authorizer.{can_manage_organization}
use change_control_plane.Events.Outbox.{Outbox, is_claimable, update_outbox_event_if_status}
use change_control_plane.App.{Tables, Call, AppError, App, and_then, require_active_organization}
use change_control_plane.App.Meets.{
  Meets, meets_done, meets_failed, bind, mono, found_rule, branch_rule, branch_then_rule,
  require_rule, require_known_identity_rule,
}
use change_control_plane.App.Status.{emit_status_event_from_audit}
use change_control_plane.App.Record.{data_of}
use change_control_plane.App.Recovery.{
  Recovery, Prepared, reset_item, prepared, written, recover_outbox_event,
  record_outbox_recovery_action,
}

pub record CanRecover (call : Call) (recovery : Recovery) (event_id : String) (t : Tables)
    (identity : Identity) (item : OutboxEvent) : Type 0 where
  pub caller : call.identity ≡ some identity
  pub authenticated : identity.authenticated ≡ true
  pub has_scope : (identity.active_organization_id == "") ≡ false
  pub has_access : has_organization_access identity identity.active_organization_id ≡ true
  pub manages : can_manage_organization identity identity.active_organization_id ≡ true
  pub given : is_blank event_id ≡ false
  pub was_stored : lookup event_id t.outbox_events ≡ some item
  pub owned : (item.organization_id == identity.active_organization_id) ≡ true
  pub has_status : (item.status == recovery.required_status) ≡ true

-- All tables but the logs of the audit and of the status.
pub record Unchanged (t u : Tables) : Type 0 where
  pub same_data : data_of u ≡ data_of t
  pub same_outbox : u.outbox_events ≡ t.outbox_events

abbrev pub IsRefused : Call → Recovery → String → (t u : Tables) → Type 0
IsRefused call recovery event_id t u =
    Unchanged t u × ((i : Identity) (x : OutboxEvent) → ¬ CanRecover call recovery event_id t i x)

module _ {A : Type 0} {Q : A → Tables → Type 0} {E : AppError → Tables → Type 0} where
  require_active_organization_rule :
      (identity : Identity) {t : Tables} (k : String → App A)
      → ((identity.active_organization_id == "") ≡ true → (e : AppError) → E e t)
      → (has_organization_access identity identity.active_organization_id ≡ false
          → (e : AppError) → E e t)
      → ((identity.active_organization_id == "") ≡ false
          → has_organization_access identity identity.active_organization_id ≡ true
          → Meets Q E (k identity.active_organization_id t))
      → Meets Q E (and_then (require_active_organization identity t) k)
  unfolding require_active_organization
  require_active_organization_rule identity {t = t} k no_scope no_access next =
      branch_then_rule (identity.active_organization_id == "") _ _ t k
        (λ h. meets_failed (no_scope h _))
        λ scope.
          branch_then_rule (not (has_organization_access identity identity.active_organization_id))
            _ _ t k (λ h. meets_failed (no_access (ground arith) _))
            (λ h. next scope (ground arith))

-- Who is allowed to recover what the call is about.
refused :
    (call : Call) (recovery : Recovery) (event_id : String) (t : Tables) {u : Tables}
    → Unchanged t u
    → ((i : Identity) (x : OutboxEvent) → ¬ CanRecover call recovery event_id t i x)
    → IsRefused call recovery event_id t u
refused call recovery event_id t same none_allowed = (same, none_allowed)

pub record IsPrepared (call : Call) (recovery : Recovery) (event_id : String) (t : Tables)
    (p : Prepared) : Type 0 where
  pub item : OutboxEvent
  pub allowed : CanRecover call recovery event_id t p.identity item
  pub was_read : p.previous_status ≡ item.status
  pub reset : p.item ≡ reset_item call recovery p.identity item

pub prepared-IsPrepared :
    (call : Call) (recovery : Recovery) (event_id : String) (t : Tables)
    → Meets
        (λ p u. IsPrepared call recovery event_id t p × (u ≡ t))
        (λ e u. IsRefused call recovery event_id t u)
        (prepared call recovery event_id t)
unfolding prepared
prepared-IsPrepared call recovery event_id t =
    require_known_identity_rule call _
      (λ unknown.
        refused call recovery event_id t (record { same_data = refl; same_outbox = refl })
          λ i x c. unknown i c.caller c.authenticated)
      λ identity caller known.
        require_active_organization_rule identity _
          (λ h e.
            refused call recovery event_id t (record { same_data = refl; same_outbox = refl })
              λ i x c. let same = c.caller in let scope = c.has_scope in cc)
          (λ h e.
            refused call recovery event_id t (record { same_data = refl; same_outbox = refl })
              λ i x c. let same = c.caller in let access = c.has_access in cc)
          λ has_scope has_access.
            require_rule (can_manage_organization identity identity.active_organization_id) _ _
              (λ manages.
                require_rule (not (is_blank event_id)) _ _
                  (λ given.
                    found_rule (lookup event_id t.outbox_events) _ _
                      (λ h.
                        refused call recovery event_id t
                          (record { same_data = refl; same_outbox = refl })
                          λ i x c. let there = c.was_stored in cc)
                      λ item was_stored.
                        require_rule (item.organization_id == identity.active_organization_id) _ _
                          (λ owned.
                            require_rule (item.status == recovery.required_status) _ _
                              (λ has_status. meets_done (
                                record {
                                  item = item;
                                  allowed = record {
                                    caller = caller;
                                    authenticated = known;
                                    has_scope = has_scope;
                                    has_access = has_access;
                                    manages = manages;
                                    given = ground arith;
                                    was_stored = was_stored;
                                    owned = owned;
                                    has_status = has_status;
                                  };
                                  was_read = refl;
                                  reset = refl;
                                },
                                refl,
                              ))
                              (λ h. meets_failed (
                                refused call recovery event_id t
                                  (record { same_data = refl; same_outbox = refl })
                                  λ i x c.
                                    let there = c.was_stored in let other = c.has_status in cc)))
                          (λ h. meets_failed (
                            refused call recovery event_id t
                              (record { same_data = refl; same_outbox = refl })
                              λ i x c.
                                let same = c.caller in
                                let there = c.was_stored in let other = c.owned in cc)))
                  (λ h. meets_failed (
                    refused call recovery event_id t
                      (record { same_data = refl; same_outbox = refl })
                      λ i x c. let other = c.given in ground arith)))
              (λ h. meets_failed (
                refused call recovery event_id t (record { same_data = refl; same_outbox = refl })
                  λ i x c. let same = c.caller in let other = c.manages in cc))

-- What is left where the recovery succeeds.
pub record IsRecovered (call : Call) (recovery : Recovery) (event_id : String) (t : Tables)
    (response : OutboxEvent) (u : Tables) : Type 0 where
  pub identity : Identity
  pub item : OutboxEvent
  pub allowed : CanRecover call recovery event_id t identity item
  pub answer : response ≡ reset_item call recovery identity item
  pub same_data : data_of u ≡ data_of t
  pub stored : u.outbox_events ≡ insert t.outbox_events response.id response
  -- The next claim may take it, whatever became of it before.
  pub claimable : (now stale : Time) → is_claimable now stale response ≡ true

reset_item-claimable :
    (call : Call) (recovery : Recovery) (identity : Identity) (item : OutboxEvent)
    (now stale : Time)
    → is_claimable now stale (reset_item call recovery identity item) ≡ true
unfolding is_claimable reset_item
reset_item-claimable call recovery identity item now stale = refl

-- The event as it is stored when it is written.
pub record IsCurrent (event : OutboxEvent) (status : String) (outbox : Outbox) : Type 0 where
  pub current : OutboxEvent
  pub is_stored : lookup event.id outbox ≡ some current
  pub same_status : (current.status == status) ≡ true

update_if_status-eq-true :
    (outbox : Outbox) (event : OutboxEvent) (status : String) (o : Option OutboxEvent)
    → lookup event.id outbox ≡ o
    → (update_outbox_event_if_status outbox event status).1 ≡ true
    → IsCurrent event status outbox
      × ((update_outbox_event_if_status outbox event status).0 ≡ insert outbox event.id event)
unfolding update_outbox_event_if_status
update_if_status-eq-true outbox event status none there taken = let t = rw there at taken in cc
update_if_status-eq-true outbox event status (some current) there taken =
    elim (Bool-cases (current.status == status)) [
      | inl same ↦ (
        record { current = current; is_stored = there; same_status = same },
        rw there (rw same refl),
      )
      | inr other ↦ let t = rw other at rw there at taken in cc
    ]

update_if_status-eq-false :
    (outbox : Outbox) (event : OutboxEvent) (status : String)
    → (update_outbox_event_if_status outbox event status).1 ≡ false
    → ¬ IsCurrent event status outbox
unfolding update_outbox_event_if_status
update_if_status-eq-false outbox event status skipped c =
    let t = rw c.same_status at rw c.is_stored at skipped in cc

pub record IsWritten (p : Prepared) (t : Tables) (response : OutboxEvent) (u : Tables)
    : Type 0 where
  pub is_current : IsCurrent p.item p.previous_status t.outbox_events
  pub answer : response ≡ p.item
  pub same_data : data_of u ≡ data_of t
  pub stored : u.outbox_events ≡ insert t.outbox_events p.item.id p.item

-- The transaction, over whatever is stored by then.
pub written-IsWritten :
    (call : Call) (recovery : Recovery) (p : Prepared) (t : Tables)
    → Meets
        (IsWritten p t)
        (λ e u. (u ≡ t) × ¬ IsCurrent p.item p.previous_status t.outbox_events)
        (written call recovery p t)
unfolding written record_outbox_recovery_action emit_status_event_from_audit
written-IsWritten call recovery p t =
    let result = update_outbox_event_if_status t.outbox_events p.item p.previous_status in
    branch_rule result.1 _ _
      (λ taken.
        let current =
          update_if_status-eq-true t.outbox_events p.item p.previous_status _ refl taken in
        meets_done
          (record { is_current = current.0; answer = refl; same_data = refl; stored = current.1 }))
      (λ skipped.
        let stale = update_if_status-eq-false t.outbox_events p.item p.previous_status skipped in
        found_rule (lookup p.item.id t.outbox_events) _ _ (λ h. (refl, stale))
          (λ current h. meets_failed (refl, stale)))

abbrev pub IsKeyed : Outbox → Type 0
IsKeyed outbox = (i : String) (x : OutboxEvent) → lookup i outbox ≡ some x → x.id ≡ i

pub prepared_id :
    {call : Call} {recovery : Recovery} {event_id : String} {t : Tables} {p : Prepared}
    → IsKeyed t.outbox_events
    → IsPrepared call recovery event_id t p
    → p.item.id ≡ event_id
unfolding reset_item
prepared_id keyed h = ap (λ (x : OutboxEvent). x.id) h.reset ∙ keyed _ _ h.allowed.was_stored

pub prepared-IsCurrent :
    {call : Call} {recovery : Recovery} {event_id : String} {t : Tables} {p : Prepared}
    → IsKeyed t.outbox_events
    → IsPrepared call recovery event_id t p
    → IsCurrent p.item p.previous_status t.outbox_events
prepared-IsCurrent {t = t} keyed h = record {
  current = h.item;
  is_stored = ap (λ i. lookup i t.outbox_events) (prepared_id keyed h) ∙ h.allowed.was_stored;
  same_status = rw h.was_read (eq_refl h.item.status);
}

pub prepared_rule :
    {A : Type 0} {Q : A → Tables → Type 0} {E : AppError → Tables → Type 0} (call : Call)
    (recovery : Recovery) (event_id : String) {t : Tables} (k : Prepared → App A)
    → ((e : AppError) (u : Tables) → IsRefused call recovery event_id t u → E e u)
    → ((p : Prepared) → IsPrepared call recovery event_id t p → Meets Q E (k p t))
    → Meets Q E (and_then (prepared call recovery event_id t) k)
prepared_rule {Q = Q} {E = E} call recovery event_id {t = t} k refuse next =
    bind (mono (prepared-IsPrepared call recovery event_id t) (λ p u h. h) refuse)
      λ p u h. subst (λ v. Meets Q E (k p v)) (sym h.1) (next p h.0)

-- The two halves, nothing in between: a recovery succeeds exactly if the caller may manage the active
-- organization and the event belongs to it and has the required status. It then leaves the event
-- pending and to be claimed at once, and otherwise all tables but the logs as they were. The events
-- are stored by their identifiers.
pub recover_outbox_event-IsRecovered :
    (call : Call) (recovery : Recovery) (event_id : String) (t : Tables)
    → IsKeyed t.outbox_events
    → Meets
        (IsRecovered call recovery event_id t)
        (λ e u. IsRefused call recovery event_id t u)
        (recover_outbox_event call recovery event_id t)
unfolding recover_outbox_event reset_item
recover_outbox_event-IsRecovered call recovery event_id t keyed =
    prepared_rule call recovery event_id _ (λ e u no. no)
      λ p h.
        mono (written-IsWritten call recovery p t)
          (λ x v w. record {
            identity = p.identity;
            item = h.item;
            allowed = h.allowed;
            answer = w.answer ∙ h.reset;
            same_data = w.same_data;
            stored =
                w.stored ∙ ap (λ (y : OutboxEvent). insert t.outbox_events y.id y) (sym w.answer);
            claimable = λ now stale.
                ap (is_claimable now stale) (w.answer ∙ h.reset)
                ∙ reset_item-claimable call recovery p.identity h.item now stale;
          })
          (λ e v w. absurd (w.1 (prepared-IsCurrent keyed h)))
