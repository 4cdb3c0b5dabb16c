-- ===== src/Events/Outbox.antt =====
-- internal/app/store.go: the outbox of `InMemoryStore`. Of the orders in which Go may visit the map,
-- it is the one of the entries; `sort.Slice` then keeps the order of events of the same time.
pub mod Claims
pub mod Order
use change_control_plane.Prelude.{
  ℕ, suc, String, Bool, true, false, not, ◌&&◌, ◌||◌, Option, none, some, List, [], ◌∷◌, ◌==◌,
  if◌then◌else◌, Assoc, lookup, insert, ltb, leb,
}
use change_control_plane.Prelude.Int.{ℤ, pos, ltb_ℤ, leb_ℤ}
use change_control_plane.Types.{Time, OutboxEvent}

abbrev pub Outbox : Type 0
Outbox = Assoc OutboxEvent

-- `storage.ErrNotFound`
pub data NotFound : Type 0 where
  not_found : NotFound

unfoldable pub create_outbox_event : Outbox → OutboxEvent → Outbox
create_outbox_event store event = insert store event.id event

abbrev pub found_or_error : Option OutboxEvent → Option OutboxEvent × Option NotFound
found_or_error none = (none, some not_found)
found_or_error (some event) = (some event, none)

unfoldable pub get_outbox_event : Outbox → String → Option OutboxEvent × Option NotFound
get_outbox_event store id = found_or_error (lookup id store)

abbrev pub after : Option Time → Time → Bool
after none now = false
after (some time) now = ltb now time

abbrev pub not_before : Option Time → Time → Bool
not_before none stale = false
not_before (some time) stale = leb stale time

unfoldable pub is_claimable : Time → Time → OutboxEvent → Bool
is_claimable now stale_claim_before event =
    not (event.status == "processed" || event.status == "dead_letter")
    && not (after event.next_attempt_at now)
    && not (not_before event.claimed_at stale_claim_before)

-- An entry of the map: the identifier and the event.
abbrev pub Candidate : Type 0
Candidate = String × OutboxEvent

unfoldable pub candidates : Time → Time → Outbox → List Candidate
unfolding is_claimable
candidates now stale_claim_before [] = []
candidates now stale_claim_before (entry ∷ store) =
    let rest = candidates now stale_claim_before store in
    if is_claimable now stale_claim_before entry.1 then entry ∷ rest else rest

unfoldable pub put_by_time : Candidate → List Candidate → List Candidate
put_by_time candidate [] = candidate ∷ []
put_by_time candidate (next ∷ more) =
    let rest = put_by_time candidate more in
    if ltb next.1.created_at candidate.1.created_at then next ∷ rest else candidate ∷ next ∷ more

unfoldable pub sort_by_time : List Candidate → List Candidate
unfolding put_by_time
sort_by_time [] = []
sort_by_time (candidate ∷ more) = put_by_time candidate (sort_by_time more)

unfoldable pub claimed : Time → OutboxEvent → OutboxEvent
claimed now event = record event {
  status = "processing";
  claimed_at = some now;
  base = record event.base { updated_at = now };
}

-- The loop over the candidates, of which `taken` have been claimed.
unfoldable pub claim_each : Time → ℤ → ℕ → Outbox → List Candidate → Outbox × List OutboxEvent
unfolding claimed
claim_each now limit taken store [] = (store, [])
claim_each now limit taken store (candidate ∷ more) =
    let event = claimed now candidate.1 in
    let stored = insert store candidate.0 event in
    let rest = claim_each now limit (suc taken) stored more in
    if ltb_ℤ (pos 0) limit && leb_ℤ limit (pos (suc taken))
    then (stored, event ∷ [])
    else (rest.0, event ∷ rest.1)

-- The claim, once the slice of the results is made.
unfoldable pub claim_from : Outbox → Time → ℤ → Time → Outbox × List OutboxEvent
unfolding claim_each candidates sort_by_time
claim_from store now limit stale_claim_before =
    claim_each now limit 0 store (sort_by_time (candidates now stale_claim_before store))

-- `none` is a run-time panic: `make` takes no negative capacity. Memory for the capacity is taken to
-- be there.
unfoldable pub claim_outbox_events : Outbox → Time → ℤ → Time → Option (Outbox × List OutboxEvent)
unfolding claim_from
claim_outbox_events store now limit stale_claim_before =
    if ltb_ℤ limit (pos 0) then none else some (claim_from store now limit stale_claim_before)

abbrev pub updated_if : Option OutboxEvent → Outbox → OutboxEvent → Outbox × Option NotFound
updated_if none store event = (store, some not_found)
updated_if (some current) store event = (insert store event.id event, none)

unfoldable pub update_outbox_event : Outbox → OutboxEvent → Outbox × Option NotFound
update_outbox_event store event = updated_if (lookup event.id store) store event

abbrev updated_if_status : Option OutboxEvent → Outbox → OutboxEvent → String → Outbox × Bool
updated_if_status none store event expected_status = (store, false)
updated_if_status (some current) store event expected_status =
    if current.status == expected_status
    then (insert store event.id event, true)
    else (store, false)

unfoldable pub update_outbox_event_if_status : Outbox → OutboxEvent → String → Outbox × Bool
update_outbox_event_if_status store event expected_status =
    updated_if_status (lookup event.id store) store event expected_status
