-- ===== src/Tests/Events.antt =====
-- internal/events/bus.go and internal/app/store.go at concrete events.
use Prim.Native.Char.{Char, char}
use change_control_plane.Prelude.{
  ℕ, zero, suc, ◌+◌, ◌≤◌, String, ◌≡◌, ◌≢◌, refl, ap, Option, none, some, List, [], ◌∷◌, ◌==◌, inl,
  inr, Bool-cases, arith, All, length,
}
use change_control_plane.Prelude.Int.{pos, negsuc}
use change_control_plane.Types.{
  Time, DomainEvent, zero_domain_event, OutboxEvent, zero_outbox_event,
}
use change_control_plane.Events.{
  DispatchError, Subscribers, Handler, dispatch, run_handlers, handlers_of,
}
use change_control_plane.Events.Outbox.{
  Outbox, NotFound, claim_outbox_events, claim_from, get_outbox_event, is_claimable, claimed,
}
use change_control_plane.Events.Outbox.Claims.{
  IsKeyed, claim_outbox_events-pos, claim_outbox_events-claim_outbox_events,
}
use change_control_plane.Events.Outbox.Order.{IsOldestFirst, claim_outbox_events-IsOldestFirst}
use change_control_plane.Events.Durable.{
  TimeFormat, DurableBus, occurred, outbox_event_of, domain_event_from_outbox, settled,
  dispatch_pending, publish,
}
use change_control_plane.Events.Durable.Settlement.{
  IsDefault, AfterFailure, settled-AfterFailure, IsConsistent,
}
use change_control_plane.Events.Durable.Delivery.{
  publish-domain_event_from_outbox, Life, published, claim, settle, Life-IsConsistent,
}
use change_control_plane.Events.Durable.Memory.{
  memory_bus, LeavesOutbox, IsReleased, dispatch_pending-IsReleased,
}

abbrev stroke : Char
stroke = char 73 tt

-- Times written as so many strokes.
pub print_strokes : Time → String
print_strokes zero = ""
print_strokes (suc time) = String.◌∷◌ stroke (print_strokes time)

pub count_strokes : String → Time
count_strokes String.[] = zero
count_strokes (String.◌∷◌ c s) = suc (count_strokes s)

abbrev pub strokes : TimeFormat
strokes = record { print = print_strokes; parse = λ s. some (count_strokes s) }

count-print : (time : Time) → count_strokes (print_strokes time) ≡ time
unfolding count_strokes print_strokes
count-print zero = refl
count-print (suc time) = ap suc (count-print time)

abbrev pub rollout_event : DomainEvent
rollout_event = record zero_domain_event { type = "rollout.started"; resource_id = "exec_1" }

abbrev pub refused : DispatchError
refused = record { message = "no such service"; retryable = none }

-- It fails, and changes nothing.
abbrev failing : Handler (Outbox × Unit)
failing w event = (w, some refused)

abbrev listeners : Subscribers (Outbox × Unit)
listeners = ("rollout.started", failing ∷ []) ∷ []

abbrev clock : ℕ → Time
clock turn = 1000 + turn

abbrev pub bus : DurableBus (Outbox × Unit) NotFound
bus = memory_bus listeners strokes clock

pub bus-IsDefault : IsDefault bus
bus-IsDefault = record { delay = refl; limit = refl }

abbrev tried : OutboxEvent
tried = record zero_outbox_event { status = "processing"; attempts = pos 2; claimed_at = some 4 }

settled-AfterFailure_example :
    let out = settled bus strokes 1003 tried (some refused) in
    AfterFailure 2 1003 refused out
    × (out.attempts ≡ pos 3)
    × (out.claimed_at ≡ none)
    × (out.last_error ≡ "no such service")
settled-AfterFailure_example =
    settled-AfterFailure bus strokes 1003 tried refused 2 bus-IsDefault refl (omega arith)

abbrev empty : Outbox × Unit {0}
empty = ([], tt)

publish-domain_event_from_outbox_example :
    let after = publish bus strokes "evt_7" 7 empty rollout_event in
    (after.1 ≡ none)
    × (item : OutboxEvent) × (get_outbox_event after.0.0 "evt_7" ≡ (some item, none))
    × (domain_event_from_outbox strokes item ≡ record rollout_event {
      id = "evt_7";
      occurred_at = occurred rollout_event 7;
      payload = [];
    })
publish-domain_event_from_outbox_example =
    publish-domain_event_from_outbox listeners strokes clock "evt_7" 7 empty rollout_event
      (λ time. ap some (count-print time))

-- Published, claimed and refused.
abbrev pub refused_event : OutboxEvent
refused_event =
    settled bus strokes 12 (claimed 10 (outbox_event_of strokes "evt_7" 7 rollout_event))
      (some refused)

refused_event-Life : Life bus strokes refused_event
unfolding outbox_event_of is_claimable claimed
refused_event-Life =
    settle 12 (some refused) (claim 10 3 (published "evt_7" 7 rollout_event) refl) refl

Life-IsConsistent_example : IsConsistent refused_event
Life-IsConsistent_example = Life-IsConsistent bus strokes refused_event refused_event-Life

abbrev stored : Outbox
stored = ("", record zero_outbox_event { status = "pending"; event_type = "rollout.started" }) ∷ []

stored-IsKeyed : IsKeyed stored
stored-IsKeyed = (refl, refl, tt)

abbrev first_claim : Outbox × List OutboxEvent
first_claim = claim_from stored 200 (pos 50) 80

abbrev second_claim : Outbox × List OutboxEvent
second_claim = claim_from first_claim.0 300 (pos 50) 180

claim_outbox_events-claim_outbox_events_example :
    All (λ event. All (λ other. event.id ≢ other.id) second_claim.1) first_claim.1
claim_outbox_events-claim_outbox_events_example =
    claim_outbox_events-claim_outbox_events stored 200 300 80 180 (pos 50) (pos 50) first_claim
      second_claim stored-IsKeyed (omega arith) (claim_outbox_events-pos stored 200 50 80)
      (claim_outbox_events-pos first_claim.0 300 50 180)

claim_outbox_events-IsOldestFirst_example :
    (claim : Outbox × List OutboxEvent) × (claim_outbox_events stored 200 (pos 50) 80 ≡ some claim)
    × IsOldestFirst 0 claim.1
    × (length claim.1 ≤ 50)
claim_outbox_events-IsOldestFirst_example =
    claim_outbox_events-IsOldestFirst stored 200 50 80 (omega arith)

negative_test : claim_outbox_events stored 200 (negsuc 0) 80 ≡ none
unfolding claim_outbox_events
negative_test = refl

listeners_leave : LeavesOutbox listeners strokes clock
unfolding dispatch run_handlers handlers_of
listeners_leave w event = elim (Bool-cases ("rollout.started" == event.type)) [
  | inl heard ↦ rw heard refl
  | inr unheard ↦ rw unheard refl
]

dispatch_pending-IsReleased_example :
    (claim : Outbox × List OutboxEvent) × (claim_outbox_events stored 1000 (pos 50) 0 ≡ some claim)
    × (done : (Outbox × Unit) × ℕ × Option NotFound) × (dispatch_pending bus strokes clock
          (pos 50)
          (stored, tt)
        ≡ some done)
    × (done.2 ≡ none)
    × All (λ item. IsReleased done.0.0 item.id) claim.1
dispatch_pending-IsReleased_example =
    dispatch_pending-IsReleased listeners strokes clock 50 (stored, tt) stored-IsKeyed
      listeners_leave
