-- ===== src/Events.antt =====
-- internal/events/bus.go: the bus in memory, and what it takes from its handlers.
-- A handler reads and changes a state `W` of the program. Of an error the bus reads its message and
-- what `errors.As` finds: a `Retryable` method, with its answer.
pub mod Outbox
pub mod Durable
use change_control_plane.Prelude.{
  String, Bool, true, false, not, Option, none, some, List, [], ◌∷◌, ◌++◌, Assoc, lookup, insert,
}
use change_control_plane.Types.{DomainEvent}

pub record DispatchError : Type 0 where
  pub message : String
  pub retryable : Option Bool

abbrev pub Handler : Type 0 → Type 0
Handler W = W → DomainEvent → W × Option DispatchError

abbrev pub Subscribers : Type 0 → Type 0
Subscribers W = Assoc (List (Handler W))

module _ {W : Type 0} where
  abbrev pub or_nil : Option (List (Handler W)) → List (Handler W)
  or_nil none = []
  or_nil (some handlers) = handlers

  -- `b.subscribers[eventType]`
  unfoldable pub handlers_of : Subscribers W → String → List (Handler W)
  handlers_of subscribers event_type = or_nil (lookup event_type subscribers)

  unfoldable pub subscribe : Subscribers W → String → Handler W → Subscribers W
  unfolding handlers_of
  subscribe subscribers event_type handler =
      insert subscribers event_type (handlers_of subscribers event_type ++ (handler ∷ []))

  -- The handlers run in turn, up to the first error.
  unfoldable pub run_handlers : List (Handler W) → W → DomainEvent → W × Option DispatchError
  run_handlers [] w event = (w, none)
  run_handlers (handler ∷ handlers) w event =
      let done = handler w event in
      elim done.1 [ none ↦ run_handlers handlers done.0 event | some error ↦ (done.0, some error) ]

  unfoldable pub dispatch : Subscribers W → W → DomainEvent → W × Option DispatchError
  unfolding run_handlers handlers_of
  dispatch subscribers w event =
      run_handlers (handlers_of subscribers event.type ++ handlers_of subscribers "*") w event
