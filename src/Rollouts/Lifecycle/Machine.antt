-- ===== src/Rollouts/Lifecycle/Machine.antt =====
-- internal/rollouts/lifecycle.go: the table of transitions, over enumerated states and actions.
use change_control_plane.Prelude.{
  String, ◌≡◌, refl, ap, ◌↔◌, Option, none, some, ◌==◌, if◌then◌else◌, lookup, lookup_All, All,
  Assoc,
}
use change_control_plane.Rollouts.Lifecycle.{next_execution_state, transitions, row}

pub data State : Type 0 where
  planned awaiting_approval approved in_progress paused verified completed failed rolled_back :
      State

pub data Action : Type 0 where
  start pause approve rollback verify fail complete continue resume : Action

abbrev pub status_of : State → String
status_of planned = "planned"
status_of awaiting_approval = "awaiting_approval"
status_of approved = "approved"
status_of in_progress = "in_progress"
status_of paused = "paused"
status_of verified = "verified"
status_of completed = "completed"
status_of failed = "failed"
status_of rolled_back = "rolled_back"

abbrev pub name_of : Action → String
name_of start = "start"
name_of pause = "pause"
name_of approve = "approve"
name_of rollback = "rollback"
name_of verify = "verify"
name_of fail = "fail"
name_of complete = "complete"
name_of continue = "continue"
name_of resume = "resume"

-- Reading a status back.
state_of : String → Option State
state_of text =
    if text == "planned"
    then some planned
    else if text == "awaiting_approval"
    then some awaiting_approval
    else if text == "approved"
    then some approved
    else if text == "in_progress"
    then some in_progress
    else if text == "paused"
    then some paused
    else if text == "verified"
    then some verified
    else if text == "completed"
    then some completed
    else if text == "failed"
    then some failed
    else if text == "rolled_back"
    then some rolled_back
    else none

state_of-status_of : (s : State) → state_of (status_of s) ≡ some s
unfolding state_of
state_of-status_of planned = refl
state_of-status_of _ = refl

-- Different states have different texts.
pub status_of-injective : (s t : State) → status_of s ≡ status_of t → s ≡ t
status_of-injective s t e = cc (state_of-status_of s, state_of-status_of t, ap state_of e)

-- A transition of the table.
pub data Edge : State → Action → State → Type 0 where
  begin : Edge planned start in_progress
  hold : Edge planned pause paused
  grant : Edge awaiting_approval approve approved
  reject : Edge awaiting_approval rollback rolled_back
  begin_approved : Edge approved start in_progress
  hold_approved : Edge approved pause paused
  suspend : Edge in_progress pause paused
  check : Edge in_progress verify verified
  break : Edge in_progress fail failed
  undo : Edge in_progress rollback rolled_back
  finish : Edge in_progress complete completed
  go_on : Edge paused continue in_progress
  wake : Edge paused resume in_progress
  undo_paused : Edge paused rollback rolled_back
  break_paused : Edge paused fail failed
  reopen : Edge verified continue in_progress
  finish_verified : Edge verified complete completed
  undo_verified : Edge verified rollback rolled_back
  suspend_verified : Edge verified pause paused
  undo_failed : Edge failed rollback rolled_back

-- The texts of an edge.
pub record IsEdge (current action next : String) : Type 0 where
  pub source : State
  pub by : Action
  pub target : State
  pub edge : Edge source by target
  pub current_text : current ≡ status_of source
  pub action_text : action ≡ name_of by
  pub next_text : next ≡ status_of target

pub next_execution_state-Edge :
    {s t : State} {a : Action}
    → Edge s a t
    → next_execution_state (status_of s) (name_of a) ≡ some (status_of t)
unfolding next_execution_state
next_execution_state-Edge begin = refl
next_execution_state-Edge _ = refl

texts_of : {s t : State} {a : Action} → Edge s a t → IsEdge (status_of s) (name_of a) (status_of t)
texts_of {s} {t} {a} e = record {
  source = s;
  by = a;
  target = t;
  edge = e;
  current_text = refl;
  action_text = refl;
  next_text = refl;
}

-- Every entry of a row is an edge.
abbrev RowOf : String → Assoc String → Type 0
RowOf current = All (λ (e : String × String). IsEdge current e.0 e.1)

transitions_edges : All (λ (r : String × Assoc String). RowOf r.0 r.1) transitions
transitions_edges = (
  (texts_of begin, (texts_of hold, tt)),
  (
    (texts_of grant, (texts_of reject, tt)),
    (
      (texts_of begin_approved, (texts_of hold_approved, tt)),
      (
        (
          texts_of suspend,
          (texts_of check, (texts_of break, (texts_of undo, (texts_of finish, tt)))),
        ),
        (
          (texts_of go_on, (texts_of wake, (texts_of undo_paused, (texts_of break_paused, tt)))),
          (
            (
              texts_of reopen,
              (texts_of finish_verified, (texts_of undo_verified, (texts_of suspend_verified, tt))),
            ),
            ((texts_of undo_failed, tt), tt),
          ),
        ),
      ),
    ),
  ),
)

row-edges :
    (current : String) (found : Option (Assoc String))
    → lookup current transitions ≡ found
    → RowOf current (row found)
unfolding row
row-edges current none e = tt
row-edges current (some entries) e =
    lookup_All RowOf current transitions entries transitions_edges e

-- An action moves a status to the next one exactly when the three texts are those of an edge.
pub next_execution_state-eq-some_iff :
    (current action next : String)
    → (next_execution_state current action ≡ some next) ↔ IsEdge current action next
unfolding next_execution_state
next_execution_state-eq-some_iff current action next = (
  λ e. lookup_All (IsEdge current) action _ next (row-edges current _ refl) e,
  λ h. rw (h.current_text, h.action_text, h.next_text) (next_execution_state-Edge h.edge),
)
