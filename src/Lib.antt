-- ===== src/Lib.antt =====
-- Change control plane: what a change of software has to pass before it is rolled out.
--
-- A change is assessed by the risk engine, which gives a score, a level and the approval, strategy,
-- window and guardrails that it recommends. Policies that match the change add decisions. The
-- planner turns both into a rollout plan, and an execution of the plan is moved by actions and by
-- verification decisions. Domain events go through an outbox in the store, from where the durable
-- bus hands them to their handlers, with retries. Who may ask for what is decided by the authorizer,
-- on the identity that a request was loaded with. The verification engine turns the latest signals
-- of an execution into a decision.
--
-- The parts, and the code that they model, by paths from the repository's root:
--   Prelude    the names, lists, texts, integers and number formats that the parts share
--   Types      pkg/types: the records, one field for one field; `zero_x` is Go's zero value
--   Risk       internal/risk/engine.go: `Assess` is `assess`; the calls of its closure `add` are the
--              steps `add_case`, `add_if` of `tally_of`. Risk/Recommend has the recommendations and
--              the blast radius; Risk/Points, Bounds, Monotone and Advice have the theorems
--   Policies   internal/policies/evaluator.go: `EvaluatePolicy` is `evaluate_policy`, of which
--              `evaluate_conditions` is the part after the guards; Policies/Normal has the
--              normalisation and the validation, Policies/Triggers `ComputeTriggers`,
--              Policies/Membership and Meaning the theorems
--   Rollouts   internal/rollouts: Rollouts/Planner is planner.go, Rollouts/Lifecycle lifecycle.go.
--              Lifecycle/Trace has sequences of calls, Machine its states and edges, Timestamps, Approval
--              and Closed the theorems; Rollouts/Governance joins risk, plan and execution
--   Events     internal/events/bus.go and the outbox of internal/app/store.go: Events is the bus in
--              memory, Events/Outbox the outbox of `InMemoryStore`, Events/Durable `DurableBus` over
--              the interface `OutboxStore`, which `memory_store` of Durable/Memory fills
--   Auth       internal/auth: Auth is identity.go, Auth/Authorizer authorizer.go, and Auth/Service
--              the loading of identities of service.go
--   Verification  internal/verification/engine.go: `Evaluate` is `evaluate` of Verification/Evaluate,
--              `judged` its `switch` on the health; Evaluate/Decisions and Safety have the theorems
--   Delivery   internal/delivery/simulated.go, one function per operation of the provider
--   Workflows  internal/workflows/control_loop.go: `nextAction`
--   Redaction  pkg/types/redaction.go: what is withheld of metadata; Redaction/Clean has the theorems
--   App        internal/app over the store in memory. App is the call, the tables, the errors and the
--              checks of the identity (application.go), and the monad of an operation: `require`,
--              `found` and `branch` are its early returns. App/Meets has the rules that the theorems
--              are composed with. App/Store is store.go (listings, pages, policies, executions,
--              results), App/Status status.go and internal/status, App/Record the logs that an
--              operation leaves (internal/audit). App/Policies is policies.go: Code, Resolve and
--              Decisions for its parts, Prepare, Unique and Handlers for what the handlers do.
--              App/Executions is the part of operations.go that moves an execution, Executions/Verify
--              the part that records verification results. App/Recovery is outbox_recovery.go, read
--              and written in two steps, so that Recovery/Race can put another recovery in between
--   Tests      concrete inputs
--
-- How the code is read:
--   * A function that reads the clock or makes an identifier takes them as arguments. A
--     `time.Time` is a number of nanoseconds after the zero time, and none is before it.
--   * An `int` is an integer. Where the code multiplies, shifts or counts attempts, the result is
--     wrapped to 64 bits (`int64`); the additions of the score are not wrapped, and the range of the
--     score shows that no wrap is in reach. Counts below 2 ^ 62 (`CountsFit`) double exactly.
--   * A `float64` is a number of thousandths, as the constants of the code are.
--   * A map from texts is an association list, a nil map an empty one. The order in which Go visits
--     a map is that of the entries. `sort.Slice` and `sort.Strings` are sorts by insertion.
--   * `strings.ToLower` and `strings.EqualFold` are modelled on ASCII letters; other characters
--     stay. `%q` puts quotes around a text and escapes nothing.
--   * An error is a value: an `Option`, a sum, or a data type of the errors that are told apart. What
--     is only text of an error is its arguments.
--   * A handler of the bus reads and changes a state `W`; of its error the bus reads the message and
--     what `Retryable` says. `metadata` of `Any` is a value of the type `types.Metadata`, `object`
--     one of `map[string]any`, which a type assertion tells apart.
--     Values of `any` beyond texts, numbers, booleans and their lists and maps (such as times) are not
--     among those of `Any`.
--   * A run-time panic is an outcome: `none` of what an operation would return, or `panic` of
--     `AppError`.
--   * An operation of internal/app is a function on the tables (`App`), and ends with a result or an
--     error beside the tables as it leaves them. It reads the clock once, and the identifiers it
--     makes are numbered by their prefix. The store in memory fails no write, and its transaction is a
--     plain call. The response of a handler is its result.
--   * The format of times (`time.RFC3339Nano`), the hash of opaque tokens and the identity store are
--     parameters. What is asked of them stands in the theorem: that a time is read back from its
--     text.
--   * The digits of a number are written by recursion on one round more than the number itself,
--     which is enough. No other definition takes fuel: the loops are over lists.
--
-- Not modelled: the locks (each operation of the store is one step), the HTTP API, SQL storage, live
-- delivery backends and signal queries, sign-in flows and token signatures. The rounds of
-- the control loop, the creation and reconciliation of executions, and the handlers of internal/app
-- that are not named above are left for later.
pub mod Prelude
pub mod Types
pub mod Rollouts
pub mod Risk
pub mod Policies
pub mod Events
pub mod Auth
pub mod Verification
pub mod Delivery
pub mod Workflows
pub mod Redaction
pub mod App
pub mod Tests
