-- ===== src/Lib.antt =====
-- ebind: durable workflows on a queue. This library models package workflow, the handling of a message
-- in package worker and the retry policy of package task, and proves what keeps a DAG of steps correct.
--
-- The program: a DAG is a set of step records and one meta record in a store with compare-and-set by
-- revision. Submit writes a DAG and starts its roots, the scheduler starts the steps that are ready,
-- workers run them and write their outcomes by a hook, running steps add others, and operators pause,
-- resume, cancel and signal a DAG. All of them write to one store at once, and each write that lost a
-- race is tried again.
--
--   Base          Boolean tests, sets as lists, sorts, and Go's maps as association lists
--   Types         the records of workflow/state.go, workflow/ref.go, workflow/placement.go,
--                 workflow/events.go and workflow/errors.go
--   Wire          workflow/ref.go: references in a step's arguments, and ResolveArgs
--   State         workflow/state.go: the view of a DAG in memory and its transitions; State/Cascade
--                 has cascadeSkipFrom, MarkDone, MarkFailed and MarkSkipped
--   Store         workflow/store_mem.go: the store with revisions
--   Nats          workflow/store_nats.go: the store on a JetStream bucket; Nats/Reads has listLive,
--                 Nats/Operations the methods
--   Contract      workflow/store.go: what StateStore promises of its writes; Contract/Memory and
--                 Contract/Nats show that the two stores keep it, Contract/Races uses it
--   Task          task/task.go and task/retry.go
--   Runtime       how an operation runs: the store, the bus, the queue, and the other writers;
--                 Runtime/Rely has the rules that every writer keeps, and Runtime/Alone what a
--                 create does where nobody else writes
--   Control       one module per operation: Cancel (workflow/cancel.go), Persist (persistStatus of
--                 workflow/scheduler.go), Hook and Message (workflow/hook.go), Pause
--                 (workflow/pause.go), Signal (workflow/signal.go), Breakpoint
--                 (workflow/breakpoint.go), Delete (workflow/delete.go)
--   Builder       workflow/dag.go and workflow/step.go: what a step waits on, and detectCycles;
--                 Builder/Options has the options of DAGs and steps, and addStep
--   Submit        Submit of workflow/dag.go: its checks, the records, and the start of the roots
--   Dynamic       StepOpts of workflow/context.go
--   Placement     resolvePlacementTarget of workflow/placement.go
--   Query         workflow/query.go: MatchesLabels and ListDAGsByLabels
--   Debug         workflow/debug.go: the snapshot that Debug makes
--   Worker        worker/worker.go, worker/middleware.go and worker/hook.go: one message, from its
--                 delivery to its settlement; Worker/Claims has worker/claims.go and the refresh of the
--                 claims, Worker/Defaults the options
--   Registry      task/registry.go: the names of the handlers
--   Dlq           dlq/dlq.go and dlq/requeue.go; Stream has the subjects of stream/setup.go
--   Scheduler     workflow/scheduler.go, with enqueueStep of workflow/dag.go: the start of ready
--                 steps, Marks (markBlockedBreakpoints, releaseOrphanedHolds), Events (handleEvent and
--                 its handlers), Sweep, Leader (watchLeadership)
--   System        the operations together, DeleteDAG apart; System/Peers has the writes of other
--                 processes that run the same program, and shows that they keep to the rules
--   Examples      small cases
--
-- State and operations. A method that changes a Go object returns the new one. An operation of
-- package workflow is a function of a World and answers a result and a World; a Go name like
-- enqueueReady is enqueue_ready here. World holds what other processes do to the store, a function
-- before each call, which stands for as many writes as they make there. A theorem with AllInterfere
-- in it supposes of each such change only that no step is lost, that a step record keeps its
-- configuration, does not go back to pending, leaves a terminal status only for skipped and keeps a
-- released breakpoint, that signals stay, and that a revision does not come back with another
-- record. Guarantees says that an operation itself changes the store only in these ways, the last
-- one left out. A theorem that asks for no other writers has others empty.
--
-- Bounds and fuel. A revision is a uint64 and wraps. The loop of cascadeSkipFrom has fuel for one
-- round for the root and one for each step; walk_lem shows that the queue is then empty. The search
-- of resolvePlacementTarget has fuel for two steps more than the DAG has, and that of detectCycles
-- for each step. leaderSubjects asks for pages as long as they have a new subject, so Nats/Reads
-- has fuel for it, and one more than the subjects that there are is enough. The loops that compare
-- and set try as often as the source says. Times are nanoseconds, 0 the zero time. One operation
-- reads one clock value throughout.
--
-- Not modelled: the NATS client and its streams, goroutines and channels, contexts and their
-- deadlines, the waits between two attempts, reflection, the text of error messages, the layout of
-- reports. Worker.Run, its consumers and its shutdown are among the goroutines, as is await.go.
-- What task/retry.go takes from float64 is the record Floats, a parameter: the bits of a float64,
-- the product of an interval with a power, and what a conversion out of range gives. The client of
-- a JetStream bucket is the record Kv, and the JSON of the records is the record Codec, both
-- parameters; IsBucket, IsRead and IsPaged say what is asked of them. So is the client of the dead
-- letters, DlqClient, with IsDlq. The operations on a World run on the store in memory. DeleteDAG
-- is no write of the other processes that AllInterfere speaks of. A JSON value is a tree, so the
-- marker of a reference is looked for in its texts and keys as encoding/json writes them, and
-- encoding/json's case-insensitive match of field names and its choice among repeated keys are left
-- out, as is the count that ResumeBreakpoint returns with an error.
pub mod Base
pub mod Builder
pub mod Contract
pub mod Control
pub mod Debug
pub mod Dlq
pub mod Dynamic
pub mod Examples
pub mod Nats
pub mod Placement
pub mod Query
pub mod Registry
pub mod Runtime
pub mod Scheduler
pub mod State
pub mod Store
pub mod Stream
pub mod Submit
pub mod System
pub mod Task
pub mod Types
pub mod Wire
pub mod Worker
