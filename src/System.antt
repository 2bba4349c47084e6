-- ===== src/System.antt =====
-- The operations that write to the store of a DAG, together: Cancel, Pause, Resume, Signal and
-- ResumeBreakpoint, the reports of a worker, the steps that a running step adds, and the scheduler's
-- events and sweeps. DAGs are submitted and deleted outside of these.
pub mod Peers
use ebind.Base.{String, Option, List, [], ◌∷◌, some, ◌≡◌}
use ebind.Types.{Json, Event, SignalRecord}
use ebind.Task.{Task, TaskError}
use ebind.Wire.Args.{Arg}
use ebind.Builder.Options.{StepOption}
use ebind.Dynamic.{ContextDag, step_opts}
use ebind.Dynamic.Rules.{Guarantees-step_opts}
use ebind.Store.{MemEntry, find_in}
use ebind.Runtime.{World, M, pure, ◌>>◌, ignore}
use ebind.Runtime.Rely.{Guarantees, AllInterfere, RecEvolves}
use ebind.Runtime.Rely.Rules.{Guarantees-pure, Guarantees-bind, Guarantees-ignore}
use ebind.Control.Cancel.{cancel}
use ebind.Control.Cancel.Sweep.{Guarantees-cancel}
use ebind.Control.Pause.{pause, resume}
use ebind.Control.Pause.Rules.{Guarantees-pause, Guarantees-resume}
use ebind.Control.Signal.{signal}
use ebind.Control.Signal.Delivery.{Guarantees-signal}
use ebind.Control.Breakpoint.{resume_breakpoint}
use ebind.Control.Breakpoint.Release.{Guarantees-resume_breakpoint}
use ebind.Control.Hook.{StepHook, on_step_done, on_step_failed}
use ebind.Control.Hook.Outcome.{Guarantees-on_step_done, Guarantees-on_step_failed}
use ebind.Scheduler.Events.{handle_event}
use ebind.Scheduler.Sweep.{sweep}
use ebind.Scheduler.Rules.Handlers.{Guarantees-handle_event, Guarantees-sweep}

pub data Operation : Type 0 where
  cancels pauses resumes : String → Operation
  signals : String → String → Json → Operation
  passes_breakpoint : String → String → Operation
  step_done : Task → Json → Operation
  step_failed : StepHook → Task → TaskError → Operation
  event : Event → Operation
  sweeps : Operation
  adds_step : ContextDag → String → Option String → List Arg → List StepOption → Operation

-- The caller of an operation sees its answer; the others see what it did.
unfoldable pub run : Operation → M (Unit {0})
unfolding cancel pause resume signal resume_breakpoint on_step_done on_step_failed handle_event
    sweep step_opts
run (Operation.cancels dag) = ignore (cancel dag)
run (Operation.pauses dag) = ignore (pause dag)
run (Operation.resumes dag) = ignore (resume dag)
run (Operation.signals dag name payload) = ignore (signal dag name payload)
run (Operation.passes_breakpoint dag label) = ignore (resume_breakpoint dag label)
run (Operation.step_done t result) = ignore (on_step_done t result)
run (Operation.step_failed hook t e) = ignore (on_step_failed hook t e)
run (Operation.event ev) = ignore (handle_event ev)
run Operation.sweeps = ignore sweep
run (Operation.adds_step c id fn args opts) = ignore (step_opts c id fn args opts)

unfoldable pub run_all : List Operation → M (Unit {0})
unfolding run
run_all [] = pure tt
run_all (op ∷ ops) = run op >> run_all ops

Guarantees-run : (op : Operation) → Guarantees (run op)
unfolding run
Guarantees-run (Operation.cancels dag) = Guarantees-ignore _ (Guarantees-cancel dag)
Guarantees-run (Operation.pauses dag) = Guarantees-ignore _ (Guarantees-pause dag)
Guarantees-run (Operation.resumes dag) = Guarantees-ignore _ (Guarantees-resume dag)
Guarantees-run (Operation.signals dag name payload) =
    Guarantees-ignore _ (Guarantees-signal dag name payload)
Guarantees-run (Operation.passes_breakpoint dag label) =
    Guarantees-ignore _ (Guarantees-resume_breakpoint dag label)
Guarantees-run (Operation.step_done t result) =
    Guarantees-ignore _ (Guarantees-on_step_done t result)
Guarantees-run (Operation.step_failed hook t e) =
    Guarantees-ignore _ (Guarantees-on_step_failed hook t e)
Guarantees-run (Operation.event ev) = Guarantees-ignore _ (Guarantees-handle_event ev)
Guarantees-run Operation.sweeps = Guarantees-ignore _ Guarantees-sweep
Guarantees-run (Operation.adds_step c id fn args opts) =
    Guarantees-ignore _ (Guarantees-step_opts c id fn args opts)

Guarantees-run_all : (ops : List Operation) → Guarantees (run_all ops)
unfolding run_all
Guarantees-run_all [] = Guarantees-pure tt
Guarantees-run_all (op ∷ ops) =
    Guarantees-bind (run op) _ (Guarantees-run op) (λ _. Guarantees-run_all ops)

-- A step moves on whatever sequence of operations runs.
pub steps_move_on :
    (ops : List Operation) (w : World) (dag k : String) {e : MemEntry}
    → AllInterfere w.others
    → find_in dag k w.store.steps ≡ some e
    → (e' : MemEntry) × (find_in dag k (run_all ops w).1.store.steps ≡ some e')
      × RecEvolves e.rec e'.rec
steps_move_on ops w dag k h found = ((Guarantees-run_all ops).at w h).0.kept dag k found

-- Whatever sequence of cancels, pauses, resumes, signals, breakpoint releases, worker reports,
-- additions of steps by running ones, scheduler events and sweeps runs, with other writers that
-- keep to the rules between their calls, a signal record that the store holds at the beginning is
-- there unchanged at the end.
pub signals_stay :
    (ops : List Operation) (w : World) (dag name : String) {r : SignalRecord}
    → AllInterfere w.others
    → find_in dag name w.store.signals ≡ some r
    → find_in dag name (run_all ops w).1.store.signals ≡ some r
signals_stay ops w dag name h found = ((Guarantees-run_all ops).at w h).0.delivered dag name found
