-- ===== src/Scheduler.antt =====
-- workflow/scheduler.go: the state of a DAG as the store has it, and the start of its ready steps;
-- with `enqueueStep` of workflow/dag.go.
pub mod Leader
pub mod Marks
pub mod Events
pub mod Sweep
pub mod Rules
pub mod Start
use Prim.Native.String.{◌++◌}
use ebind.Base.{
  ℕ, zero, suc, String, Bool, true, false, not, ◌||◌, Option, none, some, List, [], ◌∷◌, Map,
  lookup, is_nil, if◌then◌else◌,
}
use ebind.Types.{
  Json, StepStatus, running, done, skipped, DagStatus, BpState, StepRecord, DagMeta, DagState,
  SignalRecord, EventKind, completed, Event, Err, Result, ok, err, step_not_enqueueable, bad_args,
  status_eq, dag_status_eq,
}
use ebind.Task.{Task}
use ebind.Wire.{Outcome, value, skip, fail, unmarshal_args, resolve_args, of_list}
use ebind.Placement.{resolve_placement_target}
use ebind.Store.{get_meta, list_steps, list_signals, get_result}
use ebind.Runtime.{
  M, pure, raise, ◌>>=◌, ◌>>◌, read, catch, ignore, publish, enqueue, time_now, for_each,
}
use ebind.Control.Persist.{persist_status}
use ebind.Control.Pause.{bare_event}
use ebind.Control.Breakpoint.{index_from}
use ebind.Control.Signal.Report.{signal_map, signals_from}

abbrev pub loaded : DagMeta → List StepRecord → List SignalRecord → DagState
loaded meta steps sigs = record {
  meta = meta;
  steps = index_from [] steps;
  signals = signal_map sigs;
}

unfoldable pub load_state : String → M DagState
unfolding read get_meta list_steps list_signals index_from signals_from
load_state dag = read (get_meta dag) >>= λ (meta, rev).
    read (λ s. ok (list_steps dag s)) >>= λ steps.
    read (λ s. ok (list_signals dag s)) >>= λ sigs. pure (loaded meta steps sigs)

-- The results and the statuses that `snapshotUpstream` collects.
abbrev pub Upstream : Type 0
Upstream = Map Json × Map StepStatus

abbrev pub fetch_result : String → String → StepRecord → M (Map Json)
fetch_result dag id step =
    if status_eq step.status done
    then (read (get_result dag id) >>= λ bytes. pure ((id, bytes) ∷ []))
    else pure []

abbrev pub add_result : Map Json → Map Json → Map Json
add_result [] results = results
add_result (r ∷ rs) results = r ∷ results

unfoldable pub snapshot_upstream : String → Map StepRecord → M Upstream
unfolding read get_result status_eq
snapshot_upstream dag [] = pure ([], [])
snapshot_upstream dag ((id, step) ∷ steps) = fetch_result dag id step >>= λ found.
    snapshot_upstream dag steps >>= λ (results, statuses).
    pure (add_result found results, (id, step.status) ∷ statuses)

-- The zero value of `StepRecord`; arguments of no bytes are no JSON array.
abbrev pub zero_step : StepRecord
zero_step = record {
  dag_id = "";
  step_id = "";
  fn_name = "";
  args_json = Json.str "";
  deps = [];
  optional_deps = [];
  status = StepStatus.other "";
  attempt = 0;
  error_kind = "";
  error_message = [];
  optional = false;
  held = false;
  held_at = 0;
  break_before = [];
  break_after = [];
  bp_before = BpState.unset;
  bp_after = BpState.unset;
  bp_blocked_at = 0;
  wait_signals = [];
  policy = none;
  placement = none;
  worker_id = "";
  added_at = 0;
  started_at = 0;
  finished_at = 0;
}

abbrev pub or_zero : Option StepRecord → StepRecord
or_zero none = zero_step
or_zero (some rec) = rec

abbrev pub task_of : StepRecord → Json → String → ℕ → Task
task_of rec payload target now = record {
  id = (rec.dag_id ++ ":") ++ rec.step_id;
  name = rec.fn_name;
  payload = payload;
  reply_to = "";
  deadline = 0;
  enqueued_at = now;
  attempt = 0;
  dag_id = rec.dag_id;
  step_id = rec.step_id;
  retry_policy = rec.policy;
  target = target;
  worker_id = "";
}

abbrev pub enqueue_at : StepRecord → Json → Result String → M (Unit {0})
enqueue_at rec payload (err e) = raise e
enqueue_at rec payload (ok target) = time_now >>= λ now. enqueue (task_of rec payload target now)

abbrev pub enqueue_resolved : StepRecord → Map StepRecord → Outcome (List Json) → M (Unit {0})
enqueue_resolved rec steps skip = pure tt
enqueue_resolved rec steps (fail e) = raise e
enqueue_resolved rec steps (value resolved) =
    enqueue_at rec (Json.arr (of_list resolved)) (resolve_placement_target rec steps)

abbrev pub resolve_raw : Upstream → Map SignalRecord → Option (List Json) → Outcome (List Json)
resolve_raw up signals none = fail bad_args
resolve_raw up signals (some raw) = resolve_args up.0 up.1 signals raw

unfoldable pub enqueue_step :
    StepRecord → Map StepRecord → Upstream → Map SignalRecord → M (Unit {0})
unfolding enqueue time_now resolve_placement_target resolve_args
enqueue_step rec steps up signals =
    enqueue_resolved rec steps (resolve_raw up signals (unmarshal_args rec.args_json))

abbrev pub is_refusal : Err → Bool
is_refusal step_not_enqueueable = true
is_refusal _ = false

-- A step that may not start is passed over; another error ends the loop.
abbrev pub unless_refused : M (Unit {0}) → Result (Unit {0}) → M (Unit {0})
unless_refused m (ok u) = m
unless_refused m (err e) = if is_refusal e then pure tt else raise e

abbrev pub skipped_event : String → String → Event
skipped_event dag id = record (bare_event completed dag id) { status = skipped }

-- A step that is skipped has its dependents looked at again, as long as the bus takes the event.
abbrev pub skip_now : String → String → M (Unit {0})
skip_now dag id = ignore (persist_status dag id skipped) >> ignore (publish (skipped_event dag id))

abbrev pub start_resolved :
    DagState → Upstream → String → StepRecord → Outcome (List Json) → M (Unit {0})
start_resolved state up id rec skip = skip_now state.meta.id id
start_resolved state up id rec (fail e) = raise e
start_resolved state up id rec (value resolved) = enqueue_step rec state.steps up state.signals

abbrev pub start : DagState → Upstream → String → StepRecord → M (Unit {0})
start state up id rec =
    start_resolved state up id rec (resolve_raw up state.signals (unmarshal_args rec.args_json))

-- The body of the loop: first the status in the store, then the arguments and the task.
unfoldable pub enqueue_one : DagState → Upstream → String → M (Unit {0})
unfolding catch persist_status enqueue_step publish lookup resolve_args
enqueue_one state up id =
    catch (persist_status state.meta.id id running)
    >>= unless_refused (start state up id (or_zero (lookup id state.steps)))

-- Nothing starts in a DAG that is canceled, pausing or paused.
abbrev pub starts_nothing : DagStatus → Bool
starts_nothing DagStatus.canceled = true
starts_nothing DagStatus.pausing = true
starts_nothing DagStatus.paused = true
starts_nothing _ = false

unfoldable pub enqueue_ready : DagState → List String → M (Unit {0})
unfolding snapshot_upstream enqueue_one for_each
enqueue_ready state ready =
    if is_nil ready || starts_nothing state.meta.status
    then pure tt
    else (snapshot_upstream state.meta.id state.steps >>= λ up.
        for_each (enqueue_one state up) ready)
