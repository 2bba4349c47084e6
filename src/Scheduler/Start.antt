-- ===== src/Scheduler/Start.antt =====
-- When the scheduler starts a step, and when it does not.
use Prim.Native.String.{◌++◌ as append}
use Prim.Native.Nat.{◌%◌}
use ebind.Store.Laws.{put_step_cas}
use ebind.Base.{
  ◌+◌, ◌==◌, ◌&&◌, ℕ, String, true, false, some, List, [], ◌∷◌, ◌++◌, lookup, refl, arith, ◌≡◌, ◌⊎◌,
  eqb, if◌then◌else◌,
}
use ebind.Types.{
  Json, StepRecord, running, pending, DagState, Event, ok, err, queue_down, status_eq, is_terminal,
}
use ebind.Task.{Task}
use ebind.Wire.{value, unmarshal_args, of_list}
use ebind.Placement.{resolve_placement_target}
use ebind.Store.{MemEntry, MemStore, MemMetaEntry, find_in, get_meta, put_step}
use ebind.Runtime.{World, found_store, catch, read, call, write, is_up, rest_of, enqueue, time_now}
use ebind.Runtime.Runs.{after_read, cas_step-write}
use ebind.Control.Persist.{persist_status, persist_decision, persist_running-refused}
use ebind.Scheduler.{Upstream, load_state, resolve_raw, enqueue_step, enqueue_one}
use ebind.Scheduler.Events.{is_gated, handle_event}

-- When the step that the store holds is fenced or over, and not running, the scheduler passes
-- over it although its own view lists it as ready: no task is enqueued, no event is published,
-- nothing is written, and the loop goes on without an error.
pub fenced_not_enqueued :
    (state : DagState) (up : Upstream) (id : String) (w : World) {e : MemEntry}
    → find_in state.meta.id id (found_store w.others w.store).steps ≡ some e
    → (e.rec.held ≡ true) ⊎ (is_terminal e.rec ≡ true)
    → status_eq e.rec.status running ≡ false
    → enqueue_one state up id w ≡ (ok tt, after_read w)
unfolding enqueue_one catch
fenced_not_enqueued state up id w found fenced idle =
    rw (persist_running-refused state.meta.id id w found fenced idle) refl

-- When nobody else writes, an event for a DAG that is canceled or paused, and one that adds work
-- to a DAG that is pausing, is taken without an error and changes neither the store nor the
-- events nor the tasks.
pub gated_event_inert :
    (ev : Event) (w : World) {e : MemMetaEntry}
    → w.others ≡ []
    → lookup ev.dag_id w.store.metas ≡ some e
    → is_gated e.meta.status ev.kind ≡ true
    → handle_event ev w ≡ (ok tt, record w { others = [] })
unfolding handle_event load_state read call get_meta
gated_event_inert ev w alone found gated = rw (alone, found, gated) refl

starts :
    (now : ℕ) (rec : StepRecord)
    → rec.status ≡ pending
    → rec.held ≡ false
    → persist_decision now running rec
      ≡ write
          (record rec {
            status = running;
            started_at = if eqb rec.started_at 0 then now else rec.started_at;
          })
          tt
unfolding status_eq is_terminal
starts now rec waits free = ground arith

module _ (state : DagState) (up : Upstream) (id : String) (w : World) {e : MemEntry}
    {rec : StepRecord} {vs : List Json} {target : String}
    (found : find_in state.meta.id id w.store.steps ≡ some e) (used : eqb e.rev 0 ≡ false)
    (waits : e.rec.status ≡ pending) (free : e.rec.held ≡ false)
    (known : lookup id state.steps ≡ some rec)
    (resolved : resolve_raw up state.signals (unmarshal_args rec.args_json) ≡ value vs)
    (placed : resolve_placement_target rec state.steps ≡ ok target) where
  abbrev started_record : StepRecord
  started_record = record e.rec {
    status = running;
    started_at = if eqb e.rec.started_at 0 then w.clock else e.rec.started_at;
  }

  persisted : persist_status state.meta.id id running (record w { others = [] }) ≡ (
    ok tt,
    record w { store = (put_step state.meta.id id w.store started_record e.rev).1; others = [] },
  )
  unfolding persist_status time_now
  persisted =
      cas_step-write state.meta.id id (persist_decision w.clock running) w 4 found used
        (starts w.clock e.rec waits free)

  abbrev the_task : Task
  the_task = record {
    id = append (append rec.dag_id ":") rec.step_id;
    name = rec.fn_name;
    payload = Json.arr (of_list vs);
    reply_to = "";
    deadline = 0;
    enqueued_at = w.clock;
    attempt = 0;
    dag_id = rec.dag_id;
    step_id = rec.step_id;
    retry_policy = rec.policy;
    target = target;
    worker_id = "";
  }

  abbrev started_store : MemStore
  started_store = (put_step state.meta.id id w.store started_record e.rev).1

  sent :
      enqueue_step rec state.steps up state.signals
        (record w { store = started_store; others = [] })
      ≡ (if is_up w.queue_up
          then (
            ok tt,
            record w {
              store = started_store;
              others = [];
              tasks = w.tasks ++ the_task ∷ [];
              queue_up = rest_of w.queue_up;
            },
          )
          else (
            err queue_down,
            record w { store = started_store; others = []; queue_up = rest_of w.queue_up },
          ))
  unfolding enqueue_step enqueue time_now
  sent = rw (resolved, placed) refl

  enqueued :
      is_up w.queue_up ≡ true
      → enqueue_one state up id (record w { others = [] }) ≡ (
        ok tt,
        record w {
          store = started_store;
          others = [];
          tasks = w.tasks ++ the_task ∷ [];
          queue_up = rest_of w.queue_up;
        },
      )
  unfolding enqueue_one catch
  enqueued up_now = rw (persisted, known, resolved, sent, up_now) refl

  -- What the start of the step leaves: one more task, and one other entry among the steps.
  abbrev pub Started : World → Type 0
  Started w' =
      (w'.tasks ≡ w.tasks ++ the_task ∷ [])
      × (w'.events ≡ w.events)
      × ((dag k : String)
          → find_in dag k w'.store.steps ≡ (
              if state.meta.id == dag && id == k
              then some (record {
                rec = record e.rec {
                  status = running;
                  started_at = if eqb e.rec.started_at 0 then w.clock else e.rec.started_at;
                };
                rev = (e.rev + 1) % 18446744073709551616;
              })
              else find_in dag k w.store.steps))

  started_steps :
      (dag k : String)
      → find_in dag k started_store.steps ≡ (
          if state.meta.id == dag && id == k
          then some (record { rec = started_record; rev = (e.rev + 1) % 18446744073709551616 })
          else find_in dag k w.store.steps)
  started_steps dag k =
      rw ((put_step_cas state.meta.id id w.store started_record e.rev).1 dag k, found)
        (ground (arith, used))

  -- When nobody else writes, a stored step that is pending and not held, at a revision that is
  -- in use, whose arguments resolve and whose target is known, is set to running, with the
  -- present time as its start if it had none, at the next revision; a task with its identifier,
  -- function, resolved arguments, policy and target is put on the queue, if the queue takes it;
  -- nothing else among the steps and the tasks changes, and no event is published.
  pub ready_enqueued :
      is_up w.queue_up ≡ true
      → ((enqueue_one state up id (record w { others = [] })).0 ≡ ok tt)
        × Started (enqueue_one state up id (record w { others = [] })).1
  ready_enqueued up_now = rw (enqueued up_now) (refl, (refl, refl, started_steps))

  -- When nobody else writes and the queue refuses the task of such a step, the error is passed
  -- on and the store keeps the step as running, with no task on the queue.
  pub refused_strands :
      is_up w.queue_up ≡ false
      → enqueue_one state up id (record w { others = [] }) ≡ (
        err queue_down,
        record w { store = started_store; others = []; queue_up = rest_of w.queue_up },
      )
  unfolding enqueue_one catch
  refused_strands down_now = rw (persisted, known, resolved, sent, down_now) refl
