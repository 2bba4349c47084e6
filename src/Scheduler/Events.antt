-- ===== src/Scheduler/Events.antt =====
-- The handlers of workflow/scheduler.go: what the scheduler does at an event.
use ebind.Base.{
  ℕ, String, Bool, true, false, not, ◌||◌, ◌&&◌, is_some, List, [], ◌∷◌, lookup, keys,
  if◌then◌else◌,
}
use ebind.Types.{
  StepStatus, done, failed, skipped, DagStatus, DagMeta, DagState, EventKind, completed, step_added,
  resumed, Event, Result, ok, err, step_not_found, unknown_completion, dag_status_eq,
}
use ebind.State.{ready_to_run, all_steps_terminal, derive_final_status, terminal}
use ebind.State.Cascade.{cascade_skip_from, mark_done, mark_failed, mark_skipped}
use ebind.Store.{get_meta, put_meta}
use ebind.Runtime.{M, pure, raise, ◌>>=◌, ◌>>◌, call, read, retry_on_stale, time_now, for_each}
use ebind.Control.Persist.{persist_status}
use ebind.Control.Pause.{fence_pending_steps}
use ebind.Scheduler.{load_state, or_zero, enqueue_ready}
use ebind.Scheduler.Marks.{mark_blocked_breakpoints}

-- The meta record that `finalizeDAG` writes, if it does.
abbrev pub finalize_at : String → DagStatus → DagMeta → ℕ → DagStatus → M (Unit {0})
finalize_at dag final meta rev DagStatus.running =
    call (λ s. put_meta dag s (record meta { status = final }) rev)
finalize_at dag final meta rev DagStatus.paused =
    call (λ s. put_meta dag s (record meta { status = final }) rev)
finalize_at dag final meta rev _ = pure tt

unfoldable pub finalize_dag : DagState → M (Unit {0})
unfolding read call get_meta put_meta derive_final_status
finalize_dag state = read (get_meta state.meta.id) >>= λ (meta, rev).
    finalize_at state.meta.id (derive_final_status state) meta rev meta.status

-- Canceled, pausing and paused DAGs keep their status.
abbrev pub keeps_status : DagStatus → Bool
keeps_status DagStatus.canceled = true
keeps_status DagStatus.pausing = true
keeps_status DagStatus.paused = true
keeps_status _ = false

abbrev pub set_final : String → DagStatus → M (Unit {0})
set_final dag status = read (get_meta dag) >>= λ (meta, rev).
    if keeps_status meta.status || dag_status_eq meta.status status
    then pure tt
    else call (λ s. put_meta dag s (record meta { status = status }) rev)

abbrev pub maybe_final : String → DagStatus × Bool → M (Unit {0})
maybe_final dag (status, true) = set_final dag status
maybe_final dag (status, false) = pure tt

unfoldable pub maybe_finalize : DagState → M (Unit {0})
unfolding read call get_meta put_meta terminal dag_status_eq
maybe_finalize state = maybe_final state.meta.id (terminal state)

unfoldable pub on_step_added : DagState → M (Unit {0})
unfolding enqueue_ready mark_blocked_breakpoints finalize_dag ready_to_run all_steps_terminal
on_step_added state =
    enqueue_ready state (ready_to_run state)
    >> mark_blocked_breakpoints state
    >> (if all_steps_terminal state then finalize_dag state else pure tt)

unfoldable pub persist_skips : String → List String → M (Unit {0})
unfolding for_each persist_status
persist_skips dag ids = for_each (λ id. persist_status dag id skipped) ids

-- The loop of `onResumed` over the map that its body changes: a step is looked at as it is then.
abbrev pub is_dead_end : StepStatus → Bool
is_dead_end failed = true
is_dead_end skipped = true
is_dead_end _ = false

unfoldable pub cascade_each : ℕ → List String → DagState → M DagState
unfolding persist_skips cascade_skip_from lookup
cascade_each now [] s = pure s
cascade_each now (id ∷ ids) s =
    let cascaded = cascade_skip_from now id s in
    if is_dead_end (or_zero (lookup id s.steps)).status
    then (persist_skips s.meta.id cascaded.1 >>= λ u. cascade_each now ids cascaded.0)
    else cascade_each now ids s

unfoldable pub on_resumed : DagState → M (Unit {0})
unfolding cascade_each on_step_added keys time_now
on_resumed state = time_now >>= λ now. cascade_each now (keys state.steps) state >>= on_step_added

-- The pausing DAG is paused once nothing is in flight. A lost race is no error.
abbrev pub pause_at : DagState → DagMeta → ℕ → ℕ → M (Unit {0})
pause_at state meta rev now =
    if dag_status_eq meta.status DagStatus.pausing
    then (retry_on_stale (
          call (λ s.
            put_meta state.meta.id s (record meta { status = DagStatus.paused; paused_at = now })
              rev))
        >>= λ won. if is_some won && all_steps_terminal state then finalize_dag state else pure tt)
    else pure tt

abbrev pub settle_pause : DagState → Bool → M (Unit {0})
settle_pause state true = pure tt
settle_pause state false =
    read (get_meta state.meta.id) >>= λ (meta, rev). time_now >>= λ now. pause_at state meta rev now

unfoldable pub settle : DagState → M (Unit {0})
unfolding fence_pending_steps read call retry_on_stale time_now get_meta put_meta finalize_dag
    maybe_finalize dag_status_eq all_steps_terminal
settle state =
    if dag_status_eq state.meta.status DagStatus.pausing
    then (fence_pending_steps state.meta.id >>= settle_pause state)
    else maybe_finalize state

-- The switch on the event's status: the new state, and the steps that were skipped.
abbrev pub skipped_of : Result (List String × List String) → List String
skipped_of (ok (ready, cascaded)) = cascaded
skipped_of (err e) = []

abbrev pub cascaded_of : Result (List String) → List String
cascaded_of (ok cascaded) = cascaded
cascaded_of (err e) = []

abbrev pub complete : ℕ → Event → DagState → StepStatus → Result (DagState × List String)
complete now ev state done = ok ((mark_done now ev.step_id state).1, [])
complete now ev state failed =
    let (r, s) = mark_failed now ev.step_id ev.error_kind ev.error_message state in
    ok (s, skipped_of r)
complete now ev state skipped =
    let (r, s) = mark_skipped now ev.step_id state in ok (s, cascaded_of r)
complete now ev state _ = err unknown_completion

abbrev pub go_on : Event → Result (DagState × List String) → M (Unit {0})
go_on ev (err e) = raise e
go_on ev (ok (state, cascaded)) =
    persist_skips ev.dag_id cascaded
    >> enqueue_ready state (ready_to_run state)
    >> mark_blocked_breakpoints state
    >> settle state

unfoldable pub on_completed : DagState → Event → M (Unit {0})
unfolding time_now lookup mark_done mark_failed mark_skipped persist_skips enqueue_ready
    ready_to_run mark_blocked_breakpoints settle
on_completed state ev =
    if not (is_some (lookup ev.step_id state.steps))
    then raise step_not_found
    else (time_now >>= λ now. go_on ev (complete now ev state ev.status))

abbrev pub dispatch : DagState → Event → EventKind → M (Unit {0})
dispatch state ev completed = on_completed state ev
dispatch state ev step_added = on_step_added state
dispatch state ev resumed = on_resumed state
dispatch state ev EventKind.signal = on_step_added state
dispatch state ev _ = pure tt

-- A pausing DAG takes no new steps and no signals.
abbrev pub adds_work : EventKind → Bool
adds_work step_added = true
adds_work EventKind.signal = true
adds_work _ = false

abbrev pub is_gated : DagStatus → EventKind → Bool
is_gated DagStatus.canceled kind = true
is_gated DagStatus.paused kind = true
is_gated DagStatus.pausing kind = adds_work kind
is_gated _ kind = false

unfoldable pub handle_event : Event → M (Unit {0})
unfolding load_state on_completed on_step_added on_resumed
handle_event ev = load_state ev.dag_id >>= λ state.
    if is_gated state.meta.status ev.kind then pure tt else dispatch state ev ev.kind
