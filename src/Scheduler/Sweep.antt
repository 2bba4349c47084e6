-- ===== src/Scheduler/Sweep.antt =====
-- `sweep` of workflow/scheduler.go: the leader's pass over all DAGs, which passes over every error.
use ebind.Base.{ℕ, String, Bool, true, false, if◌then◌else◌}
use ebind.Types.{DagStatus, DagMeta, DagState, ok, dag_status_eq}
use ebind.State.{ready_to_run, all_steps_terminal, derive_final_status}
use ebind.Store.{list_dags, get_meta, put_meta}
use ebind.Runtime.{M, pure, ◌>>=◌, ◌>>◌, call, read, ignore, time_now, for_each}
use ebind.Control.Pause.{fence_pending_steps}
use ebind.Scheduler.{load_state, enqueue_ready}
use ebind.Scheduler.Marks.{mark_blocked_breakpoints, release_orphaned_holds}

abbrev pub reload : String → DagState → Bool → M DagState
reload dag state true = load_state dag
reload dag state false = pure state

-- A running DAG: old holds are released, and what is ready is started.
unfoldable pub sweep_running : String → M (Unit {0})
unfolding load_state release_orphaned_holds enqueue_ready ready_to_run mark_blocked_breakpoints
sweep_running dag = load_state dag >>= λ first.
    release_orphaned_holds dag first >>= reload dag first >>= λ state.
    ignore (enqueue_ready state (ready_to_run state)) >> mark_blocked_breakpoints state

abbrev pub paused_now : String → DagMeta → ℕ → ℕ → M (Unit {0})
paused_now dag meta rev now =
    if dag_status_eq meta.status DagStatus.pausing
    then call (λ s. put_meta dag s (record meta { status = DagStatus.paused; paused_at = now }) rev)
    else pure tt

abbrev pub unless_in_flight : String → Bool → M (Unit {0})
unless_in_flight dag true = pure tt
unless_in_flight dag false =
    read (get_meta dag) >>= λ (meta, rev). time_now >>= λ now. paused_now dag meta rev now

-- A DAG whose pause was begun: it is paused once nothing is in flight.
unfoldable pub sweep_pausing : String → M (Unit {0})
unfolding fence_pending_steps read call get_meta put_meta time_now dag_status_eq
sweep_pausing dag = fence_pending_steps dag >>= unless_in_flight dag

abbrev pub end_paused : String → DagState → DagMeta → ℕ → M (Unit {0})
end_paused dag state meta rev =
    if dag_status_eq meta.status DagStatus.paused
    then call (λ s. put_meta dag s (record meta { status = derive_final_status state }) rev)
    else pure tt

-- A paused DAG whose steps are over ends.
unfoldable pub sweep_paused : String → M (Unit {0})
unfolding load_state read call get_meta put_meta derive_final_status all_steps_terminal
    dag_status_eq
sweep_paused dag = load_state dag >>= λ state.
    if all_steps_terminal state
    then (read (get_meta dag) >>= λ (meta, rev). end_paused dag state meta rev)
    else pure tt

abbrev pub sweep_at : String → DagStatus → M (Unit {0})
sweep_at dag DagStatus.running = ignore (sweep_running dag)
sweep_at dag DagStatus.pausing = ignore (sweep_pausing dag)
sweep_at dag DagStatus.paused = ignore (sweep_paused dag)
sweep_at dag _ = pure tt

unfoldable pub sweep : M (Unit {0})
unfolding read list_dags for_each sweep_running sweep_pausing sweep_paused
sweep = read (λ s. ok (list_dags s)) >>= λ dags.
    for_each (λ (meta : DagMeta). sweep_at meta.id meta.status) dags
