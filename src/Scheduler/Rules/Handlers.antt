-- ===== src/Scheduler/Rules/Handlers.antt =====
-- The handlers of events and the sweep keep to the rules for writers.
use ebind.Base.{ℕ, String, Bool, true, false, not, ◌||◌, ◌&&◌, is_some, List, [], ◌∷◌, lookup, keys}
use ebind.Types.{
  DagStatus, DagMeta, DagState, EventKind, completed, step_added, resumed, bp_hit, bp_resumed,
  Event, Result, ok, err, skipped, dag_status_eq,
}
use ebind.State.{ready_to_run, all_steps_terminal, derive_final_status, terminal}
use ebind.State.Cascade.{cascade_skip_from}
use ebind.Store.{get_meta, put_meta, list_dags}
use ebind.Runtime.{◌>>=◌, ◌>>◌, call, read, ignore, retry_on_stale, time_now}
use ebind.Runtime.Rely.{Guarantees}
use ebind.Runtime.Rely.Rules.{
  Guarantees-pure, Guarantees-raise, Guarantees-call, Guarantees-read, Guarantees-ignore,
  Guarantees-retry_on_stale, Guarantees-bind, Guarantees-if, Guarantees-time_now,
}
use ebind.Runtime.Rely.MetaRules.{put_meta-Evolves, Guarantees-for_each}
use ebind.Control.Persist.{persist_status, Guarantees-persist_skipped}
use ebind.Control.Pause.{fence_pending_steps}
use ebind.Control.Pause.Rules.{Guarantees-fence_pending_steps}
use ebind.Scheduler.{load_state, or_zero, enqueue_ready}
use ebind.Scheduler.Marks.{mark_blocked_breakpoints, release_orphaned_holds}
use ebind.Scheduler.Events.{
  finalize_at, finalize_dag, keeps_status, maybe_final, maybe_finalize, on_step_added,
  persist_skips, is_dead_end, cascade_each, on_resumed, pause_at, settle_pause, settle, complete,
  go_on, on_completed, dispatch, is_gated, handle_event,
}
use ebind.Scheduler.Sweep.{
  reload, sweep_running, unless_in_flight, sweep_pausing, sweep_paused, sweep_at, sweep,
}
use ebind.Scheduler.Rules.{
  Guarantees-load_state, Guarantees-enqueue_ready, Guarantees-mark_blocked_breakpoints,
  Guarantees-release_orphaned_holds,
}

Guarantees-put_meta :
    (dag : String) (meta : DagMeta) (rev : ℕ) → Guarantees (call (λ s. put_meta dag s meta rev))
Guarantees-put_meta dag meta rev =
    Guarantees-call (λ s. put_meta dag s meta rev) (λ s. put_meta-Evolves dag s meta rev)

Guarantees-finalize_at :
    (dag : String) (final : DagStatus) (meta : DagMeta) (rev : ℕ) (status : DagStatus)
    → Guarantees (finalize_at dag final meta rev status)
Guarantees-finalize_at dag final meta rev DagStatus.running = Guarantees-put_meta dag _ rev
Guarantees-finalize_at dag final meta rev DagStatus.paused = Guarantees-put_meta dag _ rev
Guarantees-finalize_at dag final meta rev DagStatus.done = Guarantees-pure tt
Guarantees-finalize_at dag final meta rev DagStatus.failed = Guarantees-pure tt
Guarantees-finalize_at dag final meta rev DagStatus.canceled = Guarantees-pure tt
Guarantees-finalize_at dag final meta rev DagStatus.pausing = Guarantees-pure tt
Guarantees-finalize_at dag final meta rev (DagStatus.other s) = Guarantees-pure tt

module _ (state : DagState) where
  Guarantees-finalize_dag : Guarantees (finalize_dag state)
  unfolding finalize_dag
  Guarantees-finalize_dag =
      Guarantees-bind (read (get_meta state.meta.id)) _ (Guarantees-read (get_meta state.meta.id))
        (λ (meta, rev).
          Guarantees-finalize_at state.meta.id (derive_final_status state) meta rev meta.status)

  Guarantees-maybe_final : (r : DagStatus × Bool) → Guarantees (maybe_final state.meta.id r)
  Guarantees-maybe_final (status, false) = Guarantees-pure tt
  Guarantees-maybe_final (status, true) =
      Guarantees-bind (read (get_meta state.meta.id)) _ (Guarantees-read (get_meta state.meta.id))
        (λ (meta, rev).
          Guarantees-if (keeps_status meta.status || dag_status_eq meta.status status) _ _
            (Guarantees-pure tt) (Guarantees-put_meta state.meta.id _ rev))

  Guarantees-maybe_finalize : Guarantees (maybe_finalize state)
  unfolding maybe_finalize
  Guarantees-maybe_finalize = Guarantees-maybe_final (terminal state)

  Guarantees-started :
      Guarantees (enqueue_ready state (ready_to_run state) >> mark_blocked_breakpoints state)
  Guarantees-started =
      Guarantees-bind (enqueue_ready state (ready_to_run state)) _
        (Guarantees-enqueue_ready state _) (λ _. Guarantees-mark_blocked_breakpoints state)

  Guarantees-on_step_added : Guarantees (on_step_added state)
  unfolding on_step_added
  Guarantees-on_step_added =
      Guarantees-bind (enqueue_ready state (ready_to_run state) >> mark_blocked_breakpoints state) _
        Guarantees-started
        (λ _.
          Guarantees-if (all_steps_terminal state) _ _ Guarantees-finalize_dag (Guarantees-pure tt))

Guarantees-persist_skips : (dag : String) (ids : List String) → Guarantees (persist_skips dag ids)
unfolding persist_skips
Guarantees-persist_skips dag ids =
    Guarantees-for_each (λ id. persist_status dag id skipped) ids (Guarantees-persist_skipped dag)

Guarantees-cascade_each :
    (now : ℕ) (ids : List String) (s : DagState) → Guarantees (cascade_each now ids s)
unfolding cascade_each
Guarantees-cascade_each now [] s = Guarantees-pure s
Guarantees-cascade_each now (id ∷ ids) s =
    Guarantees-if (is_dead_end (or_zero (lookup id s.steps)).status) _ _
      (Guarantees-bind (persist_skips s.meta.id (cascade_skip_from now id s).1) _
        (Guarantees-persist_skips s.meta.id _)
        (λ u. Guarantees-cascade_each now ids (cascade_skip_from now id s).0))
      (Guarantees-cascade_each now ids s)

Guarantees-on_resumed : (state : DagState) → Guarantees (on_resumed state)
unfolding on_resumed
Guarantees-on_resumed state =
    Guarantees-bind (time_now >>= λ now. cascade_each now (keys state.steps) state) _
      (Guarantees-bind time_now _ Guarantees-time_now
        (λ now. Guarantees-cascade_each now (keys state.steps) state))
      Guarantees-on_step_added

Guarantees-settle_pause :
    (state : DagState) (in_flight : Bool) → Guarantees (settle_pause state in_flight)
Guarantees-settle_pause state true = Guarantees-pure tt
Guarantees-settle_pause state false =
    Guarantees-bind (read (get_meta state.meta.id)) _ (Guarantees-read (get_meta state.meta.id))
      (λ (meta, rev). Guarantees-bind time_now _ Guarantees-time_now (λ now. pausing meta rev now))
  where
    pausing : (meta : DagMeta) (rev now : ℕ) → Guarantees (pause_at state meta rev now)
    pausing meta rev now =
        Guarantees-if (dag_status_eq meta.status DagStatus.pausing) _ _
          (Guarantees-bind
            (retry_on_stale (
              call (λ s.
                put_meta state.meta.id s
                  (record meta { status = DagStatus.paused; paused_at = now }) rev)))
            _ (Guarantees-retry_on_stale _ (Guarantees-put_meta state.meta.id _ rev))
            (λ won.
              Guarantees-if (is_some won && all_steps_terminal state) _ _
                (Guarantees-finalize_dag state) (Guarantees-pure tt)))
          (Guarantees-pure tt)

Guarantees-settle : (state : DagState) → Guarantees (settle state)
unfolding settle
Guarantees-settle state =
    Guarantees-if (dag_status_eq state.meta.status DagStatus.pausing) _ _
      (Guarantees-bind (fence_pending_steps state.meta.id) _
        (Guarantees-fence_pending_steps state.meta.id) (Guarantees-settle_pause state))
      (Guarantees-maybe_finalize state)

Guarantees-go_on : (ev : Event) (r : Result (DagState × List String)) → Guarantees (go_on ev r)
Guarantees-go_on ev (err e) = Guarantees-raise e
Guarantees-go_on ev (ok (state, cascaded)) =
    Guarantees-bind _ _
      (Guarantees-bind _ _
        (Guarantees-bind (persist_skips ev.dag_id cascaded) _
          (Guarantees-persist_skips ev.dag_id cascaded)
          (λ _. Guarantees-enqueue_ready state (ready_to_run state)))
        (λ _. Guarantees-mark_blocked_breakpoints state))
      (λ _. Guarantees-settle state)

Guarantees-on_completed : (state : DagState) (ev : Event) → Guarantees (on_completed state ev)
unfolding on_completed
Guarantees-on_completed state ev =
    Guarantees-if (not (is_some (lookup ev.step_id state.steps))) _ _ (Guarantees-raise _) (
      Guarantees-bind time_now _ Guarantees-time_now
        (λ now. Guarantees-go_on ev (complete now ev state ev.status)))

Guarantees-dispatch :
    (state : DagState) (ev : Event) (kind : EventKind) → Guarantees (dispatch state ev kind)
Guarantees-dispatch state ev completed = Guarantees-on_completed state ev
Guarantees-dispatch state ev step_added = Guarantees-on_step_added state
Guarantees-dispatch state ev resumed = Guarantees-on_resumed state
Guarantees-dispatch state ev EventKind.signal = Guarantees-on_step_added state
Guarantees-dispatch state ev bp_hit = Guarantees-pure tt
Guarantees-dispatch state ev bp_resumed = Guarantees-pure tt
Guarantees-dispatch state ev (EventKind.other s) = Guarantees-pure tt

pub Guarantees-handle_event : (ev : Event) → Guarantees (handle_event ev)
unfolding handle_event
Guarantees-handle_event ev =
    Guarantees-bind (load_state ev.dag_id) _ (Guarantees-load_state ev.dag_id) (λ state.
      Guarantees-if (is_gated state.meta.status ev.kind) _ _ (Guarantees-pure tt)
        (Guarantees-dispatch state ev ev.kind))

Guarantees-reload :
    (dag : String) (state : DagState) (released : Bool) → Guarantees (reload dag state released)
Guarantees-reload dag state true = Guarantees-load_state dag
Guarantees-reload dag state false = Guarantees-pure state

module _ (dag : String) where
  Guarantees-sweep_running : Guarantees (sweep_running dag)
  unfolding sweep_running
  Guarantees-sweep_running =
      Guarantees-bind (load_state dag) _ (Guarantees-load_state dag) (λ first.
        Guarantees-bind (release_orphaned_holds dag first >>= reload dag first) _
          (Guarantees-bind (release_orphaned_holds dag first) _
            (Guarantees-release_orphaned_holds dag first) (Guarantees-reload dag first))
          (λ state.
            Guarantees-bind (ignore (enqueue_ready state (ready_to_run state))) _
              (Guarantees-ignore _ (Guarantees-enqueue_ready state _))
              (λ _. Guarantees-mark_blocked_breakpoints state)))

  Guarantees-unless_in_flight : (in_flight : Bool) → Guarantees (unless_in_flight dag in_flight)
  Guarantees-unless_in_flight true = Guarantees-pure tt
  Guarantees-unless_in_flight false =
      Guarantees-bind (read (get_meta dag)) _ (Guarantees-read (get_meta dag)) (λ (meta, rev).
        Guarantees-bind time_now _ Guarantees-time_now (λ now.
          Guarantees-if (dag_status_eq meta.status DagStatus.pausing) _ _
            (Guarantees-put_meta dag _ rev) (Guarantees-pure tt)))

  Guarantees-sweep_pausing : Guarantees (sweep_pausing dag)
  unfolding sweep_pausing
  Guarantees-sweep_pausing =
      Guarantees-bind (fence_pending_steps dag) _ (Guarantees-fence_pending_steps dag)
        Guarantees-unless_in_flight

  Guarantees-sweep_paused : Guarantees (sweep_paused dag)
  unfolding sweep_paused
  Guarantees-sweep_paused = Guarantees-bind (load_state dag) _ (Guarantees-load_state dag) (λ state.
      Guarantees-if (all_steps_terminal state) _ _
        (Guarantees-bind (read (get_meta dag)) _ (Guarantees-read (get_meta dag)) (λ (meta, rev).
          Guarantees-if (dag_status_eq meta.status DagStatus.paused) _ _
            (Guarantees-put_meta dag _ rev) (Guarantees-pure tt)))
        (Guarantees-pure tt))

  Guarantees-sweep_at : (status : DagStatus) → Guarantees (sweep_at dag status)
  Guarantees-sweep_at DagStatus.running = Guarantees-ignore _ Guarantees-sweep_running
  Guarantees-sweep_at DagStatus.pausing = Guarantees-ignore _ Guarantees-sweep_pausing
  Guarantees-sweep_at DagStatus.paused = Guarantees-ignore _ Guarantees-sweep_paused
  Guarantees-sweep_at DagStatus.done = Guarantees-pure tt
  Guarantees-sweep_at DagStatus.failed = Guarantees-pure tt
  Guarantees-sweep_at DagStatus.canceled = Guarantees-pure tt
  Guarantees-sweep_at (DagStatus.other s) = Guarantees-pure tt

pub Guarantees-sweep : Guarantees sweep
unfolding sweep
Guarantees-sweep =
    Guarantees-bind (read (λ s. ok (list_dags s))) _ (Guarantees-read (λ s. ok (list_dags s)))
      (λ dags.
        Guarantees-for_each (λ (meta : DagMeta). sweep_at meta.id meta.status) dags
          (λ meta. Guarantees-sweep_at meta.id meta.status))
