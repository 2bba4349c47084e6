-- ===== src/Control/Pause.antt =====
-- workflow/pause.go: the fence, pause, resume, and the release of held steps.
pub mod Rules
pub mod Fence
use ebind.Base.{
  ℕ, zero, suc, String, Bool, true, false, not, ◌||◌, Option, none, some, List, [], ◌∷◌,
  if◌then◌else◌,
}
use ebind.Types.{
  StepStatus, pending, running, DagStatus, StepRecord, DagMeta, DagState, EventKind, resumed, Event,
  Result, ok, err, stale_revision, dag_not_running, dag_not_paused, status_eq, dag_status_eq,
}
use ebind.State.{can_pause, can_resume}
use ebind.Store.{list_steps, get_meta, put_meta}
use ebind.Runtime.{
  M, pure, raise, ◌>>=◌, ◌>>◌, call, read, retry_on_stale, publish, time_now, Decision, stop, write,
  attempt_step, try_step, MetaDecision, refuse_meta, write_meta, cas_meta, for_each,
}

-- What the fence saw at a step: the step is in flight, and the step changed.
abbrev pub Seen : Type 0
Seen = Bool × Bool

abbrev pub hold : ℕ → StepRecord → StepRecord
hold now rec = record rec { held = true; held_at = now }

abbrev pub fence_decision : ℕ → StepRecord → Decision Seen
fence_decision now rec =
    if status_eq rec.status running
    then stop (true, false)
    else if not (status_eq rec.status pending) || rec.held
    then stop (false, false)
    else write (hold now rec) (false, true)

-- A lost race counts as a change.
abbrev pub seen_of : Option Seen → Seen
seen_of none = (false, true)
seen_of (some seen) = seen

abbrev pub fence_fresh : String → String → M Seen
fence_fresh dag step =
    time_now >>= λ now. attempt_step dag step (fence_decision now) >>= λ o. pure (seen_of o)

-- The body of the loop over the steps that were listed.
unfoldable pub fence_step : String → StepRecord → M Seen
unfolding attempt_step time_now status_eq
fence_step dag snap =
    if status_eq snap.status running
    then pure (true, false)
    else if not (status_eq snap.status pending) || snap.held
    then pure (false, false)
    else fence_fresh dag snap.step_id

abbrev pub both : Seen → Seen → Seen
both a b = (a.0 || b.0, a.1 || b.1)

unfoldable pub fence_pass : String → List StepRecord → M Seen
unfolding fence_step
fence_pass dag [] = pure (false, false)
fence_pass dag (snap ∷ snaps) =
    fence_step dag snap >>= λ a. fence_pass dag snaps >>= λ b. pure (both a b)

-- `if !changed { return inFlight, nil }`, and the next pass otherwise.
abbrev pub next_pass : Bool → M Bool → Bool → M Bool
next_pass true again in_flight = again
next_pass false again in_flight = pure in_flight

unfoldable pub fence_passes : ℕ → String → M Bool
unfolding fence_pass read list_steps
fence_passes zero dag = pure true
fence_passes (suc n) dag = read (λ s. ok (list_steps dag s)) >>= λ steps.
    fence_pass dag steps >>= λ (in_flight, changed).
    next_pass changed (fence_passes n dag) in_flight

unfoldable pub fence_pending_steps : String → M Bool
unfolding fence_passes
fence_pending_steps dag = fence_passes 5 dag

-- `&DAGState{Meta: meta}`
abbrev pub meta_only : DagMeta → DagState
meta_only meta = record { meta = meta; steps = []; signals = [] }

abbrev pub paused_meta : DagMeta → ℕ → Bool → DagMeta
paused_meta meta now true = record meta { status = DagStatus.pausing }
paused_meta meta now false = record meta { status = DagStatus.paused; paused_at = now }

abbrev pub pause_decision : String → DagMeta → M (MetaDecision (Unit {0}))
pause_decision dag meta =
    if can_pause (meta_only meta)
    then (fence_pending_steps dag >>= λ in_flight.
        time_now >>= λ now. pure (write_meta (paused_meta meta now in_flight) tt))
    else pure (refuse_meta dag_not_running)

unfoldable pub pause : String → M (Unit {0})
unfolding cas_meta can_pause fence_pending_steps time_now
pause dag = cas_meta 5 dag (pause_decision dag)

abbrev pub release_decision : StepRecord → Decision (Unit {0})
release_decision rec =
    if not rec.held then stop tt else write (record rec { held = false; held_at = 0 }) tt

-- The inner loop: a step whose five attempts all lost their race stays held, without an error.
abbrev pub release_step : String → String → M (Unit {0})
release_step dag step = try_step 5 dag step release_decision >>= λ _. pure tt

abbrev pub release_listed : String → StepRecord → M (Unit {0})
release_listed dag rec = if not rec.held then pure tt else release_step dag rec.step_id

unfoldable pub release_held_steps : String → M (Unit {0})
unfolding read for_each try_step list_steps
release_held_steps dag =
    read (λ s. ok (list_steps dag s)) >>= λ steps. for_each (release_listed dag) steps

-- An event with no more than its kind; one about a whole DAG has the DAG's identifier as its step.
abbrev pub bare_event : EventKind → String → String → Event
bare_event kind dag step = record {
  kind = kind;
  dag_id = dag;
  step_id = step;
  status = StepStatus.other "";
  error_kind = "";
  error_message = [];
  bp_position = none;
  bp_labels = [];
  signal_name = "";
}

unfoldable pub publish_resume_event : String → M (Unit {0})
unfolding publish
publish_resume_event dag = publish (bare_event resumed dag dag)

-- What follows a step that may have lost its race.
abbrev pub if_won : M (Unit {0}) → Option (Unit {0}) → M (Option (Unit {0}))
if_won m none = pure none
if_won m (some u) = m >>= λ u. pure (some u)

-- The next attempt of a loop, or its answer.
abbrev pub or_again : M (Unit {0}) → Option (Unit {0}) → M (Unit {0})
or_again again none = again
or_again again (some u) = pure u

-- One attempt of `Resume`: none when it lost a race, and the loop goes on.
abbrev pub resume_running : String → M (Option (Unit {0}))
resume_running dag = retry_on_stale (release_held_steps dag) >>= if_won (publish_resume_event dag)

abbrev pub resume_paused : String → DagMeta → ℕ → M (Option (Unit {0}))
resume_paused dag meta rev =
    retry_on_stale
      (call (λ s. put_meta dag s (record meta { status = DagStatus.running; paused_at = 0 }) rev))
    >>= if_won (release_held_steps dag >> publish_resume_event dag)

unfoldable pub resume_attempt : String → M (Option (Unit {0}))
unfolding read call retry_on_stale get_meta put_meta dag_status_eq can_resume release_held_steps
    publish_resume_event
resume_attempt dag = read (get_meta dag) >>= λ (meta, rev).
    if dag_status_eq meta.status DagStatus.running
    then resume_running dag
    else if not (can_resume (meta_only meta))
    then raise dag_not_paused
    else resume_paused dag meta rev

unfoldable pub resume_loop : ℕ → String → M (Unit {0})
unfolding resume_attempt
resume_loop zero dag = raise stale_revision
resume_loop (suc n) dag = resume_attempt dag >>= or_again (resume_loop n dag)

unfoldable pub resume : String → M (Unit {0})
unfolding resume_loop
resume dag = resume_loop 5 dag
