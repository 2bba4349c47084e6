-- ===== src/State.antt =====
-- workflow/state.go: the in-memory view of a DAG and its pure transitions. A method that changes
-- `*DAGState` returns the new state. `now` is the reading of `time.Now` during the call.
pub mod Ready
pub mod Final
pub mod Cascade
use ebind.Base.{
  ℕ, String, Bool, true, false, not, ◌&&◌, ◌||◌, Option, none, some, List, [], ◌∷◌, Map, lookup,
  insert, select, values, contains, is_nil, is_some, any, all, eqb, if◌then◌else◌,
}
use ebind.Types.{
  StepStatus, pending, running, done, failed, skipped, DagStatus, StepRecord, SignalRecord,
  DagState, Result, ok, err, step_not_found, duplicate_step, or_default, status_eq, dag_status_eq,
  is_released, is_terminal,
}
use ebind.Wire.{has_ref_mode}

-- breakpointArmed(labels, active)
unfoldable pub breakpoint_armed : List String → List String → Bool
unfolding contains
breakpoint_armed labels active = any (contains active) labels

-- A step whose end makes the DAG fail.
abbrev pub is_fatal : StepRecord → Bool
is_fatal step = not step.optional && (status_eq step.status failed || status_eq step.status skipped)

module _ (s : DagState) where
  unfoldable pub before_bp_blocks : StepRecord → Bool
  unfolding breakpoint_armed is_released
  before_bp_blocks step =
      not (is_nil step.break_before)
      && not (is_released step.bp_before)
      && breakpoint_armed step.break_before s.meta.active_breakpoints

  unfoldable pub after_bp_holds : StepRecord → Bool
  unfolding breakpoint_armed is_released status_eq
  after_bp_holds step =
      status_eq step.status done
      && not (is_nil step.break_after)
      && not (is_released step.bp_after)
      && breakpoint_armed step.break_after s.meta.active_breakpoints

  -- The loop over the names stops at the first that has no record.
  unfoldable pub signal_blocks : StepRecord → Bool
  unfolding lookup
  signal_blocks step = any (λ name. not (is_some (lookup name s.signals))) step.wait_signals

  -- One dependency is over: it is known, terminal, and does not hold at an after-breakpoint.
  abbrev pub dep_over : Option StepRecord → Bool
  dep_over none = false
  dep_over (some d) = is_terminal d && not (after_bp_holds d)

  unfoldable pub deps_satisfied : StepRecord → Bool
  unfolding lookup after_bp_holds is_terminal
  deps_satisfied step =
      all (λ dep. dep_over (lookup dep s.steps)) step.deps
      && all (λ dep. dep_over (lookup dep s.steps)) step.optional_deps

  abbrev pub is_ready : StepRecord → Bool
  is_ready step =
      if not (status_eq step.status pending)
        || step.held
        || before_bp_blocks step
        || signal_blocks step
      then false
      else deps_satisfied step

  unfoldable pub ready_to_run : List String
  unfolding select
  ready_to_run = select is_ready s.steps

  abbrev pub is_waiting_on_signals : StepRecord → Bool
  is_waiting_on_signals step =
      if not (status_eq step.status pending) || not (signal_blocks step)
      then false
      else deps_satisfied step

  unfoldable pub waiting_on_signals : List String
  unfolding select
  waiting_on_signals = select is_waiting_on_signals s.steps

  abbrev pub is_blocked_at_before : StepRecord → Bool
  is_blocked_at_before step =
      if not (status_eq step.status pending) || not (before_bp_blocks step)
      then false
      else deps_satisfied step

  unfoldable pub blocked_at_before : List String
  unfolding select
  blocked_at_before = select is_blocked_at_before s.steps

  unfoldable pub holding_at_after : List String
  unfolding select
  holding_at_after = select after_bp_holds s.steps

  unfoldable pub has_in_flight_steps : Bool
  unfolding status_eq values
  has_in_flight_steps = any (λ (step : StepRecord). status_eq step.status running) (values s.steps)

  unfoldable pub all_steps_terminal : Bool
  unfolding is_terminal values
  all_steps_terminal = if is_nil s.steps then false else all is_terminal (values s.steps)

  unfoldable pub derive_final_status : DagStatus
  unfolding status_eq values
  derive_final_status = if any is_fatal (values s.steps) then DagStatus.failed else DagStatus.done

  unfoldable pub can_pause : Bool
  unfolding dag_status_eq
  can_pause = dag_status_eq s.meta.status DagStatus.running

  unfoldable pub can_resume : Bool
  unfolding dag_status_eq
  can_resume =
      dag_status_eq s.meta.status DagStatus.paused || dag_status_eq s.meta.status DagStatus.pausing

  -- The loop sets two flags; the status and the flag `done` come from them.
  unfoldable pub terminal : DagStatus × Bool
  unfolding is_terminal status_eq dag_status_eq values
  terminal =
      if not (all is_terminal (values s.steps))
      then (DagStatus.running, false)
      else if dag_status_eq s.meta.status DagStatus.canceled
      then (DagStatus.canceled, true)
      else if dag_status_eq s.meta.status DagStatus.pausing
          || dag_status_eq s.meta.status DagStatus.paused
      then (DagStatus.running, false)
      else if any is_fatal (values s.steps)
      then (DagStatus.failed, true)
      else (DagStatus.done, true)

  abbrev set_step : String → StepRecord → DagState
  set_step id step = record s { steps = insert id step s.steps }

-- The status "" of a record that sets none.
abbrev is_empty_status : StepStatus → Bool
is_empty_status status = status_eq status (StepStatus.other "")

-- `AddStep`: the new state, or the error.
unfoldable pub add_step : ℕ → StepRecord → DagState → Result DagState
unfolding lookup insert status_eq
add_step now rec s =
    if is_some (lookup rec.step_id s.steps)
    then err duplicate_step
    else ok (
        set_step s rec.step_id (record rec {
          status = if is_empty_status rec.status then pending else rec.status;
          added_at = if eqb rec.added_at 0 then now else rec.added_at;
        }))
