-- ===== src/Control/Hook.antt =====
-- workflow/hook.go: a worker reports how a step ended. The waits between two attempts are left out.
pub mod Outcome
use ebind.Base.{ℤ, ℕ, String, Bool, true, false, ◌||◌, ◌==◌, none, List, [], ◌∷◌, if◌then◌else◌}
use ebind.Types.{
  Json, StepStatus, done, failed, StepRecord, EventKind, completed, Event, Result, ok, is_terminal,
}
use ebind.Task.{Task, TaskError}
use ebind.Store.{put_result}
use ebind.Runtime.{M, pure, ◌>>=◌, ◌>>◌, call, publish, time_now, Decision, stop, write, cas_step}
use ebind.Control.Message.{truncate_error_message}

-- `StepHook`, less the store and the bus.
pub record StepHook : Type 0 where
  pub max_err_bytes : ℤ

abbrev pub end_record : ℕ → StepStatus → String → List ℕ → String → StepRecord → StepRecord
end_record now status kind message worker rec = record rec {
  status = status;
  error_kind = kind;
  error_message = message;
  worker_id = worker;
  finished_at = now;
}

abbrev pub end_decision :
    ℕ → StepStatus → String → List ℕ → String → StepRecord → Decision (Unit {0})
end_decision now status kind message worker rec =
    if is_terminal rec then stop tt else write (end_record now status kind message worker rec) tt

-- `casUpdateStatus`.
unfoldable pub cas_update_status : Task → StepStatus → String → List ℕ → M (Unit {0})
unfolding cas_step time_now is_terminal
cas_update_status t status kind message = time_now >>= λ now.
    cas_step 5 t.dag_id t.step_id (end_decision now status kind message t.worker_id)

abbrev pub completed_event : Task → StepStatus → String → List ℕ → Event
completed_event t status kind message = record {
  kind = completed;
  dag_id = t.dag_id;
  step_id = t.step_id;
  status = status;
  error_kind = kind;
  error_message = message;
  bp_position = none;
  bp_labels = [];
  signal_name = "";
}

-- The task does not belong to a DAG.
abbrev pub is_bare : Task → Bool
is_bare t = t.dag_id == "" || t.step_id == ""

abbrev pub save_result : Task → Json → M (Unit {0})
save_result t result = call (λ s. (ok tt, put_result t.dag_id t.step_id s result))

abbrev pub record_done : Task → Json → M (Unit {0})
record_done t result =
    cas_update_status t done "" [] >> save_result t result >> publish (completed_event t done "" [])

unfoldable pub on_step_done : Task → Json → M (Unit {0})
unfolding cas_update_status call publish put_result
on_step_done t result = if is_bare t then pure tt else record_done t result

abbrev pub record_failed : Task → String → List ℕ → M (Unit {0})
record_failed t kind message =
    cas_update_status t failed kind message >> publish (completed_event t failed kind message)

unfoldable pub on_step_failed : StepHook → Task → TaskError → M (Unit {0})
unfolding cas_update_status publish truncate_error_message
on_step_failed h t e =
    if is_bare t
    then pure tt
    else record_failed t e.kind (truncate_error_message e.message h.max_err_bytes)
