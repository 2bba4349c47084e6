-- ===== src/Control/Cancel.antt =====
-- workflow/cancel.go.
pub mod Sweep
use ebind.Base.{ℕ, String, Bool, true, false, ◌||◌, List, [], ◌∷◌, if◌then◌else◌}
use ebind.Types.{DagStatus, running, canceled, StepRecord, DagMeta, status_eq, is_terminal}
use ebind.Store.{list_steps}
use ebind.Runtime.{
  M, pure, ◌>>=◌, read, time_now, Decision, stop, write, cas_step, MetaDecision, stop_meta,
  write_meta, cas_meta, for_each,
}
use ebind.Types.{ok}

-- The `switch` of `cancelMeta`: true for a DAG that already ended.
abbrev cancel_status : DagMeta → DagStatus → MetaDecision Bool
cancel_status meta DagStatus.done = stop_meta true
cancel_status meta DagStatus.failed = stop_meta true
cancel_status meta DagStatus.canceled = stop_meta false
cancel_status meta _ = write_meta (record meta { status = DagStatus.canceled }) false

unfoldable pub cancel_meta : String → M Bool
unfolding cas_meta
cancel_meta dag = cas_meta 5 dag (λ meta. pure (cancel_status meta meta.status))

abbrev pub cancel_decision : ℕ → StepRecord → Decision (Unit {0})
cancel_decision now rec =
    if is_terminal rec || status_eq rec.status running
    then stop tt
    else write (record rec { status = canceled; finished_at = now }) tt

unfoldable pub cancel_step : String → String → M (Unit {0})
unfolding cas_step time_now is_terminal status_eq
cancel_step dag step = time_now >>= λ now. cas_step 5 dag step (cancel_decision now)

-- The loop over the steps that the store lists.
unfoldable pub cancel_steps : String → M (Unit {0})
unfolding cancel_step read for_each list_steps
cancel_steps dag = read (λ s. ok (list_steps dag s)) >>= λ steps.
    for_each (λ (rec : StepRecord). cancel_step dag rec.step_id) steps

unfoldable pub cancel : String → M (Unit {0})
unfolding cancel_meta cancel_steps
cancel dag = cancel_meta dag >>= λ finished. if finished then pure tt else cancel_steps dag
