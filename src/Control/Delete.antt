-- ===== src/Control/Delete.antt =====
-- `DeleteDAG` of workflow/delete.go: the results, the steps, the signals and the meta of a DAG.
pub mod Clears
use ebind.Base.{String, ◌==◌}
use ebind.Types.{StepRecord, SignalRecord, Err, Result, ok, err, dag_not_found}
use ebind.Store.{
  MemStore, list_steps, list_signals, delete_result, delete_step, delete_signal, delete_meta,
}
use ebind.Runtime.{M, ◌>>=◌, ◌>>◌, pure, raise, call, read, catch, for_each}

unfoldable pub delete_step_of : String → StepRecord → M (Unit {0})
unfolding call delete_result delete_step
delete_step_of dag rec =
    call (λ s. (ok tt, delete_result dag rec.step_id s))
    >> call (λ s. (ok tt, delete_step dag rec.step_id s))

unfoldable pub delete_signal_of : String → SignalRecord → M (Unit {0})
unfolding call delete_signal
delete_signal_of dag sig = call (λ s. (ok tt, delete_signal dag s sig.name))

-- A meta that is not there counts as deleted.
abbrev after_meta : Result (Unit {0}) → M (Unit {0})
after_meta (ok u) = pure u
after_meta (err dag_not_found) = pure tt
after_meta (err e) = raise e

unfoldable pub delete_dag : String → M (Unit {0})
unfolding read call catch for_each delete_step_of delete_signal_of list_steps list_signals
    delete_meta
delete_dag dag = read (λ s. ok (list_steps dag s)) >>= λ steps.
    for_each (delete_step_of dag) steps >> read (λ s. ok (list_signals dag s)) >>= λ sigs.
    for_each (delete_signal_of dag) sigs
    >> catch (call (λ s. (ok tt, delete_meta dag s)))
    >>= after_meta
