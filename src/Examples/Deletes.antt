-- ===== src/Examples/Deletes.antt =====
-- The deletion of a DAG that has a step, its result and a signal, beside another DAG.
use ebind.Base.{String, [], ◌∷◌, none, ◌≡◌, refl, ◌==◌, ◌&&◌, if◌then◌else◌, lookup, is_some}
use ebind.Types.{done, pending, ok, DagStatus}
use ebind.Store.{MemStore, find_in, bucket_of}
use ebind.Control.Delete.{delete_dag}
use ebind.Control.Delete.Clears.{quiet, deletes_dag}
use ebind.Examples.{no_args, step_of, meta_of_status, world_of, go_signal}

abbrev two_dags : MemStore
two_dags = record {
  steps =
      ("d", ("a", record { rec = step_of "a" [] done; rev = 3 }) ∷ [])
      ∷ ("e", ("a", record { rec = step_of "a" [] pending; rev = 1 }) ∷ [])
      ∷ [];
  results = ("d", ("a", no_args) ∷ []) ∷ [];
  metas =
      ("d", record { meta = meta_of_status DagStatus.done; rev = 2 })
      ∷ ("e", record { meta = meta_of_status DagStatus.running; rev = 1 })
      ∷ [];
  signals = ("d", ("go", go_signal) ∷ []) ∷ [];
}

deletes_dag_example :
    let (answer, w') = delete_dag "d" (quiet (world_of two_dags) two_dags) in
    (answer ≡ ok tt)
    × ((d k : String)
        → find_in d k w'.store.steps ≡ (if "d" == d then none else find_in d k two_dags.steps))
    × ((d k : String)
        → find_in d k w'.store.results ≡ (
            if "d" == d && is_some (find_in "d" k two_dags.steps)
            then none
            else find_in d k two_dags.results))
    × ((d k : String)
        → find_in d k w'.store.signals ≡ (if "d" == d then none else find_in d k two_dags.signals))
    × ((d : String)
        → lookup d w'.store.metas ≡ (if "d" == d then none else lookup d two_dags.metas))
unfolding bucket_of
deletes_dag_example = deletes_dag "d" (world_of two_dags) two_dags (refl, tt) (refl, tt)
