-- ===== src/Examples/Submits.antt =====
-- The theorems on the submission of a DAG and on the steps that running ones add, applied to small
-- DAGs.
use ebind.Base.{
  String, ◌==◌, ◌&&◌, none, some, List, [], ◌∷◌, Map, lookup, contains, ◌≡◌, refl, ◌⊎◌,
  if◌then◌else◌, true, false,
}
use ebind.Types.{DagStatus, ok, pending, dag_status_eq, status_eq}
use ebind.Store.{new_mem_store, find_in, put_meta}
use ebind.State.{before_bp_blocks, signal_blocks}
use ebind.Scheduler.{enqueue_step}
use ebind.Runtime.{World, call}
use ebind.Runtime.Alone.{alone}
use ebind.Builder.{Step, validate_step_breakpoints, validate_step_signals}
use ebind.Builder.Options.{Dag, StepOption, apply_options}
use ebind.Builder.Order.{Waits}
use ebind.Submit.{describe_all, create_steps, signal_snapshot, claim_roots, submit}
use ebind.Builder.Check.{check}
use ebind.Builder.Record.{record_of}
use ebind.Submit.Checks.{submitted_acyclic}
use ebind.Submit.Roots.{OkOrRefused}
use ebind.Submit.Outcome.{Submitted, submit_exact}
use ebind.Dynamic.{ContextDag, dynamic_step, step_opts}
use ebind.Dynamic.Added.{added_once, waits_on_parent}
use ebind.Examples.{step_of, meta_of_status, store_of, world_of}
use ebind.Examples.Builds.{three_steps}

abbrev three_dag : Dag
three_dag = record {
  id = "d";
  steps = three_steps;
  default_policy = none;
  labels = "nightly" ∷ [];
  submitted = false;
}

submitted_acyclic_example :
    ((submit [] three_dag (world_of new_mem_store)).0.1 ≡ world_of new_mem_store)
    ⊎ ((a : String) (s : Step) → lookup a three_dag.steps ≡ some s → ¬ Waits three_dag.steps a a)
submitted_acyclic_example = submitted_acyclic [] three_dag (world_of new_mem_store)

abbrev other_world : World
other_world = world_of (store_of DagStatus.running (step_of "a" [] pending))

abbrev three_names : Map String
three_names = ("c", "f") ∷ ("b", "f") ∷ ("a", "f") ∷ []

submit_exact_example :
    OkOrRefused
      (λ u w'. Submitted [] three_dag (world_of new_mem_store) three_names w')
      (submit [] three_dag (alone (world_of new_mem_store))).0
unfolding lookup find_in check describe_all
submit_exact_example =
    submit_exact [] three_dag (world_of new_mem_store) three_names (refl, (refl, (refl, tt))) refl
      (refl, (refl, (refl, tt))) refl refl

three_submitted : (submit [] three_dag (world_of new_mem_store)).0.0 ≡ ok tt
unfolding submit call put_meta create_steps signal_snapshot claim_roots status_eq before_bp_blocks
    signal_blocks enqueue_step
three_submitted = refl

abbrev in_a : ContextDag
in_a = record { dag_id = "d"; parent_step = "a" }

abbrev after_e : List StepOption
after_e = StepOption.after (some "e" ∷ []) ∷ []

added_once_example :
    let (r, w1) = step_opts in_a "b" (some "f") [] after_e (alone other_world) in
    let (r', w2) = step_opts in_a "b" (some "f") [] after_e w1 in
    let new = dynamic_step in_a "b" (some "f") [] after_e in
    (r ≡ ok new)
    × ((d k : String)
        → find_in d k w1.store.steps ≡ (
            if "d" == d && "b" == k
            then some (record { rec = record_of "d" "f" 9 new; rev = 1 })
            else find_in d k other_world.store.steps))
    × (r' ≡ ok new)
    × ((d k : String) → find_in d k w2.store.steps ≡ find_in d k w1.store.steps)
    × (w2.events ≡ w1.events)
unfolding lookup find_in validate_step_breakpoints apply_options validate_step_signals dag_status_eq
added_once_example =
    added_once in_a "b" "f" [] after_e refl other_world
      {m = record { meta = meta_of_status DagStatus.running; rev = 2 }} refl refl refl

waits_on_parent_example :
    contains (record_of "d" "f" 9 (dynamic_step in_a "b" (some "f") [] after_e)).deps "a" ≡ true
waits_on_parent_example = waits_on_parent in_a "b" "f" [] after_e 9 refl
