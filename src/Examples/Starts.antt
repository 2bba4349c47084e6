-- ===== src/Examples/Starts.antt =====
-- The theorems on the start of a step and on its placement, applied to small DAGs.
use ebind.Base.{
  String, ◌==◌, ◌&&◌, Bool, if◌then◌else◌, suc, true, false, some, [], ◌∷◌, Map, lookup, is_some,
  length, ◌≡◌, refl, inl,
}
use ebind.Types.{
  pending, running, DagStatus, StepRecord, DagState, PlacementSpec, follow_target_of, ok, err,
  queue_down, status_eq,
}
use ebind.Wire.{resolve_args}
use ebind.Placement.{resolve_placed, resolve_placement_target}
use ebind.Placement.Ends.{placement_answers}
use ebind.Store.{MemEntry, MemMetaEntry, find_in, put_step}
use ebind.Runtime.{World}
use ebind.Runtime.Runs.{after_read}
use ebind.Scheduler.{enqueue_one, task_of}
use ebind.Scheduler.Leader.{Leader, new_leader, on_tick, with_start, Step, Reaches, one_sweep}
use ebind.Scheduler.Start.{fenced_not_enqueued, ready_enqueued, refused_strands}
use ebind.Examples.{no_args, step_of, meta_of_status, store_of, world_of}

abbrev ready_step : StepRecord
ready_step = step_of "a" [] pending

abbrev held_step : StepRecord
held_step = record ready_step { held = true; held_at = 8 }

abbrev one_step : StepRecord → DagState
one_step rec = record {
  meta = meta_of_status DagStatus.running;
  steps = ("a", rec) ∷ [];
  signals = [];
}

abbrev held_entry : MemEntry
held_entry = record { rec = held_step; rev = 4 }

-- The scheduler's view is older than the fence.
fenced_not_enqueued_example :
    enqueue_one (one_step ready_step) ([], []) "a" (world_of (store_of DagStatus.pausing held_step))
    ≡ (ok tt, after_read (world_of (store_of DagStatus.pausing held_step)))
unfolding find_in status_eq
fenced_not_enqueued_example =
    fenced_not_enqueued (one_step ready_step) ([], []) "a"
      (world_of (store_of DagStatus.pausing held_step)) {e = held_entry} refl (inl refl) refl

abbrev paused_entry : MemMetaEntry
paused_entry = record { meta = meta_of_status DagStatus.paused; rev = 2 }

abbrev ready_world : World
ready_world = world_of (store_of DagStatus.running ready_step)

abbrev ready_entry : MemEntry
ready_entry = record { rec = ready_step; rev = 4 }

abbrev running_step : StepRecord
running_step = record ready_step { status = running; started_at = 9 }

ready_enqueued_example :
    let (r, w') = enqueue_one (one_step ready_step) ([], []) "a" ready_world in
    (r ≡ ok tt)
    × ((w'.tasks ≡ task_of ready_step no_args "" 9 ∷ [])
        × (w'.events ≡ [])
        × ((dag k : String)
            → find_in dag k w'.store.steps ≡ (
                if "d" == dag && "a" == k
                then some (record { rec = running_step; rev = 5 })
                else find_in dag k ready_world.store.steps)))
unfolding find_in lookup resolve_args resolve_placement_target
ready_enqueued_example =
    ready_enqueued (one_step ready_step) ([], []) "a" ready_world {e = ready_entry}
      {rec = ready_step} {vs = []} {target = ""} refl refl refl refl refl refl refl refl

abbrev full_queue : World
full_queue = record ready_world { queue_up = false ∷ [] }

refused_strands_example : enqueue_one (one_step ready_step) ([], []) "a" full_queue ≡ (
  err queue_down,
  record full_queue {
    store = (put_step "d" "a" ready_world.store running_step 4).1;
    queue_up = [];
  },
)
unfolding find_in lookup resolve_args resolve_placement_target
refused_strands_example =
    refused_strands (one_step ready_step) ([], []) "a" full_queue {e = ready_entry}
      {rec = ready_step} {vs = []} {target = ""} refl refl refl refl refl refl refl refl

abbrev follows_itself : PlacementSpec
follows_itself = record { mode = follow_target_of; target = ""; step_id = "a" }

abbrev circle_step : StepRecord
circle_step = record ready_step { placement = some follows_itself }

abbrev circle : Map StepRecord
circle = ("a", circle_step) ∷ []

placement_answers_example :
    is_some (resolve_placed (suc (suc (length circle))) circle circle_step follows_itself []) ≡ true
placement_answers_example = placement_answers circle circle_step follows_itself

abbrev first_tick : Bool × Leader
first_tick = on_tick 60 true 5 new_leader

one_sweep_example : with_start first_tick.0 0 ≡ (if first_tick.1.sweep_running then 1 else 0)
one_sweep_example =
    one_sweep 60 first_tick.1 (with_start first_tick.0 0)
      (Reaches.after Reaches.begin (Step.tick true 5 {l = new_leader} {n = 0}))
