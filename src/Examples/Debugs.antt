-- ===== src/Examples/Debugs.antt =====
-- The theorems on the blockers that Debug lists, applied to a small DAG.
use ebind.Base.{◌&&◌, ◌==◌, List, [], ◌∷◌, any, ◌≡◌}
use ebind.Types.{pending, running, DagStatus, StepRecord, status_eq}
use ebind.Debug.{StepBlocker, debug_state, snapshot_of}
use ebind.Debug.Blockers.{is_held_back, blockers_exact}
use ebind.Examples.{step_of, meta_of_status}

abbrev two_records : List StepRecord
two_records = step_of "a" [] running ∷ step_of "b" ("a" ∷ []) pending ∷ []

blockers_exact_example :
    any
      (λ (b : StepBlocker). b.step_id == "b")
      (snapshot_of (meta_of_status DagStatus.running) two_records []).blockers
    ≡ any
        (λ (s : StepRecord).
          status_eq s.status pending
          && is_held_back (debug_state (meta_of_status DagStatus.running) two_records []) s
          && s.step_id == "b")
        two_records
blockers_exact_example = blockers_exact (meta_of_status DagStatus.running) two_records [] "b"
