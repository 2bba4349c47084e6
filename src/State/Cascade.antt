-- ===== src/State/Cascade.antt =====
-- `cascadeSkipFrom` of workflow/state.go and the transitions that call it. The loop over the queue
-- takes fuel: one round for the root and one for each step, which is enough (`walk_lem`).
pub mod Rounds
pub mod Chains
pub mod Exact
use ebind.Base.{
  ℕ, zero, suc, String, Bool, true, false, not, ◌&&◌, ◌||◌, Option, none, some, List, [], ◌∷◌, ◌++◌,
  Map, lookup, insert, contains, length, if◌then◌else◌,
}
use ebind.Types.{
  StepStatus, pending, running, done, failed, skipped, StepRecord, DagState, Result, ok, err,
  step_not_found, or_default, status_eq,
}
use ebind.Wire.{has_ref_mode}
use ebind.State.{ready_to_run, set_step}

-- The three tests in the inner loop: `other` waits on `cur` in a required way.
unfoldable pub must_skip : String → StepRecord → Bool
unfolding status_eq contains has_ref_mode
must_skip cur other =
    (status_eq other.status pending || status_eq other.status running)
    && contains other.deps cur
    && not (has_ref_mode other.args_json cur or_default)

abbrev pub skip_step : ℕ → StepRecord → StepRecord
skip_step now other = record other { status = skipped; finished_at = now }

-- The inner loop: the steps after it, and the steps that it skipped. It writes only the entry that
-- it stands at.
unfoldable pub skip_dependents : ℕ → String → Map StepRecord → Map StepRecord × List String
unfolding must_skip
skip_dependents now cur [] = ([], [])
skip_dependents now cur ((id, other) ∷ steps) =
    let (rest, out) = skip_dependents now cur steps in
    if must_skip cur other
    then ((id, skip_step now other) ∷ rest, id ∷ out)
    else ((id, other) ∷ rest, out)

-- `if !seen[id] { seen[id] = true; queue = append(queue, id) }` for each step that was skipped.
unfoldable pub add_unseen : List String → List String → List String → List String × List String
unfolding contains
add_unseen [] seen queue = (seen, queue)
add_unseen (id ∷ out) seen queue =
    if contains seen id
    then add_unseen out seen queue
    else add_unseen out (id ∷ seen) (queue ++ id ∷ [])

pub record Walk : Type 0 where
  pub steps : Map StepRecord
  pub skipped : List String
  pub seen : List String
  pub queue : List String

-- One round of `for len(queue) > 0`.
unfoldable pub walk_round : ℕ → String → List String → Walk → Walk
unfolding skip_dependents add_unseen
walk_round now cur rest w =
    let (steps', out) = skip_dependents now cur w.steps in
    let (seen', queue') = add_unseen out w.seen rest in
    record { steps = steps'; skipped = w.skipped ++ out; seen = seen'; queue = queue' }

abbrev walk_on : (Walk → Walk) → ℕ → List String → Walk → Walk
walk_on go now [] w = w
walk_on go now (cur ∷ rest) w = unfold walk_round in go (walk_round now cur rest w)

unfoldable pub walk : ℕ → ℕ → Walk → Walk
unfolding walk_round
walk zero now w = w
walk (suc fuel) now w = walk_on (walk fuel now) now w.queue w

abbrev pub walk_start : String → Map StepRecord → Walk
walk_start root steps = record { steps = steps; skipped = []; seen = root ∷ []; queue = root ∷ [] }

unfoldable pub cascade_skip_from : ℕ → String → DagState → DagState × List String
unfolding walk
cascade_skip_from now root s =
    let w = walk (suc (length s.steps)) now (walk_start root s.steps) in
    (record s { steps = w.steps }, w.skipped)

-- `MarkDone`: the steps that are ready after it.
unfoldable pub mark_done : ℕ → String → DagState → Result (List String) × DagState
unfolding lookup insert status_eq ready_to_run
mark_done now id s = elim (lookup id s.steps) [
  | none ↦ (err step_not_found, s)
  | some step ↦
      if status_eq step.status done
      then (ok [], s)
      else let s' = set_step s id (record step { status = done; finished_at = now }) in
        (ok (ready_to_run s'), s')
]

-- `MarkFailed`: the steps that are ready and the steps that were skipped.
unfoldable pub mark_failed :
    ℕ → String → String → List ℕ → DagState → Result (List String × List String) × DagState
unfolding lookup insert status_eq ready_to_run cascade_skip_from
mark_failed now id kind message s = elim (lookup id s.steps) [
  | none ↦ (err step_not_found, s)
  | some step ↦
      let marked =
        if status_eq step.status failed
        then s
        else set_step s id (record step {
          status = failed;
          error_kind = kind;
          error_message = message;
          finished_at = now;
        }) in
      let (s', cascaded) = cascade_skip_from now id marked in (ok (ready_to_run s', cascaded), s')
]

-- `MarkSkipped`: the steps that were skipped with it.
unfoldable pub mark_skipped : ℕ → String → DagState → Result (List String) × DagState
unfolding lookup insert status_eq cascade_skip_from
mark_skipped now id s = elim (lookup id s.steps) [
  | none ↦ (err step_not_found, s)
  | some step ↦
      let marked =
        if status_eq step.status skipped
        then s
        else set_step s id (record step { status = skipped; finished_at = now }) in
      let (s', cascaded) = cascade_skip_from now id marked in (ok cascaded, s')
]
