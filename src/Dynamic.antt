-- ===== src/Dynamic.antt =====
-- workflow/context.go: the steps that a running step adds to its own DAG.
pub mod Added
pub mod Rules
use ebind.Base.{ℕ, String, ◌==◌, Option, none, some, List, [], ◌∷◌, ◌++◌, if◌then◌else◌}
use ebind.Types.{
  DagStatus, PlacementSpec, colocate_here, colocate_with, step_added, StepRecord, Err, Result, ok,
  err, dag_canceled, not_callable, is_stale, dag_status_eq,
}
use ebind.Wire.Args.{Arg}
use ebind.Store.{get_meta, put_step, get_step}
use ebind.Runtime.{M, pure, raise, ◌>>=◌, ◌>>◌, call, read, catch, ignore, publish, time_now}
use ebind.Control.Pause.{bare_event}
use ebind.Builder.{Step, validate_step_breakpoints, validate_step_signals}
use ebind.Builder.Options.{StepOption, apply_options, bare_step}
use ebind.Builder.Check.{and_then}
use ebind.Builder.Record.{record_of}

-- The part of `ContextDAG` that the addition of a step reads.
pub record ContextDag : Type 0 where
  pub dag_id : String
  pub parent_step : String

abbrev pub with_parent : String → Step → Step
with_parent parent s =
    if parent == "" then s else record s { after_deps = s.after_deps ++ parent ∷ [] }

-- A step placed here goes to the worker that its parent ran on.
abbrev pub place_by_parent : String → Option PlacementSpec → Option PlacementSpec
place_by_parent parent none = none
place_by_parent parent (some spec) = elim spec.mode [
  | colocate_here ↦ some (record { mode = colocate_with; target = ""; step_id = parent })
  | _ ↦ some spec
]

unfoldable pub dynamic_step :
    ContextDag → String → Option String → List Arg → List StepOption → Step
unfolding apply_options
dynamic_step c id fn args opts =
    let s = with_parent c.parent_step (apply_options opts (bare_step id fn args)) in
    record s { placement = place_by_parent c.parent_step s.placement }

abbrev lift : Result (Unit {0}) → M (Unit {0})
lift (ok u) = pure u
lift (err e) = raise e

-- A record with the same function that is there already counts as added.
abbrev pub accept_existing : Err → StepRecord → Step → Result (StepRecord × ℕ) → M Step
accept_existing e rec s (ok (existing, rev)) =
    if existing.fn_name == rec.fn_name then pure s else raise e
accept_existing e rec s (err e') = raise e

abbrev pub after_create : ContextDag → String → StepRecord → Step → Result ℕ → M Step
after_create c id rec s (ok rev) = ignore (publish (bare_event step_added c.dag_id id)) >> pure s
after_create c id rec s (err e) =
    if is_stale e
    then (catch (read (get_step c.dag_id id)) >>= accept_existing e rec s)
    else raise e

abbrev pub create_dynamic : ContextDag → String → String → Step → M Step
create_dynamic c id fn s = time_now >>= λ now.
    let rec = record_of c.dag_id fn now s in
    catch (call (λ st. put_step c.dag_id id st rec 0)) >>= after_create c id rec s

abbrev validated : Step → Result (Unit {0})
validated s = and_then (validate_step_breakpoints s) (validate_step_signals s)

-- What is checked of the options does not depend on the parent.
abbrev add_described : ContextDag → String → Option String → List Arg → List StepOption → M Step
add_described c id none args opts = raise (not_callable id)
add_described c id (some fn) args opts =
    lift (validated (apply_options opts (bare_step id (some fn) args)))
    >> create_dynamic c id fn (dynamic_step c id (some fn) args opts)

-- `ContextDAG.StepOpts`.
unfoldable pub step_opts : ContextDag → String → Option String → List Arg → List StepOption → M Step
unfolding read call catch publish time_now get_meta get_step put_step dag_status_eq record_of
    dynamic_step validate_step_breakpoints validate_step_signals apply_options
step_opts c id fn args opts = read (get_meta c.dag_id) >>= λ (meta, rev).
    if dag_status_eq meta.status DagStatus.canceled
    then raise dag_canceled
    else add_described c id fn args opts

-- `ContextDAG.Step`.
abbrev pub step : ContextDag → String → Option String → List Arg → M Step
step c id fn args = step_opts c id fn args []
