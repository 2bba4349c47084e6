-- ===== src/Dynamic/Rules.antt =====
-- The additions of workflow/context.go keep to the rules of all writers.
use ebind.Base.{ℕ, String, ◌==◌, Option, none, some, List}
use ebind.Types.{DagStatus, StepRecord, Err, Result, ok, err, dag_canceled, is_stale, dag_status_eq}
use ebind.Wire.Args.{Arg}
use ebind.Store.{get_meta, put_step, get_step}
use ebind.Runtime.{pure, raise, read, time_now}
use ebind.Runtime.Rely.{Guarantees}
use ebind.Runtime.Rely.Rules.{
  Guarantees-pure, Guarantees-raise, Guarantees-call, Guarantees-read, Guarantees-catch,
  Guarantees-ignore, Guarantees-publish, Guarantees-time_now, Guarantees-bind, Guarantees-if,
}
use ebind.Runtime.Rely.Writes.{create_step-Evolves}
use ebind.Builder.{Step}
use ebind.Builder.Options.{StepOption, apply_options, bare_step}
use ebind.Builder.Record.{record_of}
use ebind.Dynamic.{
  ContextDag, dynamic_step, accept_existing, after_create, create_dynamic, validated, lift,
  add_described, step_opts,
}

Guarantees-accept_existing :
    (e : Err) (rec : StepRecord) (s : Step) (r : Result (StepRecord × ℕ))
    → Guarantees (accept_existing e rec s r)
Guarantees-accept_existing e rec s (ok (existing, rev)) =
    Guarantees-if (existing.fn_name == rec.fn_name) (pure s) (raise e) (Guarantees-pure s)
      (Guarantees-raise e)
Guarantees-accept_existing e rec s (err e') = Guarantees-raise e

Guarantees-after_create :
    (c : ContextDag) (id : String) (rec : StepRecord) (s : Step) (r : Result ℕ)
    → Guarantees (after_create c id rec s r)
Guarantees-after_create c id rec s (ok rev) =
    Guarantees-bind _ _ (Guarantees-ignore _ (Guarantees-publish _)) (λ _. Guarantees-pure s)
Guarantees-after_create c id rec s (err e) =
    Guarantees-if (is_stale e) _ _
      (Guarantees-bind _ _ (Guarantees-catch _ (Guarantees-read (get_step c.dag_id id)))
        (Guarantees-accept_existing e rec s))
      (Guarantees-raise e)

Guarantees-create_dynamic :
    (c : ContextDag) (id fn : String) (s : Step) → Guarantees (create_dynamic c id fn s)
Guarantees-create_dynamic c id fn s = Guarantees-bind time_now _ Guarantees-time_now (λ now.
    Guarantees-bind _ _
      (Guarantees-catch _ (
        Guarantees-call (λ st. put_step c.dag_id id st (record_of c.dag_id fn now s) 0)
          (λ st. create_step-Evolves c.dag_id id st (record_of c.dag_id fn now s))))
      (Guarantees-after_create c id (record_of c.dag_id fn now s) s))

Guarantees-lift : (r : Result (Unit {0})) → Guarantees (lift r)
Guarantees-lift (ok u) = Guarantees-pure u
Guarantees-lift (err e) = Guarantees-raise e

Guarantees-add_described :
    (c : ContextDag) (id : String) (fn : Option String) (args : List Arg) (opts : List StepOption)
    → Guarantees (add_described c id fn args opts)
Guarantees-add_described c id none args opts = Guarantees-raise _
Guarantees-add_described c id (some fn) args opts =
    Guarantees-bind (lift (validated (apply_options opts (bare_step id (some fn) args)))) _
      (Guarantees-lift _)
      (λ _. Guarantees-create_dynamic c id fn (dynamic_step c id (some fn) args opts))

pub Guarantees-step_opts :
    (c : ContextDag) (id : String) (fn : Option String) (args : List Arg) (opts : List StepOption)
    → Guarantees (step_opts c id fn args opts)
unfolding step_opts
Guarantees-step_opts c id fn args opts =
    Guarantees-bind (read (get_meta c.dag_id)) _ (Guarantees-read (get_meta c.dag_id))
      (λ (meta, rev).
        Guarantees-if (dag_status_eq meta.status DagStatus.canceled) (raise dag_canceled) _
          (Guarantees-raise dag_canceled) (Guarantees-add_described c id fn args opts))
