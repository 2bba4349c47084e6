-- ===== src/Worker/Reports.antt =====
-- A worker with the step hook of package workflow: a message is over only when the store has the
-- outcome of its step.
use ebind.Base.{
  true, false, not, ◌&&◌, ◌==◌, some, ltb, eqb, ◌≡◌, refl, ap, sym, ◌∙◌, subst, ◌⊎◌, inl, inr,
  Bool-cases, ℤ, pos,
}
use ebind.Types.{Json, Result, ok, err}
use ebind.Task.{Task, TaskError, Floats}
use ebind.Runtime.{World}
use ebind.Runtime.Rely.{AllInterfere}
use ebind.Runtime.Rely.Ensures.{Holds}
use ebind.Control.Hook.{on_step_done, on_step_failed, is_bare}
use ebind.Control.Hook as WorkflowHook
use ebind.Control.Hook.Outcome.{IsEnded, on_step_done-Holds, on_step_failed-Holds}
use ebind.Worker.{
  Returned, returns, fails, fails_plain, panics, StepHook, Worker, Message, naked, Sent,
  owns_target, worker_retries, delay_for, report_done, report_failed, after_failed, after_done,
  on_failure, on_returned, delivered, handle,
}
use ebind.Worker.Middleware.{IsNoPanic}
use ebind.Worker.Settles.{SettledBy}

-- The hook that package workflow gives to the worker.
abbrev pub workflow_hook : WorkflowHook.StepHook → StepHook
workflow_hook h = record { on_step_done = on_step_done; on_step_failed = on_step_failed h }

-- The message comes again, or the store has the outcome of its step.
abbrev pub BackOrEnded : Task → Sent → World × Sent → Type 0
BackOrEnded t s (w', s') =
    ((delay : ℤ) × SettledBy s (naked delay) s') ⊎ Holds IsEnded t.dag_id t.step_id w'.store

module _ (f : Floats) (v : Worker) (h : WorkflowHook.StepHook) (t : Task) (w : World) (s : Sent)
    (hooked : v.opts.step_hook ≡ some (workflow_hook h)) (others : AllInterfere w.others)
    (of_dag : is_bare t ≡ false) where
  done-stored :
      (result : Json) (r : Result (Unit {0}) × World)
      → report_done v.opts.step_hook t result w ≡ r
      → BackOrEnded t s (after_done f v t result w.clock s r)
  done-stored result (ok u, w') e =
      let e' = sym (ap (λ o. report_done o t result w) hooked) ∙ e in
      inr (
        subst (λ r. Holds IsEnded t.dag_id t.step_id r.1.store) e'
          (on_step_done-Holds t result w others of_dag (ap (λ r. r.0) e')))
  done-stored result (err x, w') e = inl (delay_for f v.opts t, refl)

  failed-stored :
      (te : TaskError) (r : Result (Unit {0}) × World)
      → report_failed v.opts.step_hook t te w ≡ r
      → BackOrEnded t s (after_failed f v t te w.clock s r)
  failed-stored te (ok u, w') e =
      let e' = sym (ap (λ o. report_failed o t te w) hooked) ∙ e in
      inr (
        subst (λ r. Holds IsEnded t.dag_id t.step_id r.1.store) e'
          (on_step_failed-Holds h t te w others of_dag (ap (λ r. r.0) e')))
  failed-stored te (err x, w') e = inl (delay_for f v.opts t, refl)

  failure-stored : (te : TaskError) → BackOrEnded t s (on_failure f v t te w s)
  failure-stored te = elim (Bool-cases (worker_retries v.opts t te)) [
    | inl again ↦ rw again (inl (delay_for f v.opts t, refl))
    | inr last ↦ rw last (failed-stored te (report_failed v.opts.step_hook t te w) refl)
  ]

  returned-stored : (r : Returned) → IsNoPanic r → BackOrEnded t s (on_returned f v t r w s)
  returned-stored (returns result) n =
      done-stored result (report_done v.opts.step_hook t result w) refl
  returned-stored (fails te) n = failure-stored te
  returned-stored (fails_plain text) n =
      failure-stored (record { kind = "handler"; message = text; retryable = true })
  returned-stored (panics text) n = absurd n

-- With the hook of package workflow and other writers that keep to the rules, a delivered task of
-- a DAG whose deadline has not passed and whose handler does not panic is put back with a delay,
-- or the store holds its step with a terminal status once it was handled.
pub over_only_when_stored :
    (f : Floats) (v : Worker) (h : WorkflowHook.StepHook) (msg : Message) (w : World) (s : Sent)
    (t : Task)
    → v.opts.step_hook ≡ some (workflow_hook h)
    → AllInterfere w.others
    → msg.body ≡ some t
    → is_bare t ≡ false
    → (not (eqb t.deadline 0) && ltb t.deadline w.clock) ≡ false
    → IsNoPanic (v.invoke (delivered v msg t))
    → BackOrEnded t s (handle f v msg w s)
unfolding handle
over_only_when_stored f v h msg w s t hooked others body of_dag in_time n =
    elim (Bool-cases (not (t.target == "") && not (owns_target v.claims t.target))) [
      | inl stray ↦ rw (body, stray) (inl (pos v.opts.claim_retry_delay, refl))
      | inr owned ↦
          rw (body, owned, in_time)
            (returned-stored f v h (delivered v msg t) w s hooked others of_dag
              (v.invoke (delivered v msg t)) n)
    ]
