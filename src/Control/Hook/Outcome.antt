-- ===== src/Control/Hook/Outcome.antt =====
-- What is true once a worker has reported the end of a step.
use ebind.Base.{ℕ, String, true, false, inl, inr, List, [], ◌≡◌, refl, arith, ◌⊎◌}
use ebind.Types.{Json, StepStatus, done, failed, StepRecord, ok, is_terminal, status_eq}
use ebind.Task.{Task, TaskError}
use ebind.Runtime.{World, M, pure, ◌>>◌, time_now}
use ebind.Runtime.Rely.{Guarantees, AllInterfere}
use ebind.Runtime.Rely.Moves.{RecEvolves-start}
use ebind.Runtime.Rely.Rules.{
  OnWrite, OnWrite-if, Guarantees-cas_step, Guarantees-bind, Guarantees-if, Guarantees-pure,
  Guarantees-call, Guarantees-publish, Guarantees-time_now,
}
use ebind.Runtime.Rely.MetaRules.{put_result-Evolves}
use ebind.Runtime.Rely.Ensures.{Holds, IsStable, Leaves, Leaves-if, cas_step-Holds, Holds-bind}
use ebind.Control.Message.{truncate_error_message}
use ebind.Control.Hook.{
  StepHook, end_decision, cas_update_status, is_bare, save_result, record_done, record_failed,
  on_step_done, on_step_failed,
}

-- The status is one that ends a step.
abbrev Ends : StepStatus → Type 0
Ends status = (status ≡ done) ⊎ (status ≡ failed)

abbrev pub IsEnded : StepRecord → Type 0
IsEnded rec = is_terminal rec ≡ true

pub IsEnded-IsStable : IsStable IsEnded
unfolding is_terminal
IsEnded-IsStable r r' moves h = ground (arith, moves.ended h)

module _ (now : ℕ) (status : StepStatus) (kind : String) (message : List ℕ) (worker : String)
    (ends : Ends status) where
  pub end_decision-OnWrite :
      (rec : StepRecord) → OnWrite rec (end_decision now status kind message worker rec)
  unfolding status_eq
  end_decision-OnWrite rec =
      OnWrite-if rec (is_terminal rec) _ _ (λ over. tt)
        (λ goes_on. RecEvolves-start _ _ refl refl refl goes_on (ground arith))

  end_decision-Leaves :
      (rec : StepRecord)
      → Leaves (λ _. IsEnded) rec (end_decision now status kind message worker rec)
  unfolding is_terminal
  end_decision-Leaves rec =
      Leaves-if (λ _. IsEnded) rec (is_terminal rec) _ _ (λ over. over) (λ goes_on. ground arith)

module _ (t : Task) (status : StepStatus) (kind : String) (message : List ℕ)
    (ends : Ends status) where
  Guarantees-cas_update_status : Guarantees (cas_update_status t status kind message)
  unfolding cas_update_status
  Guarantees-cas_update_status = Guarantees-bind time_now _ Guarantees-time_now (λ now.
      Guarantees-cas_step 5 t.dag_id t.step_id _
        (end_decision-OnWrite now status kind message t.worker_id ends))

  cas_update_status-Holds :
      (w : World)
      → (cas_update_status t status kind message w).0 ≡ ok tt
      → Holds IsEnded t.dag_id t.step_id (cas_update_status t status kind message w).1.store
  unfolding cas_update_status time_now
  cas_update_status-Holds w h =
      cas_step-Holds (λ _. IsEnded) t.dag_id t.step_id _
        (end_decision-Leaves w.clock status kind message t.worker_id ends) 5 w h

  cas_update_status-Ended :
      (w : World)
      → (a : Unit {0}) → (cas_update_status t status kind message w).0 ≡ ok a
      → Holds IsEnded t.dag_id t.step_id (cas_update_status t status kind message w).1.store
  cas_update_status-Ended w tt h = cas_update_status-Holds w h

module _ (t : Task) (result : Json) where
  Guarantees-save : Guarantees (save_result t result)
  Guarantees-save = Guarantees-call _ (λ s. put_result-Evolves t.dag_id t.step_id s result)

  abbrev reported : M (Unit {0})
  reported = cas_update_status t done "" [] >> save_result t result

  Guarantees-reported : Guarantees reported
  Guarantees-reported =
      Guarantees-bind (cas_update_status t done "" []) _
        (Guarantees-cas_update_status t done "" [] (inl refl)) (λ _. Guarantees-save)

  pub Guarantees-on_step_done : Guarantees (on_step_done t result)
  unfolding on_step_done
  Guarantees-on_step_done =
      Guarantees-if (is_bare t) (pure tt) (record_done t result) (Guarantees-pure tt)
        (Guarantees-bind reported _ Guarantees-reported (λ _. Guarantees-publish _))

  -- When the report of a success returns for a task of a DAG, with other writers that keep to
  -- the rules, the store holds the step with a terminal status.
  pub on_step_done-Holds :
      (w : World)
      → AllInterfere w.others
      → is_bare t ≡ false
      → (on_step_done t result w).0 ≡ ok tt
      → Holds IsEnded t.dag_id t.step_id (on_step_done t result w).1.store
  unfolding on_step_done
  on_step_done-Holds w h dag_task = rw dag_task (
      Holds-bind IsEnded t.dag_id t.step_id IsEnded-IsStable reported _ w
        (Guarantees-reported.at w h) (λ _. Guarantees-publish _)
        (λ _.
          Holds-bind IsEnded t.dag_id t.step_id IsEnded-IsStable (cas_update_status t done "" []) _
            w ((Guarantees-cas_update_status t done "" [] (inl refl)).at w h) (λ _. Guarantees-save)
            (cas_update_status-Ended t done "" [] (inl refl) w)))

module _ (hook : StepHook) (t : Task) (e : TaskError) where
  abbrev kept_message : List ℕ
  kept_message = truncate_error_message e.message hook.max_err_bytes

  pub Guarantees-on_step_failed : Guarantees (on_step_failed hook t e)
  unfolding on_step_failed
  Guarantees-on_step_failed =
      Guarantees-if (is_bare t) (pure tt) (record_failed t e.kind kept_message) (Guarantees-pure tt)
        (Guarantees-bind (cas_update_status t failed e.kind kept_message) _
          (Guarantees-cas_update_status t failed e.kind kept_message (inr refl))
          (λ _. Guarantees-publish _))

  -- When the report of a failure returns for a task of a DAG, with other writers that keep to
  -- the rules, the store holds the step with a terminal status.
  pub on_step_failed-Holds :
      (w : World)
      → AllInterfere w.others
      → is_bare t ≡ false
      → (on_step_failed hook t e w).0 ≡ ok tt
      → Holds IsEnded t.dag_id t.step_id (on_step_failed hook t e w).1.store
  unfolding on_step_failed
  on_step_failed-Holds w h dag_task = rw dag_task (
      Holds-bind IsEnded t.dag_id t.step_id IsEnded-IsStable
        (cas_update_status t failed e.kind kept_message) _ w
        ((Guarantees-cas_update_status t failed e.kind kept_message (inr refl)).at w h)
        (λ _. Guarantees-publish _)
        (cas_update_status-Ended t failed e.kind kept_message (inr refl) w))
