-- ===== src/Control/Persist.antt =====
-- `persistStatus` of workflow/scheduler.go: the scheduler's only way to change a step's status.
use ebind.Base.{ℕ, String, true, false, not, ◌&&◌, eqb, some, ◌≡◌, refl, arith, ◌⊎◌, if◌then◌else◌}
use ebind.Store.{MemEntry, find_in}
use ebind.Types.{
  StepStatus, StepRecord, ok, err, running, skipped, step_not_enqueueable, status_eq, is_terminal,
}
use ebind.Runtime.{World, M, ◌>>=◌, time_now, Decision, stop, refuse, write, cas_step, found_store}
use ebind.Runtime.Runs.{after_read, cas_step-refuse}
use ebind.Runtime.Rely.{Guarantees}
use ebind.Runtime.Rely.Moves.{RecEvolves-start, RecEvolves-skip}
use ebind.Runtime.Rely.Rules.{
  OnWrite, OnWrite-if, Guarantees-cas_step, Guarantees-bind, Guarantees-time_now,
}
use ebind.Runtime.Rely.Ensures.{Holds, IsStable, Leaves, Leaves-if, cas_step-Holds}

abbrev pub persist_decision : ℕ → StepStatus → StepRecord → Decision (Unit {0})
persist_decision now status rec =
    if status_eq rec.status status
    then stop tt
    else if rec.held && status_eq status running
    then refuse step_not_enqueueable
    else if is_terminal rec && not (status_eq status skipped)
    then refuse step_not_enqueueable
    else write
        (record rec {
          status = status;
          started_at =
              if status_eq status running && eqb rec.started_at 0 then now else rec.started_at;
        })
        tt

unfoldable pub persist_status : String → String → StepStatus → M (Unit {0})
unfolding cas_step time_now is_terminal status_eq
persist_status dag step status =
    time_now >>= λ now. cas_step 5 dag step (persist_decision now status)

pub running-OnWrite : (now : ℕ) (rec : StepRecord) → OnWrite rec (persist_decision now running rec)
unfolding status_eq
running-OnWrite now rec =
    OnWrite-if rec (status_eq rec.status running) _ _ (λ same. tt)
      λ starts.
        OnWrite-if rec (rec.held && true) _ _ (λ h. tt)
          λ free.
            OnWrite-if rec (is_terminal rec && true) _ _ (λ h. tt)
              λ goes_on. RecEvolves-start _ _ refl refl refl (ground arith) refl

pub skipped-OnWrite : (now : ℕ) (rec : StepRecord) → OnWrite rec (persist_decision now skipped rec)
unfolding status_eq
skipped-OnWrite now rec =
    OnWrite-if rec (status_eq rec.status skipped) _ _ (λ same. tt)
      λ moves.
        OnWrite-if rec (rec.held && false) _ _ (λ h. tt)
          λ free.
            OnWrite-if rec (is_terminal rec && false) _ _ (λ h. tt)
              λ goes_on. RecEvolves-skip _ _ refl refl refl refl

-- When the other writers keep to the rules, so does a change of a step to running: no step is
-- lost, each step record only moves on, and delivered signals stay.
pub Guarantees-persist_running : (dag step : String) → Guarantees (persist_status dag step running)
unfolding persist_status
Guarantees-persist_running dag step =
    Guarantees-bind time_now _ Guarantees-time_now
      (λ now. Guarantees-cas_step 5 dag step (persist_decision now running) (running-OnWrite now))

-- When the other writers keep to the rules, so does a change of a step to skipped: no step is
-- lost, each step record only moves on, and delivered signals stay.
pub Guarantees-persist_skipped : (dag step : String) → Guarantees (persist_status dag step skipped)
unfolding persist_status
Guarantees-persist_skipped dag step =
    Guarantees-bind time_now _ Guarantees-time_now
      (λ now. Guarantees-cas_step 5 dag step (persist_decision now skipped) (skipped-OnWrite now))

abbrev pub IsSkipped : StepRecord → Type 0
IsSkipped rec = rec.status ≡ skipped

pub IsSkipped-IsStable : IsStable IsSkipped
unfolding is_terminal
IsSkipped-IsStable r r' moves h = ground (arith, moves.ended)

skipped_of_eq : (rec : StepRecord) → status_eq rec.status skipped ≡ true → IsSkipped rec
unfolding status_eq
skipped_of_eq rec h = ground arith

skipped-Leaves :
    (now : ℕ) (rec : StepRecord) → Leaves (λ _. IsSkipped) rec (persist_decision now skipped rec)
unfolding status_eq
skipped-Leaves now rec =
    Leaves-if (λ _. IsSkipped) rec (status_eq rec.status skipped) _ _ (skipped_of_eq rec)
      λ moves.
        Leaves-if (λ _. IsSkipped) rec (rec.held && false) _ _ (λ h. tt)
          λ free.
            Leaves-if (λ _. IsSkipped) rec (is_terminal rec && false) _ _ (λ h. tt) λ goes_on. refl

-- A change to skipped that returns leaves the step in the store as skipped, whatever writers
-- there are besides it.
pub persist_skipped-Holds :
    (dag step : String) (w : World)
    → (persist_status dag step skipped w).0 ≡ ok tt
    → Holds IsSkipped dag step (persist_status dag step skipped w).1.store
unfolding persist_status time_now
persist_skipped-Holds dag step w h =
    cas_step-Holds (λ _. IsSkipped) dag step (persist_decision w.clock skipped)
      (skipped-Leaves w.clock) 5 w h

refuses :
    (now : ℕ) (rec : StepRecord)
    → (rec.held ≡ true) ⊎ (is_terminal rec ≡ true)
    → status_eq rec.status running ≡ false
    → persist_decision now running rec ≡ refuse step_not_enqueueable
unfolding status_eq
refuses now rec fenced idle = ground arith

-- When the step that the store holds is fenced or over, and not running, a change to running is
-- refused with the error for steps that cannot be enqueued, and nothing is written.
pub persist_running-refused :
    (dag step : String) (w : World) {e : MemEntry}
    → find_in dag step (found_store w.others w.store).steps ≡ some e
    → (e.rec.held ≡ true) ⊎ (is_terminal e.rec ≡ true)
    → status_eq e.rec.status running ≡ false
    → persist_status dag step running w ≡ (err step_not_enqueueable, after_read w)
unfolding persist_status time_now
persist_running-refused dag step w {e} found fenced idle =
    cas_step-refuse dag step (persist_decision w.clock running) w found 4
      (refuses w.clock e.rec fenced idle)
