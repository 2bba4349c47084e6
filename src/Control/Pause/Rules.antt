-- ===== src/Control/Pause/Rules.antt =====
-- Pause and resume keep to the rules for writers.
use ebind.Base.{
  ℕ, zero, suc, String, Bool, true, false, not, ◌||◌, Option, none, some, List, [], ◌∷◌, refl,
}
use ebind.Types.{StepRecord, DagMeta, DagStatus, ok, running, pending, status_eq, dag_status_eq}
use ebind.State.{can_pause, can_resume}
use ebind.Store.{list_steps, get_meta, put_meta}
use ebind.Runtime.{M, call, read, retry_on_stale, time_now, attempt_step, try_step}
use ebind.Runtime.Rely.{Guarantees}
use ebind.Runtime.Rely.Moves.{RecEvolves-mark}
use ebind.Runtime.Rely.Rules.{
  OnWrite, OnWrite-if, Guarantees-pure, Guarantees-raise, Guarantees-call, Guarantees-read,
  Guarantees-retry_on_stale, Guarantees-bind, Guarantees-if, Guarantees-time_now,
  Guarantees-publish, Guarantees-attempt_step, Guarantees-try_step,
}
use ebind.Runtime.Rely.MetaRules.{put_meta-Evolves, Guarantees-cas_meta, Guarantees-for_each}
use ebind.Control.Pause.{
  fence_decision, fence_step, next_pass, if_won, or_again, fence_pass, fence_passes,
  fence_pending_steps, meta_only, pause_decision, pause, release_decision, release_step,
  release_listed, release_held_steps, publish_resume_event, resume_running, resume_paused,
  resume_attempt, resume_loop, resume,
}

module _ (dag : String) where
  pub fence_decision-OnWrite : (now : ℕ) (rec : StepRecord) → OnWrite rec (fence_decision now rec)
  fence_decision-OnWrite now rec =
      OnWrite-if rec (status_eq rec.status running) _ _ (λ r. tt)
        (λ idle.
          OnWrite-if rec (not (status_eq rec.status pending) || rec.held) _ _ (λ s. tt)
            (λ waits. RecEvolves-mark _ _ refl refl (λ h. h) (λ h. h)))

  Guarantees-fence_step : (snap : StepRecord) → Guarantees (fence_step dag snap)
  unfolding fence_step
  Guarantees-fence_step snap =
      Guarantees-if (status_eq snap.status running) _ _ (Guarantees-pure _) (
        Guarantees-if (not (status_eq snap.status pending) || snap.held) _ _ (Guarantees-pure _) (
          Guarantees-bind time_now _ Guarantees-time_now (λ now.
            Guarantees-bind (attempt_step dag snap.step_id (fence_decision now)) _
              (Guarantees-attempt_step dag snap.step_id _ (fence_decision-OnWrite now))
              (λ o. Guarantees-pure _))))

  Guarantees-fence_pass : (snaps : List StepRecord) → Guarantees (fence_pass dag snaps)
  unfolding fence_pass
  Guarantees-fence_pass [] = Guarantees-pure _
  Guarantees-fence_pass (snap ∷ snaps) =
      Guarantees-bind (fence_step dag snap) _ (Guarantees-fence_step snap) (λ a.
        Guarantees-bind (fence_pass dag snaps) _ (Guarantees-fence_pass snaps)
          (λ b. Guarantees-pure _))

  Guarantees-listed : Guarantees (read (λ s. ok (list_steps dag s)))
  Guarantees-listed = Guarantees-read (λ s. ok (list_steps dag s))

  Guarantees-next_pass :
      (changed in_flight : Bool) (again : M Bool)
      → Guarantees again
      → Guarantees (next_pass changed again in_flight)
  Guarantees-next_pass true in_flight again g = g
  Guarantees-next_pass false in_flight again g = Guarantees-pure _

  Guarantees-fence_passes : (n : ℕ) → Guarantees (fence_passes n dag)
  unfolding fence_passes
  Guarantees-fence_passes zero = Guarantees-pure _
  Guarantees-fence_passes (suc n) =
      Guarantees-bind (read (λ s. ok (list_steps dag s))) _ Guarantees-listed (λ steps.
        Guarantees-bind (fence_pass dag steps) _ (Guarantees-fence_pass steps)
          (λ (in_flight, changed).
            Guarantees-next_pass changed in_flight _ (Guarantees-fence_passes n)))

  pub Guarantees-fence_pending_steps : Guarantees (fence_pending_steps dag)
  unfolding fence_pending_steps
  Guarantees-fence_pending_steps = Guarantees-fence_passes 5

  pub Guarantees-pause : Guarantees (pause dag)
  unfolding pause
  Guarantees-pause = Guarantees-cas_meta 5 dag (pause_decision dag) (λ meta.
      Guarantees-if (can_pause (meta_only meta)) _ _
        (Guarantees-bind (fence_pending_steps dag) _ Guarantees-fence_pending_steps
          (λ in_flight. Guarantees-bind time_now _ Guarantees-time_now (λ now. Guarantees-pure _)))
        (Guarantees-pure _))

  pub release_decision-OnWrite : (rec : StepRecord) → OnWrite rec (release_decision rec)
  release_decision-OnWrite rec =
      OnWrite-if rec (not rec.held) _ _ (λ r. tt)
        (λ h. RecEvolves-mark _ _ refl refl (λ h. h) (λ h. h))

  Guarantees-release_step : (step : String) → Guarantees (release_step dag step)
  Guarantees-release_step step =
      Guarantees-bind (try_step 5 dag step release_decision) _
        (Guarantees-try_step 5 dag step release_decision release_decision-OnWrite)
        (λ _. Guarantees-pure _)

  Guarantees-release_held_steps : Guarantees (release_held_steps dag)
  unfolding release_held_steps
  Guarantees-release_held_steps =
      Guarantees-bind (read (λ s. ok (list_steps dag s))) _ Guarantees-listed (λ steps.
        Guarantees-for_each (release_listed dag) steps (λ rec.
          Guarantees-if (not rec.held) _ _ (Guarantees-pure _)
            (Guarantees-release_step rec.step_id)))

  pub Guarantees-publish_resume_event : Guarantees (publish_resume_event dag)
  unfolding publish_resume_event
  Guarantees-publish_resume_event = Guarantees-publish _

  Guarantees-if_won :
      (m : M (Unit {0})) (o : Option (Unit {0})) → Guarantees m → Guarantees (if_won m o)
  Guarantees-if_won m none g = Guarantees-pure _
  Guarantees-if_won m (some u) g = Guarantees-bind m _ g (λ _. Guarantees-pure _)

  Guarantees-or_again :
      (m : M (Unit {0})) (o : Option (Unit {0})) → Guarantees m → Guarantees (or_again m o)
  Guarantees-or_again m none g = g
  Guarantees-or_again m (some u) g = Guarantees-pure _

  Guarantees-resume_running : Guarantees (resume_running dag)
  Guarantees-resume_running =
      Guarantees-bind (retry_on_stale (release_held_steps dag)) _
        (Guarantees-retry_on_stale _ Guarantees-release_held_steps)
        (λ o. Guarantees-if_won _ o Guarantees-publish_resume_event)

  Guarantees-resume_paused : (meta : DagMeta) (rev : ℕ) → Guarantees (resume_paused dag meta rev)
  Guarantees-resume_paused meta rev =
      Guarantees-bind
        (retry_on_stale (
          call
            (λ s. put_meta dag s (record meta { status = DagStatus.running; paused_at = 0 }) rev)))
        _ (Guarantees-retry_on_stale _ (Guarantees-call _ (λ s. put_meta-Evolves dag s _ rev)))
        (λ o. Guarantees-if_won _ o (
          Guarantees-bind (release_held_steps dag) _ Guarantees-release_held_steps
            (λ _. Guarantees-publish_resume_event)))

  Guarantees-resume_attempt : Guarantees (resume_attempt dag)
  unfolding resume_attempt
  Guarantees-resume_attempt =
      Guarantees-bind (read (get_meta dag)) _ (Guarantees-read (get_meta dag)) (λ (meta, rev).
        Guarantees-if (dag_status_eq meta.status DagStatus.running) _ _ Guarantees-resume_running (
          Guarantees-if (not (can_resume (meta_only meta))) _ _ (Guarantees-raise _)
            (Guarantees-resume_paused meta rev)))

  Guarantees-resume_loop : (n : ℕ) → Guarantees (resume_loop n dag)
  unfolding resume_loop
  Guarantees-resume_loop zero = Guarantees-raise _
  Guarantees-resume_loop (suc n) =
      Guarantees-bind (resume_attempt dag) _ Guarantees-resume_attempt
        (λ o. Guarantees-or_again _ o (Guarantees-resume_loop n))

  pub Guarantees-resume : Guarantees (resume dag)
  unfolding resume
  Guarantees-resume = Guarantees-resume_loop 5
