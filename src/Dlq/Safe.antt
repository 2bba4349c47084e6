-- ===== src/Dlq/Safe.antt =====
-- `Requeue` of dlq/requeue.go loses no task.
use Prim.Native.String.{◌++◌ as append}
use ebind.Base.{
  ◌==◌, if◌then◌else◌, ℕ, String, Bool, true, false, Option, none, some, List, [], ◌∷◌, ◌++◌, ◌≡◌,
  refl, ◌⊎◌, inl, inr, ◌∙◌, sym, ap, subst,
}
use ebind.Task.{Task}
use ebind.Stream.{task_publish_subject}
use ebind.Dlq.{
  Entry, Outcome, Found, no_message, other_bytes, entry, DlqClient, fetched, reset, remove, resend,
  requeue, IsDlq,
}

abbrev found_or : Entry → Found → Entry
found_or e (entry e') = e'
found_or e _ = e

module _ {B : Type 0} (client : DlqClient B) (token : String → String) (letters : B → ℕ → Found)
    (tasks : B → List (String × Task)) where
  -- The subject of a task: that of its name, or of its target and name.
  abbrev subject_for : Task → String
  subject_for t =
      if t.target == ""
      then append "TASKS." t.name
      else append "TASKS_TARGET." (append (token t.target) (append "." t.name))

  -- The entry is still there, or its task was sent as a new one.
  abbrev pub KeptOrSent : ℕ → ℕ → Entry → B → B → Type 0
  KeptOrSent now seq e b b' =
      (letters b' seq ≡ letters b seq)
      ⊎ (tasks b'
          ≡ tasks b
            ++ (
              subject_for e.task,
              record e.task { attempt = 0; enqueued_at = now; worker_id = "" },
            )
              ∷ [])

  module _ (law : IsDlq client letters tasks) (now seq : ℕ) (e : Entry) (b : B) where
    removed :
        (b1 : B) (p : Bool × B)
        → letters b1 seq ≡ letters b seq
        → tasks b1 ≡ tasks b
        → client.publish_task
            (task_publish_subject token e.task.name e.task.target)
            (reset now e.task)
            b1
          ≡ p
        → KeptOrSent now seq e b (remove client token seq p).1
    removed b1 (false, b2) same_letters same_tasks sent = inl (
        sym (ap (λ p. letters p.1 seq) sent)
        ∙ law.publish-keeps (task_publish_subject token e.task.name e.task.target)
            (reset now e.task) b1 seq
        ∙ same_letters)
    removed b1 (true, b2) same_letters same_tasks sent = inr (
        (law.delete-keeps seq seq b2).1
        ∙ law.publish-sends (task_publish_subject token e.task.name e.task.target)
            (reset now e.task) b1 b2 sent
        ∙ ap
            (λ ts.
              ts ++ (task_publish_subject token e.task.name e.task.target, reset now e.task) ∷ [])
            same_tasks)

    resent :
        (r : Option Found × B)
        → client.get_msg seq b ≡ r
        → letters b seq ≡ entry e
        → KeptOrSent now seq e b (resend client token now seq (fetched r.0, r.1)).1
    resent (none, b1) got there =
        inl (sym (ap (λ p. letters p.1 seq) got) ∙ (law.get-keeps seq seq b).0)
    resent (some no_message, b1) got there =
        inl (sym (ap (λ p. letters p.1 seq) got) ∙ (law.get-keeps seq seq b).0)
    resent (some other_bytes, b1) got there =
        inl (sym (ap (λ p. letters p.1 seq) got) ∙ (law.get-keeps seq seq b).0)
    resent (some (entry e'), b1) got there =
        subst (λ x. KeptOrSent now seq e b (resend client token now seq (Outcome.done x, b1)).1)
          (ap (λ m. found_or e m) (sym (law.get-found seq b b1 (entry e') got ∙ there)))
          (removed b1 _ (sym (ap (λ p. letters p.1 seq) got) ∙ (law.get-keeps seq seq b).0)
            (sym (ap (λ p. tasks p.1) got) ∙ (law.get-keeps seq seq b).1) refl)

  -- When the stream has a dead letter of this number, Requeue leaves it there, or its task was
  -- sent with attempt 0, the present time and no worker, on the subject of its name and target.
  pub requeue_safe :
      (now seq : ℕ) (e : Entry) (b : B)
      → IsDlq client letters tasks
      → letters b seq ≡ entry e
      → KeptOrSent now seq e b (requeue client token now seq b).1
  unfolding requeue
  requeue_safe now seq e b law there = resent law now seq e b (client.get_msg seq b) refl there
