-- ===== src/Dlq.antt =====
-- dlq/dlq.go and dlq/requeue.go: the dead letters. The streams are a parameter.
pub mod Safe
use Prim.Native.String.{◌++◌ as append}
use ebind.Base.{
  ℕ, String, Bool, true, false, ◌==◌, Option, none, some, List, [], ◌∷◌, ◌++◌, eqb, if◌then◌else◌,
  ◌≡◌, ◌≢◌, refl, ◌⊎◌, inl, inr, ◌∙◌, sym, ap, arith,
}
use ebind.Task.{Task, TaskError}
use ebind.Stream.{task_publish_subject}

pub record Entry : Type 0 where
  pub task : Task
  pub error : TaskError
  pub final_attempt : ℕ
  pub dead_lettered_at : ℕ

-- The errors of the package: ErrNotFound, one of the client, and bytes that are no entry.
pub data DlqErr : Type 0 where
  not_found client_failed bad_entry : DlqErr

pub data Outcome (A : Type 0) : Type 0 where
  done : A → Outcome A
  failed : DlqErr → Outcome A

-- What a message of the stream of dead letters is: missing, some other bytes, or an entry.
pub data Found : Type 0 where
  no_message other_bytes : Found
  entry : Entry → Found

-- The calls of the client. `none` is an error of the client.
pub record DlqClient (B : Type 0) : Type 0 where
  pub get_msg : ℕ → B → Option Found × B
  pub delete_msg : ℕ → B → Bool × B
  pub publish_task : String → Task → B → Bool × B
  pub publish_entry : String → Entry → B → Bool × B

abbrev pub entry_of : ℕ → Task → TaskError → Entry
entry_of now t te = record {
  task = t;
  error = te;
  final_attempt = t.attempt;
  dead_lettered_at = now;
}

abbrev pub fetched : Option Found → Outcome Entry
fetched none = failed client_failed
fetched (some no_message) = failed not_found
fetched (some other_bytes) = failed bad_entry
fetched (some (entry e)) = done e

-- The task as it is sent again.
abbrev pub reset : ℕ → Task → Task
reset now t = record t { attempt = 0; enqueued_at = now; worker_id = "" }

abbrev pub report : Bool → Outcome (Unit {0})
report true = done tt
report false = failed client_failed

module _ {B : Type 0} (client : DlqClient B) (token : String → String) where
  -- `Publish`.
  unfoldable pub publish : ℕ → Task → TaskError → B → Outcome (Unit {0}) × B
  publish now t te b =
      let (sent, b') = client.publish_entry (append "DLQ." t.name) (entry_of now t te) b in
      (report sent, b')

  -- `Fetch`.
  abbrev pub fetch : ℕ → B → Outcome Entry × B
  fetch seq b = let (r, b') = client.get_msg seq b in (fetched r, b')

  abbrev pub remove : ℕ → Bool × B → Outcome (Unit {0}) × B
  remove seq (false, b) = (failed client_failed, b)
  remove seq (true, b) = let (gone, b') = client.delete_msg seq b in (report gone, b')

  abbrev pub resend : ℕ → ℕ → Outcome Entry × B → Outcome (Unit {0}) × B
  resend now seq (failed e, b) = (failed e, b)
  resend now seq (done e, b) =
      let t = reset now e.task in
      remove seq (client.publish_task (task_publish_subject token t.name t.target) t b)

  -- `Requeue`: the message is deleted only once the task is sent.
  unfoldable pub requeue : ℕ → ℕ → B → Outcome (Unit {0}) × B
  requeue now seq b = resend now seq (fetch seq b)

-- What the client does to the two streams: the dead letters by their numbers, and the tasks sent.
pub record IsDlq {B : Type 0} (client : DlqClient B) (letters : B → ℕ → Found)
    (tasks : B → List (String × Task)) : Type 0 where
  pub get-keeps :
      (seq n : ℕ) (b : B)
      → (letters (client.get_msg seq b).1 n ≡ letters b n)
        × (tasks (client.get_msg seq b).1 ≡ tasks b)
  pub get-found :
      (seq : ℕ) (b b' : B) (m : Found) → client.get_msg seq b ≡ (some m, b') → m ≡ letters b seq
  pub publish-keeps :
      (subject : String) (t : Task) (b : B) (n : ℕ)
      → letters (client.publish_task subject t b).1 n ≡ letters b n
  pub publish-sends :
      (subject : String) (t : Task) (b b' : B)
      → client.publish_task subject t b ≡ (true, b')
      → tasks b' ≡ tasks b ++ (subject, t) ∷ []
  pub delete-keeps :
      (seq n : ℕ) (b : B)
      → (eqb seq n ≡ true ⊎ (letters (client.delete_msg seq b).1 n ≡ letters b n))
        × (tasks (client.delete_msg seq b).1 ≡ tasks b)
