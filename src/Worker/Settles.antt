-- ===== src/Worker/Settles.antt =====
-- Each delivery is settled once, and the last attempt ends the message.
use ebind.Base.{
  if◌then◌else◌, ℕ, true, false, not, ◌&&◌, ◌==◌, ◌<◌, ◌≤◌, Option, none, some, [], ◌∷◌, ◌++◌, ltb,
  eqb, arith, ◌≡◌, refl, ◌⊎◌, inl, inr, ap, Bool-cases, pos,
}
use ebind.Types.{Json, RetryPolicy, Err, Result, ok, err}
use ebind.Task.{Task, TaskError, Response, Floats, should_retry}
use ebind.Runtime.{World, is_up}
use ebind.Worker.{
  Returned, returns, fails, fails_plain, panics, Handler, Worker, Message, Settlement, acked,
  termed, naked, Sent, owns_target, worker_retries, policy_for, delay_for, report_done,
  report_failed, settle, after_failed, after_done, on_failure, on_returned, expire, dispatch,
  delivered, handle_task, handle, deadline_error, bury, publish_response, response_of,
}
use ebind.Worker.Middleware.{IsNoPanic}

-- The message was settled in this way, and in no other.
abbrev pub SettledBy : Sent → Settlement → Sent → Type 0
SettledBy s how s' = s'.settled ≡ s.settled ++ how ∷ []

abbrev SettledOnce : Sent → Sent → Type 0
SettledOnce s s' = (how : Settlement) × SettledBy s how s'

bury-termed :
    (t : Task) (te : TaskError) (now : ℕ) (s : Sent)
    → SettledBy s termed (bury t te now s)
      × ((bury t te now s).dead_letters
          ≡ (if is_up s.dlq_up then s.dead_letters ++ (t, te) ∷ [] else s.dead_letters))
bury-termed t te now s = (ground arith, ground arith)

answered-acked :
    (t : Task) (resp : Response) (s : Sent)
    → SettledBy s acked (settle acked (publish_response t resp s))
answered-acked t resp s = ground arith

module _ (f : Floats) (v : Worker) (t : Task) (s : Sent) where
  after_failed-once :
      (te : TaskError) (now : ℕ) (r : Result (Unit {0}) × World)
      → SettledOnce s (after_failed f v t te now s r).1
  after_failed-once te now (ok u, w) = (termed, (bury-termed t te now s).0)
  after_failed-once te now (err e, w) = (naked (delay_for f v.opts t), refl)

  after_done-once :
      (result : Json) (now : ℕ) (r : Result (Unit {0}) × World)
      → SettledOnce s (after_done f v t result now s r).1
  after_done-once result now (ok u, w) =
      (acked, answered-acked t (response_of t (some result) none now) s)
  after_done-once result now (err e, w) = (naked (delay_for f v.opts t), refl)

  on_failure-once : (te : TaskError) (w : World) → SettledOnce s (on_failure f v t te w s).1
  on_failure-once te w = elim (Bool-cases (worker_retries v.opts t te)) [
    | inl again ↦ rw again (naked (delay_for f v.opts t), refl)
    | inr last ↦ rw last (after_failed-once te w.clock (report_failed v.opts.step_hook t te w))
  ]

  on_returned-once :
      (r : Returned) (w : World) → IsNoPanic r → SettledOnce s (on_returned f v t r w s).1
  on_returned-once (returns result) w h =
      after_done-once result w.clock (report_done v.opts.step_hook t result w)
  on_returned-once (fails te) w h = on_failure-once te w
  on_returned-once (fails_plain text) w h =
      on_failure-once (record { kind = "handler"; message = text; retryable = true }) w
  on_returned-once (panics text) w h = absurd h

  expire-termed : (w : World) → SettledBy s termed (expire v t w s).1
  expire-termed w = (bury-termed t deadline_error w.clock s).0

  dispatch-once : (w : World) → IsNoPanic (v.invoke t) → SettledOnce s (dispatch f v t w s).1
  dispatch-once w h = elim (Bool-cases (not (eqb t.deadline 0) && ltb t.deadline w.clock)) [
    | inl late ↦ rw late (termed, expire-termed w)
    | inr in_time ↦ rw in_time (on_returned-once (v.invoke t) w h)
  ]

-- With a handler that does not panic, each delivered message is settled exactly once:
-- acknowledged, put back with a delay, or terminated.
pub settled_once :
    (f : Floats) (v : Worker) (msg : Message) (w : World) (s : Sent)
    → ((t : Task) → IsNoPanic (v.invoke t))
    → (how : Settlement) × ((handle f v msg w s).1.settled ≡ s.settled ++ how ∷ [])
unfolding handle
settled_once f v msg w s h = go msg.body
  where
    go : (o : Option Task) → SettledOnce s (handle_task f v msg o w s).1
    go none = (termed, refl)
    go (some t) = elim (Bool-cases (not (t.target == "") && not (owns_target v.claims t.target))) [
      | inl stray ↦ rw stray (naked (pos v.opts.claim_retry_delay), refl)
      | inr owned ↦ rw owned (dispatch-once f v (delivered v msg t) s w (h (delivered v msg t)))
    ]

-- The message is over, or a report to the workflow did not get through.
abbrev pub EndsOrUnreported : Worker → Task → World → Sent → Sent → Type 0
EndsOrUnreported v t w s s' =
    SettledBy s acked s'
    ⊎ SettledBy s termed s'
    ⊎ ((result : Json) × (e : Err) × ((report_done v.opts.step_hook t result w).0 ≡ err e))
    ⊎ ((te : TaskError) × (e : Err) × ((report_failed v.opts.step_hook t te w).0 ≡ err e))

module _ (f : Floats) (v : Worker) (t : Task) (w : World) (s : Sent) where
  done-ends :
      (result : Json) (r : Result (Unit {0}) × World)
      → report_done v.opts.step_hook t result w ≡ r
      → EndsOrUnreported v t w s (after_done f v t result w.clock s r).1
  done-ends result (ok u, w') e =
      inl (answered-acked t (response_of t (some result) none w.clock) s)
  done-ends result (err x, w') e = inr (inr (inl (result, x, ap (λ r. r.0) e)))

  failed-ends :
      (te : TaskError) (r : Result (Unit {0}) × World)
      → report_failed v.opts.step_hook t te w ≡ r
      → EndsOrUnreported v t w s (after_failed f v t te w.clock s r).1
  failed-ends te (ok u, w') e = inr (inl (bury-termed t te w.clock s).0)
  failed-ends te (err x, w') e = inr (inr (inr (te, x, ap (λ r. r.0) e)))

  module _ {p : RetryPolicy} (policy : policy_for v.opts t ≡ some p)
      (some_limit : 0 < p.maximum_attempts) (last : p.maximum_attempts ≤ t.attempt) where
    no_retry : (te : TaskError) → worker_retries v.opts t te ≡ false
    unfolding worker_retries should_retry
    no_retry te = rw policy (ground arith)

    failure-ends : (te : TaskError) → EndsOrUnreported v t w s (on_failure f v t te w s).1
    failure-ends te = rw (no_retry te) (failed-ends te (report_failed v.opts.step_hook t te w) refl)

    returned-ends :
        (r : Returned) → IsNoPanic r → EndsOrUnreported v t w s (on_returned f v t r w s).1
    returned-ends (returns result) h =
        done-ends result (report_done v.opts.step_hook t result w) refl
    returned-ends (fails te) h = failure-ends te
    returned-ends (fails_plain text) h =
        failure-ends (record { kind = "handler"; message = text; retryable = true })
    returned-ends (panics text) h = absurd h

-- A delivered task that the worker may take, whose policy has a limit of attempts that this
-- delivery reaches, and whose handler does not panic, is acknowledged or terminated, if the step
-- hook does not fail at the report of a result or of an error.
pub last_attempt_ends :
    (f : Floats) (v : Worker) (msg : Message) (w : World) (s : Sent) (t : Task) {p : RetryPolicy}
    → msg.body ≡ some t
    → (not (t.target == "") && not (owns_target v.claims t.target)) ≡ false
    → IsNoPanic (v.invoke (delivered v msg t))
    → policy_for v.opts t ≡ some p
    → 0 < p.maximum_attempts
    → p.maximum_attempts ≤ (delivered v msg t).attempt
    → EndsOrUnreported v (delivered v msg t) w s (handle f v msg w s).1
unfolding handle
last_attempt_ends f v msg w s t body owned h policy some_limit last =
    rw (body, owned)
      (elim (Bool-cases (not (eqb t.deadline 0) && ltb t.deadline w.clock)) [
        | inl late ↦ rw late (inr (inl (expire-termed f v (delivered v msg t) s w)))
        | inr in_time ↦ rw in_time (
            returned-ends f v (delivered v msg t) w s policy some_limit last
              (v.invoke (delivered v msg t)) h)
      ])

-- A delivered task that the worker may take and whose deadline has passed is terminated, and is
-- put among the dead letters with the error of a deadline just if their stream takes it, whatever
-- the hook answers; its handler is not called: another one gives the same outcome.
pub expired_ends :
    (f : Floats) (v : Worker) (msg : Message) (w : World) (s : Sent) (t : Task) (other : Handler)
    → msg.body ≡ some t
    → (not (t.target == "") && not (owns_target v.claims t.target)) ≡ false
    → (not (eqb t.deadline 0) && ltb t.deadline w.clock) ≡ true
    → SettledBy s termed (handle f v msg w s).1
      × ((handle f v msg w s).1.dead_letters ≡ (
          if is_up s.dlq_up
          then s.dead_letters ++ (delivered v msg t, deadline_error) ∷ []
          else s.dead_letters))
      × (handle f (record v { invoke = other }) msg w s ≡ handle f v msg w s)
unfolding handle
expired_ends f v msg w s t other body owned late =
    rw (body, owned, late)
      (
        expire-termed f v (delivered v msg t) s w,
        (bury-termed (delivered v msg t) deadline_error w.clock s).1,
        refl,
      )
