-- ===== src/Worker.antt =====
-- worker/worker.go and worker/middleware.go: what a worker does with one delivered message. The
-- consumers, the pool of goroutines and the streams are calls of the NATS client. A float64 is known by
-- what task/retry.go takes from it.
pub mod Claims
pub mod Defaults
pub mod Middleware
pub mod Settles
pub mod Reports
use ebind.Base.{
  ℕ, zero, suc, String, Bool, true, false, not, ◌&&◌, ◌==◌, ◌-◌, Option, none, some, List, [], ◌∷◌,
  ◌++◌, Map, lookup, contains, is_nil, length, ltb, leb, eqb, ℤ, pos, negsuc, if◌then◌else◌,
}
use ebind.Types.{Json, RetryPolicy, Result, ok, err}
use ebind.Task.{Task, TaskError, Response, Floats, should_retry, next_delay, default_retry_policy}
use ebind.Runtime.{M, World, is_up, rest_of}

-- What a handler gives: bytes, an error that is a TaskError, another error, or a panic.
pub data Returned : Type 0 where
  returns : Json → Returned
  fails : TaskError → Returned
  fails_plain panics : List ℕ → Returned

abbrev pub Handler : Type 0
Handler = Task → Returned

-- The interface `StepHook` of worker/hook.go.
pub record StepHook : Type 0 where
  pub on_step_done : Task → Json → M (Unit {0})
  pub on_step_failed : Task → TaskError → M (Unit {0})

-- The options but the middleware and the provider of claims.
pub record Options : Type 0 where
  pub durable : String
  pub concurrency : ℤ
  pub ack_wait : ℕ
  pub worker_id : String
  pub max_deliver : ℤ
  pub backoff : List ℕ
  pub shutdown_grace : ℕ
  pub step_hook : Option StepHook
  pub default_retry : Option RetryPolicy
  pub claim_refresh_interval : ℕ
  pub claim_retry_delay : ℕ

-- A worker, with the claims of its cache.
pub record Worker : Type 0 where
  pub opts : Options
  pub claims : List String
  pub invoke : Handler

-- A message: its task, if the bytes are one, and the number of deliveries, if the metadata has it.
pub record Message : Type 0 where
  pub body : Option Task
  pub num_delivered : Option ℕ

pub data Settlement : Type 0 where
  acked termed : Settlement
  naked : ℤ → Settlement

-- What the worker has sent: answers and dead letters, and how it settled the messages. The streams
-- take or refuse what is published, as `replies_up` and `dlq_up` say for the next times.
pub record Sent : Type 0 where
  pub replies_up : List Bool
  pub dlq_up : List Bool
  pub responses : List (String × Response)
  pub dead_letters : List (Task × TaskError)
  pub settled : List Settlement

unfoldable pub owns_target : List String → String → Bool
owns_target [] target = false
owns_target (claim ∷ claims) target = if claim == target then true else owns_target claims target

-- `legacyAttemptCap`; 0 is no cap.
abbrev pub legacy_attempt_cap : ℤ → ℕ
legacy_attempt_cap (pos n) = n
legacy_attempt_cap (negsuc n) = 0

abbrev pub legacy_retry : ℕ → TaskError → ℕ → Bool
legacy_retry cap te attempt =
    if ltb 0 cap
    then te.retryable && ltb attempt cap
    else should_retry default_retry_policy (some te) attempt

-- The policy that counts: that of the task, else that of the options.
abbrev pub policy_for : Options → Task → Option RetryPolicy
policy_for o t = elim t.retry_policy [ none ↦ o.default_retry | some p ↦ some p ]

abbrev retry_by : Options → TaskError → ℕ → Option RetryPolicy → Bool
retry_by o te attempt none = legacy_retry (legacy_attempt_cap o.max_deliver) te attempt
retry_by o te attempt (some p) = should_retry p (some te) attempt

-- `Worker.shouldRetry`.
unfoldable pub worker_retries : Options → Task → TaskError → Bool
unfolding should_retry
worker_retries o t te = retry_by o te t.attempt (policy_for o t)

abbrev pub nth_or_last : List ℕ → ℕ → ℕ
nth_or_last [] n = 1000000000
nth_or_last (d ∷ []) n = d
nth_or_last (d ∷ e ∷ ds) zero = d
nth_or_last (d ∷ e ∷ ds) (suc n) = nth_or_last (e ∷ ds) n

-- `nextBackoff`: the entry of the attempt, the first before it and the last behind; a second without
-- entries.
unfoldable pub next_backoff : List ℕ → ℕ → ℕ
next_backoff backoff attempt = nth_or_last backoff (attempt - 1)

abbrev delay_by : Floats → Options → ℕ → Option RetryPolicy → ℤ
delay_by f o attempt (some p) = next_delay f p attempt
delay_by f o attempt none =
    if is_nil o.backoff
    then next_delay f default_retry_policy attempt
    else pos (next_backoff o.backoff attempt)

-- `delayFor`.
unfoldable pub delay_for : Floats → Options → Task → ℤ
unfolding next_delay next_backoff
delay_for f o t = delay_by f o t.attempt (policy_for o t)

-- `baseHandler`, on the functions that are registered.
unfoldable pub base_handler : Map (Json → Returned) → Handler
unfolding lookup
base_handler reg t = elim (lookup t.name reg) [
  | none ↦ fails (record { kind = "unknown_handler"; message = []; retryable = false })
  | some call ↦ call t.payload
]

-- `publishResponse`, which drops the error of a publish.
abbrev pub publish_response : Task → Response → Sent → Sent
publish_response t resp s =
    if t.reply_to == ""
    then s
    else if is_up s.replies_up
    then record s {
      responses = s.responses ++ (t.reply_to, resp) ∷ [];
      replies_up = rest_of s.replies_up;
    }
    else record s { replies_up = rest_of s.replies_up }

-- `publishDLQ`, which drops the error of a publish.
abbrev pub publish_dlq : Task → TaskError → Sent → Sent
publish_dlq t te s =
    if is_up s.dlq_up
    then record s { dead_letters = s.dead_letters ++ (t, te) ∷ []; dlq_up = rest_of s.dlq_up }
    else record s { dlq_up = rest_of s.dlq_up }

abbrev pub settle : Settlement → Sent → Sent
settle how s = record s { settled = s.settled ++ how ∷ [] }

abbrev pub response_of : Task → Option Json → Option TaskError → ℕ → Response
response_of t result e now = record {
  task_id = t.id;
  result = result;
  error = e;
  attempts = t.attempt;
  completed_at = now;
}

abbrev pub report_done : Option StepHook → Task → Json → M (Unit {0})
report_done none t result w = (ok tt, w)
report_done (some hook) t result w = hook.on_step_done t result w

abbrev pub report_failed : Option StepHook → Task → TaskError → M (Unit {0})
report_failed none t te w = (ok tt, w)
report_failed (some hook) t te w = hook.on_step_failed t te w

-- The failure is told and the message is over.
abbrev pub bury : Task → TaskError → ℕ → Sent → Sent
bury t te now s =
    settle termed (publish_dlq t te (publish_response t (response_of t none (some te) now) s))

abbrev pub deadline_error : TaskError
deadline_error = record { kind = "deadline"; message = []; retryable = false }

-- What follows the report of a failure; the message comes again if the report did not get through.
abbrev pub after_failed :
    Floats → Worker → Task → TaskError → ℕ → Sent → Result (Unit {0}) × World → World × Sent
after_failed f v t te now s (ok u, w) = (w, bury t te now s)
after_failed f v t te now s (err e, w) = (w, settle (naked (delay_for f v.opts t)) s)

abbrev pub on_failure : Floats → Worker → Task → TaskError → World → Sent → World × Sent
on_failure f v t te w s =
    if worker_retries v.opts t te
    then (w, settle (naked (delay_for f v.opts t)) s)
    else after_failed f v t te w.clock s (report_failed v.opts.step_hook t te w)

abbrev pub after_done :
    Floats → Worker → Task → Json → ℕ → Sent → Result (Unit {0}) × World → World × Sent
after_done f v t result now s (ok u, w) =
    (w, settle acked (publish_response t (response_of t (some result) none now) s))
after_done f v t result now s (err e, w) = (w, settle (naked (delay_for f v.opts t)) s)

-- An error that is no TaskError is one of the handler, and is retried. A panic that reaches here
-- would end the process; the first middleware does not let it.
abbrev pub on_returned : Floats → Worker → Task → Returned → World → Sent → World × Sent
on_returned f v t (returns result) w s =
    after_done f v t result w.clock s (report_done v.opts.step_hook t result w)
on_returned f v t (fails te) w s = on_failure f v t te w s
on_returned f v t (fails_plain text) w s =
    on_failure f v t (record { kind = "handler"; message = text; retryable = true }) w s
on_returned f v t (panics text) w s = (w, s)

-- The deadline has passed before the call. The hook's error is not looked at.
abbrev pub expire : Worker → Task → World → Sent → World × Sent
expire v t w s =
    ((report_failed v.opts.step_hook t deadline_error w).1, bury t deadline_error w.clock s)

abbrev pub dispatch : Floats → Worker → Task → World → Sent → World × Sent
dispatch f v t w s =
    if not (eqb t.deadline 0) && ltb t.deadline w.clock
    then expire v t w s
    else on_returned f v t (v.invoke t) w s

abbrev pub attempt_of : Option ℕ → ℕ
attempt_of none = 1
attempt_of (some n) = n

abbrev pub delivered : Worker → Message → Task → Task
delivered v msg t = record t {
  attempt = attempt_of msg.num_delivered;
  worker_id = v.opts.worker_id;
}

abbrev pub handle_task : Floats → Worker → Message → Option Task → World → Sent → World × Sent
handle_task f v msg none w s = (w, settle termed s)
handle_task f v msg (some t) w s =
    if not (t.target == "") && not (owns_target v.claims t.target)
    then (w, settle (naked (pos v.opts.claim_retry_delay)) s)
    else dispatch f v (delivered v msg t) w s

-- `Worker.handle`.
unfoldable pub handle : Floats → Worker → Message → World → Sent → World × Sent
unfolding owns_target worker_retries delay_for
handle f v msg w s = handle_task f v msg msg.body w s
