-- ===== src/Task.antt =====
-- task/task.go and task/retry.go: a task on the wire, its error, and its retry policy.
pub mod Retry
use ebind.Base.{
  List, ℕ, String, Bool, true, false, not, ◌&&◌, Option, none, some, contains, ltb, leb, eqb, [],
  ◌≡◌, ◌≤◌, ◌-◌, ℤ, pos, negsuc, if◌then◌else◌,
}
use ebind.Types.{Json, RetryPolicy}

-- All fields but the trace context. A deadline of 0 is none.
pub record Task : Type 0 where
  pub id : String
  pub name : String
  pub payload : Json
  pub reply_to : String
  pub deadline : ℕ
  pub enqueued_at : ℕ
  pub attempt : ℕ
  pub dag_id : String
  pub step_id : String
  pub retry_policy : Option RetryPolicy
  pub target : String
  pub worker_id : String

pub record TaskError : Type 0 where
  pub kind : String
  pub message : List ℕ
  pub retryable : Bool

-- `ShouldRetry`; a nil error is `none`.
unfoldable pub should_retry : RetryPolicy → Option TaskError → ℕ → Bool
unfolding contains
should_retry p none attempt = false
should_retry p (some e) attempt =
    if ltb 0 p.maximum_attempts && leb p.maximum_attempts attempt
    then false
    else if not e.retryable
    then false
    else if contains p.non_retryable_error_kinds e.kind
    then false
    else true

-- `Response`, with the payload of no bytes as `none`.
pub record Response : Type 0 where
  pub task_id : String
  pub result : Option Json
  pub error : Option TaskError
  pub attempts : ℕ
  pub completed_at : ℕ

-- The greatest `time.Duration`.
abbrev pub max_int64 : ℕ
max_int64 = 9223372036854775807

-- What a product of an interval and a power of a positive coefficient is as a float64: a number, of
-- which the whole part is kept, an infinite one, or not a number.
pub data Float64 : Type 0 where
  number : ℕ → Float64
  infinite not_a_number : Float64

-- `float64(math.MaxInt64)`, which is rounded up.
abbrev pub max_float : ℕ
max_float = 9223372036854775808

-- What NextDelay takes from float64 numbers, which are given by their bits: the test `<= 0`, the
-- number 1, and the product of an interval with a power; and what a conversion to a duration gives
-- for a number that is none, where Go leaves it open.
pub record Floats : Type 0 where
  pub is_not_positive : ℕ → Bool
  pub one : ℕ
  pub times_power : ℕ → ℕ → ℕ → Float64
  pub left_open : Float64 → ℤ

-- `math.IsInf(raw, 1) || raw > float64(math.MaxInt64)`. A number of that size has no fraction.
abbrev pub is_above : Float64 → Bool
is_above (number n) = ltb max_float n
is_above infinite = true
is_above not_a_number = false

-- `time.Duration(raw)`.
abbrev pub to_duration : Floats → Float64 → ℤ
to_duration f (number n) = if ltb n max_float then pos n else f.left_open (number n)
to_duration f raw = f.left_open raw

-- `p.MaximumInterval > 0 && d > p.MaximumInterval`.
abbrev pub capped : ℕ → ℤ → ℤ
capped max (pos d) = pos (if ltb 0 max && ltb max d then max else d)
capped max (negsuc d) = negsuc d

abbrev pub delay_of : Floats → ℕ → Float64 → ℤ
delay_of f max raw =
    if is_above raw
    then pos (if ltb 0 max then max else max_int64)
    else capped max (to_duration f raw)

abbrev pub coefficient : Floats → RetryPolicy → ℕ
coefficient f p = if f.is_not_positive p.backoff_coefficient then f.one else p.backoff_coefficient

-- The initial interval times a power of the coefficient.
abbrev pub product : Floats → RetryPolicy → ℕ → Float64
product f p attempt = f.times_power p.initial_interval (coefficient f p) (attempt - 1)

-- `NextDelay`.
unfoldable pub next_delay : Floats → RetryPolicy → ℕ → ℤ
next_delay f p attempt =
    if eqb attempt 0
    then pos 0
    else if eqb p.initial_interval 0
    then pos 0
    else delay_of f p.maximum_interval (product f p attempt)

-- `DefaultRetryPolicy`: the coefficient has the bits of 2.
abbrev pub default_retry_policy : RetryPolicy
default_retry_policy = record {
  initial_interval = 1000000000;
  backoff_coefficient = 4611686018427387904;
  maximum_interval = 60000000000;
  maximum_attempts = 5;
  non_retryable_error_kinds = [];
}

abbrev pub no_retry_policy : RetryPolicy
no_retry_policy = record {
  initial_interval = 0;
  backoff_coefficient = 0;
  maximum_interval = 0;
  maximum_attempts = 1;
  non_retryable_error_kinds = [];
}
