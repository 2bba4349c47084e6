-- ===== src/Task/Retry.antt =====
-- The retry policy bounds the deliveries of a task.
use ebind.Base.{
  ltb, ◌≢◌, ap, ℤ, pos, negsuc, Bool-cases, ℕ, ◌<◌, ◌≤◌, true, false, some, contains, arith, eqb,
  ◌≡◌, refl, ◌↔◌, inl, inr,
}
use ebind.Types.{RetryPolicy}
use ebind.Task.{
  TaskError, Float64, number, infinite, not_a_number, Floats, max_int64, max_float, delay_of,
  product, should_retry, next_delay,
}

-- A failed attempt is delivered again just if the attempts are not used up, the error is
-- retryable and its kind is not excluded.
pub should_retry_exact :
    (p : RetryPolicy) (e : TaskError) (attempt : ℕ)
    → (should_retry p (some e) attempt ≡ true) ↔ (
        (0 < p.maximum_attempts → attempt < p.maximum_attempts)
        × (e.retryable ≡ true)
        × (contains p.non_retryable_error_kinds e.kind ≡ false))
unfolding should_retry
should_retry_exact p e attempt = ground arith

-- A delay that is at most `bound`, and at most a maximum interval that is set.
abbrev pub IsDelayWithin : ℕ → ℕ → ℤ → Type 0
IsDelayWithin bound max (pos d) = (d ≤ bound) × (0 < max → d ≤ max)
IsDelayWithin bound max (negsuc d) = ⊥

less_of : {a b : ℕ} → ltb a b ≡ false → b ≤ a
less_of h = ground arith

-- The delay from a product that has a whole part, other than 2 ^ 63, or is infinite.
delay_of-IsDelayWithin :
    (f : Floats) (max : ℕ) (raw : Float64)
    → max ≤ max_int64
    → raw ≢ not_a_number
    → raw ≢ number 9223372036854775808
    → IsDelayWithin max_int64 max (delay_of f max raw)
delay_of-IsDelayWithin f max infinite h num apart = (ground arith, λ positive. ground arith)
delay_of-IsDelayWithin f max not_a_number h num apart = absurd (num refl)
delay_of-IsDelayWithin f max (number n) h num apart = elim (Bool-cases (ltb max_float n)) [
  | inl above ↦ rw above (ground arith, λ positive. ground arith)
  | inr below ↦ elim (Bool-cases (ltb n max_float)) [
    | inl small ↦ rw (below, small) (ground arith, λ positive. ground arith)
    | inr equal ↦ absurd (apart (ap number (omega (arith, less_of below, less_of equal))))
  ]
]

-- When the maximum interval is a duration, and the product of the interval and the power is a
-- number other than 2^63 or infinite, the delay of an attempt is not negative, is a duration, and
-- is not above a maximum interval that is set, whatever a conversion out of range gives.
pub next_delay_bounds :
    (f : Floats) (p : RetryPolicy) (attempt : ℕ)
    → p.maximum_interval ≤ max_int64
    → product f p attempt ≢ not_a_number
    → product f p attempt ≢ number 9223372036854775808
    → IsDelayWithin max_int64 p.maximum_interval (next_delay f p attempt)
unfolding next_delay
next_delay_bounds f p attempt h num apart = elim (Bool-cases (eqb attempt 0)) [
  | inl no_attempt ↦ rw no_attempt (ground arith, λ positive. ground arith)
  | inr some_attempt ↦ elim (Bool-cases (eqb p.initial_interval 0)) [
    | inl no_wait ↦ rw (some_attempt, no_wait) (ground arith, λ positive. ground arith)
    | inr some_wait ↦
        rw (some_attempt, some_wait)
          (delay_of-IsDelayWithin f p.maximum_interval (product f p attempt) h num apart)
  ]
]
