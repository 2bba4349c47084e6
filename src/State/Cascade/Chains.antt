-- ===== src/State/Cascade/Chains.antt =====
-- What `cascadeSkipFrom` keeps true of its queue, its `seen` set and the steps from one round to
-- the next.
use ebind.Base.{
  ℕ, ◌≤◌, String, Bool, true, false, Option, none, some, List, [], ◌∷◌, Map, UniqueKeys, lookup,
  passes, contains, length, if◌then◌else◌, arith, ◌==◌, ◌≡◌, refl, ◌⊎◌, ◌↔◌,
}
use ebind.Types.{StepRecord, status_eq, pending, running, skipped, or_default}
use ebind.Wire.{has_ref_mode}
use ebind.State.Cascade.{must_skip, skip_step, Walk}
use ebind.State.Cascade.Rounds.{skip_if}

-- A pending or running step that waits on `cur` by a required dependency, with no default for it
-- among its arguments.
abbrev pub IsTied : String → StepRecord → Type 0
IsTied cur step =
    ((step.status ≡ pending) ⊎ (step.status ≡ running))
    × (contains step.deps cur ≡ true)
    × (has_ref_mode step.args_json cur or_default ≡ false)

pub must_skip-IsTied :
    (cur : String) (step : StepRecord) → (must_skip cur step ≡ true) ↔ IsTied cur step
unfolding must_skip status_eq
must_skip-IsTied cur step = (λ h. ground arith, λ h. ground (arith, h))

-- `k` waits in a required way on the root, or on a step that does.
pub data Chain (m : Map StepRecord) (root : String) : String → Type 0 where
  direct :
      {k : String} {step : StepRecord} → lookup k m ≡ some step → IsTied root step → Chain m root k
  via :
      {j k : String} {step : StepRecord}
      → Chain m root j
      → lookup k m ≡ some step
      → IsTied j step
      → Chain m root k

-- The record as it was, or skipped at the given time.
abbrev pub marked : ℕ → Bool → Option StepRecord → Option StepRecord
marked now hit none = none
marked now hit (some step) =
    some (if hit then record step { status = skipped; finished_at = now } else step)

-- No step of `m` is left that waits on `k`.
abbrev pub Settled : Map StepRecord → String → Type 0
Settled m k = (j : String) → passes (must_skip k) (lookup j m) ≡ false

-- What holds between two rounds.
pub record Inv (now : ℕ) (root : String) (m : Map StepRecord) (w : Walk) : Type 0 where
  pub unique : UniqueKeys w.steps
  pub written : (k : String) → lookup k w.steps ≡ marked now (contains w.skipped k) (lookup k m)
  pub tied : (k : String) → contains w.skipped k ≡ true → Chain m root k
  pub noted : (k : String) → contains w.seen k ≡ (if root == k then true else contains w.skipped k)
  pub queued : (k : String) → contains w.queue k ≡ true → contains w.seen k ≡ true
  pub settled :
      (k : String) → contains w.seen k ≡ true → (contains w.queue k ≡ true) ⊎ Settled w.steps k

pub not-must_skip-skip_step :
    (now : ℕ) (cur : String) (step : StepRecord) → must_skip cur (skip_step now step) ≡ false
unfolding must_skip status_eq
not-must_skip-skip_step now cur step = refl

pub settled-skip_if :
    (now : ℕ) (cur k : String) (o : Option StepRecord)
    → passes (must_skip k) o ≡ false
    → passes (must_skip k) (skip_if now cur o) ≡ false
settled-skip_if now cur k none h = refl
settled-skip_if now cur k (some step) h = ground (arith, not-must_skip-skip_step now k step)

pub settled-skip_if_self :
    (now : ℕ) (cur : String) (o : Option StepRecord)
    → passes (must_skip cur) (skip_if now cur o) ≡ false
settled-skip_if_self now cur none = refl
settled-skip_if_self now cur (some step) = ground (arith, not-must_skip-skip_step now cur step)

pub skip_if-marked :
    (now : ℕ) (cur : String) (hit : Bool) (o : Option StepRecord)
    → skip_if now cur (marked now hit o)
      ≡ marked now (if hit then true else passes (must_skip cur) (marked now hit o)) o
skip_if-marked now cur hit none = refl
skip_if-marked now cur true (some step) = ground (arith, not-must_skip-skip_step now cur step)
skip_if-marked now cur false (some step) = ground arith

pub nil_of_length : (xs : List String) → length xs ≤ 0 → xs ≡ []
nil_of_length [] h = refl
nil_of_length (x ∷ xs) h = absurd (omega arith)

-- A step that the test finds now was so from the start.
pub passes-marked :
    (now : ℕ) (cur : String) (hit : Bool) (o : Option StepRecord)
    → passes (must_skip cur) (marked now hit o) ≡ true
    → (step : StepRecord) × (o ≡ some step) × (must_skip cur step ≡ true)
passes-marked now cur hit none h = cc
passes-marked now cur true (some step) h = cc (not-must_skip-skip_step now cur step)
passes-marked now cur false (some step) h = (step, refl, h)
