-- ===== src/State/Cascade/Rounds.antt =====
-- One round of `cascadeSkipFrom`: what the inner loop writes and what it puts on the queue.
use ebind.Base.{
  contains-append, ℕ, suc, ◌+◌, ◌≤◌, String, Bool, true, false, ◌||◌, Option, none, some, List, [],
  ◌∷◌, ◌++◌, Map, UniqueKeys, lookup, select, contains, length, length-append, if◌then◌else◌, arith,
  eq_iff, ◌≡◌, refl,
}
use ebind.Types.{StepRecord, status_eq, pending, running}
use ebind.State.Cascade.{must_skip, skip_step, skip_dependents, add_unseen}

abbrev pub skip_if : ℕ → String → Option StepRecord → Option StepRecord
skip_if now cur none = none
skip_if now cur (some step) = some (if must_skip cur step then skip_step now step else step)

pub lookup-skip_dependents :
    (now : ℕ) (cur k : String) (m : Map StepRecord)
    → lookup k (skip_dependents now cur m).0 ≡ skip_if now cur (lookup k m)
unfolding skip_dependents lookup
lookup-skip_dependents now cur k [] = refl
lookup-skip_dependents now cur k ((id, other) ∷ m) =
    ground (arith, lookup-skip_dependents now cur k m)

pub skipped-skip_dependents :
    (now : ℕ) (cur : String) (m : Map StepRecord)
    → (skip_dependents now cur m).1 ≡ select (must_skip cur) m
unfolding skip_dependents select
skipped-skip_dependents now cur [] = refl
skipped-skip_dependents now cur ((id, other) ∷ m) =
    ground (arith, skipped-skip_dependents now cur m)

pub skip_dependents-UniqueKeys :
    (now : ℕ) (cur : String) (m : Map StepRecord)
    → UniqueKeys m
    → UniqueKeys (skip_dependents now cur m).0
unfolding skip_dependents
skip_dependents-UniqueKeys now cur [] u = tt
skip_dependents-UniqueKeys now cur ((id, other) ∷ m) u =
    ground (arith, lookup-skip_dependents now cur id m, skip_dependents-UniqueKeys now cur m)

abbrev pub is_active : StepRecord → Bool
is_active step = status_eq step.status pending || status_eq step.status running

abbrev pub active_count : Map StepRecord → ℕ
active_count [] = 0
active_count ((id, step) ∷ m) = if is_active step then suc (active_count m) else active_count m

pub active_count-le-length : (m : Map StepRecord) → active_count m ≤ length m
active_count-le-length [] = omega arith
active_count-le-length ((id, step) ∷ m) = ground (arith, active_count-le-length m)

-- Each step that a round skips is one active step less.
pub active_count-skip_dependents :
    (now : ℕ) (cur : String) (m : Map StepRecord)
    → active_count (skip_dependents now cur m).0 + length (skip_dependents now cur m).1
      ≡ active_count m
unfolding skip_dependents must_skip status_eq
active_count-skip_dependents now cur [] = refl
active_count-skip_dependents now cur ((id, other) ∷ m) =
    ground (arith, active_count-skip_dependents now cur m)

pub seen-add_unseen :
    (out seen queue : List String) (k : String)
    → contains (add_unseen out seen queue).0 k ≡ (if contains seen k then true else contains out k)
unfolding add_unseen contains
seen-add_unseen [] seen queue k = ground arith
seen-add_unseen (x ∷ out) seen queue k = ground (
  arith,
  eq_iff x k,
  seen-add_unseen out seen queue k,
  seen-add_unseen out (x ∷ seen) (queue ++ x ∷ []) k,
)

pub queue-add_unseen :
    (out seen queue : List String) (k : String)
    → contains (add_unseen out seen queue).1 k
      ≡ (if contains queue k then true else if contains seen k then false else contains out k)
unfolding add_unseen contains
queue-add_unseen [] seen queue k = ground arith
queue-add_unseen (x ∷ out) seen queue k = ground (
  arith,
  eq_iff x k,
  contains-append queue (x ∷ []) k,
  queue-add_unseen out seen queue k,
  queue-add_unseen out (x ∷ seen) (queue ++ x ∷ []) k,
)

pub length-add_unseen :
    (out seen queue : List String)
    → length (add_unseen out seen queue).1 ≤ length queue + length out
unfolding add_unseen
length-add_unseen [] seen queue = omega arith
length-add_unseen (x ∷ out) seen queue = ground (
  arith,
  length-append queue (x ∷ []),
  length-add_unseen out seen queue,
  length-add_unseen out (x ∷ seen) (queue ++ x ∷ []),
)
