-- ===== src/Debug/Blockers.antt =====
-- The blockers that `Debug` of workflow/debug.go lists, against the test of ReadyToRun.
use ebind.Base.{
  String, Bool, true, false, not, ◌&&◌, ◌||◌, ◌==◌, Option, none, some, List, [], ◌∷◌, lookup,
  is_nil, is_some, all, any, arith, ◌≡◌, refl, ◌++◌,
}
use ebind.Types.{DagMeta, StepRecord, DagState, SignalRecord, pending, status_eq}
use ebind.State.{before_bp_blocks, signal_blocks, dep_over, deps_satisfied, is_ready}
use ebind.Debug.{
  StepBlocker, waiting_of, gated_of, undelivered, blocker_of, is_blocking, is_unfinished, gates,
  blockers_of, debug_state, snapshot_of,
}

is_nil-append : (xs ys : List String) → is_nil (xs ++ ys) ≡ (is_nil xs && is_nil ys)
is_nil-append [] ys = refl
is_nil-append (x ∷ xs) ys = refl

module _ (state : DagState) where
  dep_over-split :
      (o : Option StepRecord)
      → dep_over state o ≡ (not (is_unfinished state o) && not (gates state o))
  dep_over-split none = refl
  dep_over-split (some d) = ground arith

  overs :
      (deps : List String)
      → all (λ dep. dep_over state (lookup dep state.steps)) deps
        ≡ (is_nil (waiting_of state deps) && is_nil (gated_of state deps))
  unfolding waiting_of gated_of
  overs [] = refl
  overs (dep ∷ deps) = ground (arith, overs deps, dep_over-split (lookup dep state.steps))

  signals-undelivered :
      (names : List String)
      → any (λ name. not (is_some (lookup name state.signals))) names
        ≡ not (is_nil (undelivered state names))
  unfolding undelivered
  signals-undelivered [] = refl
  signals-undelivered (name ∷ names) = ground (arith, signals-undelivered names)

  -- What may hold a pending step back, but for a hold and a before-breakpoint.
  abbrev pub is_held_back : StepRecord → Bool
  is_held_back s = signal_blocks state s || not (deps_satisfied state s)

  blocking-held_back : (s : StepRecord) → is_blocking state (blocker_of state s) ≡ is_held_back s
  unfolding signal_blocks deps_satisfied
  blocking-held_back s = ground (
    arith,
    overs s.deps,
    overs s.optional_deps,
    signals-undelivered s.wait_signals,
    is_nil-append (waiting_of state s.deps) (waiting_of state s.optional_deps),
    is_nil-append (gated_of state s.deps) (gated_of state s.optional_deps),
  )

  listed :
      (id : String) (steps : List StepRecord)
      → any (λ (b : StepBlocker). b.step_id == id) (blockers_of state steps)
        ≡ any
            (λ (s : StepRecord). status_eq s.status pending && is_held_back s && s.step_id == id)
            steps
  unfolding blockers_of
  listed id [] = refl
  listed id (s ∷ steps) = ground (arith, listed id steps, blocking-held_back s)

-- For steps listed as pending, Debug names a step as blocked just if the step has an undelivered
-- signal or a dependency that is not over or gates it, by the tests that ReadyToRun makes.
pub blockers_exact :
    (meta : DagMeta) (steps : List StepRecord) (sigs : List SignalRecord) (id : String)
    → let state = debug_state meta steps sigs in
      any (λ (b : StepBlocker). b.step_id == id) (snapshot_of meta steps sigs).blockers
      ≡ any
          (λ (s : StepRecord).
            status_eq s.status pending && is_held_back state s && s.step_id == id)
          steps
unfolding snapshot_of
blockers_exact meta steps sigs id = listed (debug_state meta steps sigs) id steps

-- A pending step that is neither held nor stopped at a before-breakpoint is ready just if Debug
-- has no blocker to name for it.
pub unblocked_ready :
    (state : DagState) (s : StepRecord)
    → status_eq s.status pending ≡ true
    → s.held ≡ false
    → before_bp_blocks state s ≡ false
    → is_ready state s ≡ not (is_blocking state (blocker_of state s))
unblocked_ready state s waits free passes = ground (arith, blocking-held_back state s)
