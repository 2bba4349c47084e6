-- ===== src/State/Ready.antt =====
-- What `ReadyToRun` and the lists of waiting steps hold, against a description of a step that may
-- start.
use ebind.Base.{
  String, Bool, true, false, not, ◌||◌, some, List, [], ◌∷◌, UniqueKeys, lookup, lookup_of_select,
  select-contains, contains, is_some, all, any, all-contains, all_of_contains, arith, ◌≡◌, refl,
  ◌↔◌, inl, inr, Option-cases,
}
use ebind.Types.{StepRecord, DagState, StepStatus, pending, status_eq, is_terminal}
use ebind.State.{
  before_bp_blocks, after_bp_holds, signal_blocks, dep_over, deps_satisfied, is_ready, ready_to_run,
  waiting_on_signals, blocked_at_before, is_blocked_at_before, is_waiting_on_signals,
}

-- A dependency that no longer holds its dependents back.
pub record IsOver (s : DagState) (dep : String) : Type 0 where
  pub record_of : StepRecord
  pub found : lookup dep s.steps ≡ some record_of
  pub ended : is_terminal record_of ≡ true
  pub unheld : after_bp_holds s record_of ≡ false

-- A step that may start: nothing fences it, each of its signals was delivered, and each of its
-- dependencies, required or not, is over.
pub record MayStart (s : DagState) (id : String) : Type 0 where
  pub step : StepRecord
  pub found : lookup id s.steps ≡ some step
  pub waits : step.status ≡ pending
  pub free : step.held ≡ false
  pub unblocked : before_bp_blocks s step ≡ false
  pub signaled :
      (name : String)
      → contains step.wait_signals name ≡ true
      → is_some (lookup name s.signals) ≡ true
  pub required : (dep : String) → contains step.deps dep ≡ true → IsOver s dep
  pub optional : (dep : String) → contains step.optional_deps dep ≡ true → IsOver s dep

dep_over-IsOver :
    (s : DagState) (dep : String) → dep_over s (lookup dep s.steps) ≡ true → IsOver s dep
dep_over-IsOver s dep h = elim (Option-cases (lookup dep s.steps)) [
  | inl e ↦ absurd (cc)
  | inr (d, e) ↦ record { record_of = d; found = e; ended = ground arith; unheld = ground arith }
]

IsOver-dep_over :
    (s : DagState) (dep : String) → IsOver s dep → dep_over s (lookup dep s.steps) ≡ true
IsOver-dep_over s dep o = rw o.found (ground arith)

pending_of_eq : (st : StepStatus) → status_eq st pending ≡ true → st ≡ pending
unfolding status_eq
pending_of_eq st h = ground arith

not-any : (p : String → Bool) (xs : List String) → any (λ x. not (p x)) xs ≡ false → all p xs ≡ true
not-any p [] h = refl
not-any p (x ∷ xs) h = ground (arith, not-any p xs)

any-not : (p : String → Bool) (xs : List String) → all p xs ≡ true → any (λ x. not (p x)) xs ≡ false
any-not p [] h = refl
any-not p (x ∷ xs) h = ground (arith, any-not p xs)

module _ (s : DagState) where
  is_ready-parts :
      (step : StepRecord)
      → is_ready s step ≡ true
      → (step.status ≡ pending)
        × (step.held ≡ false)
        × (before_bp_blocks s step ≡ false)
        × (signal_blocks s step ≡ false)
        × (deps_satisfied s step ≡ true)
  is_ready-parts step h = ground (arith, pending_of_eq step.status)

  deps_satisfied-parts :
      (step : StepRecord)
      → deps_satisfied s step ≡ true
      → (all (λ dep. dep_over s (lookup dep s.steps)) step.deps ≡ true)
        × (all (λ dep. dep_over s (lookup dep s.steps)) step.optional_deps ≡ true)
  unfolding deps_satisfied
  deps_satisfied-parts step h = ground arith

  ready-MayStart :
      (id : String) (step : StepRecord)
      → lookup id s.steps ≡ some step
      → is_ready s step ≡ true
      → MayStart s id
  ready-MayStart id step e h =
      let (waits, free, unblocked, signaled, over) = is_ready-parts step h in
      let (required, optional) = deps_satisfied-parts step over in
      record {
        step = step;
        found = e;
        waits = waits;
        free = free;
        unblocked = unblocked;
        signaled = λ name m.
            all-contains _ step.wait_signals name
              (not-any (λ x. is_some (lookup x s.signals)) step.wait_signals
                (unfold signal_blocks in signaled))
              m;
        required = λ dep m. dep_over-IsOver s dep (all-contains _ step.deps dep required m);
        optional =
            λ dep m. dep_over-IsOver s dep (all-contains _ step.optional_deps dep optional m);
      }

  is_ready_of_parts :
      (step : StepRecord)
      → step.status ≡ pending
      → step.held ≡ false
      → before_bp_blocks s step ≡ false
      → signal_blocks s step ≡ false
      → deps_satisfied s step ≡ true
      → is_ready s step ≡ true
  unfolding status_eq
  is_ready_of_parts step p h b g d = ground arith

  MayStart-ready : {id : String} (m : MayStart s id) → is_ready s m.step ≡ true
  unfolding signal_blocks deps_satisfied
  MayStart-ready m =
      let required =
        all_of_contains (λ dep. dep_over s (lookup dep s.steps)) m.step.deps
          (λ dep h. IsOver-dep_over s dep (m.required dep h)) in
      let optional =
        all_of_contains (λ dep. dep_over s (lookup dep s.steps)) m.step.optional_deps
          (λ dep h. IsOver-dep_over s dep (m.optional dep h)) in
      let signaled =
        any-not (λ x. is_some (lookup x s.signals)) m.step.wait_signals
          (all_of_contains _ m.step.wait_signals m.signaled) in
      is_ready_of_parts m.step m.waits m.free m.unblocked signaled (rw required optional)

  -- When the identifiers of the steps are distinct, ReadyToRun lists a step just if it is
  -- pending, not held, not blocked at an armed before-breakpoint, has each of its signals
  -- delivered, and has each of its required and optional dependencies terminal and not holding
  -- at an after-breakpoint.
  pub ready_to_run_exact :
      (id : String) → UniqueKeys s.steps → (contains (ready_to_run s) id ≡ true) ↔ MayStart s id
  unfolding ready_to_run
  ready_to_run_exact id u = (
    λ h.
        let (step, e, p) = lookup_of_select (is_ready s) id s.steps u h in
        ready-MayStart id step e p,
    λ m. rw (select-contains (is_ready s) id s.steps u, m.found) (MayStart-ready m),
  )

  -- When the identifiers of the steps are distinct, a pending step whose dependencies are
  -- satisfied is listed as ready just if it is neither held, nor listed as blocked at a
  -- before-breakpoint, nor listed as waiting on signals.
  pub pending_accounted :
      (id : String) (step : StepRecord)
      → UniqueKeys s.steps
      → lookup id s.steps ≡ some step
      → step.status ≡ pending
      → deps_satisfied s step ≡ true
      → contains (ready_to_run s) id
        ≡ not (step.held || contains (blocked_at_before s) id || contains (waiting_on_signals s) id)
  unfolding ready_to_run blocked_at_before waiting_on_signals status_eq
  pending_accounted id step u e p over = ground (
    arith,
    select-contains (is_ready s) id s.steps u,
    select-contains (is_blocked_at_before s) id s.steps u,
    select-contains (is_waiting_on_signals s) id s.steps u,
  )
