-- ===== src/State/Final.antt =====
-- When a DAG is over, and with which status.
use ebind.Base.{
  String, Bool, true, false, some, [], ◌∷◌, Map, lookup, values, all, any, arith, ◌≡◌, ◌≢◌, ◌⊎◌,
  if◌then◌else◌,
}
use ebind.Types.{StepRecord, DagState, DagStatus, done, canceled, status_eq, is_terminal}
use ebind.State.{all_steps_terminal, derive_final_status, terminal, is_fatal}

-- For a DAG with steps that is neither canceled, pausing nor paused, Terminal answers what
-- AllStepsTerminal and DeriveFinalStatus answer together.
pub terminal_agrees :
    (s : DagState)
    → s.steps ≢ []
    → s.meta.status ≢ DagStatus.canceled
    → s.meta.status ≢ DagStatus.pausing
    → s.meta.status ≢ DagStatus.paused
    → terminal s
      ≡ (if all_steps_terminal s then (derive_final_status s, true) else (DagStatus.running, false))
unfolding terminal all_steps_terminal derive_final_status
terminal_agrees s h c g p = ground arith

all-lookup :
    (p : StepRecord → Bool) (m : Map StepRecord) (id : String) (step : StepRecord)
    → all p (values m) ≡ true
    → lookup id m ≡ some step
    → p step ≡ true
unfolding values lookup
all-lookup p [] id step h e = cc
all-lookup p ((k, v) ∷ m) id step h e = ground (arith, all-lookup p m id step)

any-lookup :
    (p : StepRecord → Bool) (m : Map StepRecord) (id : String) (step : StepRecord)
    → any p (values m) ≡ false
    → lookup id m ≡ some step
    → p step ≡ false
unfolding values lookup
any-lookup p [] id step h e = cc
any-lookup p ((k, v) ∷ m) id step h e = ground (arith, any-lookup p m id step)

-- The last case is a canceled step.
succeeded :
    (step : StepRecord)
    → is_terminal step ≡ true
    → is_fatal step ≡ false
    → step.optional ≡ false
    → (step.status ≡ done) ⊎ (step.status ≡ canceled)
unfolding is_terminal status_eq
succeeded step t f o = ground arith

module _ (s : DagState) (ended : terminal s ≡ (DagStatus.done, true)) where
  terminal-done :
      (all is_terminal (values s.steps) ≡ true) × (any is_fatal (values s.steps) ≡ false)
  unfolding terminal
  terminal-done = ground arith

  -- In a DAG that Terminal reports as done every step is terminal, and every step that is not
  -- optional is done or canceled.
  pub done_means :
      (id : String) (step : StepRecord)
      → lookup id s.steps ≡ some step
      → (is_terminal step ≡ true)
        × (step.optional ≡ false → (step.status ≡ done) ⊎ (step.status ≡ canceled))
  done_means id step e =
      let (over, sound) = terminal-done in
      (
        all-lookup is_terminal s.steps id step over e,
        succeeded step (all-lookup is_terminal s.steps id step over e)
            (any-lookup is_fatal s.steps id step sound e),
      )
