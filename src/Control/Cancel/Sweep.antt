-- ===== src/Control/Cancel/Sweep.antt =====
-- A cancel that returns leaves no step behind that could still start.
use ebind.Base.{
  String, Bool, true, false, some, ◌≡◌, refl, arith, inl, inr, Bool-cases, subst, sym, ap, ◌∙◌,
  ◌||◌, if◌then◌else◌, ℕ,
}
use ebind.Types.{Result, ok, err, pending, running, StepRecord, status_eq, is_terminal}
use ebind.Store.{MemStore, MemEntry, find_in, list_steps}
use ebind.Runtime.{World, time_now, pure, read, call, continue, found_store, later}
use ebind.Runtime.Rely.{
  StepConfig, Evolves, Kept, Guarantees, AllInterfere, found_store-Evolves, later-AllInterfere,
}
use ebind.Runtime.Rely.Rules.{
  OnWrite, Guarantees-cas_step, Guarantees-bind, Guarantees-if, Guarantees-pure, Guarantees-read,
  Guarantees-time_now,
}
use ebind.Runtime.Rely.Moves.{RecEvolves-start}
use ebind.Runtime.Rely.MetaRules.{Guarantees-cas_meta, Guarantees-for_each}
use ebind.Runtime.Rely.Ensures.{
  Holds, IsStable, Leaves, cas_step-Holds, Holds-Evolves, Each-list_steps, for_each-Each,
}
use ebind.Control.Cancel.{cancel_decision, cancel_meta, cancel_step, cancel_steps, cancel}

pub cancel_decision-OnWrite : (now : ℕ) (rec : StepRecord) → OnWrite rec (cancel_decision now rec)
unfolding status_eq
cancel_decision-OnWrite now rec =
    elim (Bool-cases (is_terminal rec || status_eq rec.status running)) [
      | inl over ↦ rw over tt
      | inr waits ↦ rw waits (RecEvolves-start _ _ refl refl refl (ground arith) refl)
    ]

-- Not pending any more, which no writer takes back.
abbrev pub HasLeft : StepRecord → Type 0
HasLeft rec = status_eq rec.status pending ≡ false

HasLeft-IsStable : IsStable HasLeft
HasLeft-IsStable r r' moves h = moves.left h

over-HasLeft :
    (rec : StepRecord) → (is_terminal rec || status_eq rec.status running) ≡ true → HasLeft rec
unfolding is_terminal status_eq
over-HasLeft rec h = ground arith

cancel_decision-Leaves :
    (now : ℕ) (rec : StepRecord) → Leaves (λ _. HasLeft) rec (cancel_decision now rec)
unfolding status_eq
cancel_decision-Leaves now rec =
    elim (Bool-cases (is_terminal rec || status_eq rec.status running)) [
      | inl over ↦ rw over (over-HasLeft rec over)
      | inr waits ↦ rw waits refl
    ]

pub Guarantees-cancel_step : (dag step : String) → Guarantees (cancel_step dag step)
unfolding cancel_step
Guarantees-cancel_step dag step =
    Guarantees-bind time_now _ Guarantees-time_now
      (λ now. Guarantees-cas_step 5 dag step (cancel_decision now) (cancel_decision-OnWrite now))

cancel_step-Holds :
    (dag step : String) (w : World)
    → (cancel_step dag step w).0 ≡ ok tt
    → Holds HasLeft dag step (cancel_step dag step w).1.store
unfolding cancel_step time_now
cancel_step-Holds dag step w h =
    cas_step-Holds (λ _. HasLeft) dag step (cancel_decision w.clock)
      (cancel_decision-Leaves w.clock) 5 w h

Guarantees-cancel_meta : (dag : String) → Guarantees (cancel_meta dag)
unfolding cancel_meta
Guarantees-cancel_meta dag = Guarantees-cas_meta 5 dag _ (λ meta. Guarantees-pure _)

Guarantees-cancel_steps : (dag : String) → Guarantees (cancel_steps dag)
unfolding cancel_steps
Guarantees-cancel_steps dag =
    Guarantees-bind (read (λ s. ok (list_steps dag s))) _
      (Guarantees-read (λ s. ok (list_steps dag s)))
      (λ steps. Guarantees-for_each _ steps (λ rec. Guarantees-cancel_step dag rec.step_id))

-- When the other writers keep to the rules, so does a cancel, whatever it returns: no step is
-- lost, each step record keeps its configuration, never goes back to pending, leaves a terminal
-- status only for skipped and keeps its released breakpoints, and delivered signals stay.
pub Guarantees-cancel : (dag : String) → Guarantees (cancel dag)
unfolding cancel
Guarantees-cancel dag =
    Guarantees-bind (cancel_meta dag) _ (Guarantees-cancel_meta dag) (λ finished.
      Guarantees-if finished (pure tt) (cancel_steps dag) (Guarantees-pure tt)
        (Guarantees-cancel_steps dag))

module _ (dag : String) where
  -- The step under the record's identifier can start no more.
  abbrev Stopped : StepRecord → MemStore → Type 0
  Stopped rec s = Holds HasLeft dag rec.step_id s

  cancel_steps-Stopped :
      (w : World)
      → AllInterfere w.others
      → (cancel_steps dag w).0 ≡ ok tt
      → (k : String) {e : MemEntry} → find_in dag k w.store.steps ≡ some e
      → e.rec.step_id ≡ k
      → Holds HasLeft dag k (cancel_steps dag w).1.store
  unfolding cancel_steps read call
  cancel_steps-Stopped w h done k found key =
      let s = found_store w.others w.store in
      let (e', found', moves) = (found_store-Evolves w.others w.store h).kept dag k found in
      let each =
        for_each-Each Stopped (λ rec. cancel_step dag rec.step_id)
          (λ rec. Guarantees-cancel_step dag rec.step_id)
          (λ rec s s' ev. Holds-Evolves HasLeft dag rec.step_id HasLeft-IsStable ev)
          (λ rec w h. cancel_step-Holds dag rec.step_id w) (list_steps dag s)
          (record w { store = s; others = later w.others }) (later-AllInterfere w.others h) done in
      subst (λ id. Holds HasLeft dag id (cancel_steps dag w).1.store)
        (ap (λ (c : StepConfig). c.step_id) (sym moves.fixed) ∙ key)
        (Each-list_steps Stopped dag s (cancel_steps dag w).1.store k each found')

  cancel-Holds :
      (w : World)
      → AllInterfere w.others
      → (cancel_meta dag w).0 ≡ ok false
      → (cancel dag w).0 ≡ ok tt
      → (k : String) {e : MemEntry} → find_in dag k w.store.steps ≡ some e
      → e.rec.step_id ≡ k
      → Holds HasLeft dag k (cancel dag w).1.store
  unfolding cancel
  cancel-Holds w h unfinished done k found key =
      go (cancel_meta dag w) ((Guarantees-cancel_meta dag).at w h) unfinished done
    where
      go :
          (r : Result Bool × World)
          → Kept w.store r.1
          → r.0 ≡ ok false
          → (continue r.0 (λ finished. if finished then pure tt else cancel_steps dag) r.1).0
            ≡ ok tt
          → Holds HasLeft dag k
              (continue r.0
                (λ finished. if finished then pure tt else cancel_steps dag)
                r.1).1.store
      go (ok true, w') kept f d = absurd (cc)
      go (err x, w') kept f d = absurd (cc)
      go (ok false, w') kept f d =
          let (e', found', moves) = kept.0.kept dag k found in
          cancel_steps-Stopped w' kept.1 d k found'
            (ap (λ (c : StepConfig). c.step_id) (sym moves.fixed) ∙ key)

  -- When a cancel returns, on a DAG that had not ended, no step that the store held under its
  -- own identifier when it began is pending, whatever other writers do within the rules between
  -- its calls; nor is one in any later store that the rules lead to.
  pub cancel_stops :
      (w : World) (later_store : MemStore)
      → AllInterfere w.others
      → (cancel_meta dag w).0 ≡ ok false
      → (cancel dag w).0 ≡ ok tt
      → Evolves (cancel dag w).1.store later_store
      → (k : String) {e : MemEntry} → find_in dag k w.store.steps ≡ some e
      → e.rec.step_id ≡ k
      → Holds HasLeft dag k later_store
  cancel_stops w later_store h unfinished done ev k found key =
      Holds-Evolves HasLeft dag k HasLeft-IsStable ev (cancel-Holds w h unfinished done k found key)
