-- ===== src/Control/Breakpoint/Release.antt =====
-- A breakpoint that is released stays so, and the release changes nothing else that counts.
use ebind.Base.{String, Bool, true, false, not, ◌||◌, List, [], ◌∷◌, ◌≡◌, refl, contains, lookup}
use ebind.Types.{
  StepRecord, DagState, BpPosition, before, after, pending, done, ok, status_eq, is_released,
}
use ebind.State.{blocked_at_before, holding_at_after}
use ebind.Store.{list_steps, get_meta}
use ebind.Runtime.{World, read, ignore, publish}
use ebind.Runtime.Rely.{Guarantees}
use ebind.Runtime.Rely.Moves.{RecEvolves-mark}
use ebind.Runtime.Rely.Rules.{
  OnWrite, OnWrite-if, Guarantees-cas_step, Guarantees-bind, Guarantees-if, Guarantees-pure,
  Guarantees-read, Guarantees-ignore, Guarantees-publish,
}
use ebind.Runtime.Rely.Ensures.{Holds, IsStable, Leaves, Leaves-if, cas_step-Holds}
use ebind.Control.Signal.{is_over}
use ebind.Control.Pause.{publish_resume_event}
use ebind.Control.Pause.Rules.{Guarantees-publish_resume_event}
use ebind.Control.Breakpoint.{
  release_bp_decision, release_bp, state_of, labels_at, bp_resumed_event, note_release, release_one,
  release_all, release_blocked, resume_breakpoint,
}

pub release_bp_decision-OnWrite :
    (pos : BpPosition) (rec : StepRecord) → OnWrite rec (release_bp_decision pos rec)
unfolding is_released
release_bp_decision-OnWrite before rec =
    OnWrite-if rec (not (status_eq rec.status pending) || is_released rec.bp_before) _ _ (λ s. tt)
      (λ h. RecEvolves-mark _ _ refl refl (λ r. refl) (λ r. r))
release_bp_decision-OnWrite after rec =
    OnWrite-if rec (not (status_eq rec.status done) || is_released rec.bp_after) _ _ (λ s. tt)
      (λ h. RecEvolves-mark _ _ refl refl (λ r. r) (λ r. refl))

-- The breakpoint at the position is passed.
abbrev pub IsPassed : BpPosition → StepRecord → Type 0
IsPassed before rec = is_released rec.bp_before ≡ true
IsPassed after rec = is_released rec.bp_after ≡ true

pub IsPassed-IsStable : (pos : BpPosition) → IsStable (IsPassed pos)
IsPassed-IsStable before r r' moves h = moves.passed_before h
IsPassed-IsStable after r r' moves h = moves.passed_after h

-- After a release that answers true; one that answers false may have found another status.
abbrev Passed : BpPosition → Bool → StepRecord → Type 0
Passed pos true rec = IsPassed pos rec
Passed pos false rec = Unit {0}

release_bp_decision-Leaves :
    (pos : BpPosition) (rec : StepRecord) → Leaves (Passed pos) rec (release_bp_decision pos rec)
unfolding is_released
release_bp_decision-Leaves before rec =
    Leaves-if (Passed before) rec (not (status_eq rec.status pending) || is_released rec.bp_before)
      _ _ (λ s. tt) (λ h. refl)
release_bp_decision-Leaves after rec =
    Leaves-if (Passed after) rec (not (status_eq rec.status done) || is_released rec.bp_after) _ _
      (λ s. tt) (λ h. refl)

module _ (dag : String) where
  pub Guarantees-release_bp :
      (step : String) (pos : BpPosition) → Guarantees (release_bp dag step pos)
  unfolding release_bp
  Guarantees-release_bp step pos =
      Guarantees-cas_step 5 dag step _ (release_bp_decision-OnWrite pos)

  -- When the release of a breakpoint answers true, the store holds the step with the breakpoint
  -- at that position released.
  pub release_bp-Holds :
      (step : String) (pos : BpPosition) (w : World)
      → (release_bp dag step pos w).0 ≡ ok true
      → Holds (IsPassed pos) dag step (release_bp dag step pos w).1.store
  unfolding release_bp
  release_bp-Holds step pos w h =
      cas_step-Holds (Passed pos) dag step _ (release_bp_decision-Leaves pos) 5 w h

  Guarantees-note_release :
      (step : String) (pos : BpPosition) (label : String) (b : Bool)
      → Guarantees (note_release dag step pos label b)
  Guarantees-note_release step pos label false = Guarantees-pure _
  Guarantees-note_release step pos label true =
      Guarantees-bind (ignore (publish (bp_resumed_event dag step pos label))) _
        (Guarantees-ignore _ (Guarantees-publish _)) (λ _. Guarantees-pure 1)

  Guarantees-release_all :
      (label : String) (state : DagState) (pos : BpPosition) (ids : List String)
      → Guarantees (release_all dag label state pos ids)
  unfolding release_all
  Guarantees-release_all label state pos [] = Guarantees-pure _
  Guarantees-release_all label state pos (id ∷ ids) =
      Guarantees-bind (release_one dag label state pos id) _
        (Guarantees-if (not (contains (labels_at pos (lookup id state.steps)) label)) _ _
          (Guarantees-pure 0)
          (Guarantees-bind (release_bp dag id pos) _ (Guarantees-release_bp id pos)
            (Guarantees-note_release id pos label)))
        (λ n.
          Guarantees-bind (release_all dag label state pos ids) _
            (Guarantees-release_all label state pos ids) (λ m. Guarantees-pure _))

  Guarantees-release_blocked :
      (label : String) (state : DagState) → Guarantees (release_blocked dag label state)
  Guarantees-release_blocked label state =
      Guarantees-bind (release_all dag label state before (blocked_at_before state)) _
        (Guarantees-release_all label state before _)
        (λ n.
          Guarantees-bind (release_all dag label state after (holding_at_after state)) _
            (Guarantees-release_all label state after _)
            (λ m.
              Guarantees-bind (publish_resume_event dag) _ (Guarantees-publish_resume_event dag)
                (λ u. Guarantees-pure _)))

  pub Guarantees-resume_breakpoint : (label : String) → Guarantees (resume_breakpoint dag label)
  unfolding resume_breakpoint
  Guarantees-resume_breakpoint label =
      Guarantees-bind (read (get_meta dag)) _ (Guarantees-read (get_meta dag)) (λ (meta, rev).
        Guarantees-if (is_over meta.status) _ _ (Guarantees-pure 0) (
          Guarantees-bind (read (λ s. ok (list_steps dag s))) _
            (Guarantees-read (λ s. ok (list_steps dag s)))
            (λ steps. Guarantees-release_blocked label (state_of meta steps))))
