-- ===== src/Control/Breakpoint.antt =====
-- `ResumeBreakpoint` and `releaseBP` of workflow/breakpoint.go.
pub mod Report
pub mod Release
use ebind.Base.{
  ℕ, zero, suc, ◌+◌, String, Bool, true, false, not, ◌||◌, Option, none, some, List, [], ◌∷◌, Map,
  lookup, insert, contains, if◌then◌else◌,
}
use ebind.Types.{
  pending, done, StepRecord, DagMeta, DagState, BpPosition, before, after, released, EventKind,
  bp_resumed, Event, Result, ok, err, status_eq, is_released,
}
use ebind.State.{blocked_at_before, holding_at_after}
use ebind.Store.{list_steps, get_meta}
use ebind.Runtime.{M, pure, ◌>>=◌, ◌>>◌, read, ignore, publish, Decision, stop, write, cas_step}
use ebind.Control.Signal.{is_over}
use ebind.Control.Pause.{bare_event, publish_resume_event}

-- The switch on the position: the position's state may not be released any more, or the step has
-- left the status that the position needs.
abbrev pub release_bp_decision : BpPosition → StepRecord → Decision Bool
release_bp_decision before rec =
    if not (status_eq rec.status pending) || is_released rec.bp_before
    then stop false
    else write (record rec { bp_before = released; bp_blocked_at = 0 }) true
release_bp_decision after rec =
    if not (status_eq rec.status done) || is_released rec.bp_after
    then stop false
    else write (record rec { bp_after = released; bp_blocked_at = 0 }) true

unfoldable pub release_bp : String → String → BpPosition → M Bool
unfolding cas_step status_eq is_released
release_bp dag step pos = cas_step 5 dag step (release_bp_decision pos)

-- The map that the loop over the listed steps fills.
unfoldable pub index_from : Map StepRecord → List StepRecord → Map StepRecord
unfolding insert
index_from m [] = m
index_from m (s ∷ ss) = index_from (insert s.step_id s m) ss

abbrev pub state_of : DagMeta → List StepRecord → DagState
state_of meta steps = record { meta = meta; steps = index_from [] steps; signals = [] }

abbrev pub labels_at : BpPosition → Option StepRecord → List String
labels_at pos none = []
labels_at before (some rec) = rec.break_before
labels_at after (some rec) = rec.break_after

abbrev pub bp_resumed_event : String → String → BpPosition → String → Event
bp_resumed_event dag step pos label = record (bare_event bp_resumed dag step) {
  bp_position = some pos;
  bp_labels = label ∷ [];
}

-- An event only for a breakpoint that this call released; its loss is no error.
abbrev pub note_release : String → String → BpPosition → String → Bool → M ℕ
note_release dag step pos label false = pure 0
note_release dag step pos label true =
    ignore (publish (bp_resumed_event dag step pos label)) >> pure 1

abbrev pub release_one : String → String → DagState → BpPosition → String → M ℕ
release_one dag label state pos id =
    if not (contains (labels_at pos (lookup id state.steps)) label)
    then pure 0
    else (release_bp dag id pos >>= note_release dag id pos label)

-- One of the two loops: how many it released.
unfoldable pub release_all : String → String → DagState → BpPosition → List String → M ℕ
unfolding release_bp publish contains lookup
release_all dag label state pos [] = pure 0
release_all dag label state pos (id ∷ ids) = release_one dag label state pos id >>= λ n.
    release_all dag label state pos ids >>= λ m. pure (n + m)

abbrev pub release_blocked : String → String → DagState → M ℕ
release_blocked dag label state =
    release_all dag label state before (blocked_at_before state) >>= λ n.
    release_all dag label state after (holding_at_after state) >>= λ m.
    publish_resume_event dag >> pure (n + m)

unfoldable pub resume_breakpoint : String → String → M ℕ
unfolding release_all publish_resume_event read list_steps get_meta index_from blocked_at_before
    holding_at_after
resume_breakpoint dag label = read (get_meta dag) >>= λ (meta, rev).
    if is_over meta.status
    then pure 0
    else (read (λ s. ok (list_steps dag s)) >>= λ steps.
        release_blocked dag label (state_of meta steps))
