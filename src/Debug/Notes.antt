-- ===== src/Debug/Notes.antt =====
-- The texts of workflow/debug.go: the notes beside the steps, and the labels of a status.
use Prim.Native.String.{◌++◌}
use ebind.Base.{
  ℕ, String, Bool, true, false, not, ◌&&◌, ◌||◌, ◌==◌, ◌-◌, Option, none, some, List, [], ◌∷◌, Map,
  lookup, insert, is_nil, is_some, all, eqb, ltb, leb, suc, sort_by, sort_strings, text_less,
  if◌then◌else◌, ℤ, pos, negsuc,
}
use ebind.Base as Base
use ebind.Types.{
  StepStatus, pending, running, done, failed, skipped, canceled, DagStatus, BpState, unset, blocked,
  released, BpPosition, before, after,
}
use ebind.Control.Breakpoint.Report.{BreakpointInfo}
use ebind.Control.Signal.Report.{SignalInfo}

unfoldable pub join_from : String → List String → String
join_from sep [] = ""
join_from sep (x ∷ xs) = (sep ++ x) ++ join_from sep xs

-- `strings.Join`.
unfoldable pub join : String → List String → String
unfolding join_from
join sep [] = ""
join sep (x ∷ xs) = x ++ join_from sep xs

abbrev pub text_or_empty : Option String → String
text_or_empty none = ""
text_or_empty (some note) = note

abbrev texts_or_nil : Option (List String) → List String
texts_or_nil none = []
texts_or_nil (some names) = names

-- The note of one breakpoint; one that was not hit has none.
abbrev pub bp_note_of : BreakpointInfo → BpState → BpPosition → Option String
bp_note_of bp released position = some "bp:released"
bp_note_of bp blocked before = some (("bp:blocked[" ++ join "," bp.labels) ++ "]")
bp_note_of bp blocked after =
    some ((("bp:holding[" ++ join "," bp.labels) ++ "]→{") ++ (join "," bp.holding ++ "}"))
bp_note_of bp unset position = none

abbrev after_note : String → String → String
after_note prev note = if prev == "" then note else (prev ++ " ") ++ note

unfoldable pub bp_notes_from : Map String → List BreakpointInfo → Map String
unfolding join lookup insert
bp_notes_from notes [] = notes
bp_notes_from notes (bp ∷ infos) =
    bp_notes_from
      (elim (bp_note_of bp bp.state bp.position) [
        | none ↦ notes
        | some note ↦
            insert bp.step_id (after_note (text_or_empty (lookup bp.step_id notes)) note) notes
      ])
      infos

-- `breakpointNotes`.
abbrev pub breakpoint_notes : List BreakpointInfo → Map String
breakpoint_notes infos = bp_notes_from [] infos

unfoldable pub add_waiting : String → List String → Map (List String) → Map (List String)
unfolding lookup insert
add_waiting name [] by_step = by_step
add_waiting name (id ∷ ids) by_step =
    add_waiting name ids
      (insert id (Base.◌++◌ (texts_or_nil (lookup id by_step)) (name ∷ [])) by_step)

unfoldable pub names_by_step : Map (List String) → List SignalInfo → Map (List String)
unfolding add_waiting
names_by_step by_step [] = by_step
names_by_step by_step (si ∷ infos) = names_by_step (add_waiting si.name si.waiting by_step) infos

unfoldable pub write_sig_notes : Map (List String) → Map String
unfolding join sort_by
write_sig_notes [] = []
write_sig_notes ((id, names) ∷ by_step) =
    (id, ("sig:waiting[" ++ join "," (sort_strings names)) ++ "]") ∷ write_sig_notes by_step

-- `signalNotes`.
abbrev pub signal_notes : List SignalInfo → Map String
signal_notes infos = write_sig_notes (names_by_step [] infos)

abbrev pub status_glyph : StepStatus → String
status_glyph done = "✓"
status_glyph failed = "✗"
status_glyph skipped = "⊘"
status_glyph canceled = "■"
status_glyph running = "▶"
status_glyph pending = "⋯"
status_glyph (StepStatus.other s) = "?"

abbrev pub status_header_label : DagStatus → String
status_header_label DagStatus.done = "DONE"
status_header_label DagStatus.failed = "FAILED"
status_header_label DagStatus.canceled = "CANCELED"
status_header_label DagStatus.running = "RUNNING"
status_header_label DagStatus.pausing = "PAUSING"
status_header_label DagStatus.paused = "PAUSED"
status_header_label (DagStatus.other s) = s

-- `joinAnnotations`, which is called on a list that is not empty.
abbrev pub join_annotations : List String → String
join_annotations parts = join " " parts
