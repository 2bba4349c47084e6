-- ===== src/Debug.antt =====
-- `Debug` of workflow/debug.go: the snapshot of a DAG, with what holds each pending step back, and the
-- notes beside the steps. The layout of the report is left out.
mod Notes
pub mod Blockers
unfoldable pub use Notes.{join, join_from, bp_notes_from, names_by_step, write_sig_notes}
pub use Notes.{
  text_or_empty, breakpoint_notes, signal_notes, status_glyph, status_header_label,
  join_annotations,
}
use Prim.Native.String.{◌++◌}
use ebind.Base.{
  ℕ, String, Bool, true, false, not, ◌&&◌, ◌||◌, ◌==◌, ◌-◌, Option, none, some, List, [], ◌∷◌, Map,
  lookup, insert, is_nil, is_some, all, eqb, ltb, leb, suc, sort_by, sort_strings, text_less,
  if◌then◌else◌, ℤ, pos, negsuc,
}
use ebind.Base as Base
use ebind.Types.{
  StepStatus, pending, running, done, failed, skipped, canceled, DagStatus, BpState, unset, blocked,
  released, BpPosition, before, after, DagMeta, StepRecord, DagState, SignalRecord, ok, status_eq,
  is_terminal,
}
use ebind.State.{after_bp_holds}
use ebind.Store.{get_meta, list_steps, list_signals}
use ebind.Runtime.{M, pure, ◌>>=◌, read}
use ebind.Control.Breakpoint.{index_from}
use ebind.Control.Breakpoint.Report.{BreakpointInfo, compute_breakpoints}
use ebind.Control.Signal.Report.{SignalInfo, compute_signals, signal_map, signals_from}

pub record StepDebug : Type 0 where
  pub step : StepRecord
  pub queue_duration : ℤ
  pub exec_duration : ℤ
  pub bp_note : String
  pub sig_note : String

pub record StepBlocker : Type 0 where
  pub step_id : String
  pub waiting_on : List String
  pub gated_by : List String
  pub waiting_signals : List String

-- `DAGDebug`. The counts are a function of the status.
pub record DagDebug : Type 0 where
  pub meta : DagMeta
  pub steps : List StepDebug
  pub counts : StepStatus → ℕ
  pub total_duration : ℤ
  pub blockers : List StepBlocker
  pub breakpoints : List BreakpointInfo
  pub signals : List SignalInfo

-- `t.Sub(u)`.
abbrev pub time_sub : ℕ → ℕ → ℤ
time_sub t u = if leb u t then pos (t - u) else negsuc (u - t - 1)

abbrev pub duration_between : ℕ → ℕ → ℤ
duration_between from to = if not (eqb to 0) && not (eqb from 0) then time_sub to from else pos 0

-- By the time of addition, then by the identifier.
abbrev pub added_before : StepRecord → StepRecord → Bool
added_before a b =
    if not (eqb a.added_at b.added_at)
    then ltb a.added_at b.added_at
    else text_less a.step_id b.step_id

abbrev pub step_debug : Map String → Map String → StepRecord → StepDebug
step_debug bp_notes sig_notes s = record {
  step = s;
  queue_duration = duration_between s.added_at s.started_at;
  exec_duration = duration_between s.started_at s.finished_at;
  bp_note = text_or_empty (lookup s.step_id bp_notes);
  sig_note = text_or_empty (lookup s.step_id sig_notes);
}

unfoldable pub step_debugs : Map String → Map String → List StepRecord → List StepDebug
unfolding lookup
step_debugs bp_notes sig_notes [] = []
step_debugs bp_notes sig_notes (s ∷ steps) =
    step_debug bp_notes sig_notes s ∷ step_debugs bp_notes sig_notes steps

unfoldable pub count_status : StepStatus → List StepRecord → ℕ
unfolding status_eq
count_status st [] = 0
count_status st (s ∷ steps) =
    let rest = count_status st steps in if status_eq s.status st then suc rest else rest

unfoldable pub max_finished : ℕ → List StepRecord → ℕ
max_finished m [] = m
max_finished m (s ∷ steps) = max_finished (if ltb m s.finished_at then s.finished_at else m) steps

abbrev pub total_of : DagMeta → List StepRecord → ℤ
total_of meta steps =
    if all is_terminal steps && not (eqb (max_finished 0 steps) 0) && not (eqb meta.created_at 0)
    then time_sub (max_finished 0 steps) meta.created_at
    else pos 0

module _ (state : DagState) where
  -- The first case of `classify`: the dependency is unknown or not over.
  abbrev pub is_unfinished : Option StepRecord → Bool
  is_unfinished none = true
  is_unfinished (some d) = not (is_terminal d)

  -- The second: it is done, and its after-breakpoint holds.
  abbrev pub gates : Option StepRecord → Bool
  gates none = false
  gates (some d) = is_terminal d && after_bp_holds state d

  unfoldable pub waiting_of : List String → List String
  unfolding lookup is_terminal
  waiting_of [] = []
  waiting_of (dep ∷ deps) =
      let rest = waiting_of deps in
      if is_unfinished (lookup dep state.steps) then dep ∷ rest else rest

  unfoldable pub gated_of : List String → List String
  unfolding lookup is_terminal after_bp_holds
  gated_of [] = []
  gated_of (dep ∷ deps) =
      let rest = gated_of deps in if gates (lookup dep state.steps) then dep ∷ rest else rest

  unfoldable pub undelivered : List String → List String
  unfolding lookup
  undelivered [] = []
  undelivered (name ∷ names) =
      let rest = undelivered names in
      if is_some (lookup name state.signals) then rest else name ∷ rest

  -- What holds a pending step back.
  abbrev pub blocker_of : StepRecord → StepBlocker
  blocker_of s = record {
    step_id = s.step_id;
    waiting_on = Base.◌++◌ (waiting_of s.deps) (waiting_of s.optional_deps);
    gated_by = Base.◌++◌ (gated_of s.deps) (gated_of s.optional_deps);
    waiting_signals = undelivered s.wait_signals;
  }

  abbrev pub is_blocking : StepBlocker → Bool
  is_blocking b =
      not (is_nil b.waiting_on) || not (is_nil b.gated_by) || not (is_nil b.waiting_signals)

  unfoldable pub blockers_of : List StepRecord → List StepBlocker
  unfolding waiting_of gated_of undelivered status_eq
  blockers_of [] = []
  blockers_of (s ∷ steps) =
      let rest = blockers_of steps in
      if status_eq s.status pending && is_blocking (blocker_of s) then blocker_of s ∷ rest else rest

abbrev pub debug_state : DagMeta → List StepRecord → List SignalRecord → DagState
debug_state meta steps sigs = record {
  meta = meta;
  steps = index_from [] steps;
  signals = signal_map sigs;
}

-- The snapshot of sorted steps.
unfoldable pub snapshot_of : DagMeta → List StepRecord → List SignalRecord → DagDebug
unfolding bp_notes_from names_by_step write_sig_notes step_debugs count_status max_finished
    blockers_of index_from signals_from compute_breakpoints compute_signals
snapshot_of meta steps sigs =
    let bps = compute_breakpoints meta steps in
    let infos = compute_signals meta steps sigs in
    record {
      meta = meta;
      steps = step_debugs (breakpoint_notes bps) (signal_notes infos) steps;
      counts = λ st. count_status st steps;
      total_duration = total_of meta steps;
      blockers = blockers_of (debug_state meta steps sigs) steps;
      breakpoints = bps;
      signals = infos;
    }

-- `Debug`.
unfoldable pub debug : String → M DagDebug
unfolding read get_meta list_steps list_signals sort_by snapshot_of
debug dag = read (get_meta dag) >>= λ (meta, rev). read (λ s. ok (list_steps dag s)) >>= λ steps.
    read (λ s. ok (list_signals dag s)) >>= λ sigs.
    pure (snapshot_of meta (sort_by added_before steps) sigs)
