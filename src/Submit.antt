-- ===== src/Submit.antt =====
-- `Submit` of workflow/dag.go: the checks, the writes of the records, and the start of the steps that
-- wait on none.
pub mod Checks
pub mod Records
pub mod Roots
pub mod Exact
pub mod Outcome
use ebind.Base.{
  ℕ, zero, suc, String, Bool, true, false, not, ◌&&◌, ◌||◌, Option, none, some, List, [], ◌∷◌, Map,
  lookup, insert, contains, is_nil, any, eqb, if◌then◌else◌,
}
use ebind.Types.{
  pending, running, DagStatus, unset, blocked, before, bp_hit, PlacementSpec, colocate_here,
  DagMeta, StepRecord, DagState, SignalRecord, Event, Result, ok, err, cycle, placed_here_outside,
  bad_labels, already_submitted, no_steps, not_callable, is_stale, status_eq,
}
use ebind.Wire.Args.{marshal_args}
use ebind.State.{before_bp_blocks, signal_blocks}
use ebind.Store.{put_meta, put_step, get_step, list_signals}
use ebind.Runtime.{M, World, pure, raise, ◌>>=◌, ◌>>◌, call, read, catch, ignore, publish, time_now}
use ebind.Control.Pause.{bare_event}
use ebind.Control.Signal.Report.{signal_map, signals_from, dedupe_strings}
use ebind.Builder.{
  Step, Search, required_deps, optional_deps, all_deps, wait_signal_names,
  validate_step_breakpoints, validate_step_signals, detect_cycles,
}
use ebind.Builder.Options.{Dag}
use ebind.Scheduler.{enqueue_step, or_zero}
use ebind.Builder.Check.{check}
use ebind.Builder.Record.{record_of}

-- The names of the functions, one for each step.
unfoldable pub describe_all : Map Step → Result (Map String)
describe_all [] = ok []
describe_all ((id, s) ∷ steps) = elim s.fn_name [
  | none ↦ err (not_callable id)
  | some fn ↦ elim (describe_all steps) [ err e ↦ err e | ok names ↦ ok ((id, fn) ∷ names) ]
]

abbrev pub meta_of_dag : List String → ℕ → Dag → DagMeta
meta_of_dag active now d = record {
  id = d.id;
  status = DagStatus.running;
  created_at = now;
  default_policy = d.default_policy;
  paused_at = 0;
  terminal_steps = [];
  active_breakpoints = dedupe_strings active;
  labels = dedupe_strings d.labels;
}

-- What Submit has of each step that it wrote: its record and the revision of the create.
abbrev pub Created : Type 0
Created = Map (StepRecord × ℕ)

abbrev name_in : Map String → String → String
name_in names id = elim (lookup id names) [ none ↦ "" | some fn ↦ fn ]

unfoldable pub create_steps : String → Map String → Map Step → M Created
unfolding record_of call put_step time_now lookup
create_steps dag names [] = pure []
create_steps dag names ((id, s) ∷ steps) = time_now >>= λ now.
    let rec = record_of dag (name_in names id) now s in
    call (λ st. put_step dag id st rec 0) >>= λ rev.
    create_steps dag names steps >>= λ created. pure ((id, (rec, rev)) ∷ created)

abbrev pub records : Created → Map StepRecord
records [] = []
records ((id, (rec, rev)) ∷ created) = (id, rec) ∷ records created

-- A step that waits on no other.
abbrev pub is_root : Step → Bool
is_root s = is_nil (all_deps s)

abbrev pub waits_on_signals : Map Step → Bool
waits_on_signals steps = any (λ (id, s). is_root s && not (is_nil (wait_signal_names s))) steps

-- The signals are read once, and only for a root that waits on one.
unfoldable pub signal_snapshot : String → Map Step → M (Map SignalRecord)
unfolding read list_signals signals_from all_deps wait_signal_names
signal_snapshot dag steps =
    if waits_on_signals steps
    then (read (λ s. ok (list_signals dag s)) >>= λ sigs. pure (signal_map sigs))
    else pure []

abbrev pub state_of_meta : DagMeta → Map SignalRecord → DagState
state_of_meta meta sigs = record { meta = meta; steps = []; signals = sigs }

abbrev hit_event : String → String → StepRecord → Event
hit_event dag id cur = record (bare_event bp_hit dag id) {
  bp_position = some before;
  bp_labels = cur.break_before;
}

abbrev pub at_breakpoint : ℕ → StepRecord → StepRecord
at_breakpoint now cur = record cur { bp_before = blocked; bp_blocked_at = now }

abbrev pub at_start : ℕ → StepRecord → StepRecord
at_start now cur = record cur { status = running; started_at = now }

-- The mark is advisory: only a write that got through is announced, and no error is passed on.
abbrev announce_hit : String → String → StepRecord → Result ℕ → M (Unit {0})
announce_hit dag id cur (ok rev) = ignore (publish (hit_event dag id cur))
announce_hit dag id cur (err e) = pure tt

abbrev mark_blocked : String → String → StepRecord → ℕ → M StepRecord
mark_blocked dag id cur rev = time_now >>= λ now.
    catch (call (λ s. put_step dag id s (at_breakpoint now cur) rev))
    >>= announce_hit dag id (at_breakpoint now cur)
    >> pure (at_breakpoint now cur)

-- `recs[s.id] = cur`, and the reading of `recs` for the task.
abbrev pub send_root : Map SignalRecord → Map StepRecord → String → StepRecord → M StepRecord
send_root sigs recs id next = enqueue_step next (insert id next recs) ([], []) sigs >> pure next

-- After the attempt to claim a root: it is sent, or read again after a lost race, if tries are left.
abbrev settle :
    String
    → Map SignalRecord
    → Map StepRecord
    → String
    → StepRecord
    → Bool
    → (StepRecord → ℕ → M StepRecord)
    → Result ℕ
    → M StepRecord
settle dag sigs recs id next last again (ok rev) = send_root sigs recs id next
settle dag sigs recs id next last again (err e) =
    if not (is_stale e) || last
    then raise e
    else (read (get_step dag id) >>= λ (cur, rev). again cur rev)

-- The loop on one root, with `n` tries left.
unfoldable pub claim_root :
    ℕ → DagMeta → Map SignalRecord → Map StepRecord → String → StepRecord → ℕ → M StepRecord
unfolding call read catch time_now insert
claim_root zero meta sigs recs id cur rev = pure cur
claim_root (suc n) meta sigs recs id cur rev =
    let again = claim_root n meta sigs recs id in
    if not (status_eq cur.status pending) || cur.held
    then pure cur
    else if before_bp_blocks (state_of_meta meta []) cur
    then mark_blocked meta.id id cur rev
    else if signal_blocks (state_of_meta meta sigs) cur
    then pure cur
    else (time_now >>= λ now.
        catch (call (λ s. put_step meta.id id s (at_start now cur) rev))
        >>= settle meta.id sigs recs id (at_start now cur) (eqb n 0) again)

abbrev created_of : Option (StepRecord × ℕ) → StepRecord × ℕ
created_of none = (or_zero none, 0)
created_of (some c) = c

-- The loop over the steps, with `recs` as it stands.
unfoldable pub claim_roots :
    DagMeta → Map SignalRecord → Created → Map Step → Map StepRecord → M (Unit {0})
unfolding claim_root lookup insert
claim_roots meta sigs created [] recs = pure tt
claim_roots meta sigs created ((id, s) ∷ steps) recs =
    let rest = claim_roots meta sigs created steps in
    if not (is_root s)
    then rest recs
    else let (rec, rev) = created_of (lookup id created) in
      (claim_root 5 meta sigs recs id rec rev >>= λ cur. rest (insert id cur recs))

abbrev pub put_new_meta : DagMeta → M (Unit {0})
put_new_meta meta = call (λ s. put_meta meta.id s meta 0)

-- What follows once the functions have their names.
unfoldable pub persist_dag : List String → Dag → Map String → M (Unit {0})
unfolding time_now
persist_dag active d names = time_now >>= λ now.
    let meta = meta_of_dag active now d in
    put_new_meta meta >> create_steps d.id names d.steps >>= λ created.
    signal_snapshot d.id d.steps >>= λ sigs. claim_roots meta sigs created d.steps (records created)

abbrev on_names : List String → Dag → Result (Map String) → M (Unit {0})
on_names active d (err e) = raise e
on_names active d (ok names) = persist_dag active d names

abbrev pub submit_checked :
    List String → Dag → Result (Unit {0}) → World → (Result (Unit {0}) × World) × Dag
submit_checked active d (err e) w = ((err e, w), d)
submit_checked active d (ok u) w =
    (on_names active d (describe_all d.steps) w, record d { submitted = true })

-- The answer, the world, and the DAG, whose `submitted` is set once the checks are passed.
unfoldable pub submit : List String → Dag → World → (Result (Unit {0}) × World) × Dag
unfolding check describe_all persist_dag
submit active d w = submit_checked active d (check active d) w
