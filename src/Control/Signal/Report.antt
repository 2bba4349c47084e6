-- ===== src/Control/Signal/Report.antt =====
-- `ComputeSignals` and `CountWaitingSteps` of workflow/signal.go: the list of a DAG's signals.
use ebind.Base.{
  ℕ, String, Bool, true, false, ◌&&◌, Option, none, some, List, [], ◌∷◌, ◌++◌, Map, lookup, insert,
  keys, contains, dedupe_from, sort_by, sort_strings, length, if◌then◌else◌,
}
use ebind.Types.{Json, pending, StepRecord, DagMeta, SignalRecord, ok, status_eq}
use ebind.Store.{list_steps, list_signals, get_meta}
use ebind.Runtime.{M, pure, ◌>>=◌, read}
use ebind.Control.Signal.{is_over}

unfoldable pub signals_from : Map SignalRecord → List SignalRecord → Map SignalRecord
unfolding insert
signals_from m [] = m
signals_from m (rec ∷ sigs) = signals_from (insert rec.name rec m) sigs

-- `signalMap`; the nil map of no records is the empty one.
abbrev pub signal_map : List SignalRecord → Map SignalRecord
signal_map sigs = signals_from [] sigs

pub record SignalInfo : Type 0 where
  pub name : String
  pub delivered : Bool
  pub delivered_at : ℕ
  pub payload : Option Json
  pub waiting : List String

unfoldable pub wait_names : List StepRecord → List String
wait_names [] = []
wait_names (s ∷ steps) = s.wait_signals ++ wait_names steps

-- The loop that collects the waiting steps.
unfoldable pub waiting_for : String → List StepRecord → List String
unfolding contains status_eq
waiting_for name [] = []
waiting_for name (s ∷ steps) =
    let rest = waiting_for name steps in
    if status_eq s.status pending && contains s.wait_signals name then s.step_id ∷ rest else rest

abbrev pub waiting_info : Bool → String → List StepRecord → SignalInfo
waiting_info terminal name steps = record {
  name = name;
  delivered = false;
  delivered_at = 0;
  payload = none;
  waiting = if terminal then [] else sort_strings (waiting_for name steps);
}

abbrev pub delivered_info : String → SignalRecord → SignalInfo
delivered_info name rec = record {
  name = name;
  delivered = true;
  delivered_at = rec.delivered_at;
  payload = rec.payload;
  waiting = [];
}

-- The body of the loop over the names.
unfoldable pub info_for : Bool → List StepRecord → Map SignalRecord → String → SignalInfo
unfolding lookup waiting_for sort_by
info_for terminal steps by_name name = elim (lookup name by_name) [
  | some rec ↦ delivered_info name rec
  | none ↦ waiting_info terminal name steps
]

unfoldable pub infos_for : Bool → List StepRecord → Map SignalRecord → List String → List SignalInfo
unfolding info_for
infos_for terminal steps by_name [] = []
infos_for terminal steps by_name (name ∷ names) =
    info_for terminal steps by_name name ∷ infos_for terminal steps by_name names

-- `dedupeStrings` of workflow/dag.go.
abbrev pub dedupe_strings : List String → List String
dedupe_strings ss = dedupe_from [] ss

unfoldable pub compute_signals : DagMeta → List StepRecord → List SignalRecord → List SignalInfo
unfolding signals_from wait_names infos_for keys dedupe_from sort_by
compute_signals meta steps sigs =
    let by_name = signal_map sigs in
    infos_for (is_over meta.status) steps by_name
      (sort_strings (dedupe_strings (keys by_name ++ wait_names steps)))

unfoldable pub all_waiting : List SignalInfo → List String
all_waiting [] = []
all_waiting (si ∷ infos) = si.waiting ++ all_waiting infos

-- The size of the set of the waiting steps.
unfoldable pub count_waiting_steps : List SignalInfo → ℕ
unfolding all_waiting dedupe_from
count_waiting_steps infos = length (dedupe_strings (all_waiting infos))

unfoldable pub list_signal_info : String → M (List SignalInfo)
unfolding read get_meta list_steps list_signals compute_signals
list_signal_info dag = read (get_meta dag) >>= λ (meta, rev).
    read (λ s. ok (list_steps dag s)) >>= λ steps.
    read (λ s. ok (list_signals dag s)) >>= λ sigs. pure (compute_signals meta steps sigs)
