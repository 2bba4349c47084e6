-- ===== src/Examples/Operations.antt =====
-- The theorems on the operations, applied to small stores.
use ebind.Base.{
  Option, none, arith, pos, ◌+◌, ◌≤◌, true, false, some, List, [], ◌∷◌, eqb, length, ◌≡◌, ◌≢◌, refl,
  if◌then◌else◌,
}
use ebind.Types.{Json, pending, running, DagStatus, StepRecord, DagMeta, Err, before, completed, ok}
use ebind.Task.{TaskError}
use ebind.Store.{
  MemEntry, MemStore, find_in, get_step, put_step, get_meta, put_signal, put_result, list_steps,
}
use ebind.Runtime.Rely.{RecEvolves}
use ebind.Runtime.Rely.Ensures.{Holds}
use ebind.Control.Message.{truncate_error_message}
use ebind.Control.Message.Bytes.{truncate-bounded}
use ebind.Control.Message.Utf8.{IsUtf8, is_rune, truncate-IsUtf8}
use ebind.Control.Hook.{StepHook, on_step_done}
use ebind.Control.Hook.Outcome.{IsEnded, on_step_done-Holds}
use ebind.Control.Pause.{fence_pending_steps, bare_event}
use ebind.Control.Pause.Fence.{Fenced, fence_fences}
use ebind.Control.Signal.{signal}
use ebind.Control.Signal.Delivery.{signal_first_wins, signal_repeated}
use ebind.Control.Breakpoint.{release_bp}
use ebind.Control.Breakpoint.Release.{IsPassed, release_bp-Holds}
use ebind.System.{Operation, run_all, signals_stay}
use ebind.System.Peers.{Peer, peer_writes, interleaved}
use ebind.Examples.{step_of, meta_of_status, go_signal, store_of, world_of, done_task}

abbrev working : MemStore
working = store_of DagStatus.running (step_of "a" [] running)

abbrev working_entry : MemEntry
working_entry = record { rec = step_of "a" [] running; rev = 4 }

-- A worker reports the step, an operator pauses and resumes the DAG, and the leader sweeps.
abbrev a_history : List Operation
a_history =
    Operation.step_done done_task Json.null
    ∷ Operation.pauses "d"
    ∷ Operation.resumes "d"
    ∷ Operation.event (bare_event completed "d" "a")
    ∷ Operation.sweeps
    ∷ []

-- Meanwhile another scheduler marks the step, an operator fences it, and a signal comes in.
abbrev the_others : List (List Peer)
the_others =
    (Peer.marks 9 before "d" "a" ∷ Peer.holds 9 "d" "a" ∷ [])
    ∷ []
    ∷ (Peer.signals "d" go_signal ∷ Peer.unholds "d" "a" ∷ Peer.cancels 9 "d" "a" ∷ [])
    ∷ []

interleaved_example :
    (e' : MemEntry) × (find_in "d" "a"
        (run_all a_history
          (record (world_of working) { others = peer_writes the_others })).1.store.steps
      ≡ some e')
    × RecEvolves working_entry.rec e'.rec
unfolding find_in
interleaved_example =
    interleaved a_history the_others (world_of working) "d" "a" {e = working_entry}
      (ground arith, (ground arith, (ground arith, tt))) refl

abbrev signaled : MemStore
signaled = record working { signals = ("d", ("go", go_signal) ∷ []) ∷ [] }

signals_stay_example :
    find_in "d" "go" (run_all a_history (world_of signaled)).1.store.signals ≡ some go_signal
unfolding find_in
signals_stay_example = signals_stay a_history (world_of signaled) "d" "go" {r = go_signal} tt refl

on_step_done-Holds_example :
    Holds IsEnded "d" "a" (on_step_done done_task Json.null (world_of working)).1.store
unfolding on_step_done get_step put_step put_result
on_step_done-Holds_example = on_step_done-Holds done_task Json.null (world_of working) tt refl refl

abbrev short_messages : StepHook
short_messages = record { max_err_bytes = pos 4 }

abbrev broken : TaskError
broken = record {
  kind = "timeout";
  message = 226 ∷ 130 ∷ 172 ∷ 226 ∷ 130 ∷ 172 ∷ [];
  retryable = false;
}

truncate-bounded_example :
    length (truncate_error_message broken.message (pos 4)) ≤ (if eqb 4 0 then 4096 else 4) + 3
truncate-bounded_example = truncate-bounded broken.message 4

two_euros : IsUtf8 broken.message
unfolding is_rune
two_euros = record {
  runes = (226 ∷ 130 ∷ 172 ∷ []) ∷ (226 ∷ 130 ∷ 172 ∷ []) ∷ [];
  valid = refl;
  spelled = refl;
}

truncate-IsUtf8_example : IsUtf8 (truncate_error_message broken.message (pos 4))
truncate-IsUtf8_example = truncate-IsUtf8 broken.message (pos 4) two_euros

-- The cut is moved back to the end of the first character.
cut_message : truncate_error_message broken.message (pos 4) ≡ 226 ∷ 130 ∷ 172 ∷ 226 ∷ 128 ∷ 166 ∷ []
unfolding truncate_error_message
cut_message = refl

abbrev waiting_store : MemStore
waiting_store = store_of DagStatus.running (step_of "a" [] pending)

abbrev held_entry : MemEntry
held_entry = record { rec = record (step_of "a" [] pending) { held = true; held_at = 9 }; rev = 5 }

fence_fences_example : Fenced held_entry.rec
unfolding fence_pending_steps get_step put_step list_steps
fence_fences_example =
    fence_fences "d" (world_of waiting_store) refl refl "a" {e = held_entry} refl refl

signal_first_wins_example :
    find_in "d" "go" (signal "d" "go" Json.null (world_of waiting_store)).1.store.signals
    ≡ some (record { dag_id = "d"; name = "go"; payload = some Json.null; delivered_at = 9 })
unfolding signal get_meta put_signal
signal_first_wins_example = signal_first_wins "d" "go" Json.null (world_of waiting_store) none refl

signal_repeated_example :
    ((e : Option Err) → (signal "d" "go" (Json.str "late") (world_of signaled)).0 ≢ ok (true, e))
    × (find_in "d" "go" (signal "d" "go" (Json.str "late") (world_of signaled)).1.store.signals
        ≡ some go_signal)
unfolding find_in
signal_repeated_example =
    signal_repeated "d" "go" (Json.str "late") (world_of signaled) {r = go_signal} tt refl

release_bp-Holds_example :
    Holds (IsPassed before) "d" "a" (release_bp "d" "a" before (world_of waiting_store)).1.store
unfolding release_bp get_step put_step
release_bp-Holds_example = release_bp-Holds "d" "a" before (world_of waiting_store) refl

abbrev stopped_step : StepRecord
stopped_step = record (step_of "a" [] pending) { break_before = "audit" ∷ [] }

abbrev audited : DagMeta
audited = record (meta_of_status DagStatus.running) { active_breakpoints = "audit" ∷ [] }
