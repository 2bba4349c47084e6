-- ===== src/Examples.antt =====
-- Small stores, DAGs and records that the theorems are applied to.
pub mod Pure
pub mod Live
pub mod Operations
pub mod Starts
pub mod Builds
pub mod Queries
pub mod Deletes
pub mod Workers
pub mod Buckets
pub mod Letters
pub mod Submits
pub mod Debugs
use ebind.Base.{ℕ, String, Bool, true, false, none, some, List, [], ◌∷◌}
use ebind.Types.{
  Json, Items, StepStatus, pending, done, failed, DagStatus, BpState, StepRecord, DagMeta, DagState,
  SignalRecord, RetryPolicy,
}
use ebind.Task.{Task}
use ebind.Store.{MemEntry, MemMetaEntry, MemStore}
use ebind.Runtime.{World}

abbrev pub no_args : Json
no_args = Json.arr Items.nil

abbrev pub step_of : String → List String → StepStatus → StepRecord
step_of id deps status = record {
  dag_id = "d";
  step_id = id;
  fn_name = "f";
  args_json = no_args;
  deps = deps;
  optional_deps = [];
  status = status;
  attempt = 0;
  error_kind = "";
  error_message = [];
  optional = false;
  held = false;
  held_at = 0;
  break_before = [];
  break_after = [];
  bp_before = BpState.unset;
  bp_after = BpState.unset;
  bp_blocked_at = 0;
  wait_signals = [];
  policy = none;
  placement = none;
  worker_id = "";
  added_at = 1;
  started_at = 0;
  finished_at = 0;
}

abbrev pub meta_of_status : DagStatus → DagMeta
meta_of_status status = record {
  id = "d";
  status = status;
  created_at = 1;
  default_policy = none;
  paused_at = 0;
  terminal_steps = [];
  active_breakpoints = [];
  labels = [];
}

-- `b` waits on `a`, `c` on `b`, and `e` on nothing.
abbrev pub chain_dag : StepStatus → DagState
chain_dag first = record {
  meta = meta_of_status DagStatus.running;
  steps =
      ("a", step_of "a" [] first)
      ∷ ("b", step_of "b" ("a" ∷ []) pending)
      ∷ ("c", step_of "c" ("b" ∷ []) pending)
      ∷ ("e", step_of "e" [] pending)
      ∷ [];
  signals = [];
}

abbrev pub ended_dag : DagState
ended_dag = record {
  meta = meta_of_status DagStatus.running;
  steps =
      ("a", step_of "a" [] done)
      ∷ ("b", record (step_of "b" ("a" ∷ []) failed) { optional = true })
      ∷ [];
  signals = [];
}

abbrev pub go_signal : SignalRecord
go_signal = record { dag_id = "d"; name = "go"; payload = some Json.null; delivered_at = 3 }

abbrev pub store_of : DagStatus → StepRecord → MemStore
store_of status rec = record {
  steps = ("d", ("a", record { rec = rec; rev = 4 }) ∷ []) ∷ [];
  results = [];
  metas = ("d", record { meta = meta_of_status status; rev = 2 }) ∷ [];
  signals = [];
}

abbrev pub world_of : MemStore → World
world_of store = record {
  store = store;
  others = [];
  events = [];
  tasks = [];
  bus_up = [];
  queue_up = [];
  clock = 9;
}

abbrev pub policy_of_three : RetryPolicy
policy_of_three = record {
  initial_interval = 1;
  backoff_coefficient = 0;
  maximum_interval = 8;
  maximum_attempts = 3;
  non_retryable_error_kinds = "panic" ∷ [];
}

abbrev pub done_task : Task
done_task = record {
  id = "d:a";
  name = "f";
  payload = no_args;
  reply_to = "";
  deadline = 0;
  enqueued_at = 2;
  attempt = 1;
  dag_id = "d";
  step_id = "a";
  retry_policy = none;
  target = "";
  worker_id = "w1";
}
