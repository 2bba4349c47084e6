-- ===== src/Builder/Record.antt =====
-- The record of a new step, as `Submit` of workflow/dag.go and the options of workflow/context.go make it.
use ebind.Base.{ℕ, String, false, []}
use ebind.Types.{pending, unset, StepRecord}
use ebind.Wire.Args.{marshal_args}
use ebind.Builder.{Step, required_deps, optional_deps, wait_signal_names}

-- The record of a new step, for Submit and for a step that is added by a running one.
unfoldable pub record_of : String → String → ℕ → Step → StepRecord
unfolding marshal_args required_deps optional_deps wait_signal_names
record_of dag fn now s = record {
  dag_id = dag;
  step_id = s.id;
  fn_name = fn;
  args_json = marshal_args s.args;
  deps = required_deps s;
  optional_deps = optional_deps s;
  status = pending;
  attempt = 0;
  error_kind = "";
  error_message = [];
  optional = s.optional;
  held = false;
  held_at = 0;
  break_before = s.break_before;
  break_after = s.break_after;
  bp_before = unset;
  bp_after = unset;
  bp_blocked_at = 0;
  wait_signals = wait_signal_names s;
  policy = s.policy;
  placement = s.placement;
  worker_id = "";
  added_at = now;
  started_at = 0;
  finished_at = 0;
}
