-- ===== src/Builder/Options.antt =====
-- The construction of a DAG: `DAG`, its options and `addStep` of workflow/dag.go, and the step options
-- of workflow/step.go and workflow/placement.go.
use ebind.Base.{
  String, Bool, true, false, Option, none, some, is_some, List, [], ◌∷◌, ◌++◌, Map, lookup,
  if◌then◌else◌,
}
use ebind.Types.{RetryPolicy, direct, colocate_with, follow_target_of, colocate_here}
use ebind.Wire.Args.{Arg}
use ebind.Builder.{Step}

-- `DAG`. The map from identifiers stands for `steps` too: it keeps the order of addition.
pub record Dag : Type 0 where
  pub id : String
  pub steps : Map Step
  pub default_policy : Option RetryPolicy
  pub labels : List String
  pub submitted : Bool

pub data DagOption : Type 0 where
  with_retry : RetryPolicy → DagOption
  with_dag_id : String → DagOption
  with_labels : List String → DagOption

abbrev pub apply_dag_option : DagOption → Dag → Dag
apply_dag_option (with_retry p) d = record d { default_policy = some p }
apply_dag_option (with_dag_id id) d = record d { id = id }
apply_dag_option (with_labels labels) d = record d { labels = d.labels ++ labels }

unfoldable pub apply_dag_options : List DagOption → Dag → Dag
apply_dag_options [] d = d
apply_dag_options (o ∷ opts) d = apply_dag_options opts (apply_dag_option o d)

-- `New`, given the identifier that package uuid makes.
unfoldable pub new_dag : String → List DagOption → Dag
unfolding apply_dag_options
new_dag uuid opts =
    apply_dag_options opts
      (record { id = uuid; steps = []; default_policy = none; labels = []; submitted = false })

-- The options of workflow/placement.go. A step that an option names is `none` where the pointer is nil.
pub data PlacementOption : Type 0 where
  on_target : String → PlacementOption
  colocates follows : Option String → PlacementOption
  colocates_here : PlacementOption

pub data StepOption : Type 0 where
  optional : StepOption
  with_step_retry : RetryPolicy → StepOption
  after after_any : List (Option String) → StepOption
  wait_for_signal break_before break_after : List String → StepOption
  placed : PlacementOption → StepOption

abbrev pub present : List (Option String) → List String
present [] = []
present (none ∷ ups) = present ups
present (some id ∷ ups) = id ∷ present ups

abbrev pub apply_placement : PlacementOption → Step → Step
apply_placement (on_target target) s = record s {
  placement = some (record { mode = direct; target = target; step_id = "" });
}
apply_placement (colocates none) s = s
apply_placement (colocates (some id)) s = record s {
  after_deps = s.after_deps ++ id ∷ [];
  placement = some (record { mode = colocate_with; target = ""; step_id = id });
}
apply_placement (follows none) s = s
apply_placement (follows (some id)) s = record s {
  after_deps = s.after_deps ++ id ∷ [];
  placement = some (record { mode = follow_target_of; target = ""; step_id = id });
}
apply_placement colocates_here s = record s {
  placement = some (record { mode = colocate_here; target = ""; step_id = "" });
}

abbrev pub apply_option : StepOption → Step → Step
apply_option optional s = record s { optional = true }
apply_option (with_step_retry p) s = record s { policy = some p }
apply_option (after ups) s = record s { after_deps = s.after_deps ++ present ups }
apply_option (after_any ups) s = record s { after_any_deps = s.after_any_deps ++ present ups }
apply_option (wait_for_signal names) s = record s {
  wait_signals = s.wait_signals ++ names;
  has_wait_signals = true;
}
apply_option (break_before labels) s = record s {
  break_before = s.break_before ++ labels;
  has_break_before = true;
}
apply_option (break_after labels) s = record s {
  break_after = s.break_after ++ labels;
  has_break_after = true;
}
apply_option (placed o) s = apply_placement o s

unfoldable pub apply_options : List StepOption → Step → Step
apply_options [] s = s
apply_options (o ∷ opts) s = apply_options opts (apply_option o s)

abbrev pub bare_step : String → Option String → List Arg → Step
bare_step id fn args = record {
  id = id;
  fn_name = fn;
  args = args;
  optional = false;
  policy = none;
  placement = none;
  after_deps = [];
  after_any_deps = [];
  break_before = [];
  break_after = [];
  has_break_before = false;
  has_break_after = false;
  wait_signals = [];
  has_wait_signals = false;
}

abbrev or_policy : Option RetryPolicy → Option RetryPolicy → Option RetryPolicy
or_policy none default = default
or_policy (some p) default = some p

abbrev pub with_default : Option RetryPolicy → Step → Step
with_default default s = record s { policy = or_policy s.policy default }

-- `addStep`, which panics on an identifier that is taken: `none`.
unfoldable pub add_step : String → Option String → List Arg → List StepOption → Dag → Option Dag
unfolding lookup apply_options
add_step id fn args opts d =
    if is_some (lookup id d.steps)
    then none
    else some (record d {
      steps =
          d.steps
          ++ (id, with_default d.default_policy (apply_options opts (bare_step id fn args))) ∷ [];
    })
