-- ===== src/Builder.antt =====
-- workflow/dag.go and workflow/step.go: the steps of a DAG before it is submitted, what each waits on,
-- and the checks of `Submit`.
pub mod Options
pub mod Cycles
pub mod Order
pub mod Deps
pub mod Check
pub mod Record
use ebind.Base.{
  ℕ, zero, suc, String, Bool, true, false, not, ◌&&◌, ◌||◌, Option, none, some, List, [], ◌∷◌, ◌++◌,
  Map, lookup, keys, contains, dedupe_from, is_nil, is_some, length, if◌then◌else◌,
}
use ebind.Types.{
  RetryPolicy, PlacementSpec, PlacementMode, colocate_here, Err, Result, ok, err,
  placed_here_outside, bad_labels, cycle, unknown_dep,
}
use ebind.Wire.Args.{Arg}

-- `Step`. The function of a step is its registered name, if it has one.
pub record Step : Type 0 where
  pub id : String
  pub fn_name : Option String
  pub args : List Arg
  pub optional : Bool
  pub policy : Option RetryPolicy
  pub placement : Option PlacementSpec
  pub after_deps : List String
  pub after_any_deps : List String
  pub break_before : List String
  pub break_after : List String
  pub has_break_before : Bool
  pub has_break_after : Bool
  pub wait_signals : List String
  pub has_wait_signals : Bool

unfoldable pub ref_ids : List Arg → List String
ref_ids [] = []
ref_ids (Arg.ref r ∷ args) = r.step_id ∷ ref_ids args
ref_ids (Arg.signal s ∷ args) = ref_ids args
ref_ids (Arg.literal v ∷ args) = ref_ids args

unfoldable pub signal_names : List Arg → List String
signal_names [] = []
signal_names (Arg.ref r ∷ args) = signal_names args
signal_names (Arg.signal s ∷ args) = s.name ∷ signal_names args
signal_names (Arg.literal v ∷ args) = signal_names args

unfoldable pub step_arg_deps : List Arg → List String
unfolding ref_ids dedupe_from
step_arg_deps args = dedupe_from [] (ref_ids args)

unfoldable pub step_signal_args : List Arg → List String
unfolding signal_names dedupe_from
step_signal_args args = dedupe_from [] (signal_names args)

unfoldable pub wait_signal_names : Step → List String
unfolding step_signal_args dedupe_from
wait_signal_names s = dedupe_from [] (s.wait_signals ++ step_signal_args s.args)

-- The two loops share the set of what was seen.
unfoldable pub required_deps : Step → List String
unfolding step_arg_deps dedupe_from
required_deps s = dedupe_from [] (step_arg_deps s.args ++ s.after_deps)

-- What is required or was seen is left out.
unfoldable pub optional_deps : Step → List String
unfolding required_deps dedupe_from
optional_deps s = dedupe_from (required_deps s) s.after_any_deps

unfoldable pub all_deps : Step → List String
unfolding required_deps optional_deps dedupe_from
all_deps s = dedupe_from [] (required_deps s ++ optional_deps s)

unfoldable pub validate_step_breakpoints : Step → Result (Unit {0})
unfolding contains
validate_step_breakpoints s =
    if s.has_break_before && is_nil s.break_before
    then err (bad_labels s.id)
    else if s.has_break_after && is_nil s.break_after
    then err (bad_labels s.id)
    else if contains s.break_before "" || contains s.break_after ""
    then err (bad_labels s.id)
    else ok tt

unfoldable pub validate_step_signals : Step → Result (Unit {0})
unfolding contains step_signal_args
validate_step_signals s =
    if s.has_wait_signals && is_nil s.wait_signals
    then err (bad_labels s.id)
    else if contains s.wait_signals "" || contains (step_signal_args s.args) ""
    then err (bad_labels s.id)
    else ok tt

-- The colors of the search: `black` lists the steps that are finished, `gray` those on the way to the
-- present one. None is a search whose fuel is used up.
abbrev pub Search : Type 0
Search = Option (Result (List String))

abbrev pub search_on : Search → (List String → Search) → Search
search_on none f = none
search_on (some (err e)) f = some (err e)
search_on (some (ok black)) f = f black

-- The loop over the dependencies, with what is done for a white one.
unfoldable pub visit_deps :
    (String → List String → Search) → Map Step → List String → List String → List String → Search
unfolding contains lookup
visit_deps visit steps gray [] black = some (ok black)
visit_deps visit steps gray (dep ∷ deps) black =
    let next = visit_deps visit steps gray deps in
    if contains black dep
    then next black
    else if contains gray dep
    then some (err cycle)
    else if not (is_some (lookup dep steps))
    then some (err (unknown_dep dep))
    else search_on (visit dep black) next

abbrev pub deps_of : Map Step → String → List String
deps_of steps id = elim (lookup id steps) [ none ↦ [] | some s ↦ all_deps s ]

abbrev pub finish : String → List String → Search
finish id black = some (ok (id ∷ black))

unfoldable pub visit : ℕ → Map Step → List String → String → List String → Search
unfolding visit_deps all_deps lookup
visit zero steps gray id black = none
visit (suc n) steps gray id black =
    search_on (visit_deps (visit n steps (id ∷ gray)) steps (id ∷ gray) (deps_of steps id) black)
      (finish id)

-- The loop over all steps; between two of them nothing is gray.
unfoldable pub visit_all : ℕ → Map Step → List String → List String → Search
unfolding visit contains
visit_all n steps [] black = some (ok black)
visit_all n steps (id ∷ ids) black =
    let rest = visit_all n steps ids in
    if contains black id then rest black else search_on (visit n steps [] id black) rest

unfoldable pub detect_cycles : Map Step → Search
unfolding visit_all keys
detect_cycles steps = visit_all (length steps) steps (keys steps) []
