-- ===== src/Builder/Check.antt =====
-- The checks that `Submit` of workflow/dag.go makes before it writes anything.
use ebind.Base.{
  String, Bool, true, false, Option, none, some, List, [], ◌∷◌, Map, contains, is_nil,
  if◌then◌else◌,
}
use ebind.Types.{
  PlacementSpec, colocate_here, Result, ok, err, cycle, placed_here_outside, bad_labels,
  already_submitted, no_steps,
}
use ebind.Builder.{Step, Search, validate_step_breakpoints, validate_step_signals, detect_cycles}
use ebind.Builder.Options.{Dag}

-- The first error of the loop over the steps.
abbrev pub and_then : Result (Unit {0}) → Result (Unit {0}) → Result (Unit {0})
and_then (ok u) r = r
and_then (err e) r = err e

abbrev pub is_here : Option PlacementSpec → Bool
is_here none = false
is_here (some spec) = elim spec.mode [ colocate_here ↦ true | _ ↦ false ]

unfoldable pub check_steps : Map Step → Result (Unit {0})
unfolding validate_step_breakpoints validate_step_signals
check_steps [] = ok tt
check_steps ((id, s) ∷ steps) =
    and_then
      (if is_here s.placement
        then err (placed_here_outside s.id)
        else and_then (validate_step_breakpoints s) (validate_step_signals s))
      (check_steps steps)

-- The search always answers, so the first case is never met.
abbrev pub search_result : Search → Result (Unit {0})
search_result none = err cycle
search_result (some (err e)) = err e
search_result (some (ok black)) = ok tt

-- All that is checked before `submitted` is set.
unfoldable pub check : List String → Dag → Result (Unit {0})
unfolding detect_cycles check_steps contains
check active d =
    if d.submitted
    then err already_submitted
    else if is_nil d.steps
    then err no_steps
    else and_then (search_result (detect_cycles d.steps)) (
        and_then (check_steps d.steps) (
          if contains active ""
          then err (bad_labels "")
          else if contains d.labels ""
          then err (bad_labels "")
          else ok tt))
