-- ===== src/Placement.antt =====
-- `resolvePlacementTarget` of workflow/placement.go, and the name of a worker's own target from
-- worker/claims.go. A step that follows another is looked up by recursion on fuel.
pub mod Ends
use Prim.Native.String.{◌++◌}
use ebind.Base.{
  ℕ, zero, suc, String, Bool, true, false, ◌==◌, Option, none, some, List, [], ◌∷◌, Map, lookup,
  contains, length, if◌then◌else◌,
}
use ebind.Types.{
  PlacementMode, direct, colocate_with, follow_target_of, colocate_here, PlacementSpec, StepRecord,
  Result, ok, err, placement_cycle, placed_here_outside, unknown_target, not_executed, no_placement,
  unknown_placement,
}

abbrev pub concrete_target : String → String
concrete_target worker_id = "worker:" ++ worker_id

abbrev pub placement_text : PlacementMode → String
placement_text direct = "direct"
placement_text colocate_with = "colocate_with"
placement_text follow_target_of = "follow_target_of"
placement_text colocate_here = "colocate_here"
placement_text (PlacementMode.other s) = s

abbrev pub placement_key : StepRecord → PlacementMode → String
placement_key rec mode = (rec.step_id ++ ":") ++ placement_text mode

abbrev pub executor_target : StepRecord → Option StepRecord → Result String
executor_target rec none = err (unknown_target rec.step_id)
executor_target rec (some upstream) =
    if upstream.worker_id == ""
    then err (not_executed rec.step_id)
    else ok (concrete_target upstream.worker_id)

-- The step to go on with; a step without a placement has no target to follow.
abbrev pub followed :
    StepRecord
    → Option PlacementSpec
    → (PlacementSpec → Option (Result String))
    → Option (Result String)
followed rec none go = some (err (no_placement rec.step_id))
followed rec (some spec) go = go spec

abbrev pub follow_upstream :
    StepRecord
    → Option StepRecord
    → (StepRecord → PlacementSpec → Option (Result String))
    → Option (Result String)
follow_upstream rec none go = some (err (unknown_target rec.step_id))
follow_upstream rec (some upstream) go = followed rec upstream.placement (go upstream)

-- The switch on the mode, with what is to be done for a step that follows another.
abbrev pub by_mode :
    StepRecord
    → Map StepRecord
    → PlacementSpec
    → PlacementMode
    → Option (Result String)
    → Option (Result String)
by_mode rec steps spec direct go = some (ok spec.target)
by_mode rec steps spec colocate_here go = some (err (placed_here_outside rec.step_id))
by_mode rec steps spec colocate_with go = some (executor_target rec (lookup spec.step_id steps))
by_mode rec steps spec follow_target_of go = go
by_mode rec steps spec (PlacementMode.other s) go =
    some (err (unknown_placement rec.step_id spec.mode))

-- One call, for a record whose placement is `spec`; none when the fuel is used up.
unfoldable pub resolve_placed :
    ℕ → Map StepRecord → StepRecord → PlacementSpec → List String → Option (Result String)
unfolding lookup contains
resolve_placed zero steps rec spec seen = none
resolve_placed (suc n) steps rec spec seen =
    let key = placement_key rec spec.mode in
    let go =
      follow_upstream rec (lookup spec.step_id steps)
        (λ upstream next. resolve_placed n steps upstream next (key ∷ seen)) in
    if contains seen key
    then some (err (placement_cycle rec.step_id))
    else by_mode rec steps spec spec.mode go

abbrev pub or_cycle : StepRecord → Option (Result String) → Result String
or_cycle rec none = err (placement_cycle rec.step_id)
or_cycle rec (some r) = r

abbrev pub resolve_spec : StepRecord → Map StepRecord → Option PlacementSpec → Result String
resolve_spec rec steps none = ok ""
resolve_spec rec steps (some spec) =
    or_cycle rec (resolve_placed (suc (suc (length steps))) steps rec spec [])

unfoldable pub resolve_placement_target : StepRecord → Map StepRecord → Result String
unfolding resolve_placed
resolve_placement_target rec steps = resolve_spec rec steps rec.placement
