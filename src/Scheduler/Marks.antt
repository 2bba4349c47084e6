-- ===== src/Scheduler/Marks.antt =====
-- `markBlockedBreakpoints` and `releaseOrphanedHolds` of workflow/scheduler.go.
use ebind.Base.{
  ℕ, ◌-◌, String, Bool, true, false, not, ◌||◌, ◌&&◌, Option, none, some, List, [], ◌∷◌, Map,
  lookup, eqb, ltb, if◌then◌else◌,
}
use ebind.Types.{
  pending, done, StepRecord, DagState, BpState, unset, blocked, BpPosition, before, after, bp_hit,
  Result, ok, status_eq,
}
use ebind.State.{blocked_at_before, holding_at_after}
use ebind.Runtime.{
  M, pure, ◌>>=◌, ◌>>◌, catch, ignore, publish, time_now, Decision, stop, write, attempt_step,
  try_step, for_each,
}
use ebind.Control.Pause.{bare_event}
use ebind.Scheduler.{or_zero}

abbrev pub is_unset : BpState → Bool
is_unset unset = true
is_unset _ = false

abbrev pub since : ℕ → StepRecord → ℕ
since now rec = if eqb rec.bp_blocked_at 0 then now else rec.bp_blocked_at

-- The fresh record is marked if its position was not hit before; the labels are for the event.
abbrev pub mark_decision : ℕ → BpPosition → StepRecord → Decision (Option (List String))
mark_decision now before rec =
    if not (status_eq rec.status pending) || not (is_unset rec.bp_before)
    then stop none
    else write (record rec { bp_before = blocked; bp_blocked_at = since now rec })
        (some rec.break_before)
mark_decision now after rec =
    if not (status_eq rec.status done) || not (is_unset rec.bp_after)
    then stop none
    else write (record rec { bp_after = blocked; bp_blocked_at = since now rec })
        (some rec.break_after)

abbrev pub announce : String → String → BpPosition → Option (Option (List String)) → M (Unit {0})
announce dag id pos (some (some labels)) =
    ignore
      (publish (record (bare_event bp_hit dag id) { bp_position = some pos; bp_labels = labels }))
announce dag id pos _ = pure tt

-- The function `mark`: an error ends it silently.
unfoldable pub mark : String → ℕ → BpPosition → String → M (Unit {0})
unfolding try_step publish status_eq
mark dag now pos id = ignore (try_step 3 dag id (mark_decision now pos) >>= announce dag id pos)

abbrev pub state_at : BpPosition → StepRecord → BpState
state_at before rec = rec.bp_before
state_at after rec = rec.bp_after

abbrev pub mark_new : DagState → ℕ → BpPosition → String → M (Unit {0})
mark_new state now pos id =
    if is_unset (state_at pos (or_zero (lookup id state.steps)))
    then mark state.meta.id now pos id
    else pure tt

unfoldable pub mark_blocked_breakpoints : DagState → M (Unit {0})
unfolding mark lookup for_each time_now blocked_at_before holding_at_after
mark_blocked_breakpoints state = time_now >>= λ now.
    for_each (mark_new state now before) (blocked_at_before state)
    >> for_each (mark_new state now after) (holding_at_after state)

-- `heldOrphanAge`, two minutes.
abbrev pub held_orphan_age : ℕ
held_orphan_age = 120000000000

-- Held for so long that no pause can own the hold; a hold of no date is old. A date in the future is
-- not old.
abbrev pub is_orphan : ℕ → StepRecord → Bool
is_orphan now snap =
    snap.held
    && status_eq snap.status pending
    && (eqb snap.held_at 0 || not (ltb (now - snap.held_at) held_orphan_age))

abbrev pub orphan_decision : StepRecord → Decision Bool
orphan_decision rec =
    if not rec.held || not (status_eq rec.status pending)
    then stop false
    else write (record rec { held = false; held_at = 0 }) true

abbrev pub released_of : Result (Option Bool) → Bool
released_of (ok (some b)) = b
released_of _ = false

-- The body of the loop: one attempt, whose error is passed over.
abbrev pub release_orphan : String → ℕ → String → StepRecord → M Bool
release_orphan dag now id snap =
    if is_orphan now snap
    then (catch (attempt_step dag id orphan_decision) >>= λ r. pure (released_of r))
    else pure false

unfoldable pub release_each : String → ℕ → Map StepRecord → M Bool
unfolding attempt_step catch status_eq
release_each dag now [] = pure false
release_each dag now ((id, snap) ∷ steps) =
    release_orphan dag now id snap >>= λ a. release_each dag now steps >>= λ b. pure (a || b)

unfoldable pub release_orphaned_holds : String → DagState → M Bool
unfolding release_each time_now
release_orphaned_holds dag state = time_now >>= λ now. release_each dag now state.steps
