-- ===== src/Control/Breakpoint/Report/Blocked.antt =====
-- What is reported as blocked is what stops work.
use ebind.Base.{
  String, Bool, true, false, not, ◌&&◌, ◌||◌, List, [], ◌∷◌, is_nil, contains, any, any-append,
  arith, ◌≡◌, refl, ◌∙◌, any-sort_by,
}
use ebind.Types.{StepRecord, DagMeta, DagState, is_released}
use ebind.Control.Signal.{is_over}
use ebind.Control.Breakpoint.{state_of}
use ebind.Control.Breakpoint.Report.{
  BreakpointInfo, before_info, after_info, step_infos, all_infos, info_less, stopped_before,
  stopped_after, compute_breakpoints, is_blocked, count_blocked,
}

abbrev stops : BreakpointInfo → Bool
stops info = is_blocked info.state

count-any : (infos : List BreakpointInfo) → any stops infos ≡ false → count_blocked infos ≡ 0
unfolding count_blocked
count-any [] h = refl
count-any (bp ∷ infos) h = ground (arith, count-any infos)

-- Whether a step has a breakpoint that stops work, read off its record.
abbrev pub stops_work : List String → List String → StepRecord → Bool
stops_work blocked_before holding_after rec =
    (not (is_nil rec.break_before)
      && not (is_released rec.bp_before)
      && contains blocked_before rec.step_id)
    || (not (is_nil rec.break_after)
        && not (is_released rec.bp_after)
        && contains holding_after rec.step_id)

any-step_infos :
    (state : DagState) (rec : StepRecord) (bs hs : List String)
    → any stops (step_infos state rec bs hs) ≡ stops_work bs hs rec
unfolding step_infos before_info after_info
any-step_infos state rec bs hs = ground arith

any-all_infos :
    (state : DagState) (bs hs : List String) (steps : List StepRecord)
    → any stops (all_infos state bs hs steps) ≡ any (stops_work bs hs) steps
unfolding all_infos
any-all_infos state bs hs [] = refl
any-all_infos state bs hs (rec ∷ steps) =
    any-append stops (step_infos state rec bs hs) (all_infos state bs hs steps)
    ∙ ground (arith, any-step_infos state rec bs hs, any-all_infos state bs hs steps)

-- The list of breakpoints shows one as blocked just if some step has breakpoint labels at a
-- position that is not released and is among the steps that the gate stops there.
pub blocked_reported :
    (meta : DagMeta) (steps : List StepRecord)
    → let state = state_of meta steps in
      any (λ (info : BreakpointInfo). is_blocked info.state) (compute_breakpoints meta steps)
      ≡ any (stops_work (stopped_before state) (stopped_after state)) steps
unfolding compute_breakpoints
blocked_reported meta steps =
    let state = state_of meta steps in
    any-sort_by info_less stops (all_infos state (stopped_before state) (stopped_after state) steps)
    ∙ any-all_infos state (stopped_before state) (stopped_after state) steps

nothing_stops : (steps : List StepRecord) → any (stops_work [] []) steps ≡ false
unfolding contains
nothing_stops [] = refl
nothing_stops (rec ∷ steps) = ground (arith, nothing_stops steps)

-- For a DAG that is done, failed or canceled the count of blocked breakpoints is 0.
pub over_blocks_nothing :
    (meta : DagMeta) (steps : List StepRecord)
    → is_over meta.status ≡ true
    → count_blocked (compute_breakpoints meta steps) ≡ 0
over_blocks_nothing meta steps over =
    count-any (compute_breakpoints meta steps)
      (blocked_reported meta steps ∙ rw over (nothing_stops steps))
