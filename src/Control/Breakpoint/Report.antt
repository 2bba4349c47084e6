-- ===== src/Control/Breakpoint/Report.antt =====
-- `ComputeBreakpoints` and `CountBlocked` of workflow/breakpoint.go: the list of a DAG's breakpoints.
pub mod Blocked
use ebind.Base.{
  ℕ, suc, String, Bool, true, false, not, ◌&&◌, ◌||◌, ◌==◌, none, some, List, [], ◌∷◌, ◌++◌, is_nil,
  select, contains, sort_by, text_less, sort_strings, if◌then◌else◌,
}
use ebind.Types.{
  pending, StepRecord, DagMeta, DagState, BpState, unset, blocked, released, BpPosition, before,
  after, Result, ok, status_eq, is_released,
}
use ebind.State.{breakpoint_armed, blocked_at_before, holding_at_after}
use ebind.Store.{list_steps, get_meta}
use ebind.Runtime.{M, pure, ◌>>=◌, read}
use ebind.Control.Signal.{is_over}
use ebind.Control.Breakpoint.{state_of, index_from}

pub record BreakpointInfo : Type 0 where
  pub step_id : String
  pub position : BpPosition
  pub labels : List String
  pub armed : Bool
  pub state : BpState
  pub blocked_since : ℕ
  pub holding : List String

-- A pending step that waits on `id`, in either way.
abbrev pub waits_on : String → StepRecord → Bool
waits_on id other =
    status_eq other.status pending && (contains other.deps id || contains other.optional_deps id)

module _ (state : DagState) (rec : StepRecord) where
  -- The entries before the switch on the position's state.
  abbrev pub info_of : BpPosition → List String → BreakpointInfo
  info_of pos labels = record {
    step_id = rec.step_id;
    position = pos;
    labels = labels;
    armed = breakpoint_armed labels state.meta.active_breakpoints;
    state = unset;
    blocked_since = 0;
    holding = [];
  }

  unfoldable pub before_info : List String → BreakpointInfo
  unfolding is_released contains breakpoint_armed
  before_info blocked_before =
      let info = info_of before rec.break_before in
      if is_released rec.bp_before
      then record info { state = released }
      else if contains blocked_before rec.step_id
      then record info { state = blocked; blocked_since = rec.bp_blocked_at }
      else info

  unfoldable pub after_info : List String → BreakpointInfo
  unfolding is_released contains breakpoint_armed select sort_by status_eq
  after_info holding_after =
      let info = info_of after rec.break_after in
      if is_released rec.bp_after
      then record info { state = released }
      else if contains holding_after rec.step_id
      then record info {
        state = blocked;
        blocked_since = rec.bp_blocked_at;
        holding = sort_strings (select (waits_on rec.step_id) state.steps);
      }
      else info

  -- The body of the loop over the steps.
  unfoldable pub step_infos : List String → List String → List BreakpointInfo
  unfolding before_info after_info
  step_infos blocked_before holding_after =
      (if is_nil rec.break_before then [] else before_info blocked_before ∷ [])
      ++ (if is_nil rec.break_after then [] else after_info holding_after ∷ [])

unfoldable pub all_infos :
    DagState → List String → List String → List StepRecord → List BreakpointInfo
unfolding step_infos
all_infos state blocked_before holding_after [] = []
all_infos state blocked_before holding_after (rec ∷ steps) =
    step_infos state rec blocked_before holding_after
    ++ all_infos state blocked_before holding_after steps

abbrev comes_before : BpPosition → BpPosition → Bool
comes_before before after = true
comes_before _ _ = false

abbrev pub info_less : BreakpointInfo → BreakpointInfo → Bool
info_less a b =
    if a.step_id == b.step_id
    then comes_before a.position b.position
    else text_less a.step_id b.step_id

-- A DAG that is over stops nothing.
abbrev pub stopped_before : DagState → List String
stopped_before state = if is_over state.meta.status then [] else blocked_at_before state

abbrev pub stopped_after : DagState → List String
stopped_after state = if is_over state.meta.status then [] else holding_at_after state

unfoldable pub compute_breakpoints : DagMeta → List StepRecord → List BreakpointInfo
unfolding index_from all_infos sort_by blocked_at_before holding_at_after
compute_breakpoints meta steps =
    let state = state_of meta steps in
    sort_by info_less (all_infos state (stopped_before state) (stopped_after state) steps)

abbrev pub is_blocked : BpState → Bool
is_blocked blocked = true
is_blocked _ = false

unfoldable pub count_blocked : List BreakpointInfo → ℕ
count_blocked [] = 0
count_blocked (bp ∷ infos) = let n = count_blocked infos in if is_blocked bp.state then suc n else n

unfoldable pub list_breakpoints : String → M (List BreakpointInfo)
unfolding read get_meta list_steps compute_breakpoints
list_breakpoints dag = read (get_meta dag) >>= λ (meta, rev).
    read (λ s. ok (list_steps dag s)) >>= λ steps. pure (compute_breakpoints meta steps)
