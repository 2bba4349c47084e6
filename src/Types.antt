-- ===== src/Types.antt =====
-- The records of workflow/state.go, workflow/ref.go, workflow/placement.go, workflow/events.go and
-- task/retry.go, and the errors of workflow/errors.go. A time is a number of nanoseconds, and 0 is
-- the zero time. An error message is the list of its bytes. A string type with named constants is
-- a data type with a constructor for each constant and `other` for every other string, the empty
-- one included.
use ebind.Base.{ℕ, String, Bool, true, false, Option, List, Map, ◌==◌}

-- A JSON value, as encoding/json reads and writes it.
mutual
  pub data Json : Type 0 where
    null : Json
    bool : Bool → Json
    num : String → Json
    str : String → Json
    arr : Items → Json
    obj : Fields → Json

  pub data Items : Type 0 where
    nil : Items
    cons : Json → Items → Items

  pub data Fields : Type 0 where
    end : Fields
    field : String → Json → Fields → Fields

pub data StepStatus : Type 0 where
  pending running done failed skipped canceled : StepStatus
  other : String → StepStatus

pub data DagStatus : Type 0 where
  running done failed canceled pausing paused : DagStatus
  other : String → DagStatus

-- `unset` is "", a breakpoint that was not hit.
pub data BpState : Type 0 where
  unset blocked released : BpState

pub data BpPosition : Type 0 where
  before after : BpPosition

pub data RefMode : Type 0 where
  required or_default : RefMode
  other : String → RefMode

pub data PlacementMode : Type 0 where
  direct colocate_with follow_target_of colocate_here : PlacementMode
  other : String → PlacementMode

pub record PlacementSpec : Type 0 where
  pub mode : PlacementMode
  pub target : String
  pub step_id : String

-- `backoff_coefficient` is the bit pattern of a float64. Durations and attempts are not negative.
pub record RetryPolicy : Type 0 where
  pub initial_interval : ℕ
  pub backoff_coefficient : ℕ
  pub maximum_interval : ℕ
  pub maximum_attempts : ℕ
  pub non_retryable_error_kinds : List String

pub record DagMeta : Type 0 where
  pub id : String
  pub status : DagStatus
  pub created_at : ℕ
  pub default_policy : Option RetryPolicy
  pub paused_at : ℕ
  pub terminal_steps : List String
  pub active_breakpoints : List String
  pub labels : List String

pub record StepRecord : Type 0 where
  pub dag_id : String
  pub step_id : String
  pub fn_name : String
  pub args_json : Json
  pub deps : List String
  pub optional_deps : List String
  pub status : StepStatus
  pub attempt : ℕ
  pub error_kind : String
  pub error_message : List ℕ
  pub optional : Bool
  pub held : Bool
  pub held_at : ℕ
  pub break_before : List String
  pub break_after : List String
  pub bp_before : BpState
  pub bp_after : BpState
  pub bp_blocked_at : ℕ
  pub wait_signals : List String
  pub policy : Option RetryPolicy
  pub placement : Option PlacementSpec
  pub worker_id : String
  pub added_at : ℕ
  pub started_at : ℕ
  pub finished_at : ℕ

-- The payload of no bytes is `none`.
pub record SignalRecord : Type 0 where
  pub dag_id : String
  pub name : String
  pub payload : Option Json
  pub delivered_at : ℕ

pub record DagState : Type 0 where
  pub meta : DagMeta
  pub steps : Map StepRecord
  pub signals : Map SignalRecord

-- The sentinels of errors.go, and the errors that the code makes with `fmt.Errorf`.
pub data Err : Type 0 where
  dag_not_found dag_canceled step_not_found signal_not_found cycle duplicate_step : Err
  stale_revision step_not_enqueueable dag_not_running dag_not_paused : Err
  not_delivered no_result : String → Err
  unknown_mode : RefMode → String → Err
  not_terminal : String → StepStatus → Err
  bad_labels unknown_dep not_callable : String → Err
  already_submitted no_steps : Err
  -- any other error of the NATS client
  nats_failed : Err
  bad_args unknown_completion bus_down queue_down empty_name : Err
  placement_cycle placed_here_outside unknown_target not_executed no_placement : String → Err
  unknown_placement : String → PlacementMode → Err

pub data Result {ℓ} (A : Type ℓ) : Type ℓ where
  ok : A → Result A
  err : Err → Result A

pub data EventKind : Type 0 where
  completed step_added resumed bp_hit bp_resumed signal : EventKind
  other : String → EventKind

pub record Event : Type 0 where
  pub kind : EventKind
  pub dag_id : String
  pub step_id : String
  pub status : StepStatus
  pub error_kind : String
  pub error_message : List ℕ
  pub bp_position : Option BpPosition
  pub bp_labels : List String
  pub signal_name : String

abbrev pub is_stale : Err → Bool
is_stale stale_revision = true
is_stale _ = false

-- `==` on a status, by its constants; the other strings are compared as texts.
unfoldable pub status_eq : StepStatus → StepStatus → Bool
status_eq pending pending = true
status_eq running running = true
status_eq done done = true
status_eq failed failed = true
status_eq skipped skipped = true
status_eq canceled canceled = true
status_eq (other s) (other t) = s == t
status_eq _ _ = false

unfoldable pub dag_status_eq : DagStatus → DagStatus → Bool
dag_status_eq running running = true
dag_status_eq done done = true
dag_status_eq failed failed = true
dag_status_eq canceled canceled = true
dag_status_eq pausing pausing = true
dag_status_eq paused paused = true
dag_status_eq (other s) (other t) = s == t
dag_status_eq _ _ = false

unfoldable pub is_released : BpState → Bool
is_released released = true
is_released _ = false

unfoldable pub ref_mode_eq : RefMode → RefMode → Bool
ref_mode_eq required required = true
ref_mode_eq or_default or_default = true
ref_mode_eq (other s) (other t) = s == t
ref_mode_eq _ _ = false

-- `StepRecord.IsTerminal`, on the status.
unfoldable pub is_terminal_status : StepStatus → Bool
is_terminal_status done = true
is_terminal_status failed = true
is_terminal_status skipped = true
is_terminal_status canceled = true
is_terminal_status _ = false

unfoldable pub is_terminal : StepRecord → Bool
unfolding is_terminal_status
is_terminal s = is_terminal_status s.status
