-- ===== src/Examples/Workers.antt =====
-- The theorems on a worker and on the delays of a retry policy, applied to small messages.
use Prim.Native.Nat.{◌*◌, ◌^◌}
use ebind.Base.{◌==◌, ◌||◌, pos, negsuc, true, some, [], ◌∷◌, ◌++◌, eqb, ◌≡◌, refl, arith}
use ebind.Types.{Json, DagStatus, running}
use ebind.Task.{Task, number, Floats, max_int64, next_delay}
use ebind.Task.Retry.{IsDelayWithin, next_delay_bounds}
use ebind.Runtime.{World}
use ebind.Control.Hook as WorkflowHook
use ebind.Worker.{
  returns, fails, Handler, Options, Worker, Message, Settlement, termed, Sent, delivered,
  owns_target, deadline_error, handle,
}
use ebind.Worker.Defaults.{set_defaults}
use ebind.Worker.Claims.{provided, refresh_claims, is_claim, owned_exact}
use ebind.Placement.{concrete_target}
use ebind.Worker.Settles.{
  SettledBy, EndsOrUnreported, settled_once, last_attempt_ends, expired_ends,
}
use ebind.Worker.Reports.{workflow_hook, BackOrEnded, over_only_when_stored}
use ebind.Examples.{step_of, store_of, world_of, policy_of_three, done_task}

-- The coefficient is 2; a conversion out of range gives -1.
abbrev small_floats : Floats
small_floats = record {
  is_not_positive = eqb 0;
  one = 1;
  times_power = λ interval coeff n. number (interval * 2 ^ n);
  left_open = λ raw. negsuc 0;
}

next_delay_bounds_example : IsDelayWithin max_int64 8 (next_delay small_floats policy_of_three 2)
next_delay_bounds_example =
    next_delay_bounds small_floats policy_of_three 2 (ground arith) (λ e. cc) (λ e. cc)

abbrev full_messages : WorkflowHook.StepHook
full_messages = record { max_err_bytes = pos 0 }

abbrev some_options : Options
some_options = record {
  durable = "";
  concurrency = pos 0;
  ack_wait = 0;
  worker_id = "w1";
  max_deliver = negsuc 0;
  backoff = [];
  shutdown_grace = 0;
  step_hook = some (workflow_hook full_messages);
  default_retry = some policy_of_three;
  claim_refresh_interval = 0;
  claim_retry_delay = 5;
}

abbrev failing : Handler
failing t = fails (record { kind = "late"; message = []; retryable = true })

abbrev some_worker : Worker
some_worker = record { opts = some_options; claims = []; invoke = failing }

abbrev third : Message
third = record { body = some done_task; num_delivered = some 3 }

abbrev nothing_sent : Sent
nothing_sent = record {
  responses = [];
  dead_letters = [];
  settled = [];
  replies_up = [];
  dlq_up = [];
}

abbrev busy : World
busy = world_of (store_of DagStatus.running (step_of "a" [] running))

settled_once_example :
    (how : Settlement) × ((handle small_floats some_worker third busy nothing_sent).1.settled
      ≡ [] ++ how ∷ [])
settled_once_example = settled_once small_floats some_worker third busy nothing_sent (λ t. tt)

last_attempt_ends_example :
    EndsOrUnreported some_worker
      (delivered some_worker third done_task)
      busy
      nothing_sent
      (handle small_floats some_worker third busy nothing_sent).1
last_attempt_ends_example =
    last_attempt_ends small_floats some_worker third busy nothing_sent done_task
      {p = policy_of_three} refl refl tt refl (ground arith) (ground arith)

over_only_when_stored_example :
    BackOrEnded
      (delivered some_worker third done_task)
      nothing_sent
      (handle small_floats some_worker third busy nothing_sent)
over_only_when_stored_example =
    over_only_when_stored small_floats some_worker full_messages third busy nothing_sent done_task
      refl tt refl refl refl tt

abbrev late_task : Task
late_task = record done_task { deadline = 4 }

abbrev late_message : Message
late_message = record { body = some late_task; num_delivered = some 1 }

abbrev succeeding : Handler
succeeding t = returns Json.null

expired_ends_example :
    let (w', s') = handle small_floats some_worker late_message busy nothing_sent in
    SettledBy nothing_sent termed s'
    × (s'.dead_letters ≡ (delivered some_worker late_message late_task, deadline_error) ∷ [])
    × (handle small_floats
          (record some_worker { invoke = succeeding })
          late_message
          busy
          nothing_sent
        ≡ handle small_floats some_worker late_message busy nothing_sent)
expired_ends_example =
    expired_ends small_floats some_worker late_message busy nothing_sent late_task succeeding refl
      refl refl

-- The limit of deliveries cuts the delays.
two_delays :
    (set_defaults "u" (record some_options { max_deliver = pos 2 })).backoff
    ≡ 1000000000 ∷ 5000000000 ∷ []
unfolding set_defaults
two_delays = refl

owned_exact_example :
    owns_target (refresh_claims "w1" (provided (" eu " ∷ "" ∷ [])) []).1 "eu"
    ≡ (concrete_target "w1" == "eu" || is_claim "eu" (" eu " ∷ "" ∷ []))
owned_exact_example = owned_exact "w1" (" eu " ∷ "" ∷ []) [] "eu"
