-- ===== src/Control/Signal.antt =====
-- `Signal` of workflow/signal.go: the delivery of an external signal. The payload is a JSON value.
pub mod Delivery
pub mod Report
use ebind.Base.{ℕ, String, Bool, true, false, ◌==◌, Option, none, some, if◌then◌else◌}
use ebind.Types.{
  Json, DagStatus, DagMeta, SignalRecord, Err, Event, EventKind, Result, ok, err, empty_name,
  is_stale,
}
use ebind.Store.{get_meta, put_signal}
use ebind.Runtime.{
  M, pure, raise, ◌>>=◌, ◌>>◌, call, read, catch, retry_on_stale, publish, time_now,
}
use ebind.Control.Pause.{bare_event}

-- done, failed and canceled: nothing goes on in such a DAG.
abbrev pub is_over : DagStatus → Bool
is_over DagStatus.done = true
is_over DagStatus.failed = true
is_over DagStatus.canceled = true
is_over _ = false

abbrev pub signal_record : String → String → Json → ℕ → SignalRecord
signal_record dag name payload now = record {
  dag_id = dag;
  name = name;
  payload = some payload;
  delivered_at = now;
}

-- A name that was delivered before is not an error.
abbrev pub was_delivered : Option (Unit {0}) → Bool
was_delivered none = false
was_delivered (some u) = true

unfoldable pub create_signal : String → String → Json → M Bool
unfolding time_now call retry_on_stale put_signal
create_signal dag name payload = time_now >>= λ now.
    retry_on_stale (call (λ s. put_signal dag s (signal_record dag name payload now))) >>= λ o.
    pure (was_delivered o)

abbrev pub signal_event : String → String → Event
signal_event dag name = record (bare_event EventKind.signal dag dag) { signal_name = name }

abbrev pub error_of : Result (Unit {0}) → Option Err
error_of (ok u) = none
error_of (err e) = some e

-- Whether this call delivered, with the error of the publish.
unfoldable pub deliver : String → String → Json → M (Bool × Option Err)
unfolding create_signal publish catch
deliver dag name payload = create_signal dag name payload >>= λ delivered.
    catch (publish (signal_event dag name)) >>= λ r. pure (delivered, error_of r)

-- `Signal`. Another error comes with false.
unfoldable pub signal : String → String → Json → M (Bool × Option Err)
unfolding deliver read get_meta
signal dag name payload =
    if name == ""
    then raise empty_name
    else (read (get_meta dag) >>= λ (meta, rev).
        if is_over meta.status then pure (false, none) else deliver dag name payload)
