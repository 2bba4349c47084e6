-- ===== src/Scheduler/Rules.antt =====
-- The scheduler keeps to the rules for writers.
pub mod Handlers
use ebind.Base.{
  ℕ, String, Bool, true, false, not, ◌||◌, ◌&&◌, Option, none, some, List, [], ◌∷◌, Map, lookup,
  is_nil, refl, arith, if◌then◌else◌,
}
use ebind.Types.{
  Json, StepRecord, DagState, SignalRecord, running, done, skipped, pending, Result, ok, err,
  status_eq, BpPosition, before, after, is_released,
}
use ebind.State.{blocked_at_before, holding_at_after}
use ebind.Wire.{Outcome, value, skip, fail, unmarshal_args}
use ebind.Placement.{resolve_placement_target}
use ebind.Store.{get_meta, list_steps, list_signals, get_result}
use ebind.Runtime.{
  M, pure, raise, ◌>>=◌, ◌>>◌, read, catch, ignore, publish, enqueue, time_now, try_step,
  attempt_step, for_each,
}
use ebind.Runtime.Rely.{Guarantees}
use ebind.Runtime.Rely.Moves.{RecEvolves-mark}
use ebind.Runtime.Rely.Rules.{
  OnWrite, OnWrite-if, Guarantees-pure, Guarantees-raise, Guarantees-read, Guarantees-catch,
  Guarantees-ignore, Guarantees-bind, Guarantees-if, Guarantees-publish, Guarantees-enqueue,
  Guarantees-time_now, Guarantees-try_step, Guarantees-attempt_step,
}
use ebind.Runtime.Rely.MetaRules.{Guarantees-for_each}
use ebind.Control.Persist.{persist_status, Guarantees-persist_running, Guarantees-persist_skipped}
use ebind.Scheduler.{
  loaded, skipped_event, load_state, fetch_result, snapshot_upstream, enqueue_at, enqueue_resolved,
  enqueue_step, is_refusal, unless_refused, skip_now, start_resolved, start, resolve_raw,
  enqueue_one, starts_nothing, enqueue_ready, or_zero, Upstream,
}
use ebind.Scheduler.Marks.{
  is_unset, mark_decision, announce, mark, state_at, mark_new, mark_blocked_breakpoints,
  orphan_decision, is_orphan, released_of, release_orphan, release_each, release_orphaned_holds,
}

pub Guarantees-load_state : (dag : String) → Guarantees (load_state dag)
unfolding load_state
Guarantees-load_state dag =
    Guarantees-bind (read (get_meta dag)) _ (Guarantees-read (get_meta dag)) (λ (meta, rev).
      Guarantees-bind (read (λ s. ok (list_steps dag s))) _
        (Guarantees-read (λ s. ok (list_steps dag s)))
        (λ steps.
          Guarantees-bind (read (λ s. ok (list_signals dag s))) _
            (Guarantees-read (λ s. ok (list_signals dag s)))
            (λ sigs. Guarantees-pure (loaded meta steps sigs))))

Guarantees-fetch_result :
    (dag id : String) (step : StepRecord) → Guarantees (fetch_result dag id step)
Guarantees-fetch_result dag id step =
    Guarantees-if (status_eq step.status done) _ _
      (Guarantees-bind (read (get_result dag id)) _ (Guarantees-read (get_result dag id))
        (λ bytes. Guarantees-pure _))
      (Guarantees-pure [])

Guarantees-snapshot_upstream :
    (dag : String) (steps : Map StepRecord) → Guarantees (snapshot_upstream dag steps)
unfolding snapshot_upstream
Guarantees-snapshot_upstream dag [] = Guarantees-pure _
Guarantees-snapshot_upstream dag ((id, step) ∷ steps) =
    Guarantees-bind (fetch_result dag id step) _ (Guarantees-fetch_result dag id step) (λ found.
      Guarantees-bind (snapshot_upstream dag steps) _ (Guarantees-snapshot_upstream dag steps)
        (λ up. Guarantees-pure _))

Guarantees-enqueue_at :
    (rec : StepRecord) (payload : Json) (target : Result String)
    → Guarantees (enqueue_at rec payload target)
Guarantees-enqueue_at rec payload (err e) = Guarantees-raise e
Guarantees-enqueue_at rec payload (ok target) =
    Guarantees-bind time_now _ Guarantees-time_now (λ now. Guarantees-enqueue _)

Guarantees-enqueue_resolved :
    (rec : StepRecord) (steps : Map StepRecord) (o : Outcome (List Json))
    → Guarantees (enqueue_resolved rec steps o)
Guarantees-enqueue_resolved rec steps skip = Guarantees-pure tt
Guarantees-enqueue_resolved rec steps (fail e) = Guarantees-raise e
Guarantees-enqueue_resolved rec steps (value vs) =
    Guarantees-enqueue_at rec _ (resolve_placement_target rec steps)

Guarantees-start_resolved :
    (state : DagState) (up : Upstream) (id : String) (rec : StepRecord) (o : Outcome (List Json))
    → Guarantees (start_resolved state up id rec o)
unfolding enqueue_step
Guarantees-start_resolved state up id rec skip =
    Guarantees-bind (ignore (persist_status state.meta.id id skipped)) _
      (Guarantees-ignore _ (Guarantees-persist_skipped state.meta.id id))
      (λ _. Guarantees-ignore _ (Guarantees-publish (skipped_event state.meta.id id)))
Guarantees-start_resolved state up id rec (fail e) = Guarantees-raise e
Guarantees-start_resolved state up id rec (value vs) = Guarantees-enqueue_resolved rec state.steps _

Guarantees-unless_refused :
    (m : M (Unit {0})) (r : Result (Unit {0})) → Guarantees m → Guarantees (unless_refused m r)
Guarantees-unless_refused m (ok u) g = g
Guarantees-unless_refused m (err e) g =
    Guarantees-if (is_refusal e) _ _ (Guarantees-pure tt) (Guarantees-raise e)

Guarantees-start :
    (state : DagState) (up : Upstream) (id : String) (rec : StepRecord)
    → Guarantees (start state up id rec)
Guarantees-start state up id rec =
    Guarantees-start_resolved state up id rec
      (resolve_raw up state.signals (unmarshal_args rec.args_json))

Guarantees-enqueue_one :
    (state : DagState) (up : Upstream) (id : String) → Guarantees (enqueue_one state up id)
unfolding enqueue_one
Guarantees-enqueue_one state up id =
    let rec = or_zero (lookup id state.steps) in
    Guarantees-bind (catch (persist_status state.meta.id id running))
      (unless_refused (start state up id rec))
      (Guarantees-catch _ (Guarantees-persist_running state.meta.id id))
      (λ r. Guarantees-unless_refused (start state up id rec) r (Guarantees-start state up id rec))

pub Guarantees-enqueue_ready :
    (state : DagState) (ready : List String) → Guarantees (enqueue_ready state ready)
unfolding enqueue_ready
Guarantees-enqueue_ready state ready =
    Guarantees-if (is_nil ready || starts_nothing state.meta.status) _ _ (Guarantees-pure tt) (
      Guarantees-bind (snapshot_upstream state.meta.id state.steps) _
        (Guarantees-snapshot_upstream state.meta.id state.steps)
        (λ up. Guarantees-for_each (enqueue_one state up) ready (Guarantees-enqueue_one state up)))

-- A mark is set only where nothing was released.
pub mark_decision-OnWrite :
    (now : ℕ) (pos : BpPosition) (rec : StepRecord) → OnWrite rec (mark_decision now pos rec)
unfolding is_released
mark_decision-OnWrite now before rec =
    OnWrite-if rec (not (status_eq rec.status pending) || not (is_unset rec.bp_before)) _ _
      (λ s. tt) (λ h. RecEvolves-mark _ _ refl refl (λ r. ground arith) (λ r. r))
mark_decision-OnWrite now after rec =
    OnWrite-if rec (not (status_eq rec.status done) || not (is_unset rec.bp_after)) _ _ (λ s. tt)
      (λ h. RecEvolves-mark _ _ refl refl (λ r. r) (λ r. ground arith))

Guarantees-announce :
    (dag id : String) (pos : BpPosition) (o : Option (Option (List String)))
    → Guarantees (announce dag id pos o)
Guarantees-announce dag id pos none = Guarantees-pure tt
Guarantees-announce dag id pos (some none) = Guarantees-pure tt
Guarantees-announce dag id pos (some (some labels)) = Guarantees-ignore _ (Guarantees-publish _)

Guarantees-mark :
    (dag : String) (now : ℕ) (pos : BpPosition) (id : String) → Guarantees (mark dag now pos id)
unfolding mark
Guarantees-mark dag now pos id = Guarantees-ignore _ (
    Guarantees-bind (try_step 3 dag id (mark_decision now pos)) _
      (Guarantees-try_step 3 dag id _ (mark_decision-OnWrite now pos))
      (Guarantees-announce dag id pos))

pub Guarantees-mark_blocked_breakpoints :
    (state : DagState) → Guarantees (mark_blocked_breakpoints state)
unfolding mark_blocked_breakpoints
Guarantees-mark_blocked_breakpoints state = Guarantees-bind time_now _ Guarantees-time_now (λ now.
    Guarantees-bind (for_each (mark_new state now before) (blocked_at_before state)) _
      (marks now before _) (λ u. marks now after _))
  where
    marks :
        (now : ℕ) (pos : BpPosition) (ids : List String)
        → Guarantees (for_each (mark_new state now pos) ids)
    marks now pos ids = Guarantees-for_each (mark_new state now pos) ids (λ id.
        Guarantees-if (is_unset (state_at pos (or_zero (lookup id state.steps)))) _ _
          (Guarantees-mark state.meta.id now pos id) (Guarantees-pure tt))

orphan_decision-OnWrite : (rec : StepRecord) → OnWrite rec (orphan_decision rec)
orphan_decision-OnWrite rec =
    OnWrite-if rec (not rec.held || not (status_eq rec.status pending)) _ _ (λ s. tt)
      (λ h. RecEvolves-mark _ _ refl refl (λ r. r) (λ r. r))

Guarantees-release_each :
    (dag : String) (now : ℕ) (steps : Map StepRecord) → Guarantees (release_each dag now steps)
unfolding release_each
Guarantees-release_each dag now [] = Guarantees-pure false
Guarantees-release_each dag now ((id, snap) ∷ steps) =
    Guarantees-bind (release_orphan dag now id snap) _
      (Guarantees-if (is_orphan now snap) _ _
        (Guarantees-bind (catch (attempt_step dag id orphan_decision)) _
          (Guarantees-catch _ (Guarantees-attempt_step dag id _ orphan_decision-OnWrite))
          (λ r. Guarantees-pure (released_of r)))
        (Guarantees-pure false))
      (λ a.
        Guarantees-bind (release_each dag now steps) _ (Guarantees-release_each dag now steps)
          (λ b. Guarantees-pure _))

pub Guarantees-release_orphaned_holds :
    (dag : String) (state : DagState) → Guarantees (release_orphaned_holds dag state)
unfolding release_orphaned_holds
Guarantees-release_orphaned_holds dag state =
    Guarantees-bind time_now _ Guarantees-time_now
      (λ now. Guarantees-release_each dag now state.steps)
