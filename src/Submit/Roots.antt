-- ===== src/Submit/Roots.antt =====
-- How `Submit` of workflow/dag.go starts the steps that wait on no other, while nobody else writes.
use mathlib.Core.Option
use ebind.Base.{
  ℕ, String, false, not, ◌||◌, ◌==◌, ◌&&◌, Option, some, List, [], Map, insert, arith, eq_refl, ◌≡◌,
  refl, if◌then◌else◌, Bool-cases, inl, inr, ◌∙◌,
}
use ebind.Types.{
  running, blocked, Json, pending, Err, DagMeta, StepRecord, SignalRecord, Event, Result, ok, err,
  status_eq,
}
use ebind.Wire.{Outcome, value, skip, fail, unmarshal_args, of_list}
use ebind.Placement.{resolve_placement_target}
use ebind.State.{before_bp_blocks, signal_blocks}
use ebind.Store.{MemEntry, MemStore, find_in, put_step}
use ebind.Store.Laws.{put_step_cas}
use ebind.Runtime.{World, M, pure, continue, call, catch, publish, enqueue, time_now, is_up}
use ebind.Runtime.Alone.{alone}
use ebind.Scheduler.{Upstream, resolve_raw, enqueue_step, enqueue_resolved, enqueue_at}
use ebind.Submit.{state_of_meta, at_breakpoint, at_start, claim_root, send_root, hit_event}

-- The error is the one that the enqueue of a step answers.
abbrev pub Refused : Err → Type 0
Refused e =
    (rec : StepRecord) × (steps : Map StepRecord) × (sigs : Map SignalRecord) × (w : World)
    × ((enqueue_step rec steps ([], []) sigs w).0 ≡ err e)

-- `P` holds of what the operation answers, and its only errors are those of an enqueue.
abbrev pub OkOrRefused {ℓ} : {A : Type ℓ} → (A → World → Type 0) → Result A × World → Type 0
OkOrRefused P (ok a, w) = P a w
OkOrRefused P (err e, w) = Refused e

pub OkOrRefused-continue {ℓ κ} :
    {A : Type ℓ} {B : Type κ} (P : A → World → Type 0) (Q : B → World → Type 0)
    (r : Result A × World) (f : A → M B)
    → OkOrRefused P r
    → ((a : A) (w : World) → P a w → OkOrRefused Q (f a w))
    → OkOrRefused Q (continue r.0 f r.1)
OkOrRefused-continue P Q (ok a, w) f p h = h a w p
OkOrRefused-continue P Q (err e, w) f p h = p

-- The store, the others and the clock are as they were.
abbrev Same : World → World → Type 0
Same w w' = (w'.store ≡ w.store) × (w'.others ≡ w.others) × (w'.clock ≡ w.clock)

Same-enqueue_resolved :
    (rec : StepRecord) (steps : Map StepRecord) (o : Outcome (List Json)) (w : World)
    → Same w (enqueue_resolved rec steps o w).1
unfolding enqueue time_now
Same-enqueue_resolved rec steps skip w = (refl, refl, refl)
Same-enqueue_resolved rec steps (fail e) w = (refl, refl, refl)
Same-enqueue_resolved rec steps (value vs) w = go (resolve_placement_target rec steps)
  where
    go : (r : Result String) → Same w (enqueue_at rec (Json.arr (of_list vs)) r w).1
    go (err e) = (refl, refl, refl)
    go (ok target) = elim (Bool-cases (is_up w.queue_up)) [
      | inl up ↦ rw up (refl, refl, refl)
      | inr down ↦ rw down (refl, refl, refl)
    ]

Same-enqueue_step :
    (rec : StepRecord) (steps : Map StepRecord) (up : Upstream) (sigs : Map SignalRecord)
    (w : World)
    → Same w (enqueue_step rec steps up sigs w).1
unfolding enqueue_step
Same-enqueue_step rec steps up sigs w =
    Same-enqueue_resolved rec steps (resolve_raw up sigs (unmarshal_args rec.args_json)) w

Same-publish : (e : Event) (w : World) → Same w (publish e w).1
unfolding publish
Same-publish e w = elim (Bool-cases (is_up w.bus_up)) [
  | inl up ↦ rw up (refl, refl, refl)
  | inr down ↦ rw down (refl, refl, refl)
]

-- The record that a root has once Submit is through with it.
abbrev pub root_outcome : DagMeta → Map SignalRecord → ℕ → StepRecord → StepRecord
root_outcome meta sigs now rec =
    if before_bp_blocks (state_of_meta meta []) rec
    then record rec { bp_before = blocked; bp_blocked_at = now }
    else if signal_blocks (state_of_meta meta sigs) rec
    then rec
    else record rec { status = running; started_at = now }

abbrev pub rec_at : String → String → MemStore → Option StepRecord
rec_at d k s = Option.map (λ (e : MemEntry). e.rec) (find_in d k s.steps)

-- One record was written, and nothing else of the store's steps has changed.
abbrev pub Wrote : String → String → World → StepRecord → World → Type 0
Wrote dag id w rec' w' =
    (w'.others ≡ [])
    × (w'.clock ≡ w.clock)
    × (rec_at dag id w'.store ≡ some rec')
    × ((d k : String)
        → (dag == d && id == k) ≡ false
        → find_in d k w'.store.steps ≡ find_in d k w.store.steps)

module _ (dag id : String) (w : World) (rec : StepRecord)
    (there : find_in dag id w.store.steps ≡ some (record { rec = rec; rev = 1 })) where
  abbrev over : StepRecord → World
  over rec' = record w { store = (put_step dag id w.store rec' 1).1; others = [] }

  over-ok : (rec' : StepRecord) → (put_step dag id w.store rec' 1).0 ≡ ok 2
  over-ok rec' = (put_step_cas dag id w.store rec' 1).0 ∙ rw there refl

  Wrote-over : (rec' : StepRecord) (w' : World) → Same (over rec') w' → Wrote dag id w rec' w'
  Wrote-over rec' w' (store, others, clock) = (
    others,
    clock,
    rw (store, (put_step_cas dag id w.store rec' 1).1 dag id, there)
        (ground (arith, eq_refl dag, eq_refl id)),
    λ d k other. rw (store, (put_step_cas dag id w.store rec' 1).1 d k, there) (ground (arith)),
  )

module _ (meta : DagMeta) (sigs : Map SignalRecord) (id : String) (w : World) (rec : StepRecord)
    (there : find_in meta.id id w.store.steps ≡ some (record { rec = rec; rev = 1 })) where
  abbrev pub Settled : StepRecord → World → Type 0
  Settled cur w' = (cur ≡ root_outcome meta sigs w.clock rec) × Wrote meta.id id w cur w'

  sent :
      (recs : Map StepRecord) (next : StepRecord)
      → next ≡ root_outcome meta sigs w.clock rec
      → OkOrRefused Settled (send_root sigs recs id next (over meta.id id w rec there next))
  sent recs next e =
      let task = enqueue_step next (insert id next recs) ([], []) sigs in
      let before_send = over meta.id id w rec there next in
      OkOrRefused-continue (λ u w'. Same before_send w') Settled (task before_send) (λ u. pure next)
        (always (task before_send)
          (λ x refused. (next, insert id next recs, sigs, before_send, refused))
          (Same-enqueue_step next (insert id next recs) ([], []) sigs before_send))
        (λ u w' same. (e, Wrote-over meta.id id w rec there next w' same))
    where
      always :
          (r : Result (Unit {0}) × World)
          → ((x : Err) → r.0 ≡ err x → Refused x)
          → Same (over meta.id id w rec there next) r.1
          → OkOrRefused (λ u w'. Same (over meta.id id w rec there next) w') r
      always (ok u, w') refused same = same
      always (err x, w') refused same = refused x refl

  -- The first attempt never loses a race, so it settles the root.
  pub claim_lem :
      (recs : Map StepRecord)
      → (not (status_eq rec.status pending) || rec.held) ≡ false
      → OkOrRefused Settled (claim_root 5 meta sigs recs id rec 1 (alone w))
  unfolding claim_root time_now call catch
  claim_lem recs idle = elim (Bool-cases (before_bp_blocks (state_of_meta meta []) rec)) [
    | inl stops ↦
        rw (idle, stops, over-ok meta.id id w rec there (at_breakpoint w.clock rec))
          (
            rw stops refl,
            Wrote-over meta.id id w rec there (at_breakpoint w.clock rec)
                (publish (hit_event meta.id id (at_breakpoint w.clock rec))
                  (over meta.id id w rec there (at_breakpoint w.clock rec))).1
                (Same-publish (hit_event meta.id id (at_breakpoint w.clock rec))
                  (over meta.id id w rec there (at_breakpoint w.clock rec))),
          )
    | inr passes ↦ elim (Bool-cases (signal_blocks (state_of_meta meta sigs) rec)) [
      | inl gated ↦
          rw (idle, passes, gated)
            (rw (passes, gated) refl, (refl, refl, rw there refl, λ d k other. refl))
      | inr open_gate ↦
          rw (idle, passes, open_gate, over-ok meta.id id w rec there (at_start w.clock rec))
            (sent recs (at_start w.clock rec) (rw (passes, open_gate) refl))
    ]
  ]
