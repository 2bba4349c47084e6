-- ===== src/State/Cascade/Exact.antt =====
-- `cascadeSkipFrom` skips just the steps that a chain of required dependencies ties to the root.
use ebind.Base.{
  contains-append, ℕ, zero, suc, ◌+◌, ◌≤◌, ◌<◌, String, true, false, some, List, [], ◌∷◌, Map,
  UniqueKeys, lookup, passes, select-contains, contains, length, if◌then◌else◌, arith, eq_iff,
  eq_refl, ◌==◌, ◌≡◌, refl, ◌↔◌, ◌⊎◌, inl, inr, Bool-cases, sym,
}
use ebind.Types.{StepRecord, DagState}
use ebind.State.Cascade.{
  must_skip, skip_dependents, Walk, walk_round, walk_on, walk, walk_start, cascade_skip_from,
}
use ebind.State.Cascade.Rounds.{
  skip_if, lookup-skip_dependents, skipped-skip_dependents, skip_dependents-UniqueKeys,
  active_count, active_count-le-length, active_count-skip_dependents, seen-add_unseen,
  queue-add_unseen, length-add_unseen,
}
use ebind.State.Cascade.Chains.{
  must_skip-IsTied, Chain, direct, via, marked, Settled, Inv, settled-skip_if, settled-skip_if_self,
  skip_if-marked, nil_of_length, passes-marked,
}

module _ (now : ℕ) (root : String) (m : Map StepRecord) where
  start-Inv : UniqueKeys m → Inv now root m (walk_start root m)
  unfolding contains
  start-Inv u = record {
    unique = u;
    written = λ k. ground (arith);
    tied = λ k h. cc;
    noted = λ k. refl;
    queued = λ k h. h;
    settled = λ k h. inl h;
  }

  module _ (cur : String) (rest : List String) (w : Walk) (on_queue : w.queue ≡ cur ∷ rest)
      (inv : Inv now root m w) where
    abbrev next : Walk
    next = walk_round now cur rest w

    -- What the round skips, by its test on the steps before it.
    newly :
        (k : String)
        → contains (skip_dependents now cur w.steps).1 k ≡ passes (must_skip cur) (lookup k w.steps)
    newly k = rw skipped-skip_dependents (select-contains (must_skip cur) k w.steps inv.unique)

    skipped-next :
        (k : String)
        → contains next.skipped k
          ≡ (if contains w.skipped k then true else passes (must_skip cur) (lookup k w.steps))
    unfolding walk_round
    skipped-next k =
        ground (arith, contains-append w.skipped (skip_dependents now cur w.steps).1 k, newly k)

    lookup-next : (k : String) → lookup k next.steps ≡ skip_if now cur (lookup k w.steps)
    unfolding walk_round
    lookup-next k = lookup-skip_dependents now cur k w.steps

    seen-next :
        (k : String)
        → contains next.seen k
          ≡ (if contains w.seen k then true else passes (must_skip cur) (lookup k w.steps))
    unfolding walk_round
    seen-next k =
        ground (arith, seen-add_unseen (skip_dependents now cur w.steps).1 w.seen rest k, newly k)

    queue-next :
        (k : String)
        → contains next.queue k ≡ (
            if contains rest k
            then true
            else if contains w.seen k
            then false
            else passes (must_skip cur) (lookup k w.steps))
    unfolding walk_round
    queue-next k =
        ground (arith, queue-add_unseen (skip_dependents now cur w.steps).1 w.seen rest k, newly k)

    cur-seen : contains w.seen cur ≡ true
    unfolding contains
    cur-seen = inv.queued cur (rw on_queue (ground (arith, eq_refl cur)))

    extend :
        {k : String} {step : StepRecord}
        → lookup k m ≡ some step
        → must_skip cur step ≡ true
        → Chain m root k
    extend {k} {step} found waits = elim (Bool-cases (root == cur)) [
      | inl here ↦
          direct found
            ((must_skip-IsTied root step).0 (rw (sym ((eq_iff root cur).0 here)) at waits))
      | inr away ↦
          via (inv.tied cur (ground (arith, inv.noted cur, cur-seen))) found
            ((must_skip-IsTied cur step).0 waits)
    ]

    tied-next : (k : String) → contains next.skipped k ≡ true → Chain m root k
    tied-next k h = elim (Bool-cases (contains w.skipped k)) [
      | inl old ↦ inv.tied k old
      | inr new ↦
          let (step, found, waits) =
            passes-marked now cur (contains w.skipped k) (lookup k m)
              (cc (skipped-next k, inv.written k, new, h)) in
          extend found waits
    ]

    in_rest : (k : String) → contains w.queue k ≡ true → (cur == k) ≡ false → contains rest k ≡ true
    unfolding contains
    in_rest k h away = rw (on_queue, away) at h

    rest-seen : (k : String) → contains rest k ≡ true → contains w.seen k ≡ true
    unfolding contains
    rest-seen k h = inv.queued k (rw on_queue (ground arith))

    Settled-next :
        (k : String)
        → contains next.seen k ≡ true
        → (contains next.queue k ≡ true) ⊎ Settled next.steps k
    Settled-next k h = elim (Bool-cases (contains w.seen k)) [
      | inl old ↦ elim (inv.settled k old) [
        | inl waits ↦ elim (Bool-cases (cur == k)) [
          | inl here ↦
              inr
                (λ j. rw (lookup-next j, ← (eq_iff cur k).0 here) (settled-skip_if_self now cur _))
          | inr away ↦ inl (ground (arith, queue-next k, in_rest k waits))
        ]
        | inr over ↦ inr (λ j. rw (lookup-next j) (settled-skip_if now cur k _ (over j)))
      ]
      | inr new ↦ inl (ground (arith, seen-next k, queue-next k))
    ]

    next-Inv : Inv now root m next
    next-Inv = record {
      unique = unfold walk_round in skip_dependents-UniqueKeys now cur w.steps inv.unique;
      written = λ k.
          rw (lookup-next k, skipped-next k, inv.written k)
            (skip_if-marked now cur (contains w.skipped k) (lookup k m));
      tied = tied-next;
      noted = λ k. ground (arith, seen-next k, skipped-next k, inv.noted k);
      queued = λ k h. ground (arith, seen-next k, queue-next k, rest-seen k);
      settled = Settled-next;
    }

    measure-next :
        length next.queue + active_count next.steps < length w.queue + active_count w.steps
    unfolding walk_round
    measure-next = rw on_queue (
        omega (
          arith,
          length-add_unseen (skip_dependents now cur w.steps).1 w.seen rest,
          active_count-skip_dependents now cur w.steps,
        ))

  -- With fuel for the steps that are still active the queue is emptied, and the invariant holds.
  walk_lem :
      (fuel : ℕ) (w : Walk)
      → length w.queue + active_count w.steps ≤ fuel
      → Inv now root m w
      → Inv now root m (walk fuel now w) × ((walk fuel now w).queue ≡ [])
  unfolding walk
  walk_lem zero w enough inv = (inv, nil_of_length w.queue (omega arith))
  walk_lem (suc fuel) w enough inv = split (walk_lem fuel) w.queue refl
    where
      split :
          ((w' : Walk)
            → length w'.queue + active_count w'.steps ≤ fuel
            → Inv now root m w'
            → Inv now root m (walk fuel now w') × ((walk fuel now w').queue ≡ []))
          → (queue : List String) → w.queue ≡ queue
          → Inv now root m (walk_on (walk fuel now) now queue w)
            × ((walk_on (walk fuel now) now queue w).queue ≡ [])
      split again [] e = (inv, e)
      split again (cur ∷ rest) e =
          again (walk_round now cur rest w) (omega (arith, measure-next cur rest w e inv))
            (next-Inv cur rest w e inv)

module _ (now : ℕ) (root : String) (s : DagState) (u : UniqueKeys s.steps) where
  abbrev last : Walk
  last = walk (suc (length s.steps)) now (walk_start root s.steps)

  last_lem : Inv now root s.steps last × (last.queue ≡ [])
  last_lem =
      walk_lem now root s.steps (suc (length s.steps)) (walk_start root s.steps)
        (omega (arith, active_count-le-length s.steps)) (start-Inv now root s.steps u)

  last-Settled : (k : String) → contains last.seen k ≡ true → Settled last.steps k
  unfolding contains
  last-Settled k h = elim (last_lem.0.settled k h) [
    | inl waits ↦ absurd (cc (last_lem.1, waits))
    | inr over ↦ over
  ]

  -- What waits on a settled step was skipped.
  caught :
      (j k : String) {step : StepRecord}
      → contains last.seen j ≡ true
      → lookup k s.steps ≡ some step
      → must_skip j step ≡ true
      → contains last.skipped k ≡ true
  caught j k h found waits = ground (arith, last-Settled j h k, last_lem.0.written k)

  Chain-skipped : {k : String} → Chain s.steps root k → contains last.skipped k ≡ true
  Chain-skipped (direct {k} {step} found tied) =
      caught root k (rw (last_lem.0.noted root) (ground (arith, eq_refl root))) found
        ((must_skip-IsTied root step).1 tied)
  Chain-skipped (via {j} {k} {step} c found tied) =
      caught j k (ground (arith, last_lem.0.noted j, Chain-skipped c)) found
        ((must_skip-IsTied j step).1 tied)

  -- When the identifiers of the steps are distinct, a cascade from a step skips just the steps
  -- that a chain of pending or running steps ties to it by required dependencies with no
  -- default among the arguments; the records of those have the status skipped and the present
  -- time as their end and are otherwise unchanged, and every other record is as it was.
  pub cascade_exact :
      (k : String)
      → ((contains (cascade_skip_from now root s).1 k ≡ true) ↔ Chain s.steps root k)
        × (lookup k (cascade_skip_from now root s).0.steps
            ≡ marked now (contains (cascade_skip_from now root s).1 k) (lookup k s.steps))
  unfolding cascade_skip_from
  cascade_exact k = ((last_lem.0.tied k, Chain-skipped), last_lem.0.written k)

  pub cascade-UniqueKeys : UniqueKeys (cascade_skip_from now root s).0.steps
  unfolding cascade_skip_from
  cascade-UniqueKeys = last_lem.0.unique
