-- ===== src/Control/Pause/Fence.antt =====
-- What the fence leaves behind when nobody else writes.
use mathlib.Core.Option
use ebind.Base.{
  ℕ, zero, suc, String, true, false, not, ◌||◌, Option, none, some, List, [], ◌∷◌, ◌≡◌, refl, sym,
  subst, ◌∙◌, arith, inl, inr, Bool-cases,
}
use ebind.Types.{StepRecord, Result, ok, err, pending, running, status_eq, is_stale}
use ebind.Store.{MemEntry, MemStore, find_in, entry_pair, get_step, put_step, list_steps}
use ebind.Runtime.{
  World, M, pure, continue, ◌>>=◌, call, read, retry_on_stale, stale_as_none, time_now, found_store,
  later, Decision, write, act, attempt_step,
}
use ebind.Runtime.Rely.Ensures.{Each, Each-list_steps}
use ebind.Control.Pause.{
  Seen, hold, fence_decision, seen_of, fence_fresh, fence_step, both, fence_pass, next_pass,
  fence_passes, fence_pending_steps,
}

-- Not in flight, and held if it waits.
pub record Fenced (rec : StepRecord) : Type 0 where
  pub idle : status_eq rec.status running ≡ false
  pub fenced : status_eq rec.status pending ≡ true → rec.held ≡ true

-- The listed record is fenced, if it is what the store has.
abbrev FencedIn : String → StepRecord → MemStore → Type 0
FencedIn dag snap s =
    (e : MemEntry) → find_in dag snap.step_id s.steps ≡ some e → e.rec ≡ snap → Fenced snap

-- What an answer says that reports no change: nothing was written, and `P` holds if nothing is in
-- flight.
abbrev Still : MemStore → (MemStore → Type 0) → Result Seen × World → Type 0
Still s P (ok (in_flight, true), w) = w.others ≡ []
Still s P (ok (in_flight, false), w) = (w.store ≡ s) × (w.others ≡ []) × (in_flight ≡ false → P s)
Still s P (err e, w) = Unit {0}

module _ (dag : String) (snap : StepRecord) where
  abbrev answer : ℕ → Decision Seen → M Seen
  answer rev d = act dag snap.step_id rev d >>= λ o. pure (seen_of o)

  Still-write :
      (P : MemStore → Type 0) (s : MemStore) (rev : ℕ) (rec : StepRecord) (w : World)
      → w.others ≡ []
      → Still s P (answer rev (write rec (false, true)) w)
  unfolding retry_on_stale call
  Still-write P s rev rec w alone =
      go (put_step dag snap.step_id (found_store w.others w.store) rec rev)
    where
      go :
          (r : Result ℕ × MemStore)
          → Still s P (
              let x = stale_as_none (r.0, record w { store = r.1; others = later w.others }) in
              let y = continue x.0 (λ o. pure (Option.map (λ _. (false, true)) o)) x.1 in
              continue y.0 (λ o. pure (seen_of o)) y.1)
      go (ok n, s') = rw alone refl
      go (err x, s') = elim (Bool-cases (is_stale x)) [
        | inl y ↦ rw (y, alone) refl
        | inr n ↦ rw n tt
      ]

  module _ (waits : status_eq snap.status running ≡ false)
      (open_still : (not (status_eq snap.status pending) || snap.held) ≡ false) where
    -- The fresh record is not the listed one, if it need not be held.
    Still-answer :
        (now : ℕ) (e : MemEntry) (w : World)
        → find_in dag snap.step_id w.store.steps ≡ some e
        → w.others ≡ []
        → Still w.store (FencedIn dag snap) (answer e.rev (fence_decision now e.rec) w)
    Still-answer now e w found alone = elim (Bool-cases (status_eq e.rec.status running)) [
      | inl runs ↦ rw runs (refl, alone, λ h. absurd (cc))
      | inr idle ↦ elim (Bool-cases (not (status_eq e.rec.status pending) || e.rec.held)) [
        | inl over ↦ rw (idle, over) (refl, alone, λ h x other same. absurd (cc))
        | inr fresh ↦
            rw (idle, fresh)
              (Still-write (FencedIn dag snap) w.store e.rev (hold now e.rec) w alone)
      ]
    ]

    Still-fresh :
        (w : World)
        → w.others ≡ []
        → Still w.store (FencedIn dag snap) (fence_fresh dag snap.step_id w)
    unfolding attempt_step get_step time_now
    Still-fresh w alone = rw alone (go (find_in dag snap.step_id w.store.steps) refl)
      where
        reached : World
        reached = record w { others = [] }

        go :
            (o : Option MemEntry)
            → find_in dag snap.step_id w.store.steps ≡ o
            → Still w.store (FencedIn dag snap) (
                let x =
                  continue
                    (entry_pair o)
                    (λ (rec, rev). act dag snap.step_id rev (fence_decision w.clock rec))
                    reached in
                continue x.0 (λ o. pure (seen_of o)) x.1)
        go none e = tt
        go (some x) e = Still-answer w.clock x reached e refl

  Still-step :
      (w : World) → w.others ≡ [] → Still w.store (FencedIn dag snap) (fence_step dag snap w)
  unfolding fence_step
  Still-step w alone = elim (Bool-cases (status_eq snap.status running)) [
    | inl runs ↦ rw runs (refl, alone, λ h. absurd (cc))
    | inr idle ↦ elim (Bool-cases (not (status_eq snap.status pending) || snap.held)) [
      | inl over ↦
          rw (idle, over)
            (refl, alone, λ h x found same. record { idle = idle; fenced = λ p. ground arith })
      | inr fresh ↦ rw (idle, fresh) (Still-fresh idle fresh w alone)
    ]
  ]

module _ (dag : String) where
  Still-pass :
      (snaps : List StepRecord) (w : World)
      → w.others ≡ []
      → Still w.store (Each (FencedIn dag) snaps) (fence_pass dag snaps w)
  unfolding fence_pass
  Still-pass [] w alone = (refl, alone, λ h. tt)
  Still-pass (snap ∷ snaps) w alone =
      first (fence_step dag snap w) (Still-step dag snap w alone) (Still-pass snaps)
    where
      first :
          (r : Result Seen × World)
          → Still w.store (FencedIn dag snap) r
          → ((w' : World)
              → w'.others ≡ []
              → Still w'.store (Each (FencedIn dag) snaps) (fence_pass dag snaps w'))
          → Still w.store
              (Each (FencedIn dag) (snap ∷ snaps))
              (continue r.0 (λ a. fence_pass dag snaps >>= λ b. pure (both a b)) r.1)
      first (err x, w') still go = tt
      first (ok (f, true), w') alone' go = second (fence_pass dag snaps w') (go w' alone')
        where
          second :
              (r : Result Seen × World)
              → Still w'.store (Each (FencedIn dag) snaps) r
              → Still w.store
                  (Each (FencedIn dag) (snap ∷ snaps))
                  (continue r.0 (λ b. pure (both (f, true) b)) r.1)
          second (err x, w2) h = tt
          second (ok (g, true), w2) h = h
          second (ok (g, false), w2) h = h.1
      first (ok (f, false), w') (same, alone', q) go =
          second (fence_pass dag snaps w') (go w' alone')
        where
          second :
              (r : Result Seen × World)
              → Still w'.store (Each (FencedIn dag) snaps) r
              → Still w.store
                  (Each (FencedIn dag) (snap ∷ snaps))
                  (continue r.0 (λ b. pure (both (f, false) b)) r.1)
          second (err x, w2) h = tt
          second (ok (g, true), w2) h = h
          second (ok (g, false), w2) (same2, alone2, p) = (
            same2 ∙ same,
            alone2,
            λ h. (q (ground arith), subst (Each (FencedIn dag) snaps) same (p (ground arith))),
          )

  -- The fence found nothing in flight: every step that is listed is fenced.
  passes-Fenced :
      (n : ℕ) (w : World)
      → w.others ≡ []
      → (fence_passes n dag w).0 ≡ ok false
      → Each
          (FencedIn dag)
          (list_steps dag (fence_passes n dag w).1.store)
          (fence_passes n dag w).1.store
  unfolding fence_passes read call
  passes-Fenced zero w alone = λ h. absurd (cc)
  passes-Fenced (suc n) w alone = rw alone (
      go (fence_pass dag (list_steps dag w.store) (record w { others = [] }))
        (Still-pass (list_steps dag w.store) (record w { others = [] }) refl) (passes-Fenced n))
    where
      go :
          (r : Result Seen × World)
          → Still w.store (Each (FencedIn dag) (list_steps dag w.store)) r
          → ((w' : World)
              → w'.others ≡ []
              → (fence_passes n dag w').0 ≡ ok false
              → Each
                  (FencedIn dag)
                  (list_steps dag (fence_passes n dag w').1.store)
                  (fence_passes n dag w').1.store)
          → (continue r.0
              (λ (in_flight, changed). next_pass changed (fence_passes n dag) in_flight)
              r.1).0
            ≡ ok false
          → let s =
              (continue r.0
                (λ (in_flight, changed). next_pass changed (fence_passes n dag) in_flight)
                r.1).1.store in
            Each (FencedIn dag) (list_steps dag s) s
      go (err x, w') still again h = absurd (cc)
      go (ok (f, true), w') alone' again h = again w' alone' h
      go (ok (f, false), w') (same, alone', p) again h =
          subst (λ s. Each (FencedIn dag) (list_steps dag s) s) (sym same) (p (cc))

  -- When nobody else writes and the fence returns that nothing is in flight, no step of the DAG
  -- that is stored under its own identifier is running, and each that is pending is held.
  pub fence_fences :
      (w : World)
      → w.others ≡ []
      → (fence_pending_steps dag w).0 ≡ ok false
      → (k : String) {e : MemEntry}
      → find_in dag k (fence_pending_steps dag w).1.store.steps ≡ some e
      → e.rec.step_id ≡ k
      → Fenced e.rec
  unfolding fence_pending_steps
  fence_fences w alone idle k {e} found key =
      let s = (fence_passes 5 dag w).1.store in
      Each-list_steps (FencedIn dag) dag s s k (passes-Fenced 5 w alone idle) found e
        (subst (λ id. find_in dag id s.steps ≡ some e) (sym key) found) refl
