-- ===== src/Runtime/Rely/Rules.antt =====
-- One rule for each way to build an operation: it guarantees what its parts do.
mod Basic
use ebind.Base.{
  ℕ, zero, suc, String, Bool, true, false, Option, none, some, arith, ◌≡◌, refl, inl, inr, ◌&&◌,
  ◌==◌, eq_iff, Bool-cases, subst, sym, if◌then◌else◌,
}
use ebind.Types.{Err, Result, ok, err, Event, StepRecord, is_stale}
use ebind.Task.{Task}
use ebind.Store.{MemEntry, MemStore, find_in, entry_pair, get_step, put_step}
use ebind.Store.Laws.{accepts, rev_after, put_step_cas}
use ebind.Runtime.{
  World, M, pure, raise, continue, ◌>>=◌, call, read, catch, retry_on_stale, stale_as_none,
  cas_loop, or_stale, ignore, publish, enqueue, time_now, is_up, found_store, later, Decision, stop,
  refuse, write, act, attempt_step, try_step, cas_step,
}
use ebind.Runtime.Rely.{
  RecEvolves, RecEvolves-refl, Evolves, Evolves-refl, Evolves-trans, NoReuse, Kept, AllInterfere,
  found_store-Evolves, found_store-NoReuse, later-AllInterfere, Guarantees,
}
pub use ebind.Runtime.Rely.Rules.Basic.{
  Kept-continue, Kept-stale, Guarantees-pure, Guarantees-raise, Guarantees-call, Guarantees-read,
  Guarantees-catch, Guarantees-ignore, Guarantees-retry_on_stale, Guarantees-if,
  Guarantees-or_stale, Guarantees-publish, Guarantees-enqueue, Guarantees-time_now, Guarantees-bind,
}

-- A record that `cas_step` writes has moved on from the record that it read.
abbrev pub OnWrite {ℓ} : {A : Type ℓ} → StepRecord → Decision A → Type 0
OnWrite rec (stop a) = Unit {0}
OnWrite rec (refuse e) = Unit {0}
OnWrite rec (write rec' a) = RecEvolves rec rec'

pub OnWrite-if {ℓ} :
    {A : Type ℓ} (rec : StepRecord) (b : Bool) (x y : Decision A)
    → (b ≡ true → OnWrite rec x)
    → (b ≡ false → OnWrite rec y)
    → OnWrite rec (if b then x else y)
OnWrite-if rec true x y hx hy = hx refl
OnWrite-if rec false x y hx hy = hy refl

pub signals-put_step :
    (dag step : String) (s : MemStore) (rec : StepRecord) (rev : ℕ)
    → (put_step dag step s rec rev).1.signals ≡ s.signals
unfolding put_step
signals-put_step dag step s rec rev = ground arith

-- The write of a record that was read before the others' last change.
module _ (dag step : String) (s s' : MemStore) (e : MemEntry) (rec : StepRecord)
    (seen : find_in dag step s.steps ≡ some e) (no_reuse : NoReuse s s')
    (moves : RecEvolves e.rec rec) where
  abbrev pub after : MemStore
  after = (put_step dag step s' rec e.rev).1

  -- The record that the write replaces is the one that was read.
  overwritten :
      (d k : String) (o : MemEntry)
      → find_in d k s'.steps ≡ some o
      → (accepts e.rev (find_in dag step s'.steps) && (dag == d && step == k)) ≡ true
      → (o.rev ≡ e.rev) × (e.rec ≡ o.rec)
  overwritten d k o found hit =
      let here : find_in dag step s'.steps ≡ some o = ground (arith, eq_iff dag d, eq_iff step k) in
      let same : o.rev ≡ e.rev = ground arith in (same, no_reuse dag step e o seen here (sym same))

  kept-put_step :
      (d k : String) (o : MemEntry)
      → find_in d k s'.steps ≡ some o
      → (e' : MemEntry) × (find_in d k after.steps ≡ some e') × RecEvolves o.rec e'.rec
  kept-put_step d k o found =
      let law = (put_step_cas dag step s' rec e.rev).1 d k in
      elim (Bool-cases (accepts e.rev (find_in dag step s'.steps) && (dag == d && step == k))) [
        | inl hit ↦
            let (same, old) = overwritten d k o found hit in
            (
              record { rec = rec; rev = rev_after (find_in dag step s'.steps) },
              cc,
              subst (λ r. RecEvolves r rec) old moves,
            )
        | inr miss ↦ (o, cc, RecEvolves-refl o.rec)
      ]

  pub put_step-Evolves : Evolves s' after
  put_step-Evolves = record {
    kept = λ d k {e = o} found. kept-put_step d k o found;
    delivered = λ d k found. rw signals-put_step found;
  }

module _ {ℓ} {A : Type ℓ} (dag step : String) (decide : StepRecord → Decision A)
    (moves : (rec : StepRecord) → OnWrite rec (decide rec)) where
  Kept-act :
      (w : World) (e : MemEntry) (d : Decision A)
      → find_in dag step w.store.steps ≡ some e
      → OnWrite e.rec d
      → AllInterfere w.others
      → Kept w.store (act dag step e.rev d w).1
  Kept-act w e (stop a) found m h = (Evolves-refl w.store, h)
  Kept-act w e (refuse x) found m h = (Evolves-refl w.store, h)
  Kept-act w e (write rec a) found m h =
      Kept-continue w.store (retry_on_stale put w) _
        (unfold retry_on_stale in Kept-stale w.store (put w) written) (λ r. Guarantees-pure _)
    where
      put : M ℕ
      put = call (λ s. put_step dag step s rec e.rev)

      written : Kept w.store (put w).1
      written =
          unfold call in
          (
            Evolves-trans (found_store-Evolves w.others w.store h) (
                put_step-Evolves dag step w.store (found_store w.others w.store) e rec found
                  (found_store-NoReuse w.others w.store h) m),
            later-AllInterfere w.others h,
          )

  pub Guarantees-attempt_step : Guarantees (attempt_step dag step decide)
  unfolding attempt_step get_step
  Guarantees-attempt_step = record {
    at = λ w h. go w h (find_in dag step (reached w).store.steps) refl;
  }
    where
      reached : World → World
      reached w = record w { store = found_store w.others w.store; others = later w.others }

      go :
          (w : World)
          → AllInterfere w.others
          → (o : Option MemEntry) → find_in dag step (reached w).store.steps ≡ o
          → Kept w.store
              (continue (entry_pair o) (λ (rec, rev). act dag step rev (decide rec)) (reached w)).1
      go w h none e = (found_store-Evolves w.others w.store h, later-AllInterfere w.others h)
      go w h (some x) e =
          let (step', h') =
            Kept-act (reached w) x (decide x.rec) e (moves x.rec) (later-AllInterfere w.others h) in
          (Evolves-trans (found_store-Evolves w.others w.store h) step', h')

module _ {ℓ} {A : Type ℓ} where
  pub Guarantees-cas_loop :
      (n : ℕ) (attempt : M (Option A)) → Guarantees attempt → Guarantees (cas_loop n attempt)
  unfolding cas_loop
  Guarantees-cas_loop zero attempt g = Guarantees-pure none
  Guarantees-cas_loop (suc n) attempt g =
      Guarantees-bind attempt _ g (again (Guarantees-cas_loop n attempt g))
    where
      again :
          Guarantees (cas_loop n attempt)
          → (r : Option A)
          → Guarantees (elim r [ none ↦ cas_loop n attempt | some a ↦ pure (some a) ])
      again g' none = g'
      again g' (some a) = Guarantees-pure (some a)

  module _ (n : ℕ) (dag step : String) (decide : StepRecord → Decision A)
      (moves : (rec : StepRecord) → OnWrite rec (decide rec)) where
    pub Guarantees-try_step : Guarantees (try_step n dag step decide)
    unfolding try_step
    Guarantees-try_step =
        Guarantees-cas_loop n (attempt_step dag step decide)
          (Guarantees-attempt_step dag step decide moves)

    pub Guarantees-cas_step : Guarantees (cas_step n dag step decide)
    unfolding cas_step
    Guarantees-cas_step =
        Guarantees-bind (try_step n dag step decide) or_stale Guarantees-try_step
          Guarantees-or_stale

pub ruleset guarantee_rules = (
  Guarantees-pure, Guarantees-raise, Guarantees-call, Guarantees-read, Guarantees-catch,
  Guarantees-ignore, Guarantees-retry_on_stale, Guarantees-or_stale, Guarantees-publish,
  Guarantees-enqueue, Guarantees-time_now, Guarantees-bind, Guarantees-if,
)
