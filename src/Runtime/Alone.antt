-- ===== src/Runtime/Alone.antt =====
-- One call of an operation while nobody else writes: a create, and the publication of an event.
use ebind.Base.{ℕ, String, none, some, [], Bool-cases, inl, inr, arith, eq_refl, ◌≡◌, refl}
use ebind.Types.{StepRecord, Event, ok, err, stale_revision}
use ebind.Store.{MemEntry, MemStore, find_in, put_step}
use ebind.Store.Laws.{put_step_cas}
use ebind.Runtime.{World, publish, is_up}

-- Nobody else writes.
abbrev pub alone : World → World
alone w = record w { others = [] }

pub publish-alone :
    (e : Event) (w : World)
    → ((publish e (alone w)).1.store ≡ w.store)
      × (alone (publish e (alone w)).1 ≡ (publish e (alone w)).1)
unfolding publish
publish-alone e w = elim (Bool-cases (is_up w.bus_up)) [
  | inl up ↦ rw up (refl, refl)
  | inr down ↦ rw down (refl, refl)
]

module _ (dag id : String) (s : MemStore) (rec : StepRecord) where
  abbrev pub with_create : MemStore
  with_create = (put_step dag id s rec 0).1

  module _ (e : MemEntry) (found : find_in dag id s.steps ≡ some e) where
    pub create-stale : (put_step dag id s rec 0).0 ≡ err stale_revision
    create-stale = rw (put_step_cas dag id s rec 0).0 (ground (arith))

    pub create-same : (d k : String) → find_in d k with_create.steps ≡ find_in d k s.steps
    create-same d k = rw ((put_step_cas dag id s rec 0).1 d k) (ground arith)

  module _ (absent : find_in dag id s.steps ≡ none) where
    pub create-ok : (put_step dag id s rec 0).0 ≡ ok 1
    create-ok = rw (put_step_cas dag id s rec 0).0 (ground arith)

    pub create-new : find_in dag id with_create.steps ≡ some (record { rec = rec; rev = 1 })
    create-new =
        rw ((put_step_cas dag id s rec 0).1 dag id) (ground (arith, eq_refl dag, eq_refl id))

pub metas-put_step :
    (dag id : String) (s : MemStore) (rec : StepRecord) (rev : ℕ)
    → (put_step dag id s rec rev).1.metas ≡ s.metas
unfolding put_step
metas-put_step dag id s rec rev = ground arith
