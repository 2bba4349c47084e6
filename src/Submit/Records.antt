-- ===== src/Submit/Records.antt =====
-- The records that `Submit` of workflow/dag.go creates while nobody else writes.
use ebind.Base.{
  ℕ, String, false, ◌==◌, Option, none, some, [], ◌∷◌, Map, UniqueKeys, lookup, arith, eq_iff, ◌≡◌,
  refl, if◌then◌else◌, Bool-cases, inl, inr, ◌∙◌,
}
use ebind.Types.{StepRecord, ok}
use ebind.Store.{MemEntry, MemStore, find_in}
use ebind.Store.Laws.{put_step_cas}
use ebind.Runtime.{World, pure, ◌>>=◌, call, time_now}
use ebind.Runtime.Alone.{alone, with_create, create-ok}
use ebind.Runtime.Rely.Rules.{signals-put_step}
use ebind.Builder.{Step}
use ebind.Submit.{Created, name_in, create_steps}
use ebind.Builder.Record.{record_of}

module _ (dag : String) (names : Map String) (now : ℕ) where
  abbrev pub new_rec : String → Step → StepRecord
  new_rec id s = record_of dag (name_in names id) now s

  unfoldable pub plan : Map Step → Created
  plan [] = []
  plan ((id, s) ∷ steps) = (id, (new_rec id s, 1)) ∷ plan steps

  unfoldable pub stored : Map Step → MemStore → MemStore
  stored [] st = st
  stored ((id, s) ∷ steps) st = stored steps (with_create dag id st (new_rec id s))

  abbrev pub as_entry : Option Step → String → Option MemEntry → Option MemEntry
  as_entry none id o = o
  as_entry (some s) id o = some (record { rec = new_rec id s; rev = 1 })

  -- No step of the DAG has a record yet.
  abbrev pub AllAbsent : Map Step → Map (Map MemEntry) → Type 0
  AllAbsent [] m = Unit {0}
  AllAbsent ((id, s) ∷ steps) m = (find_in dag id m ≡ none) × AllAbsent steps m

  create-other :
      (id d k : String) (st : MemStore) (rec : StepRecord)
      → id == k ≡ false
      → find_in d k (with_create dag id st rec).steps ≡ find_in d k st.steps
  create-other id d k st rec other = rw ((put_step_cas dag id st rec 0).1 d k) (ground arith)

  AllAbsent-create :
      (id : String) (st : MemStore) (rec : StepRecord) (steps : Map Step)
      → lookup id steps ≡ none
      → AllAbsent steps st.steps
      → AllAbsent steps (with_create dag id st rec).steps
  unfolding lookup
  AllAbsent-create id st rec [] new h = tt
  AllAbsent-create id st rec ((k, s) ∷ steps) new h = (
    create-other id dag k st rec (ground (arith, eq_iff id k, eq_iff k id)) ∙ h.0,
    AllAbsent-create id st rec steps (ground (arith)) h.1,
  )

  pub find_in-stored :
      (steps : Map Step) (st : MemStore)
      → UniqueKeys steps
      → AllAbsent steps st.steps
      → (d k : String)
      → find_in d k (stored steps st).steps ≡ (
          if dag == d
          then as_entry (lookup k steps) k (find_in d k st.steps)
          else find_in d k st.steps)
  unfolding stored lookup
  find_in-stored [] st u h d k = ground arith
  find_in-stored ((id, s) ∷ steps) st u h d k =
      let ih =
        find_in-stored steps (with_create dag id st (new_rec id s)) u.1
          (AllAbsent-create id st (new_rec id s) steps u.0 h.1) d k in
      elim (Bool-cases (id == k)) [
        | inl here ↦
            ground (
              arith,
              ih,
              eq_iff id k,
              eq_iff dag d,
              (put_step_cas dag id st (new_rec id s) 0).1 d k,
            )
        | inr away ↦ rw away (ih ∙ rw (create-other id d k st (new_rec id s) away) refl)
      ]

  pub signals-stored : (steps : Map Step) (st : MemStore) → (stored steps st).signals ≡ st.signals
  unfolding stored
  signals-stored [] st = refl
  signals-stored ((id, s) ∷ steps) st =
      signals-stored steps (with_create dag id st (new_rec id s))
      ∙ signals-put_step dag id st (new_rec id s) 0

module _ (dag : String) (names : Map String) where
  abbrev after_first : World → String → Step → World
  after_first w id s = record w {
    store = with_create dag id w.store (new_rec dag names w.clock id s);
  }

  create_first :
      (id : String) (s : Step) (steps : Map Step) (w : World)
      → find_in dag id w.store.steps ≡ none
      → create_steps dag names ((id, s) ∷ steps) (alone w)
        ≡ (create_steps dag names steps >>= λ created.
              pure ((id, (new_rec dag names w.clock id s, 1)) ∷ created))
            (alone (after_first w id s))
  unfolding create_steps call time_now
  create_first id s steps w absent =
      rw (create-ok dag id w.store (new_rec dag names w.clock id s) absent) refl

  pub create_steps_lem :
      (steps : Map Step) (w : World)
      → UniqueKeys steps
      → AllAbsent dag names w.clock steps w.store.steps
      → create_steps dag names steps (alone w) ≡ (
        ok (plan dag names w.clock steps),
        record w { store = stored dag names w.clock steps w.store; others = [] },
      )
  unfolding plan stored
  create_steps_lem [] w u h = unfold create_steps in refl
  create_steps_lem ((id, s) ∷ steps) w u h =
      rw
        (
          create_first id s steps w h.0,
          create_steps_lem steps (after_first w id s) u.1 (
              AllAbsent-create dag names w.clock id w.store (new_rec dag names w.clock id s) steps
                u.0 h.1),
        )
        refl
