-- ===== src/Runtime.antt =====
-- What the operations of package workflow run on: the store, the bus and the queue of tasks. Other
-- processes write to the store between any two calls of one operation. `others` lists what they do,
-- one function before each call, which may stand for many writes; when the list is used up nothing
-- interferes.
pub mod Rely
pub mod Runs
pub mod Alone
use ebind.Base.{
  ℕ, zero, suc, String, Bool, true, false, Option, none, some, List, [], ◌∷◌, ◌++◌, if◌then◌else◌,
}
use ebind.Types.{
  StepRecord, DagMeta, Event, Err, Result, ok, err, stale_revision, bus_down, queue_down, is_stale,
}
use mathlib.Core.Option
use ebind.Task.{Task}
use ebind.Store.{MemStore, get_step, put_step, get_meta, put_meta}

pub record World : Type 0 where
  pub store : MemStore
  pub others : List (MemStore → MemStore)
  pub events : List Event
  pub tasks : List Task
  -- whether the bus and the queue take the next messages; past the end they do
  pub bus_up : List Bool
  pub queue_up : List Bool
  -- what `time.Now` reads
  pub clock : ℕ

abbrev pub M {ℓ} : Type ℓ → Type ℓ
M A = World → Result A × World

module _ {ℓ} {A : Type ℓ} where
  abbrev pub pure : A → M A
  pure a w = (ok a, w)

  abbrev pub raise : Err → M A
  raise e w = (err e, w)

module _ {ℓ κ} {A : Type ℓ} {B : Type κ} where
  abbrev pub continue : Result A → (A → M B) → M B
  continue (ok a) f w = f a w
  continue (err e) f w = (err e, w)

  infixl 10 ◌>>=◌
  abbrev pub ◌>>=◌ : M A → (A → M B) → M B
  ◌>>=◌ m f w = let (r, w') = m w in continue r f w'

infixl 10 ◌>>◌
abbrev pub ◌>>◌ {ℓ} : {B : Type ℓ} → M (Unit {0}) → M B → M B
m >> n = m >>= λ _. n

-- The store as the next call finds it.
abbrev pub found_store : List (MemStore → MemStore) → MemStore → MemStore
found_store [] s = s
found_store (f ∷ fs) s = f s

abbrev pub later : List (MemStore → MemStore) → List (MemStore → MemStore)
later [] = []
later (f ∷ fs) = fs

module _ {ℓ} {A : Type ℓ} where
  unfoldable pub call : (MemStore → Result A × MemStore) → M A
  call f w =
      let (r, s) = f (found_store w.others w.store) in
      (r, record w { store = s; others = later w.others })

  unfoldable pub read : (MemStore → Result A) → M A
  unfolding call
  read f = call (λ s. (f s, s))

  -- The error as a value, for the code that looks at it.
  abbrev pub caught : Result A × World → Result (Result A) × World
  caught (r, w) = (ok r, w)

  unfoldable pub catch : M A → M (Result A)
  catch m w = caught (m w)

  abbrev pub stale_as_none : Result A × World → Result (Option A) × World
  stale_as_none (ok a, w) = (ok (some a), w)
  stale_as_none (err e, w) = if is_stale e then (ok none, w) else (err e, w)

  -- `errors.Is(err, ErrStaleRevision)` is none; another error is passed on.
  unfoldable pub retry_on_stale : M A → M (Option A)
  retry_on_stale m w = stale_as_none (m w)

  -- `for attempt := 0; attempt < n; attempt++`, with `none` when no attempt got through.
  unfoldable pub cas_loop : ℕ → M (Option A) → M (Option A)
  cas_loop zero attempt = pure none
  cas_loop (suc n) attempt =
      attempt >>= λ r. elim r [ none ↦ cas_loop n attempt | some a ↦ pure (some a) ]

  abbrev pub or_stale : Option A → M A
  or_stale none = raise stale_revision
  or_stale (some a) = pure a

abbrev pub ignore {ℓ} : {A : Type ℓ} → M A → M (Unit {0})
ignore m w = let (r, w') = m w in (ok tt, w')

abbrev pub rest_of : List Bool → List Bool
rest_of [] = []
rest_of (b ∷ bs) = bs

abbrev pub is_up : List Bool → Bool
is_up [] = true
is_up (b ∷ bs) = b

-- `publishEvent` of workflow/events.go on a bus that may refuse.
unfoldable pub publish : Event → M (Unit {0})
publish e w =
    if is_up w.bus_up
    then (ok tt, record w { events = w.events ++ e ∷ []; bus_up = rest_of w.bus_up })
    else (err bus_down, record w { bus_up = rest_of w.bus_up })

-- `Enqueuer.Enqueue`.
unfoldable pub enqueue : Task → M (Unit {0})
enqueue t w =
    if is_up w.queue_up
    then (ok tt, record w { tasks = w.tasks ++ t ∷ []; queue_up = rest_of w.queue_up })
    else (err queue_down, record w { queue_up = rest_of w.queue_up })

unfoldable pub time_now : M ℕ
time_now w = (ok w.clock, w)

-- What a compare-and-set loop does with the record that it read.
pub data Decision {ℓ} (A : Type ℓ) : Type ℓ where
  stop : A → Decision A
  refuse : Err → Decision A
  write : StepRecord → A → Decision A

module _ {ℓ} {A : Type ℓ} where
  abbrev pub act : String → String → ℕ → Decision A → M (Option A)
  act dag step rev (stop a) = pure (some a)
  act dag step rev (refuse e) = raise e
  act dag step rev (write rec a) =
      retry_on_stale (call (λ s. put_step dag step s rec rev)) >>= λ r. pure (Option.map (λ _. a) r)

  -- One attempt: read the record, decide, and write it back with the revision that was read.
  unfoldable pub attempt_step : String → String → (StepRecord → Decision A) → M (Option A)
  unfolding read call retry_on_stale
  attempt_step dag step decide =
      read (get_step dag step) >>= λ (rec, rev). act dag step rev (decide rec)

  -- The loop of `n` attempts.
  unfoldable pub try_step : ℕ → String → String → (StepRecord → Decision A) → M (Option A)
  unfolding cas_loop attempt_step
  try_step n dag step decide = cas_loop n (attempt_step dag step decide)

  -- The loop whose last line is `return ErrStaleRevision`.
  unfoldable pub cas_step : ℕ → String → String → (StepRecord → Decision A) → M A
  unfolding try_step
  cas_step n dag step decide = try_step n dag step decide >>= or_stale

-- The same for the record of a DAG, where the decision may read the store on its own.
pub data MetaDecision {ℓ} (A : Type ℓ) : Type ℓ where
  stop_meta : A → MetaDecision A
  refuse_meta : Err → MetaDecision A
  write_meta : DagMeta → A → MetaDecision A

module _ {ℓ} {A : Type ℓ} where
  abbrev pub act_meta : String → ℕ → MetaDecision A → M (Option A)
  act_meta dag rev (stop_meta a) = pure (some a)
  act_meta dag rev (refuse_meta e) = raise e
  act_meta dag rev (write_meta meta a) =
      retry_on_stale (call (λ s. put_meta dag s meta rev)) >>= λ r. pure (Option.map (λ _. a) r)

  unfoldable pub attempt_meta : String → (DagMeta → M (MetaDecision A)) → M (Option A)
  unfolding read call retry_on_stale
  attempt_meta dag decide = read (get_meta dag) >>= λ (meta, rev). decide meta >>= act_meta dag rev

  unfoldable pub cas_meta : ℕ → String → (DagMeta → M (MetaDecision A)) → M A
  unfolding cas_loop attempt_meta
  cas_meta n dag decide = cas_loop n (attempt_meta dag decide) >>= or_stale

-- `for _, x := range xs`, with the first error passed on.
unfoldable pub for_each {ℓ} : {A : Type ℓ} → (A → M (Unit {0})) → List A → M (Unit {0})
for_each f [] = pure tt
for_each f (x ∷ xs) = f x >> for_each f xs
