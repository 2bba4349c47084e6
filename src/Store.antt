-- ===== src/Store.antt =====
-- workflow/store_mem.go: the in-memory StateStore, with compare-and-set by revisions. A method takes
-- the lock for its whole body, so it is one function on the store. The waiters of `WatchResult` are
-- not part of it.
pub mod Laws
use Prim.Native.Nat.{◌%◌, ◌^◌}
use ebind.Base.{
  ℕ, ◌+◌, String, Bool, true, false, not, ◌||◌, Option, none, some, List, [], ◌∷◌, Map, lookup,
  insert, remove, values, is_nil, is_some, eqb, if◌then◌else◌,
}
use ebind.Types.{
  Json, StepRecord, DagMeta, SignalRecord, Result, ok, err, dag_not_found, step_not_found,
  signal_not_found, stale_revision,
}

pub record MemEntry : Type 0 where
  pub rec : StepRecord
  pub rev : ℕ

pub record MemMetaEntry : Type 0 where
  pub meta : DagMeta
  pub rev : ℕ

pub record MemStore : Type 0 where
  pub steps : Map (Map MemEntry)
  pub results : Map (Map Json)
  pub metas : Map MemMetaEntry
  pub signals : Map (Map SignalRecord)

-- `NewMemStore`.
abbrev pub new_mem_store : MemStore
new_mem_store = record { steps = []; results = []; metas = []; signals = [] }

-- A revision is a uint64.
abbrev pub next_rev : ℕ → ℕ
next_rev rev = (rev + 1) % 18446744073709551616

module _ {ℓ} {V : Type ℓ} where
  -- `bucket[dagID][key]`, where either may be missing.
  unfoldable pub find_in : String → String → Map (Map V) → Option V
  unfolding lookup
  find_in dag key m = elim (lookup dag m) [ none ↦ none | some bucket ↦ lookup key bucket ]

  -- The bucket of a DAG, made if it is missing.
  unfoldable pub bucket_of : String → Map (Map V) → Map V
  unfolding lookup
  bucket_of dag m = elim (lookup dag m) [ none ↦ [] | some bucket ↦ bucket ]

  unfoldable pub put_in : String → String → V → Map (Map V) → Map (Map V)
  unfolding bucket_of insert
  put_in dag key v m = insert dag (insert key v (bucket_of dag m)) m

  abbrev drop_empty : String → Map V → Map (Map V) → Map (Map V)
  drop_empty dag [] m = remove dag m
  drop_empty dag (e ∷ bucket) m = insert dag (e ∷ bucket) m

  -- `delete(bucket, key)`, and the bucket with it once it is empty.
  unfoldable pub delete_in : String → String → Map (Map V) → Map (Map V)
  unfolding lookup insert remove
  delete_in dag key m = elim (lookup dag m) [
    | none ↦ m
    | some bucket ↦ drop_empty dag (remove key bucket) m
  ]

abbrev or_else {ℓ} : {A : Type ℓ} → Option A → Result A → Result A
or_else none r = r
or_else (some a) r = ok a

abbrev pub entry_pair : Option MemEntry → Result (StepRecord × ℕ)
entry_pair none = err step_not_found
entry_pair (some e) = ok (e.rec, e.rev)

module _ (dag step : String) (s : MemStore) where
  unfoldable pub get_step : Result (StepRecord × ℕ)
  unfolding find_in
  get_step = entry_pair (find_in dag step s.steps)

  abbrev write_entry : StepRecord → ℕ → Result ℕ × MemStore
  write_entry rec rev =
      (ok rev, record s { steps = put_in dag step (record { rec = rec; rev = rev }) s.steps })

  -- An empty bucket is made before the tests, and stays when they fail.
  abbrev refuse_entry : Result ℕ × MemStore
  refuse_entry =
      (err stale_revision, record s { steps = insert dag (bucket_of dag s.steps) s.steps })

  abbrev put_over : StepRecord → ℕ → Option MemEntry → Result ℕ × MemStore
  put_over rec expected none = if eqb expected 0 then write_entry rec 1 else refuse_entry
  put_over rec expected (some existing) =
      if eqb expected 0
      then refuse_entry
      else if eqb existing.rev expected
      then write_entry rec (next_rev existing.rev)
      else refuse_entry

  unfoldable pub put_step : StepRecord → ℕ → Result ℕ × MemStore
  unfolding find_in put_in bucket_of insert
  put_step rec expected = put_over rec expected (find_in dag step s.steps)

  unfoldable pub delete_step : MemStore
  unfolding delete_in
  delete_step = record s { steps = delete_in dag step s.steps }

  unfoldable pub get_result : Result Json
  unfolding find_in
  get_result = or_else (find_in dag step s.results) (err step_not_found)

  unfoldable pub put_result : Json → MemStore
  unfolding put_in
  put_result bytes = record s { results = put_in dag step bytes s.results }

  unfoldable pub delete_result : MemStore
  unfolding delete_in
  delete_result = record s { results = delete_in dag step s.results }

abbrev pub rec_of : List MemEntry → List StepRecord
rec_of [] = []
rec_of (e ∷ es) = e.rec ∷ rec_of es

abbrev pub meta_of : List MemMetaEntry → List DagMeta
meta_of [] = []
meta_of (e ∷ es) = e.meta ∷ meta_of es

abbrev meta_pair : Option MemMetaEntry → Result (DagMeta × ℕ)
meta_pair none = err dag_not_found
meta_pair (some e) = ok (e.meta, e.rev)

module _ (dag : String) (s : MemStore) where
  unfoldable pub list_steps : List StepRecord
  unfolding bucket_of values
  list_steps = rec_of (values (bucket_of dag s.steps))

  unfoldable pub get_meta : Result (DagMeta × ℕ)
  unfolding lookup
  get_meta = meta_pair (lookup dag s.metas)

  abbrev write_meta : DagMeta → ℕ → Result (Unit {0}) × MemStore
  write_meta meta rev =
      (ok tt, record s { metas = insert dag (record { meta = meta; rev = rev }) s.metas })

  abbrev put_meta_over : DagMeta → ℕ → Option MemMetaEntry → Result (Unit {0}) × MemStore
  put_meta_over meta expected none =
      if eqb expected 0 then write_meta meta 1 else (err stale_revision, s)
  put_meta_over meta expected (some existing) =
      if eqb expected 0
      then (err stale_revision, s)
      else if eqb existing.rev expected
      then write_meta meta (next_rev existing.rev)
      else (err stale_revision, s)

  unfoldable pub put_meta : DagMeta → ℕ → Result (Unit {0}) × MemStore
  unfolding lookup insert
  put_meta meta expected = put_meta_over meta expected (lookup dag s.metas)

  unfoldable pub delete_meta : MemStore
  unfolding remove
  delete_meta = record s { metas = remove dag s.metas }

  unfoldable pub get_signal : String → Result SignalRecord
  unfolding find_in
  get_signal name = or_else (find_in dag name s.signals) (err signal_not_found)

  -- The first write of a name wins. The bucket is made before the test.
  unfoldable pub put_signal : SignalRecord → Result (Unit {0}) × MemStore
  unfolding find_in put_in bucket_of insert
  put_signal rec =
      if is_some (find_in dag rec.name s.signals)
      then (
        err stale_revision,
        record s { signals = insert dag (bucket_of dag s.signals) s.signals },
      )
      else (ok tt, record s { signals = put_in dag rec.name rec s.signals })

  unfoldable pub list_signals : List SignalRecord
  unfolding bucket_of values
  list_signals = values (bucket_of dag s.signals)

  unfoldable pub delete_signal : String → MemStore
  unfolding delete_in
  delete_signal name = record s { signals = delete_in dag name s.signals }

unfoldable pub list_dags : MemStore → List DagMeta
unfolding values
list_dags s = meta_of (values s.metas)
