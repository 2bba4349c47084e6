-- ===== src/Control/Delete/Clears.antt =====
-- What DeleteDAG leaves in a store that nobody else writes to.
use ebind.Base.{
  String, none, List, [], ◌∷◌, Map, lookup, values, contains, is_some, ◌==◌, ◌&&◌, if◌then◌else◌,
  arith, ◌≡◌, refl, eq_iff, ap, ◌∙◌, lookup-remove, Option-cases, inl, inr,
}
use ebind.Types.{StepRecord, SignalRecord, ok}
use ebind.Store.{
  MemEntry, MemStore, find_in, bucket_of, rec_of, list_steps, list_signals, delete_in,
  delete_result, delete_step, delete_signal, delete_meta,
}
use ebind.Store.Laws.{find_in-delete_in, bucket-find_in}
use ebind.Runtime.{World, call, read, catch, for_each}
use ebind.Control.Delete.{delete_step_of, delete_signal_of, delete_dag}

module _ {V : Type 0} where
  unfoldable delete_keys : String → List String → Map (Map V) → Map (Map V)
  unfolding delete_in
  delete_keys dag [] m = m
  delete_keys dag (k ∷ ks) m = delete_keys dag ks (delete_in dag k m)

  find_in-delete_keys :
      (dag : String) (ks : List String) (d k : String) (m : Map (Map V))
      → find_in d k (delete_keys dag ks m)
        ≡ (if dag == d && contains ks k then none else find_in d k m)
  unfolding delete_keys contains
  find_in-delete_keys dag [] d k m = ground arith
  find_in-delete_keys dag (j ∷ ks) d k m =
      ground
        (arith, find_in-delete_keys dag ks d k (delete_in dag j m), find_in-delete_in dag j d k m)

abbrev pub step_ids : List StepRecord → List String
step_ids [] = []
step_ids (r ∷ rs) = r.step_id ∷ step_ids rs

abbrev pub signal_ids : List SignalRecord → List String
signal_ids [] = []
signal_ids (r ∷ rs) = r.name ∷ signal_ids rs

-- Each record stands under its own name.
abbrev pub KeyedSteps : Map MemEntry → Type 0
KeyedSteps [] = Unit {0}
KeyedSteps ((k, e) ∷ m) = (e.rec.step_id ≡ k) × KeyedSteps m

abbrev pub KeyedSignals : Map SignalRecord → Type 0
KeyedSignals [] = Unit {0}
KeyedSignals ((k, r) ∷ m) = (r.name ≡ k) × KeyedSignals m

contains-step_ids :
    (m : Map MemEntry) (k : String)
    → KeyedSteps m
    → contains (step_ids (rec_of (values m))) k ≡ is_some (lookup k m)
unfolding contains lookup values
contains-step_ids [] k keyed = refl
contains-step_ids ((j, e) ∷ m) k keyed = rw keyed.0 (ground (arith, contains-step_ids m k keyed.1))

contains-signal_ids :
    (m : Map SignalRecord) (k : String)
    → KeyedSignals m
    → contains (signal_ids (values m)) k ≡ is_some (lookup k m)
unfolding contains lookup values
contains-signal_ids [] k keyed = refl
contains-signal_ids ((j, r) ∷ m) k keyed =
    rw keyed.0 (ground (arith, contains-signal_ids m k keyed.1))

abbrev pub quiet : World → MemStore → World
quiet w s = record w { store = s; others = [] }

abbrev without_steps : String → List String → MemStore → MemStore
without_steps dag ks s = record s {
  steps = delete_keys dag ks s.steps;
  results = delete_keys dag ks s.results;
}

abbrev without_signals : String → List String → MemStore → MemStore
without_signals dag ks s = record s { signals = delete_keys dag ks s.signals }

steps_loop :
    (dag : String) (w : World) (rs : List StepRecord) (s : MemStore)
    → for_each (delete_step_of dag) rs (quiet w s)
      ≡ (ok tt, quiet w (without_steps dag (step_ids rs) s))
unfolding for_each delete_step_of call delete_result delete_step delete_keys
steps_loop dag w [] s = refl
steps_loop dag w (r ∷ rs) s =
    steps_loop dag w rs (delete_step dag r.step_id (delete_result dag r.step_id s))

signals_loop :
    (dag : String) (w : World) (rs : List SignalRecord) (s : MemStore)
    → for_each (delete_signal_of dag) rs (quiet w s)
      ≡ (ok tt, quiet w (without_signals dag (signal_ids rs) s))
unfolding for_each delete_signal_of call delete_signal delete_keys
signals_loop dag w [] s = refl
signals_loop dag w (r ∷ rs) s = signals_loop dag w rs (delete_signal dag s r.name)

-- The store without what is listed of the DAG.
abbrev cleared : String → MemStore → MemStore
cleared dag s = delete_meta dag (
    without_signals dag (signal_ids (list_signals dag s))
      (without_steps dag (step_ids (list_steps dag s)) s))

delete_dag_lem :
    (dag : String) (w : World) (s : MemStore)
    → delete_dag dag (quiet w s) ≡ (ok tt, quiet w (cleared dag s))
unfolding delete_dag read call catch list_signals
delete_dag_lem dag w s =
    rw
      (
        steps_loop dag w (list_steps dag s) s,
        signals_loop dag w (list_signals dag s) (without_steps dag (step_ids (list_steps dag s)) s),
      )
      refl

module _ (dag : String) (w : World) (s : MemStore) (steps : KeyedSteps (bucket_of dag s.steps))
    (signals : KeyedSignals (bucket_of dag s.signals)) where
  listed_steps :
      (k : String) → contains (step_ids (list_steps dag s)) k ≡ is_some (find_in dag k s.steps)
  unfolding list_steps
  listed_steps k =
      contains-step_ids (bucket_of dag s.steps) k steps ∙ ap is_some (bucket-find_in dag k s.steps)

  listed_signals :
      (k : String)
      → contains (signal_ids (list_signals dag s)) k ≡ is_some (find_in dag k s.signals)
  unfolding list_signals
  listed_signals k =
      contains-signal_ids (bucket_of dag s.signals) k signals
      ∙ ap is_some (bucket-find_in dag k s.signals)

  cleared_steps :
      (d k : String)
      → find_in d k (delete_keys dag (step_ids (list_steps dag s)) s.steps)
        ≡ (if dag == d then none else find_in d k s.steps)
  cleared_steps d k = elim (Option-cases (find_in d k s.steps)) [
    | inl absent ↦
        rw absent
          (ground (arith, find_in-delete_keys dag (step_ids (list_steps dag s)) d k s.steps))
    | inr (e, found) ↦ ground (
      arith,
      eq_iff dag d,
      listed_steps k,
      find_in-delete_keys dag (step_ids (list_steps dag s)) d k s.steps,
    )
  ]

  cleared_signals :
      (d k : String)
      → find_in d k (delete_keys dag (signal_ids (list_signals dag s)) s.signals)
        ≡ (if dag == d then none else find_in d k s.signals)
  cleared_signals d k = elim (Option-cases (find_in d k s.signals)) [
    | inl absent ↦
        rw absent
          (ground (arith, find_in-delete_keys dag (signal_ids (list_signals dag s)) d k s.signals))
    | inr (e, found) ↦ ground (
      arith,
      eq_iff dag d,
      listed_signals k,
      find_in-delete_keys dag (signal_ids (list_signals dag s)) d k s.signals,
    )
  ]

  -- DeleteDAG, with no other writer on a store whose records of that DAG stand under their own
  -- names, succeeds; it removes the steps, the signals and the meta of the DAG and the results
  -- of its steps, and leaves every other entry, those of other DAGs included, as it was.
  pub deletes_dag :
      let (answer, w') = delete_dag dag (quiet w s) in
      (answer ≡ ok tt)
      × ((d k : String)
          → find_in d k w'.store.steps ≡ (if dag == d then none else find_in d k s.steps))
      × ((d k : String)
          → find_in d k w'.store.results
            ≡ (if dag == d && is_some (find_in dag k s.steps) then none else find_in d k s.results))
      × ((d k : String)
          → find_in d k w'.store.signals ≡ (if dag == d then none else find_in d k s.signals))
      × ((d : String) → lookup d w'.store.metas ≡ (if dag == d then none else lookup d s.metas))
  unfolding delete_meta
  deletes_dag = rw (delete_dag_lem dag w s) (
      (
        refl,
        λ d k. cleared_steps d k,
        λ d k. ground (
          arith,
          listed_steps k,
          find_in-delete_keys dag (step_ids (list_steps dag s)) d k s.results,
        ),
        λ d k. cleared_signals d k,
        λ d. lookup-remove dag d s.metas,
      ))
