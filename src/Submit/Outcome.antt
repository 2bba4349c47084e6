-- ===== src/Submit/Outcome.antt =====
-- `Submit` of workflow/dag.go as a whole, while nobody else writes.
use ebind.Base.{
  ℕ, String, ◌==◌, none, some, List, [], ◌∷◌, Map, UniqueKeys, lookup, insert, arith, eq_iff,
  eq_refl, ◌≡◌, refl, if◌then◌else◌, Bool-cases, inl, inr, ◌∙◌, Option-cases,
}
use ebind.Types.{DagMeta, SignalRecord, Result, ok, err}
use ebind.Store.{MemStore, find_in, put_meta, list_signals}
use ebind.Runtime.{World, call, read, time_now}
use ebind.Runtime.Alone.{alone}
use ebind.Control.Signal.Report.{signal_map}
use ebind.Builder.{Step}
use ebind.Builder.Options.{Dag}
use ebind.Submit.{
  Created, describe_all, meta_of_dag, records, waits_on_signals, signal_snapshot, claim_roots,
  put_new_meta, persist_dag, submit,
}
use ebind.Builder.Check.{check}
use ebind.Submit.Records.{
  new_rec, plan, stored, AllAbsent, find_in-stored, signals-stored, create_steps_lem,
}
use ebind.Submit.Roots.{OkOrRefused, rec_at}
use ebind.Submit.Exact.{AllNew, as_final, Leaves, claim_roots_lem}

-- The signals that Submit reads.
abbrev pub snapshot : Dag → MemStore → Map SignalRecord
snapshot d s = if waits_on_signals d.steps then signal_map (list_signals d.id s) else []

signal_snapshot_lem :
    (dag : String) (steps : Map Step) (w : World)
    → signal_snapshot dag steps (alone w)
      ≡ (ok (if waits_on_signals steps then signal_map (list_signals dag w.store) else []), alone w)
unfolding signal_snapshot read call
signal_snapshot_lem dag steps w = elim (Bool-cases (waits_on_signals steps)) [
  | inl yes_waits ↦ rw yes_waits refl
  | inr no_waits ↦ rw no_waits refl
]

-- The store with the new meta.
abbrev with_meta : DagMeta → MemStore → MemStore
with_meta meta s = record s { metas = insert meta.id (record { meta = meta; rev = 1 }) s.metas }

put_new_meta_lem :
    (meta : DagMeta) (w : World)
    → lookup meta.id w.store.metas ≡ none
    → put_new_meta meta (alone w) ≡ (ok tt, alone (record w { store = with_meta meta w.store }))
unfolding call put_meta
put_new_meta_lem meta w absent = rw absent refl

module _ (meta : DagMeta) (names : Map String) (now : ℕ) where
  lookup-plan :
      (steps : Map Step) (k : String) (s : Step)
      → lookup k steps ≡ some s
      → lookup k (plan meta.id names now steps) ≡ some (new_rec meta.id names now k s, 1)
  unfolding plan lookup
  lookup-plan [] k s h = cc
  lookup-plan ((id, t) ∷ steps) k s h = ground (arith, eq_iff id k, lookup-plan steps k s)

  -- Each listed step has its new record after the creates.
  AllNew-part :
      (all part : Map Step) (st : MemStore)
      → UniqueKeys part
      → ((k : String) (s : Step) → lookup k part ≡ some s → lookup k all ≡ some s)
      → ((k : String) (s : Step)
          → lookup k all ≡ some s
          → find_in meta.id k st.steps
            ≡ some (record { rec = new_rec meta.id names now k s; rev = 1 }))
      → AllNew meta [] names now (plan meta.id names now all) part st
  unfolding lookup
  AllNew-part all [] st u inside have = tt
  AllNew-part all ((id, s) ∷ part) st u inside have = (
    have id s (inside id s (ground (arith, eq_refl id))),
    lookup-plan all id s (inside id s (ground (arith, eq_refl id))),
    AllNew-part all part st u.1 (λ k t h. inside k t (ground (arith, eq_iff id k))) have,
  )

abbrev pub the_meta : List String → Dag → World → DagMeta
the_meta active d w = meta_of_dag active w.clock d

-- What Submit leaves of the steps.
abbrev pub Submitted : List String → Dag → World → Map String → World → Type 0
Submitted active d w names w' =
    (dag k : String)
    → rec_at dag k w'.store ≡ (
        if d.id == dag
        then as_final (the_meta active d w) (snapshot d w.store) names w.clock (lookup k d.steps) k
            (rec_at dag k w.store)
        else rec_at dag k w.store)

module _ (active : List String) (d : Dag) (w : World) (names : Map String)
    (unique : UniqueKeys d.steps) (fresh : lookup d.id w.store.metas ≡ none)
    (absent : AllAbsent d.id names w.clock d.steps w.store.steps) where
  abbrev made_store : MemStore
  made_store = stored d.id names w.clock d.steps (with_meta (the_meta active d w) w.store)

  abbrev made : World
  made = record w { store = made_store; others = [] }

  abbrev the_plan : Created
  the_plan = plan d.id names w.clock d.steps

  same_signals : list_signals d.id made_store ≡ list_signals d.id w.store
  unfolding list_signals
  same_signals =
      rw (signals-stored d.id names w.clock d.steps (with_meta (the_meta active d w) w.store)) refl

  reduced :
      persist_dag active d names (alone w)
      ≡ claim_roots
          (the_meta active d w)
          (snapshot d w.store)
          the_plan
          d.steps
          (records the_plan)
          made
  unfolding persist_dag time_now
  reduced =
      rw
        (
          put_new_meta_lem (the_meta active d w) w fresh,
          create_steps_lem d.id names d.steps
              (record w { store = with_meta (the_meta active d w) w.store }) unique absent,
          signal_snapshot_lem d.id d.steps made,
          same_signals,
        )
        refl

  created_all :
      (k : String) (s : Step)
      → lookup k d.steps ≡ some s
      → find_in d.id k made_store.steps
        ≡ some (record { rec = new_rec d.id names w.clock k s; rev = 1 })
  created_all k s known =
      rw
        (
          find_in-stored d.id names w.clock d.steps (with_meta (the_meta active d w) w.store) unique
              absent d.id k,
          known,
        )
        (ground (arith, eq_refl d.id))

  before_claims :
      (dag k : String) → lookup k d.steps ≡ none → rec_at dag k made_store ≡ rec_at dag k w.store
  before_claims dag k unknown =
      rw
        (
          find_in-stored d.id names w.clock d.steps (with_meta (the_meta active d w) w.store) unique
              absent dag k,
          unknown,
        )
        (ground arith)

  Submitted-Leaves :
      (r : Result (Unit {0}) × World)
      → OkOrRefused
          (λ u w'.
            Leaves
              (the_meta active d w)
              (snapshot d w.store)
              names
              w.clock
              the_plan
              d.steps
              made
              w')
          r
      → OkOrRefused (λ u w'. Submitted active d w names w') r
  Submitted-Leaves (ok u, w') leaves = λ dag k. elim (Option-cases (lookup k d.steps)) [
    | inl unknown ↦ leaves dag k ∙ rw (unknown, before_claims dag k unknown) refl
    | inr (s, known) ↦ elim (Bool-cases (d.id == dag)) [
      | inl here ↦ leaves dag k ∙ rw (here, known) refl
      | inr away ↦
          leaves dag k
          ∙ rw
              (
                away,
                find_in-stored d.id names w.clock d.steps (with_meta (the_meta active d w) w.store)
                    unique absent dag k,
                away,
              )
              refl
    ]
  ]
  Submitted-Leaves (err e, w') leaves = leaves

  -- When nobody else writes, the identifiers of the steps are distinct, the checks pass, each
  -- function has a name, and the store has neither a meta of the DAG nor a record of one of its
  -- steps, then a Submit fails only with an error that the enqueue of a step answers, and a
  -- Submit that succeeds has stored a record for each step: one that waits on another step is
  -- pending; one that waits on none is marked as blocked at an armed before-breakpoint, pending
  -- where a signal it waits on is not delivered, and running with its starting time otherwise;
  -- all other step records are as they were.
  pub submit_exact :
      check active d ≡ ok tt
      → describe_all d.steps ≡ ok names
      → OkOrRefused (λ u w'. Submitted active d w names w') (submit active d (alone w)).0
  unfolding submit
  submit_exact passed described =
      rw (passed, described, reduced)
        (Submitted-Leaves _ (
          claim_roots_lem (the_meta active d w) (snapshot d w.store) names w.clock the_plan d.steps
            (records the_plan) made refl unique
            (AllNew-part (the_meta active d w) names w.clock d.steps d.steps made_store unique
              (λ k s known. known) created_all)))
