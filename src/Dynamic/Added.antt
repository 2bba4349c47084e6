-- ===== src/Dynamic/Added.antt =====
-- What `StepOpts` of workflow/context.go writes, and that a handler may be run again.
use ebind.Base.{
  ℕ, String, true, false, ◌==◌, none, some, List, [], ◌∷◌, ◌++◌, lookup, arith, eq_refl, ◌≡◌, refl,
  subst, ◌&&◌, contains-append, contains-dedupe_from, if◌then◌else◌, contains,
}
use ebind.Types.{step_added, DagStatus, StepRecord, ok, err, stale_revision, dag_status_eq}
use ebind.Wire.Args.{Arg}
use ebind.Store.{MemEntry, MemMetaEntry, MemStore, find_in, get_meta, get_step}
use ebind.Store.Laws.{put_step_cas}
use ebind.Runtime.{M, World, call, read, catch, publish, time_now}
use ebind.Runtime.Alone.{
  alone, publish-alone, with_create, create-stale, create-same, create-ok, create-new,
  metas-put_step,
}
use ebind.Control.Pause.{bare_event}
use ebind.Builder.{Step, required_deps, step_arg_deps}
use ebind.Builder.Options.{StepOption, apply_options, bare_step}
use ebind.Builder.Record.{record_of}
use ebind.Dynamic.{ContextDag, dynamic_step, create_dynamic, validated, step_opts}

module _ (c : ContextDag) (id fn : String) (s : Step) (w : World) where
  abbrev new_record : StepRecord
  new_record = record_of c.dag_id fn w.clock s

  abbrev then_store : MemStore
  then_store = with_create c.dag_id id w.store new_record

  already :
      (e : MemEntry)
      → find_in c.dag_id id w.store.steps ≡ some e
      → e.rec.fn_name == fn ≡ true
      → create_dynamic c id fn s (alone w) ≡ (ok s, record w { store = then_store; others = [] })
  unfolding call catch read get_step time_now record_of
  already e found same =
      rw
        (
          create-stale c.dag_id id w.store new_record e found,
          create-same c.dag_id id w.store new_record e found c.dag_id id,
          found,
          same,
        )
        refl

  -- The world after a create that went through, by what the bus does.
  abbrev announced : World
  announced =
      (publish (bare_event step_added c.dag_id id) (record w { store = then_store; others = [] })).1

  newly :
      find_in c.dag_id id w.store.steps ≡ none
      → create_dynamic c id fn s (alone w) ≡ (ok s, announced)
  unfolding call catch time_now publish
  newly absent = rw (create-ok c.dag_id id w.store new_record absent) refl

  refused :
      (e : MemEntry)
      → find_in c.dag_id id w.store.steps ≡ some e
      → e.rec.fn_name == fn ≡ false
      → create_dynamic c id fn s (alone w)
        ≡ (err stale_revision, record w { store = then_store; others = [] })
  unfolding call catch read get_step time_now record_of
  refused e found other =
      rw
        (
          create-stale c.dag_id id w.store new_record e found,
          create-same c.dag_id id w.store new_record e found c.dag_id id,
          found,
          other,
        )
        refl

  announced-alone : (announced.store ≡ then_store) × (alone announced ≡ announced)
  announced-alone =
      publish-alone (bare_event step_added c.dag_id id) (record w { store = then_store })

module _ (c : ContextDag) (id fn : String) (args : List Arg) (opts : List StepOption)
    (valid : validated (apply_options opts (bare_step id (some fn) args)) ≡ ok tt) where
  abbrev the_step : Step
  the_step = dynamic_step c id (some fn) args opts

  abbrev add : M Step
  add = step_opts c id (some fn) args opts

  reaches :
      (w : World) {m : MemMetaEntry}
      → lookup c.dag_id w.store.metas ≡ some m
      → dag_status_eq m.meta.status DagStatus.canceled ≡ false
      → add (alone w) ≡ create_dynamic c id fn the_step (alone w)
  unfolding step_opts read call get_meta
  reaches w known live = rw (known, live, valid) refl

  module _ (w : World) {m : MemMetaEntry} (known : lookup c.dag_id w.store.metas ≡ some m)
      (live : dag_status_eq m.meta.status DagStatus.canceled ≡ false)
      (absent : find_in c.dag_id id w.store.steps ≡ none) where
    first_run : add (alone w) ≡ (ok the_step, announced c id fn the_step w)
    first_run = rw (reaches w known live) (newly c id fn the_step w absent)

    abbrev once : World
    once = announced c id fn the_step w

    entry_there :
        find_in c.dag_id id once.store.steps
        ≡ some (record { rec = record_of c.dag_id fn w.clock the_step; rev = 1 })
    entry_there =
        rw (announced-alone c id fn the_step w).0
          (create-new c.dag_id id w.store (record_of c.dag_id fn w.clock the_step) absent)

    known_still : lookup c.dag_id once.store.metas ≡ some m
    known_still =
        rw
          (
            (announced-alone c id fn the_step w).0,
            metas-put_step c.dag_id id w.store (record_of c.dag_id fn w.clock the_step) 0,
          )
          known

    second_run :
        add once
        ≡ (ok the_step, record once { store = then_store c id fn the_step once; others = [] })
    second_run =
        subst
          (λ v.
            add v
            ≡ (ok the_step, record once { store = then_store c id fn the_step once; others = [] }))
          (announced-alone c id fn the_step w).1
          (rw (reaches once known_still live)
            (already c id fn the_step once _ entry_there (unfold record_of in eq_refl fn)))

    -- When nobody else writes, the DAG is known and not canceled, the options are valid and
    -- the step is not there, its addition by a running step writes just its record; the same
    -- addition made again right after also succeeds and changes no step record and publishes
    -- no event.
    pub added_once :
        let (r, w1) = add (alone w) in
        let (r', w2) = add w1 in
        (r ≡ ok the_step)
        × ((d k : String)
            → find_in d k w1.store.steps ≡ (
                if c.dag_id == d && id == k
                then some (record { rec = record_of c.dag_id fn w.clock the_step; rev = 1 })
                else find_in d k w.store.steps))
        × (r' ≡ ok the_step)
        × ((d k : String) → find_in d k w2.store.steps ≡ find_in d k w1.store.steps)
        × (w2.events ≡ w1.events)
    added_once =
        rw (first_run, second_run)
          ((
            refl,
            λ d k. rw (announced-alone c id fn the_step w).0 (
                ground (
                  arith,
                  (put_step_cas c.dag_id id w.store (record_of c.dag_id fn w.clock the_step) 0).1 d
                      k,
                )),
            refl,
            λ d k.
                create-same c.dag_id id once.store (record_of c.dag_id fn once.clock the_step) _
                  entry_there d k,
            refl,
          ))

-- A step that a running one adds waits on it.
pub waits_on_parent :
    (c : ContextDag) (id fn : String) (args : List Arg) (opts : List StepOption) (now : ℕ)
    → c.parent_step == "" ≡ false
    → contains
        (record_of c.dag_id fn now (dynamic_step c id (some fn) args opts)).deps
        c.parent_step
      ≡ true
unfolding record_of dynamic_step required_deps contains
waits_on_parent c id fn args opts now named =
    let s = apply_options opts (bare_step id (some fn) args) in
    rw named (
      ground (
        arith,
        contains-dedupe_from [] (step_arg_deps s.args ++ (s.after_deps ++ c.parent_step ∷ []))
            c.parent_step,
        contains-append (step_arg_deps s.args) (s.after_deps ++ c.parent_step ∷ []) c.parent_step,
        contains-append s.after_deps (c.parent_step ∷ []) c.parent_step,
        eq_refl c.parent_step,
      ))
