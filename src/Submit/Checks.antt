-- ===== src/Submit/Checks.antt =====
-- When `Submit` of workflow/dag.go refuses a DAG, and what a refusal leaves behind.
use ebind.Base.{
  String, none, some, List, Map, lookup, arith, ◌≡◌, refl, ◌⊎◌, inl, inr, if◌then◌else◌, contains,
}
use ebind.Types.{Err, Result, ok, err, stale_revision, bad_labels}
use ebind.Store.{MemMetaEntry, put_meta}
use ebind.Runtime.{World, call, time_now}
use ebind.Runtime.Alone.{alone}
use ebind.Builder.{Step, Search, detect_cycles}
use ebind.Builder.Options.{Dag}
use ebind.Builder.Order.{Waits}
use ebind.Builder.Cycles.{no_cycles}
use ebind.Submit.{describe_all, on_names, persist_dag, submit}
use ebind.Builder.Check.{and_then, search_result, check_steps, check}

search_ok : (r : Search) → search_result r ≡ ok tt → (black : List String) × (r ≡ some (ok black))
search_ok none h = cc
search_ok (some (err e)) h = cc
search_ok (some (ok black)) h = (black, refl)

Result-cases {ℓ} : {A : Type ℓ} (r : Result A) → ((e : Err) × (r ≡ err e)) ⊎ ((a : A) × (r ≡ ok a))
Result-cases (err e) = inl (e, refl)
Result-cases (ok a) = inr (a, refl)

and_then-ok : (a b : Result (Unit {0})) → and_then a b ≡ ok tt → a ≡ ok tt
and_then-ok (ok tt) b h = refl
and_then-ok (err e) b h = cc

check-searched :
    (active : List String) (d : Dag)
    → check active d ≡ ok tt
    → search_result (detect_cycles d.steps) ≡ ok tt
unfolding check
check-searched active d h = ground (
  arith,
  and_then-ok (search_result (detect_cycles d.steps)) (
      and_then (check_steps d.steps) (
        if contains active ""
        then err (bad_labels "")
        else if contains d.labels ""
        then err (bad_labels "")
        else ok tt)),
)

on_names-alone :
    (active : List String) (d : Dag) (names : Result (Map String)) (w : World) {m : MemMetaEntry}
    → lookup d.id w.store.metas ≡ some m
    → (e : Err) × (on_names active d names (alone w) ≡ (err e, alone w))
unfolding persist_dag put_meta time_now call
on_names-alone active d (err e) w taken = (e, refl)
on_names-alone active d (ok names) w taken = (stale_revision, rw taken refl)

-- Submit leaves the world as it was, or no step of the DAG waits on itself, directly or by way of
-- others.
pub submitted_acyclic :
    (active : List String) (d : Dag) (w : World)
    → ((submit active d w).0.1 ≡ w)
      ⊎ ((a : String) (s : Step) → lookup a d.steps ≡ some s → ¬ Waits d.steps a a)
unfolding submit
submitted_acyclic active d w = elim (Result-cases (check active d)) [
  | inl (e, h) ↦ inl (rw h refl)
  | inr (u, h) ↦
      let (black, answer) = search_ok (detect_cycles d.steps) (check-searched active d h) in
      inr (λ a s known. no_cycles d.steps black a answer known)
]

-- When nobody else writes and the store has a meta of the DAG already, Submit answers an error
-- and changes nothing.
pub taken_refused :
    (active : List String) (d : Dag) (w : World) {m : MemMetaEntry}
    → lookup d.id w.store.metas ≡ some m
    → (e : Err) × ((submit active d (alone w)).0 ≡ (err e, alone w))
unfolding submit
taken_refused active d w taken = elim (Result-cases (check active d)) [
  | inl (e, h) ↦ (e, rw h refl)
  | inr (u, h) ↦ rw h (on_names-alone active d (describe_all d.steps) w taken)
]
