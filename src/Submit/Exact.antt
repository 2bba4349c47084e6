-- ===== src/Submit/Exact.antt =====
-- What the loop of `Submit` of workflow/dag.go over the roots leaves in the store, while nobody else writes.
use ebind.Base.{
  ℕ, String, true, false, ◌==◌, ◌&&◌, Option, none, some, [], ◌∷◌, Map, UniqueKeys, lookup, insert,
  arith, eq_iff, ◌≡◌, refl, if◌then◌else◌, Bool-cases, inl, inr, ◌∙◌, sym, ap, subst,
}
use ebind.Types.{DagMeta, status_eq, StepRecord, SignalRecord, Result, ok, err}
use ebind.Store.{MemStore, find_in}
use ebind.Runtime.{World, ◌>>=◌}
use ebind.Runtime.Alone.{alone}
use ebind.Builder.{Step}
use ebind.Submit.{Created, is_root, claim_root, claim_roots}
use ebind.Builder.Record.{record_of}
use ebind.Submit.Records.{new_rec}
use ebind.Submit.Roots.{
  OkOrRefused, OkOrRefused-continue, Wrote, Settled, claim_lem, root_outcome, rec_at,
}

module _ (meta : DagMeta) (sigs : Map SignalRecord) (names : Map String) (now : ℕ) where
  -- The record of a step once Submit is through.
  abbrev pub final_rec : String → Step → StepRecord
  final_rec id s =
      let rec = new_rec meta.id names now id s in
      if is_root s then root_outcome meta sigs now rec else rec

  abbrev pub as_final : Option Step → String → Option StepRecord → Option StepRecord
  as_final none k o = o
  as_final (some s) k o = some (final_rec k s)

module _ (meta : DagMeta) (sigs : Map SignalRecord) (names : Map String) (now : ℕ)
    (created : Created) where
  -- Each of the steps has its new record, and `created` tells of it.
  abbrev pub AllNew : Map Step → MemStore → Type 0
  AllNew [] st = Unit {0}
  AllNew ((id, s) ∷ steps) st =
      (find_in meta.id id st.steps
        ≡ some (record { rec = new_rec meta.id names now id s; rev = 1 }))
      × (lookup id created ≡ some (new_rec meta.id names now id s, 1))
      × AllNew steps st

  -- What the loop leaves, from what it found.
  abbrev pub Leaves : Map Step → World → World → Type 0
  Leaves steps w w' =
      (d k : String)
      → rec_at d k w'.store ≡ (
          if meta.id == d
          then as_final meta sigs names now (lookup k steps) k (rec_at d k w.store)
          else rec_at d k w.store)

  AllNew-other :
      (id : String) (cur : StepRecord) (steps : Map Step) (w w' : World)
      → Wrote meta.id id w cur w'
      → lookup id steps ≡ none
      → AllNew steps w.store
      → AllNew steps w'.store
  unfolding lookup
  AllNew-other id cur [] w w' wrote new all = tt
  AllNew-other id cur ((k, s) ∷ steps) w w' wrote new all = (
    wrote.3 meta.id k (ground (arith, eq_iff id k, eq_iff k id)) ∙ all.0,
    all.1,
    AllNew-other id cur steps w w' wrote (ground arith) all.2,
  )

  Leaves-step :
      (id : String) (s : Step) (cur : StepRecord) (steps : Map Step) (w w' w'' : World)
      → lookup id steps ≡ none
      → cur ≡ final_rec meta sigs names now id s
      → Wrote meta.id id w cur w'
      → Leaves steps w' w''
      → Leaves ((id, s) ∷ steps) w w''
  unfolding lookup
  Leaves-step id s cur steps w w' w'' new e wrote rest d k =
      elim (Bool-cases (meta.id == d && id == k)) [
        | inl hit ↦ ground (arith, rest d k, eq_iff meta.id d, eq_iff id k, wrote.2)
        | inr miss ↦ ground (arith, rest d k, eq_iff meta.id d, eq_iff id k, wrote.3 d k miss)
      ]

  opened :
      (id : String) (s : Step) (steps : Map Step) (recs : Map StepRecord) (w : World)
      → is_root s ≡ true
      → AllNew ((id, s) ∷ steps) w.store
      → claim_roots meta sigs created ((id, s) ∷ steps) recs (alone w)
        ≡ (claim_root 5 meta sigs recs id (new_rec meta.id names now id s) 1 >>= λ cur.
              claim_roots meta sigs created steps (insert id cur recs))
            (alone w)
  unfolding claim_roots
  opened id s steps recs w root all = rw (root, all.1) refl

  passed_over :
      (id : String) (s : Step) (steps : Map Step) (recs : Map StepRecord) (w : World)
      → is_root s ≡ false
      → claim_roots meta sigs created ((id, s) ∷ steps) recs (alone w)
        ≡ claim_roots meta sigs created steps recs (alone w)
  unfolding claim_roots
  passed_over id s steps recs w waits = rw waits refl

  pub claim_roots_lem :
      (steps : Map Step) (recs : Map StepRecord) (w : World)
      → w.clock ≡ now
      → UniqueKeys steps
      → AllNew steps w.store
      → OkOrRefused (λ u w'. Leaves steps w w') (claim_roots meta sigs created steps recs (alone w))
  unfolding lookup
  claim_roots_lem [] recs w e u all = unfold claim_roots in (λ d k. ground arith)
  claim_roots_lem ((id, s) ∷ steps) recs w e u all = elim (Bool-cases (is_root s)) [
    | inr waits ↦ rw (passed_over id s steps recs w waits) (
        weaken (claim_roots meta sigs created steps recs (alone w)) (alone w)
          (new_rec meta.id names now id s) (rw waits refl)
          (refl, refl, rw all.0 refl, λ d k other. refl) (claim_roots_lem steps recs w e u.1 all.2))
    | inl root ↦ rw (opened id s steps recs w root all) (
        OkOrRefused-continue (Settled meta sigs id w (new_rec meta.id names now id s) all.0)
          (λ u' w'. Leaves ((id, s) ∷ steps) w w')
          (claim_root 5 meta sigs recs id (new_rec meta.id names now id s) 1 (alone w))
          (λ cur. claim_roots meta sigs created steps (insert id cur recs))
          (claim_lem meta sigs id w (new_rec meta.id names now id s) all.0 recs
            (unfold record_of status_eq in refl))
          (λ cur w' (same, wrote).
            weaken (claim_roots meta sigs created steps (insert id cur recs) w') w' cur
              (same ∙ rw (root, e) refl) wrote
              (subst
                (λ v.
                  OkOrRefused (λ u' w''. Leaves steps w' w'')
                    (claim_roots meta sigs created steps (insert id cur recs) v))
                (ap (λ o. record w' { others = o }) (sym wrote.0))
                (claim_roots_lem steps (insert id cur recs) w' (wrote.1 ∙ e) u.1
                  (AllNew-other id cur steps w w' wrote u.0 all.2)))))
  ]
    where
      weaken :
          (r : Result (Unit {0}) × World) (w' : World) (cur : StepRecord)
          → cur ≡ final_rec meta sigs names now id s
          → Wrote meta.id id w cur w'
          → OkOrRefused (λ u' w''. Leaves steps w' w'') r
          → OkOrRefused (λ u' w''. Leaves ((id, s) ∷ steps) w w'') r
      weaken (ok u', w'') w' cur same wrote rest =
          Leaves-step id s cur steps w w' w'' u.0 same wrote rest
      weaken (err x, w'') w' cur same wrote rest = rest
