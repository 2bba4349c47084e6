-- ===== src/Store/Laws.antt =====
-- The store as a map from a DAG and a key to an entry, and compare-and-set.
use ebind.Base.{
  ℕ, String, Bool, true, false, not, ◌&&◌, Option, none, some, [], ◌∷◌, Map, lookup, insert, remove,
  is_some, eqb, if◌then◌else◌, lookup-insert, lookup-remove, arith, eq_iff, eq_refl, ◌==◌, ◌≡◌, ◌≢◌,
  Option-cases, inl, inr,
}
use ebind.Types.{StepRecord, SignalRecord, ok, err, stale_revision}
use ebind.Store.{
  MemEntry, MemStore, next_rev, find_in, bucket_of, put_in, delete_in, drop_empty, put_step,
  put_signal,
}

module _ {ℓ} {V : Type ℓ} where
  pub find_in-put_in :
      (dag key d k : String) (v : V) (m : Map (Map V))
      → find_in d k (put_in dag key v m)
        ≡ (if dag == d then (if key == k then some v else find_in d k m) else find_in d k m)
  unfolding find_in put_in bucket_of
  find_in-put_in dag key d k v m = ground (
    arith,
    eq_iff dag d,
    lookup-insert dag d (insert key v (bucket_of dag m)) m,
    lookup-insert key k v (bucket_of dag m),
  )

  -- A bucket that is made empty, or written back, changes no entry.
  pub find_in-touch :
      (dag d k : String) (m : Map (Map V))
      → find_in d k (insert dag (bucket_of dag m) m) ≡ find_in d k m
  unfolding find_in bucket_of lookup
  find_in-touch dag d k m = ground (arith, eq_iff dag d, lookup-insert dag d (bucket_of dag m) m)

  pub bucket-find_in :
      (dag k : String) (m : Map (Map V)) → lookup k (bucket_of dag m) ≡ find_in dag k m
  unfolding find_in bucket_of lookup
  bucket-find_in dag k m = ground arith

  find_in-drop_empty :
      (dag d k : String) (b : Map V) (m : Map (Map V))
      → find_in d k (drop_empty dag b m) ≡ (if dag == d then lookup k b else find_in d k m)
  unfolding find_in lookup
  find_in-drop_empty dag d k [] m = ground (arith, lookup-remove dag d m)
  find_in-drop_empty dag d k (e ∷ b) m = ground (arith, lookup-insert dag d (e ∷ b) m)

  pub find_in-delete_in :
      (dag key d k : String) (m : Map (Map V))
      → find_in d k (delete_in dag key m)
        ≡ (if dag == d then (if key == k then none else find_in d k m) else find_in d k m)
  unfolding delete_in find_in
  find_in-delete_in dag key d k m = elim (Option-cases (lookup dag m)) [
    | inl e ↦ ground (arith, eq_iff dag d)
    | inr (b, e) ↦
        ground
          (arith, eq_iff dag d, find_in-drop_empty dag d k (remove key b) m, lookup-remove key k b)
  ]

-- A write is accepted with revision 0 where nothing is, and else with the revision that is there.
abbrev pub accepts : ℕ → Option MemEntry → Bool
accepts expected none = eqb expected 0
accepts expected (some e) = not (eqb expected 0) && eqb e.rev expected

abbrev pub rev_after : Option MemEntry → ℕ
rev_after none = 1
rev_after (some e) = next_rev e.rev

-- PutStep in full: it succeeds just if the expected revision is 0 for a missing step or the
-- stored revision, answers the next revision, writes just the entry it names, and otherwise
-- answers that the revision is stale and changes no entry.
pub put_step_cas :
    (dag step : String) (s : MemStore) (rec : StepRecord) (expected : ℕ)
    → let old = find_in dag step s.steps in
      ((put_step dag step s rec expected).0
        ≡ (if accepts expected old then ok (rev_after old) else err stale_revision))
      × ((d k : String)
          → find_in d k (put_step dag step s rec expected).1.steps ≡ (
              if accepts expected old && (dag == d && step == k)
              then some (record { rec = rec; rev = rev_after old })
              else find_in d k s.steps))
unfolding put_step
put_step_cas dag step s rec expected = elim (Option-cases (find_in dag step s.steps)) [
  | inl e ↦ (
    ground arith,
    λ d k. ground (
      arith,
      find_in-touch dag d k s.steps,
      find_in-put_in dag step d k (record { rec = rec; rev = 1 }) s.steps,
    ),
  )
  | inr (o, e) ↦ (
    ground arith,
    λ d k. ground (
      arith,
      find_in-touch dag d k s.steps,
      find_in-put_in dag step d k (record { rec = rec; rev = next_rev o.rev }) s.steps,
    ),
  )
]

pub next_rev-ne : (n : ℕ) → next_rev n ≢ n
next_rev-ne n = omega arith

-- What a write that succeeds has done.
pub put_step-ok :
    (dag step : String) (s : MemStore) (rec : StepRecord) (expected : ℕ) {rev : ℕ}
    → (put_step dag step s rec expected).0 ≡ ok rev
    → (accepts expected (find_in dag step s.steps) ≡ true)
      × ((d k : String)
          → find_in d k (put_step dag step s rec expected).1.steps ≡ (
              if dag == d && step == k
              then some (record { rec = rec; rev = rev_after (find_in dag step s.steps) })
              else find_in d k s.steps))
put_step-ok dag step s rec expected h =
    let (answer, after) = put_step_cas dag step s rec expected in
    (ground arith, λ d k. ground (arith, after d k))

-- A revision that was used once is refused.
refused_after :
    (expected : ℕ) (old : Option MemEntry) (rec : StepRecord)
    → accepts expected old ≡ true
    → accepts expected (some (record { rec = rec; rev = rev_after old })) ≡ false
refused_after expected none rec h = ground arith
refused_after expected (some e) rec h = ground (arith, next_rev-ne e.rev)

-- Of two writers of a step that present one revision, when the first succeeds the second is
-- refused as stale.
pub put_step_race :
    (dag step : String) (s : MemStore) (a b : StepRecord) (expected : ℕ) {rev : ℕ}
    → (put_step dag step s a expected).0 ≡ ok rev
    → (put_step dag step (put_step dag step s a expected).1 b expected).0 ≡ err stale_revision
put_step_race dag step s a b expected h =
    let (taken, new) = put_step-ok dag step s a expected h in
    rw ((put_step_cas dag step (put_step dag step s a expected).1 b expected).0, new dag step)
      (ground
        (arith, eq_refl dag, eq_refl step, refused_after expected (find_in dag step s.steps) a))

-- PutSignal in full: the first record of a name in a DAG is stored and nothing else changes; a
-- later one is refused as stale and changes nothing.
pub put_signal_once :
    (dag : String) (s : MemStore) (rec : SignalRecord)
    → let old = find_in dag rec.name s.signals in
      ((put_signal dag s rec).0 ≡ (if is_some old then err stale_revision else ok tt))
      × ((d k : String)
          → find_in d k (put_signal dag s rec).1.signals ≡ (
              if not (is_some old) && (dag == d && rec.name == k)
              then some rec
              else find_in d k s.signals))
unfolding put_signal
put_signal_once dag s rec = (
  ground arith,
  λ d k.
      ground
        (arith, find_in-touch dag d k s.signals, find_in-put_in dag rec.name d k rec s.signals),
)
