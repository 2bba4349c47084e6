-- ===== src/Runtime/Rely/Ensures/Loops.antt =====
-- What a loop over the steps of a DAG has done, from what each round has done.
use ebind.Base.{
  String, some, List, [], ◌∷◌, ◌≡◌, refl, subst, Map, lookup, values, ◌==◌, ◌∙◌, Bool-cases, inl,
  inr,
}
use ebind.Types.{Result, ok, err, StepRecord}
use ebind.Store.{MemEntry, MemStore, find_in, bucket_of, list_steps, rec_of}
use ebind.Store.Laws.{bucket-find_in}
use ebind.Runtime.{World, M, continue, for_each}
use ebind.Runtime.Rely.{Evolves, AllInterfere, Guarantees, Kept}
use ebind.Runtime.Rely.MetaRules.{Guarantees-for_each}

abbrev pub Each : {A : Type 0} → (A → MemStore → Type 0) → List A → MemStore → Type 0
Each Q [] s = Unit {0}
Each Q (x ∷ xs) s = Q x s × Each Q xs s

same_entry : {a b : MemEntry} → some a ≡ some b → a ≡ b
same_entry e = cc

-- What holds for each listed record holds for the record under each key.
pub Each-lookup :
    (Q : StepRecord → MemStore → Type 0) (m : Map MemEntry) (s : MemStore) (k : String)
    {e : MemEntry}
    → Each Q (rec_of (values m)) s
    → lookup k m ≡ some e
    → Q e.rec s
unfolding lookup values
Each-lookup Q [] s k each found = absurd (cc)
Each-lookup Q ((j, o) ∷ m) s k each found = elim (Bool-cases (j == k)) [
  | inl hit ↦ subst (λ (x : MemEntry). Q x.rec s) (same_entry (rw hit at found)) each.0
  | inr miss ↦ Each-lookup Q m s k each.1 (rw miss at found)
]

-- The same for a DAG's steps as the store lists them.
pub Each-list_steps :
    (Q : StepRecord → MemStore → Type 0) (dag : String) (listed s : MemStore) (k : String)
    {e : MemEntry}
    → Each Q (list_steps dag listed) s
    → find_in dag k listed.steps ≡ some e
    → Q e.rec s
unfolding list_steps
Each-list_steps Q dag listed s k each found =
    Each-lookup Q (bucket_of dag listed.steps) s k each (bucket-find_in dag k listed.steps ∙ found)

module _ {A : Type 0} (Q : A → MemStore → Type 0) (f : A → M (Unit {0}))
    (guarantees : (x : A) → Guarantees (f x))
    (stable : (x : A) (s s' : MemStore) → Evolves s s' → Q x s → Q x s')
    (establishes : (x : A) (w : World)
      → AllInterfere w.others
      → (f x w).0 ≡ ok tt
      → Q x (f x w).1.store) where
  -- A loop that ends without an error has done its work for every element.
  pub for_each-Each :
      (xs : List A) (w : World)
      → AllInterfere w.others
      → (for_each f xs w).0 ≡ ok tt
      → Each Q xs (for_each f xs w).1.store
  unfolding for_each
  for_each-Each [] w h e = tt
  for_each-Each (y ∷ xs) w h e =
      go (f y w) ((guarantees y).at w h) (establishes y w h) (for_each-Each xs) e
    where
      go :
          (r : Result (Unit {0}) × World)
          → Kept w.store r.1
          → (r.0 ≡ ok tt → Q y r.1.store)
          → ((w' : World)
              → AllInterfere w'.others
              → (for_each f xs w').0 ≡ ok tt
              → Each Q xs (for_each f xs w').1.store)
          → (continue r.0 (λ _. for_each f xs) r.1).0 ≡ ok tt
          → Each Q (y ∷ xs) (continue r.0 (λ _. for_each f xs) r.1).1.store
      go (ok u, w') k q rest done = (
        stable y w'.store _ ((Guarantees-for_each f xs guarantees).at w' k.1).0 (q refl),
        rest w' k.1 done,
      )
      go (err x, w') k q rest done = absurd (cc)
