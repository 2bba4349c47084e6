-- ===== src/Builder/Cycles.antt =====
-- The search for cycles: an answer of no error rules a cycle out, and the search always answers.
pub mod Fuel
use ebind.Base.{
  ℕ, zero, suc, String, Bool, true, false, not, ◌&&◌, Option, none, some, is_some, List, [], ◌∷◌,
  Map, lookup, keys, contains, all, all-contains, length, arith, ◌≡◌, refl, ap, ◌∙◌, ◌==◌, eq_iff,
  eq_refl, Bool-cases, inl, inr, if◌then◌else◌,
}
use ebind.Types.{Result, ok, err}
use ebind.Builder.{
  Step, Search, search_on, visit_deps, deps_of, finish, visit, visit_all, detect_cycles,
}
use ebind.Builder.Order.{is_ordered, Waits, not-Waits_on_self}

module _ (steps : Map Step) where
  -- A search that ends has lost no finished step, keeps the order, and `P` holds of what is finished.
  abbrev Good : List String → (List String → Type 0) → Search → Type 0
  Good black P none = Unit {0}
  Good black P (some (err e)) = Unit {0}
  Good black P (some (ok black')) =
      (is_ordered steps black' ≡ true)
      × ((x : String) → contains black x ≡ true → contains black' x ≡ true)
      × P black'

  Good-search_on :
      (black : List String) (P Q : List String → Type 0) (r : Search) (f : List String → Search)
      → Good black P r
      → ((black' : List String)
          → is_ordered steps black' ≡ true
          → P black'
          → Good black' Q (f black'))
      → Good black Q (search_on r f)
  Good-search_on black P Q none f g h = tt
  Good-search_on black P Q (some (err e)) f g h = tt
  Good-search_on black P Q (some (ok black')) f (ordered, more, p) h =
      weaken (f black') (h black' ordered p)
    where
      weaken : (r : Search) → Good black' Q r → Good black Q r
      weaken none g = tt
      weaken (some (err e)) g = tt
      weaken (some (ok b)) (o, more', q) = (o, λ x m. more' x (more x m), q)

  -- What holds of a dependency as well.
  Good-also :
      (black : List String) (dep : String) (deps : List String) (r : Search)
      → contains black dep ≡ true
      → Good black (λ b. all (contains b) deps ≡ true) r
      → Good black (λ b. all (contains b) (dep ∷ deps) ≡ true) r
  Good-also black dep deps none m g = tt
  Good-also black dep deps (some (err e)) m g = tt
  Good-also black dep deps (some (ok b)) m (o, more, q) = (o, more, rw (more dep m) q)

  module _ (go : String → List String → Search)
      (good : (dep : String) (black : List String)
        → is_ordered steps black ≡ true
        → Good black (λ b. contains b dep ≡ true) (go dep black)) where
    Good-visit_deps :
        (gray deps black : List String)
        → is_ordered steps black ≡ true
        → Good black (λ b. all (contains b) deps ≡ true) (visit_deps go steps gray deps black)
    unfolding visit_deps
    Good-visit_deps gray [] black o = (o, (λ x m. m), refl)
    Good-visit_deps gray (dep ∷ deps) black o = elim (Bool-cases (contains black dep)) [
      | inl was ↦ rw was (Good-also black dep deps _ was (Good-visit_deps gray deps black o))
      | inr isnt ↦ elim (Bool-cases (contains gray dep)) [
        | inl looped ↦ rw (isnt, looped) tt
        | inr free ↦ elim (Bool-cases (is_some (lookup dep steps))) [
          | inr unknown ↦ rw (isnt, free, unknown) tt
          | inl known ↦
              rw (isnt, free, known)
                (Good-search_on black (λ b. contains b dep ≡ true) _ (go dep black) _
                  (good dep black o)
                  (λ b o' m. Good-also b dep deps _ m (Good-visit_deps gray deps b o')))
        ]
      ]
    ]

  Good-visit :
      (n : ℕ) (gray : List String) (id : String) (black : List String)
      → is_ordered steps black ≡ true
      → Good black (λ b. contains b id ≡ true) (visit n steps gray id black)
  unfolding visit contains
  Good-visit zero gray id black o = tt
  Good-visit (suc n) gray id black o =
      Good-search_on black (λ b. all (contains b) (deps_of steps id) ≡ true) _ _ (finish id)
        (Good-visit_deps (visit n steps (id ∷ gray)) (Good-visit n (id ∷ gray)) (id ∷ gray)
          (deps_of steps id) black o)
        (λ b o' m. (ground (arith, o', m), (λ x h. ground (arith, h)), ground (arith, eq_refl id)))

  Good-visit_all :
      (n : ℕ) (ids black : List String)
      → is_ordered steps black ≡ true
      → Good black (λ b. all (contains b) ids ≡ true) (visit_all n steps ids black)
  unfolding visit_all
  Good-visit_all n [] black o = (o, (λ x m. m), refl)
  Good-visit_all n (id ∷ ids) black o = elim (Bool-cases (contains black id)) [
    | inl was ↦ rw was (Good-also black id ids _ was (Good-visit_all n ids black o))
    | inr isnt ↦ rw isnt (
        Good-search_on black (λ b. contains b id ≡ true) _ (visit n steps [] id black) _
          (Good-visit n [] id black o)
          (λ b o' m. Good-also b id ids _ m (Good-visit_all n ids b o')))
  ]

pub contains-keys : (m : Map Step) (k : String) → contains (keys m) k ≡ is_some (lookup k m)
unfolding lookup keys contains
contains-keys [] k = refl
contains-keys ((j, t) ∷ m) k = ground (arith, contains-keys m k)

-- When detectCycles returns no error, no step of the DAG waits on itself, directly or by way of
-- other steps.
pub no_cycles :
    (steps : Map Step) (black : List String) (a : String) {s : Step}
    → detect_cycles steps ≡ some (ok black)
    → lookup a steps ≡ some s
    → ¬ Waits steps a a
unfolding detect_cycles
no_cycles steps black a found known =
    go (visit_all (length steps) steps (keys steps) [])
      (Good-visit_all steps (length steps) (keys steps) [] refl) found
  where
    go :
        (r : Search)
        → Good steps [] (λ b. all (contains b) (keys steps) ≡ true) r
        → r ≡ some (ok black)
        → Waits steps a a
        → ⊥
    go none g e = absurd (cc)
    go (some (err x)) g e = absurd (cc)
    go (some (ok b)) (o, more, every) e =
        not-Waits_on_self steps b a o (
          all-contains (contains b) (keys steps) a every (contains-keys steps a ∙ ap is_some known))
