-- ===== src/Builder/Cycles/Fuel.antt =====
-- The search has fuel for every step: a step on the way to the present one is not visited again.
use ebind.Base.{
  ℕ, zero, suc, ◌≤◌, ◌<◌, String, true, false, none, some, is_some, List, [], ◌∷◌, Map, lookup,
  keys, contains, all, length, arith, ◌≡◌, refl, sym, ◌∙◌, eq_iff, eq_refl, all_of_contains, ◌==◌,
  Bool-cases, inl, inr, if◌then◌else◌,
}
use ebind.Types.{ok, err}
use ebind.Builder.{
  Step, Search, search_on, visit_deps, deps_of, finish, visit, visit_all, detect_cycles,
}
use ebind.Builder.Cycles.{contains-keys}

abbrev white_count : List String → Map Step → ℕ
white_count gray [] = 0
white_count gray ((id, s) ∷ m) = let n = white_count gray m in if contains gray id then n else suc n

white_count-length : (gray : List String) (m : Map Step) → white_count gray m ≤ length m
white_count-length gray [] = omega arith
white_count-length gray ((id, s) ∷ m) = ground (arith, white_count-length gray m)

white_count-cons :
    (id : String) (gray : List String) (m : Map Step)
    → white_count (id ∷ gray) m ≤ white_count gray m
unfolding contains
white_count-cons id gray [] = omega arith
white_count-cons id gray ((j, s) ∷ m) = ground (arith, white_count-cons id gray m)

white_count-less :
    (id : String) (gray : List String) (m : Map Step)
    → is_some (lookup id m) ≡ true
    → contains gray id ≡ false
    → white_count (id ∷ gray) m < white_count gray m
unfolding lookup contains
white_count-less id gray [] known white = absurd (cc)
white_count-less id gray ((j, s) ∷ m) known white = elim (Bool-cases (j == id)) [
  | inl hit ↦
      rw ((eq_iff j id).0 hit) (rw (eq_refl id, white) (omega (arith, white_count-cons id gray m)))
  | inr miss ↦
      let rest = white_count-less id gray m (rw miss at known) white in ground (arith, rest)
]

search_on-answers :
    (r : Search) (f : List String → Search)
    → is_some r ≡ true
    → ((black : List String) → is_some (f black) ≡ true)
    → is_some (search_on r f) ≡ true
search_on-answers none f h g = absurd (cc)
search_on-answers (some (err e)) f h g = refl
search_on-answers (some (ok black)) f h g = g black

module _ (steps : Map Step) where
  visit_deps-answers :
      (go : String → List String → Search) (gray deps black : List String)
      → ((dep : String) (b : List String)
          → is_some (lookup dep steps) ≡ true
          → contains gray dep ≡ false
          → is_some (go dep b) ≡ true)
      → is_some (visit_deps go steps gray deps black) ≡ true
  unfolding visit_deps
  visit_deps-answers go gray [] black h = refl
  visit_deps-answers go gray (dep ∷ deps) black h = elim (Bool-cases (contains black dep)) [
    | inl was ↦ rw was (visit_deps-answers go gray deps black h)
    | inr isnt ↦ elim (Bool-cases (contains gray dep)) [
      | inl looped ↦ rw (isnt, looped) refl
      | inr free ↦ elim (Bool-cases (is_some (lookup dep steps))) [
        | inr unknown ↦ rw (isnt, free, unknown) refl
        | inl known ↦
            rw (isnt, free, known)
              (search_on-answers (go dep black) _ (h dep black known free)
                (λ b. visit_deps-answers go gray deps b h))
      ]
    ]
  ]

  visit-answers :
      (n : ℕ) (gray : List String) (id : String) (black : List String)
      → is_some (lookup id steps) ≡ true
      → contains gray id ≡ false
      → white_count gray steps ≤ n
      → is_some (visit n steps gray id black) ≡ true
  unfolding visit
  visit-answers zero gray id black known white enough =
      absurd (omega (arith, enough, white_count-less id gray steps known white))
  visit-answers (suc n) gray id black known white enough =
      search_on-answers _ (finish id)
        (visit_deps-answers (visit n steps (id ∷ gray)) (id ∷ gray) (deps_of steps id) black
          (λ dep b known' white'.
            visit-answers n (id ∷ gray) dep b known' white'
              (omega (arith, enough, white_count-less id gray steps known white))))
        (λ b. refl)

  visit_all-answers :
      (ids black : List String)
      → all (λ id. is_some (lookup id steps)) ids ≡ true
      → is_some (visit_all (length steps) steps ids black) ≡ true
  unfolding visit_all contains
  visit_all-answers [] black h = refl
  visit_all-answers (id ∷ ids) black h = elim (Bool-cases (contains black id)) [
    | inl was ↦ rw was (visit_all-answers ids black (ground arith))
    | inr isnt ↦ rw isnt (
        search_on-answers (visit (length steps) steps [] id black) _
          (visit-answers (length steps) [] id black (ground arith) refl
            (white_count-length [] steps))
          (λ b. visit_all-answers ids b (ground arith)))
  ]

-- The search for cycles ends within its fuel, whatever the steps, cyclic ones included.
pub cycles_answers : (steps : Map Step) → is_some (detect_cycles steps) ≡ true
unfolding detect_cycles
cycles_answers steps = visit_all-answers steps (keys steps) [] (
    all_of_contains (λ id. is_some (lookup id steps)) (keys steps)
      (λ id m. sym (contains-keys steps id) ∙ m))
