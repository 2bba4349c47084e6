-- ===== src/Registry.antt =====
-- task/registry.go: the names of the handlers. What reflection tells of a function is a parameter.
use ebind.Base.{
  String, Bool, true, false, ◌==◌, Option, none, some, is_some, List, [], ◌∷◌, Map, lookup, insert,
  keys, contains, lookup-insert, arith, eq_iff, ◌≡◌, refl, inl, inr, Bool-cases, if◌then◌else◌,
  ◌||◌, ◌∙◌,
}

abbrev pub name_or : String → String → String
name_or name canonical = if name == "" then canonical else name

-- `Dispatcher`, for functions of the signatures that Register takes.
module _ {D : Type 0} where
  -- The loop over the aliases; whether it went through, and the registry.
  unfoldable pub add_aliases : List String → D → Map D → Bool × Map D
  unfolding lookup insert
  add_aliases [] d m = (true, m)
  add_aliases (a ∷ aliases) d m =
      let rest = add_aliases aliases d (insert a d m) in
      if is_some (lookup a m) then (false, m) else rest

  -- `Register`, on a function that is `none` where its signature is refused.
  unfoldable pub register : Option D → String → String → List String → Map D → Bool × Map D
  unfolding add_aliases lookup insert
  register none canonical name aliases m = (false, m)
  register (some d) canonical name aliases m =
      if is_some (lookup (name_or name canonical) m)
      then (false, m)
      else add_aliases aliases d (insert (name_or name canonical) d m)

  -- `Get`.
  abbrev pub get : String → Map D → Option D
  get name m = lookup name m

  -- `Names`.
  abbrev pub names : Map D → List String
  names m = keys m

  add_aliases_exact :
      (aliases : List String) (d : D) (m : Map D) (k : String)
      → (add_aliases aliases d m).0 ≡ true
      → lookup k (add_aliases aliases d m).1 ≡ (if contains aliases k then some d else lookup k m)
  unfolding add_aliases contains
  add_aliases_exact [] d m k went = refl
  add_aliases_exact (a ∷ aliases) d m k went = elim (Bool-cases (is_some (lookup a m))) [
    | inl taken ↦ absurd (ground (arith, rw taken at went))
    | inr free ↦ rw free (
        add_aliases_exact aliases d (insert a d m) k (rw free at went)
        ∙ ground (arith, lookup-insert a k d m))
  ]

  -- When Register answers no error, its name, or the canonical one where it is empty, and its
  -- aliases stand for the function, and every other name for what it stood for.
  pub register_exact :
      (d : D) (canonical name : String) (aliases : List String) (m : Map D) (k : String)
      → (register (some d) canonical name aliases m).0 ≡ true
      → lookup k (register (some d) canonical name aliases m).1
        ≡ (if name_or name canonical == k || contains aliases k then some d else lookup k m)
  unfolding register
  register_exact d canonical name aliases m k went =
      elim (Bool-cases (is_some (lookup (name_or name canonical) m))) [
        | inl taken ↦ absurd (ground (arith, rw taken at went))
        | inr free ↦ rw free (
            add_aliases_exact aliases d (insert (name_or name canonical) d m) k (rw free at went)
            ∙ ground (arith, lookup-insert (name_or name canonical) k d m))
      ]

  insert-keeps :
      (a k : String) (d : D) (m : Map D) {old : D}
      → is_some (lookup a m) ≡ false
      → lookup k m ≡ some old
      → lookup k (insert a d m) ≡ some old
  insert-keeps a k d m free h = lookup-insert a k d m ∙ ground (arith, h, free, (eq_iff a k).0)

  add_aliases-keeps :
      (aliases : List String) (d : D) (m : Map D) (k : String) {old : D}
      → lookup k m ≡ some old
      → lookup k (add_aliases aliases d m).1 ≡ some old
  unfolding add_aliases
  add_aliases-keeps [] d m k h = h
  add_aliases-keeps (a ∷ aliases) d m k h = elim (Bool-cases (is_some (lookup a m))) [
    | inl taken ↦ rw taken h
    | inr free ↦
        rw free (add_aliases-keeps aliases d (insert a d m) k (insert-keeps a k d m free h))
  ]

  -- A handler that is registered stays, also where Register answers an error.
  pub register-keeps :
      (d : D) (canonical name : String) (aliases : List String) (m : Map D) (k : String) {old : D}
      → lookup k m ≡ some old
      → lookup k (register (some d) canonical name aliases m).1 ≡ some old
  unfolding register
  register-keeps d canonical name aliases m k h =
      elim (Bool-cases (is_some (lookup (name_or name canonical) m))) [
        | inl taken ↦ rw taken h
        | inr free ↦ rw free (
            add_aliases-keeps aliases d (insert (name_or name canonical) d m) k
              (insert-keeps (name_or name canonical) k d m free h))
      ]
