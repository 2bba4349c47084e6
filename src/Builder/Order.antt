-- ===== src/Builder/Order.antt =====
-- A list in which what a step waits on stands behind it rules out a cycle.
use ebind.Base.{
  ℕ, suc, ◌≤◌, ◌<◌, String, Bool, true, ◌&&◌, List, [], ◌∷◌, Map, contains, all, all-contains,
  length, arith, ◌≡◌, subst, sym, ◌==◌, eq_iff, Bool-cases, inl, inr, if◌then◌else◌,
}
use ebind.Builder.{Step, deps_of}

module _ (steps : Map Step) where
  -- Each step's dependencies stand behind it.
  abbrev pub is_ordered : List String → Bool
  is_ordered [] = true
  is_ordered (id ∷ ids) = all (contains ids) (deps_of steps id) && is_ordered ids

  -- `b` is waited on by `a`, directly or by way of other steps.
  pub data Waits : String → String → Type 0 where
    direct : {a b : String} → contains (deps_of steps a) b ≡ true → Waits a b
    via : {a b c : String} → contains (deps_of steps a) b ≡ true → Waits b c → Waits a c

-- The place of the last occurrence, counted from the end.
abbrev rank : String → List String → ℕ
rank x [] = 0
rank x (y ∷ ys) =
    let r = rank x ys in if contains ys x then r else if y == x then suc (length ys) else 0

rank-length : (x : String) (ys : List String) → rank x ys ≤ length ys
rank-length x [] = omega arith
rank-length x (y ∷ ys) = ground (arith, rank-length x ys)

module _ (steps : Map Step) where
  -- A step's dependency is listed, and further behind.
  rank-less :
      (ids : List String) (a b : String)
      → is_ordered steps ids ≡ true
      → contains ids a ≡ true
      → contains (deps_of steps a) b ≡ true
      → (contains ids b ≡ true) × (rank b ids < rank a ids)
  unfolding contains
  rank-less [] a b h m d = absurd (cc)
  rank-less (y ∷ ys) a b h m d = elim (Bool-cases (contains ys a)) [
    | inl behind ↦
        let (listed, less) = rank-less ys a b (ground arith) behind d in
        (ground arith, rw (listed, behind) less)
    | inr last ↦
        let same : y ≡ a = (eq_iff y a).0 (ground arith) in
        let listed : contains ys b ≡ true =
          all-contains (contains ys) (deps_of steps y) b (ground arith)
            (subst (λ x. contains (deps_of steps x) b ≡ true) (sym same) d) in
        (ground arith, ground (arith, rank-length b ys))
  ]

  Waits-rank :
      {a b : String} (ids : List String)
      → is_ordered steps ids ≡ true
      → contains ids a ≡ true
      → Waits steps a b
      → rank b ids < rank a ids
  Waits-rank {a} {b} ids h m (direct d) = (rank-less ids a b h m d).1
  Waits-rank {a} {b} ids h m (via {b = c} d rest) =
      let (listed, less) = rank-less ids a c h m d in
      omega (arith, less, Waits-rank ids h listed rest)

  pub not-Waits_on_self :
      (ids : List String) (a : String)
      → is_ordered steps ids ≡ true
      → contains ids a ≡ true
      → Waits steps a a
      → ⊥
  not-Waits_on_self ids a h m w = omega (arith, Waits-rank ids h m w)
