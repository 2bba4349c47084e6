-- ===== src/Base/Maps.antt =====
-- Go's maps with string keys, as association lists. The order of the list stands for the order of
-- one `range` loop, which Go leaves open: a theorem about every list holds for every order.
use Prim.Native.String.{String}
use mathlib.Core.Path.{◌≡◌, refl}
use mathlib.Core.Bool.{Bool, true, false}
use mathlib.Core.Option.{Option, none, some}
use mathlib.Core.List.{List, [], ◌∷◌}
use native.Mathlib.Omega.{arith}
use text.Mathlib.Text.{◌==◌}
use text.Mathlib.TextEquality.{eq_iff}
use ebind.Base.Tests.{if◌then◌else◌, length, is_some}
use ebind.Base.Sets.{contains}

abbrev pub Map {ℓ} : Type ℓ → Type ℓ
Map V = List (String × V)

module _ {ℓ} {V : Type ℓ} where
  -- v, ok := m[k]
  unfoldable pub lookup : String → Map V → Option V
  lookup k [] = none
  lookup k ((j, v) ∷ m) = if j == k then some v else lookup k m

  -- m[k] = v
  unfoldable pub insert : String → V → Map V → Map V
  insert k v [] = (k, v) ∷ []
  insert k v ((head, old) ∷ rest) =
      let others = insert k v rest in if head == k then (head, v) ∷ rest else (head, old) ∷ others

  -- delete(m, k)
  unfoldable pub remove : String → Map V → Map V
  remove k [] = []
  remove k ((j, v) ∷ m) = let rest = remove k m in if j == k then rest else (j, v) ∷ rest

  unfoldable pub keys : Map V → List String
  keys [] = []
  keys ((k, v) ∷ m) = k ∷ keys m

  unfoldable pub values : Map V → List V
  values [] = []
  values ((k, v) ∷ m) = v ∷ values m

  -- The keys of the entries that pass a test: a `range` loop that appends to a list.
  unfoldable pub select : (V → Bool) → Map V → List String
  select p [] = []
  select p ((k, v) ∷ m) = let rest = select p m in if p v then k ∷ rest else rest

  pub lookup-insert :
      (k j : String) (v : V) (m : Map V)
      → lookup j (insert k v m) ≡ (if k == j then some v else lookup j m)
  unfolding lookup insert
  lookup-insert k j v [] = refl
  lookup-insert k j v ((head, old) ∷ rest) =
      ground (arith, lookup-insert k j v rest, eq_iff head k, eq_iff head j, eq_iff k j)

  pub lookup-remove :
      (k j : String) (m : Map V) → lookup j (remove k m) ≡ (if k == j then none else lookup j m)
  unfolding lookup remove
  lookup-remove k j [] = ground arith
  lookup-remove k j ((i, w) ∷ m) =
      ground (arith, eq_iff k j, eq_iff i k, eq_iff i j, lookup-remove k j m)

  pub keys-insert_old :
      (k : String) (v : V) (m : Map V) → is_some (lookup k m) ≡ true → keys (insert k v m) ≡ keys m
  unfolding lookup insert keys
  keys-insert_old k v [] h = ground arith
  keys-insert_old k v ((i, w) ∷ m) h = ground (arith, keys-insert_old k v m)

  pub length-insert_old :
      (k : String) (v : V) (m : Map V)
      → is_some (lookup k m) ≡ true
      → length (insert k v m) ≡ length m
  unfolding lookup insert
  length-insert_old k v [] h = ground arith
  length-insert_old k v ((i, w) ∷ m) h = ground (arith, length-insert_old k v m)

  -- No key stands twice: every list that stands for a Go map is so.
  abbrev pub UniqueKeys : Map V → Type ℓ
  UniqueKeys [] = Unit
  UniqueKeys ((k, v) ∷ m) = (lookup k m ≡ none) × UniqueKeys m

  abbrev pub passes : (V → Bool) → Option V → Bool
  passes p none = false
  passes p (some v) = p v

  select_absent :
      (p : V → Bool) (k : String) (m : Map V) → lookup k m ≡ none → contains (select p m) k ≡ false
  unfolding lookup select contains
  select_absent p k [] h = refl
  select_absent p k ((i, w) ∷ m) h = ground (arith, select_absent p k m)

  -- A `range` loop that filters finds just the keys whose record passes.
  pub select-contains :
      (p : V → Bool) (k : String) (m : Map V)
      → UniqueKeys m
      → contains (select p m) k ≡ passes p (lookup k m)
  unfolding lookup select contains
  select-contains p k [] u = refl
  select-contains p k ((i, w) ∷ m) u =
      ground (arith, eq_iff i k, select_absent p i m, select-contains p k m)

  pub lookup_of_select :
      (p : V → Bool) (k : String) (m : Map V)
      → UniqueKeys m
      → contains (select p m) k ≡ true
      → (v : V) × (lookup k m ≡ some v) × (p v ≡ true)
  lookup_of_select p k m u h = ground (arith, select-contains p k m u)

  pub insert-UniqueKeys :
      (k : String) (v : V) (m : Map V) → UniqueKeys m → UniqueKeys (insert k v m)
  unfolding lookup insert
  insert-UniqueKeys k v [] u = (refl, tt)
  insert-UniqueKeys k v ((i, w) ∷ m) u =
      ground (arith, eq_iff i k, eq_iff k i, lookup-insert k i v m, insert-UniqueKeys k v m)

  pub remove-UniqueKeys : (k : String) (m : Map V) → UniqueKeys m → UniqueKeys (remove k m)
  unfolding lookup remove
  remove-UniqueKeys k [] u = tt
  remove-UniqueKeys k ((i, w) ∷ m) u =
      ground (arith, eq_iff k i, lookup-remove k i m, remove-UniqueKeys k m)
