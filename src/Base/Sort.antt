-- ===== src/Base/Sort.antt =====
-- The sorts of package sort, as an insertion sort. `sort.Slice` leaves the order of equal elements
-- open; here they keep theirs.
use Prim.Native.Nat.{Ordering}
use Prim.Native.String.{String, compare}
use mathlib.Core.Path.{◌≡◌, refl}
use mathlib.Core.Bool.{Bool, true, false}
use mathlib.Core.List.{List, [], ◌∷◌}
use native.Mathlib.Omega.{arith}
use text.Mathlib.Text.{◌==◌}
use ebind.Base.Tests.{any, if◌then◌else◌}
use ebind.Base.Sets.{contains}

-- `a < b` on texts.
abbrev pub text_less : String → String → Bool
text_less a b = elim (compare a b) [ Ordering.lt ↦ true | _ ↦ false ]

module _ {ℓ} {A : Type ℓ} (less : A → A → Bool) where
  unfoldable pub insert_sorted : A → List A → List A
  insert_sorted a [] = a ∷ []
  insert_sorted a (b ∷ bs) =
      let rest = insert_sorted a bs in if less b a then b ∷ rest else a ∷ b ∷ bs

  unfoldable pub sort_by : List A → List A
  unfolding insert_sorted
  sort_by [] = []
  sort_by (a ∷ xs) = insert_sorted a (sort_by xs)

  any-insert_sorted :
      (p : A → Bool) (a : A) (bs : List A)
      → any p (insert_sorted a bs) ≡ (if p a then true else any p bs)
  unfolding insert_sorted
  any-insert_sorted p a [] = refl
  any-insert_sorted p a (b ∷ bs) = ground (arith, any-insert_sorted p a bs)

  -- A sort keeps the elements.
  pub any-sort_by : (p : A → Bool) (xs : List A) → any p (sort_by xs) ≡ any p xs
  unfolding sort_by
  any-sort_by p [] = refl
  any-sort_by p (a ∷ xs) = ground (arith, any-insert_sorted p a (sort_by xs), any-sort_by p xs)

-- `sort.Strings`.
abbrev pub sort_strings : List String → List String
sort_strings = sort_by text_less

contains-any : (ss : List String) (x : String) → contains ss x ≡ any (λ s. s == x) ss
unfolding contains
contains-any [] x = refl
contains-any (s ∷ ss) x = ground (arith, contains-any ss x)

pub contains-sort_strings :
    (ss : List String) (x : String) → contains (sort_strings ss) x ≡ contains ss x
contains-sort_strings ss x = ground (
  arith,
  contains-any ss x,
  contains-any (sort_strings ss) x,
  any-sort_by text_less (λ s. s == x) ss,
)
