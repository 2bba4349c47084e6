-- ===== src/Base/Sets.antt =====
-- Lists of texts as sets: membership, and removal of duplicates.
use Prim.Native.String.{String}
use mathlib.Core.Path.{◌≡◌, refl}
use mathlib.Core.Bool.{Bool, true, false, not, ◌&&◌}
use mathlib.Core.List.{List, [], ◌∷◌, ◌++◌}
use native.Mathlib.Omega.{arith}
use text.Mathlib.Text.{◌==◌}
use text.Mathlib.TextEquality.{eq_iff}
use text.Mathlib.TextPositions.{eq_refl}
use mathlib.Core.Logic.{inl, inr}
use ebind.Base.Tests.{all, Bool-cases, if◌then◌else◌}

-- `stringSliceContains(ss, x)` of workflow/state.go, and `slices.Contains`.
unfoldable pub contains : List String → String → Bool
contains [] x = false
contains (s ∷ ss) x = if s == x then true else contains ss x

-- The loop of `dedupeStrings`, with the texts that were seen so far.
unfoldable pub dedupe_from : List String → List String → List String
unfolding contains
dedupe_from seen [] = []
dedupe_from seen (s ∷ ss) =
    if contains seen s then dedupe_from seen ss else s ∷ dedupe_from (s ∷ seen) ss

-- A test that holds of a whole list holds of its members, and the other way round.
pub all-contains :
    (p : String → Bool) (xs : List String) (x : String)
    → all p xs ≡ true
    → contains xs x ≡ true
    → p x ≡ true
unfolding contains
all-contains p [] x h m = cc
all-contains p (y ∷ xs) x h m = elim (Bool-cases (y == x)) [
  | inl e ↦ rw (← (eq_iff y x).0 e) (ground arith)
  | inr ne ↦ all-contains p xs x (ground arith) (rw ne at m)
]

pub all_of_contains :
    (p : String → Bool) (xs : List String)
    → ((x : String) → contains xs x ≡ true → p x ≡ true)
    → all p xs ≡ true
unfolding contains
all_of_contains p [] h = refl
all_of_contains p (y ∷ xs) h =
    rw (h y (rw (eq_refl y))) (all_of_contains p xs (λ x m. h x (ground (arith))))

pub contains-append :
    (xs ys : List String) (k : String)
    → contains (xs ++ ys) k ≡ (if contains xs k then true else contains ys k)
unfolding contains
contains-append [] ys k = refl
contains-append (x ∷ xs) ys k = ground (arith, contains-append xs ys k)

-- What was not seen before is left once.
pub contains-dedupe_from :
    (seen ss : List String) (x : String)
    → contains (dedupe_from seen ss) x ≡ (contains ss x && not (contains seen x))
unfolding contains dedupe_from
contains-dedupe_from seen [] x = refl
contains-dedupe_from seen (s ∷ ss) x =
    ground (arith, eq_iff s x, contains-dedupe_from seen ss x, contains-dedupe_from (s ∷ seen) ss x)
