-- ===== src/Nats/Listing.antt =====
-- `listLive` of workflow/store_nats.go: it ends, and it leaves out no value that the leader has.
use Prim.Native.String.{◌++◌ as append}
use ebind.Base.{
  ℕ, ◌<◌, String, Bool, false, Option, none, some, List, [], ◌∷◌, length, arith, ◌≡◌, refl, ◌∙◌,
  sym, ap, Bool-cases, inl, inr,
}
use ebind.Types.{Result, ok, err}
use ebind.Nats.{
  key_not_found, key_exists, wrong_sequence, other_error, Reply, answered, refused, LastMessage, Kv,
  trim_prefix, subject_prefix,
}
use ebind.Nats.Reads.{
  subjects_from, live_of, last_answer, cons_answer, after_last, after_get, list_values,
  after_subjects, list_live,
}
use ebind.Nats.Paging.{IsPaged, Answer, subjects_from-answers, unseen_none}

-- What the leader answers of a key that a direct get misses, and that no call of these reads writes.
pub record IsRead {B Bytes : Type 0} (kv : Kv B Bytes) (live : String → B → Option Bytes)
    : Type 0 where
  pub get-keeps : (k k' : String) (b : B) → live k' (kv.get k b).1 ≡ live k' b
  pub last-keeps : (s k' : String) (b : B) → live k' (kv.last_for_subject s b).1 ≡ live k' b
  pub last-live :
      (s : String) (b : B) (m : LastMessage Bytes) (b' : B)
      → kv.last_for_subject s b ≡ (answered m, b')
      → live_of kv m ≡ live (trim_prefix s subject_prefix) b

-- A list of values against the subjects that it was made from: a subject is left out only if it does
-- not belong here, or the leader has no live value for it.
pub data Lists {Bytes : Type 0} (at : String → Option Bytes) (keep : String → Bool)
    : List String → List Bytes → Type 0 where
  over : Lists at keep [] []
  other :
      {s : String} {subjs : List String} {vs : List Bytes}
      → keep (trim_prefix s subject_prefix) ≡ false
      → Lists at keep subjs vs
      → Lists at keep (s ∷ subjs) vs
  gone :
      {s : String} {subjs : List String} {vs : List Bytes}
      → at (trim_prefix s subject_prefix) ≡ none
      → Lists at keep subjs vs
      → Lists at keep (s ∷ subjs) vs
  listed :
      {s : String} {v : Bytes} {subjs : List String} {vs : List Bytes}
      → Lists at keep subjs vs
      → Lists at keep (s ∷ subjs) (v ∷ vs)

-- The list that was made, if there is one.
abbrev pub Showing :
    {B Bytes : Type 0}
    → (String → Option Bytes)
    → (String → Bool)
    → List String
    → Result (List Bytes) × B
    → Type 0
Showing at keep subjs (ok vs, b) = Lists at keep subjs vs
Showing at keep subjs (err e, b) = Unit {0}

module _ {B Bytes : Type 0} (kv : Kv B Bytes) (live : String → B → Option Bytes)
    (reads : IsRead kv live) (keep : String → Bool) (at : String → Option Bytes) where
  abbrev Agrees : B → Type 0
  Agrees b = (k : String) → live k b ≡ at k

  abbrev Shows : List String → Result (List Bytes) × B → Type 0
  Shows = Showing at keep

  Shows-cons :
      (s : String) (v : Bytes) (subjs : List String) (r : Result (List Bytes) × B)
      → Shows subjs r
      → Shows (s ∷ subjs) (cons_answer kv v r)
  Shows-cons s v subjs (ok vs, b) h = listed h
  Shows-cons s v subjs (err e, b) h = tt

  Shows-other :
      (s : String) (subjs : List String) (r : Result (List Bytes) × B)
      → keep (trim_prefix s subject_prefix) ≡ false
      → Shows subjs r
      → Shows (s ∷ subjs) r
  Shows-other s subjs (ok vs, b) out h = other out h
  Shows-other s subjs (err e, b) out h = tt

  Shows-gone :
      (s : String) (subjs : List String) (r : Result (List Bytes) × B)
      → at (trim_prefix s subject_prefix) ≡ none
      → Shows subjs r
      → Shows (s ∷ subjs) r
  Shows-gone s subjs (ok vs, b) out h = gone out h
  Shows-gone s subjs (err e, b) out h = tt

  module _ (s : String) (subjs : List String) (rest : B → Result (List Bytes) × B)
      (ih : (b : B) → Agrees b → Shows subjs (rest b)) where
    asked :
        (b : B) (r : Reply (LastMessage Bytes) × B)
        → kv.last_for_subject s b ≡ r
        → Agrees b
        → Shows (s ∷ subjs) (after_last kv rest (last_answer kv r.0, r.1))
    asked b (refused e, b') same h = tt
    asked b (answered m, b') same h =
        told (live_of kv m) (reads.last-live s b m b' same ∙ h (trim_prefix s subject_prefix))
          (λ k. sym (ap (λ r. live k r.1) same) ∙ reads.last-keeps s k b ∙ h k)
      where
        told :
            (o : Option Bytes)
            → o ≡ at (trim_prefix s subject_prefix)
            → Agrees b'
            → Shows (s ∷ subjs) (after_last kv rest (ok o, b'))
        told none e h' = Shows-gone s subjs (rest b') (sym e) (ih b' h')
        told (some v) e h' = Shows-cons s v subjs (rest b') (ih b' h')

    got :
        (b : B) (r : Reply (Bytes × ℕ) × B) → Agrees r.1 → Shows (s ∷ subjs) (after_get kv s rest r)
    got b (answered (v, rev), b') h = Shows-cons s v subjs (rest b') (ih b' h)
    got b (refused key_not_found, b') h = asked b' (kv.last_for_subject s b') refl h
    got b (refused key_exists, b') h = tt
    got b (refused wrong_sequence, b') h = tt
    got b (refused other_error, b') h = tt

  pub list_values-Shows :
      (subjs : List String) (b : B) → Agrees b → Shows subjs (list_values kv keep subjs b)
  unfolding list_values
  list_values-Shows [] b h = over
  list_values-Shows (s ∷ subjs) b h =
      let key = trim_prefix s subject_prefix in
      elim (Bool-cases (keep key)) [
        | inl kept ↦ rw kept (
            got s subjs (list_values kv keep subjs) (list_values-Shows subjs) b (kv.get key b)
              (λ k. reads.get-keeps key k b ∙ h k))
        | inr out ↦
            rw out
              (Shows-other s subjs (list_values kv keep subjs b) out (list_values-Shows subjs b h))
      ]

module _ {B Bytes : Type 0} (kv : Kv B Bytes) (live : String → B → Option Bytes)
    (keep : String → Bool) where
  -- The list against the subjects that the leader named, or the error of its answer.
  abbrev pub ListsNamed : Option (Result (List String) × B) → Result (List Bytes) × B → Type 0
  ListsNamed none r = ⊥
  ListsNamed (some (err e, b)) r = r ≡ (err e, b)
  ListsNamed (some (ok subjs, b)) r = Showing (λ k. live k b) keep subjs r

  abbrev pub ListsAll :
      Option (Result (List String) × B) → Option (Result (List Bytes) × B) → Type 0
  ListsAll named o = (r : Result (List Bytes) × B) × (o ≡ some r) × ListsNamed named r

  all_listed :
      (named : Option (Result (List String) × B))
      → IsRead kv live
      → Answer named
      → ListsAll named (after_subjects kv keep named)
  all_listed none reads (r, e) = cc
  all_listed (some (err e, b)) reads answer = ((err e, b), refl, refl)
  all_listed (some (ok subjs, b)) reads answer = (
    list_values kv keep subjs b,
    refl,
    list_values-Shows kv live reads keep (λ k. live k b) subjs b (λ k. refl),
  )

  -- When the leader names only subjects of a given list, no read of these writes, and
  -- STREAM.MSG.GET tells what the leader has, then listLive ends within fuel of more than the
  -- length of that list: with the error of the request for the subjects, with another error, or
  -- with a list that leaves out a named subject only if its key is not asked for or the leader
  -- has no live value for it.
  pub list_live_complete :
      (n : ℕ) (pattern : String) (known : List String) (b : B)
      → IsRead kv live
      → IsPaged kv (append subject_prefix pattern) known
      → length known < n
      → ListsAll
          (subjects_from kv n (append subject_prefix pattern) [] b)
          (list_live kv n pattern keep b)
  unfolding list_live
  list_live_complete n pattern known b reads pages enough =
      all_listed (subjects_from kv n (append subject_prefix pattern) [] b) reads (
        subjects_from-answers kv (append subject_prefix pattern) known pages n [] b
          (ground (arith, unseen_none known)))
