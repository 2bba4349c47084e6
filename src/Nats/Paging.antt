-- ===== src/Nats/Paging.antt =====
-- The pages of subjects in workflow/store_nats.go end.
use ebind.Base.{
  eq_iff, sort_strings, ℕ, zero, suc, ◌+◌, ◌<◌, ◌≤◌, String, true, false, ◌||◌, Option, some, List,
  [], ◌∷◌, contains, length, all, eqb, leb, arith, ◌≡◌, refl, Bool-cases, inl, inr, if◌then◌else◌,
}
use ebind.Types.{Result, ok, err, nats_failed}
use ebind.Nats.{Reply, answered, refused, Page, Kv}
use ebind.Nats.Reads.{add_seen, on_page, subjects_from}

-- How many texts of a list are not seen yet.
unfoldable pub unseen : List String → List String → ℕ
unfolding contains
unseen [] seen = 0
unseen (x ∷ xs) seen = let rest = unseen xs seen in if contains seen x then rest else suc rest

unseen-grows : (xs seen : List String) (s : String) → unseen xs (s ∷ seen) ≤ unseen xs seen
unfolding unseen contains
unseen-grows [] seen s = ground arith
unseen-grows (x ∷ xs) seen s = ground (arith, unseen-grows xs seen s)

unseen-new :
    (xs seen : List String) (s : String)
    → contains xs s ≡ true
    → contains seen s ≡ false
    → unseen xs (s ∷ seen) < unseen xs seen
unfolding unseen contains
unseen-new [] seen s there new = cc
unseen-new (x ∷ xs) seen s there new =
    ground (arith, unseen-grows xs seen s, unseen-new xs seen s, eq_iff x s, eq_iff s x)

unseen-add_seen :
    (xs seen page : List String)
    → all (contains xs) page ≡ true
    → unseen xs (add_seen seen page) + length (add_seen seen page) ≤ unseen xs seen + length seen
unseen-add_seen xs seen [] inside = ground arith
unseen-add_seen xs seen (s ∷ page) inside = elim (Bool-cases (contains seen s)) [
  | inl old ↦ rw old (unseen-add_seen xs seen page (ground arith))
  | inr new ↦ rw new (ground (arith, unseen-add_seen xs (s ∷ seen) page, unseen-new xs seen s))
]

pub unseen_none : (xs : List String) → unseen xs [] ≤ length xs
unfolding unseen contains
unseen_none [] = ground arith
unseen_none (x ∷ xs) = ground (arith, unseen_none xs)

length-add_seen : (seen page : List String) → length seen ≤ length (add_seen seen page)
length-add_seen seen [] = ground arith
length-add_seen seen (s ∷ page) = elim (Bool-cases (contains seen s)) [
  | inl old ↦ rw old (length-add_seen seen page)
  | inr new ↦ rw new (ground (arith, length-add_seen (s ∷ seen) page))
]

-- The leader names no subject that is not known.
abbrev pub IsPaged : {B Bytes : Type 0} → Kv B Bytes → String → List String → Type 0
IsPaged {B = B} kv filter known =
    (offset : ℕ) (b b' : B) (p : Page)
    → kv.stream_info filter offset b ≡ (answered p, b')
    → all (contains known) p.subjects ≡ true

abbrev pub Answer : {B : Type 0} → Option (Result (List String) × B) → Type 0
Answer {B = B} o = (r : Result (List String) × B) × (o ≡ some r)

module _ {B Bytes : Type 0} (kv : Kv B Bytes) (filter : String) (known : List String)
    (pages : IsPaged kv filter known) where
  next :
      (n : ℕ) (seen : List String) (b : B) (r : Reply Page × B)
      → kv.stream_info filter (length seen) b ≡ r
      → unseen known seen < suc n
      → ((seen' : List String) (b' : B)
          → unseen known seen' < n
          → Answer (subjects_from kv n filter seen' b'))
      → Answer (on_page kv (subjects_from kv n filter) seen r)
  next n seen b (refused e, b') same h more = ((err nats_failed, b'), refl)
  next n seen b (answered p, b') same h more =
      let seen' = add_seen seen p.subjects in
      elim (Bool-cases (eqb (length seen') (length seen) || leb p.total (length seen'))) [
        | inl ends ↦ ((ok (sort_strings seen'), b'), rw ends refl)
        | inr goes_on ↦ rw goes_on (
            more seen' b' (
              ground (
                arith,
                unseen-add_seen known seen p.subjects (pages (length seen) b b' p same),
                length-add_seen seen p.subjects,
              )))
      ]

  pub subjects_from-answers :
      (n : ℕ) (seen : List String) (b : B)
      → unseen known seen < n
      → Answer (subjects_from kv n filter seen b)
  unfolding subjects_from
  subjects_from-answers zero seen b h = absurd (ground (arith, h))
  subjects_from-answers (suc n) seen b h =
      next n seen b (kv.stream_info filter (length seen) b) refl h (subjects_from-answers n)
