-- ===== src/Control/Message/Utf8.antt =====
-- A message of valid UTF-8 stays valid when it is cut.
use ebind.Base.{
  ℤ, pos, negsuc, ℕ, zero, suc, Bool, true, false, not, ◌&&◌, ◌||◌, List, [], ◌∷◌, ◌++◌, arith,
  length, all, leb, eqb, if◌then◌else◌, ◌≡◌, refl, ◌⊎◌, inl, inr, Bool-cases, sym, subst,
}
use ebind.Control.Message.{
  take, get_elem?, rune_start, starts_rune, rune_cut, ellipsis, truncate_at, truncate_error_message,
}

abbrev within : ℕ → ℕ → ℕ → Bool
within low high b = leb low b && leb b high

-- The byte sequences of one code point, by the table of RFC 3629.
unfoldable pub is_rune : List ℕ → Bool
is_rune (a ∷ []) = leb a 127
is_rune (a ∷ b ∷ []) = within 194 223 a && within 128 191 b
is_rune (a ∷ b ∷ c ∷ []) =
    within 128 191 c
    && ((eqb a 224 && within 160 191 b)
        || (within 225 236 a && within 128 191 b)
        || (eqb a 237 && within 128 159 b)
        || (within 238 239 a && within 128 191 b))
is_rune (a ∷ b ∷ c ∷ d ∷ []) =
    within 128 191 c
    && within 128 191 d
    && ((eqb a 240 && within 144 191 b)
        || (within 241 243 a && within 128 191 b)
        || (eqb a 244 && within 128 143 b))
is_rune _ = false

abbrev pub concat : List (List ℕ) → List ℕ
concat [] = []
concat (r ∷ rs) = r ++ concat rs

-- The bytes of a sequence of code points.
pub record IsUtf8 (s : List ℕ) : Type 0 where
  pub runes : List (List ℕ)
  pub valid : all is_rune runes ≡ true
  pub spelled : s ≡ concat runes

IsUtf8-nil : IsUtf8 []
IsUtf8-nil = record { runes = []; valid = refl; spelled = refl }

all-append :
    (xs ys : List (List ℕ))
    → all is_rune xs ≡ true
    → all is_rune ys ≡ true
    → all is_rune (xs ++ ys) ≡ true
all-append [] ys hx hy = hy
all-append (x ∷ xs) ys hx hy = ground (arith, all-append xs ys)

append_assoc : (xs ys zs : List ℕ) → (xs ++ ys) ++ zs ≡ xs ++ (ys ++ zs)
append_assoc [] ys zs = refl
append_assoc (x ∷ xs) ys zs = cc (append_assoc xs ys zs)

concat-append : (xs ys : List (List ℕ)) → concat (xs ++ ys) ≡ concat xs ++ concat ys
concat-append [] ys = refl
concat-append (x ∷ xs) ys = cc (concat-append xs ys, append_assoc x (concat xs) (concat ys))

IsUtf8-append : (s t : List ℕ) → IsUtf8 s → IsUtf8 t → IsUtf8 (s ++ t)
IsUtf8-append s t p q = record {
  runes = p.runes ++ q.runes;
  valid = all-append p.runes q.runes p.valid q.valid;
  spelled = cc (p.spelled, q.spelled, concat-append p.runes q.runes);
}

IsUtf8-ellipsis : IsUtf8 ellipsis
unfolding is_rune
IsUtf8-ellipsis = record { runes = ellipsis ∷ []; valid = refl; spelled = refl }

abbrev goes_on : ℕ → Bool
goes_on b = not (rune_start b)

-- After its first byte a code point has no byte that starts one.
rune_tail : (a : ℕ) (t : List ℕ) → is_rune (a ∷ t) ≡ true → all goes_on t ≡ true
unfolding is_rune
rune_tail a [] h = refl
rune_tail a (b ∷ []) h = ground arith
rune_tail a (b ∷ c ∷ []) h = ground arith
rune_tail a (b ∷ c ∷ d ∷ []) h = ground arith
rune_tail a (b ∷ c ∷ d ∷ e ∷ t) h = absurd (cc)

-- A cut before a byte that starts a code point is not inside of one.
past_tail :
    (t rest : List ℕ) (n : ℕ)
    → all goes_on t ≡ true
    → starts_rune (get_elem? (t ++ rest) n) ≡ true
    → (m : ℕ) × (take n (t ++ rest) ≡ t ++ take m rest) × (starts_rune (get_elem? rest m) ≡ true)
unfolding take get_elem?
past_tail [] rest n h e = (n, refl, e)
past_tail (b ∷ t) rest zero h e = absurd (ground arith)
past_tail (b ∷ t) rest (suc n) h e =
    let (m, taken, start) = past_tail t rest n (ground arith) e in (m, cc (taken), start)

cut_start :
    (s : List ℕ) (n : ℕ) → (rune_cut s n ≡ 0) ⊎ (starts_rune (get_elem? s (rune_cut s n)) ≡ true)
unfolding rune_cut
cut_start s zero = inl refl
cut_start s (suc n) = elim (Bool-cases (starts_rune (get_elem? s (suc n)))) [
  | inl start ↦ rw start (inr start)
  | inr inside ↦ rw inside (cut_start s n)
]

take-runes :
    (rs : List (List ℕ)) (n : ℕ)
    → all is_rune rs ≡ true
    → starts_rune (get_elem? (concat rs) n) ≡ true
    → IsUtf8 (take n (concat rs))
unfolding take get_elem? is_rune
take-runes [] n h e = absurd (cc)
take-runes ([] ∷ rs) n h e = absurd (cc)
take-runes ((a ∷ t) ∷ rs) zero h e = IsUtf8-nil
take-runes ((a ∷ t) ∷ rs) (suc n) h e =
    let (m, taken, start) = past_tail t (concat rs) n (rune_tail a t (ground arith)) e in
    let rest = take-runes rs m (ground arith) start in
    record {
      runes = (a ∷ t) ∷ rest.runes;
      valid = ground (arith, rest.valid);
      spelled = cc (taken, rest.spelled);
    }

cut-IsUtf8 : (s : List ℕ) (max : ℕ) → IsUtf8 s → IsUtf8 (take (rune_cut s max) s)
unfolding take
cut-IsUtf8 s max u = elim (cut_start s max) [
  | inl zero_cut ↦ rw zero_cut IsUtf8-nil
  | inr start ↦
      subst (λ t. IsUtf8 (take (rune_cut s max) t)) (sym u.spelled)
        (take-runes u.runes (rune_cut s max) u.valid
          (subst (λ t. starts_rune (get_elem? t (rune_cut s max)) ≡ true) u.spelled start))
]

truncate_at-IsUtf8 : (max : ℕ) (s : List ℕ) → IsUtf8 s → IsUtf8 (truncate_at max s)
truncate_at-IsUtf8 max s u = elim (Bool-cases (leb (length s) max)) [
  | inl fits ↦ rw fits u
  | inr long ↦ rw long (IsUtf8-append _ ellipsis (cut-IsUtf8 s max u) IsUtf8-ellipsis)
]

-- An error message of valid UTF-8 is valid UTF-8 after it is truncated, whatever the limit.
pub truncate-IsUtf8 : (s : List ℕ) (max : ℤ) → IsUtf8 s → IsUtf8 (truncate_error_message s max)
unfolding truncate_error_message
truncate-IsUtf8 s (negsuc n) u = IsUtf8-nil
truncate-IsUtf8 s (pos max) u = truncate_at-IsUtf8 (if eqb max 0 then 4096 else max) s u
