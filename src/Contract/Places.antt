-- ===== src/Contract/Places.antt =====
-- The places of a record, as the keys of workflow/store_nats.go tell them apart.
use ebind.Base.{
  String, Bool, true, false, not, ◌&&◌, ◌==◌, arith, eq_iff, eq_refl, ◌≡◌, refl, sym, inl, inr,
  Bool-cases,
}
use ebind.Nats.{meta_key}
use ebind.Nats.Keys.{has_dot, meta_key-inj}
use ebind.Contract.Memory.{both}

both_ways : (a b : Bool) → (a ≡ true → b ≡ true) → (b ≡ true → a ≡ true) → a ≡ b
both_ways true b f g = sym (f refl)
both_ways false true f g = g refl
both_ways false false f g = refl

abbrev pub plain : String → Bool
plain d = not (has_dot d)

pub plain-no_dot : (d : String) → plain d ≡ true → has_dot d ≡ false
plain-no_dot d h = ground arith

pub apart_false : (a b : String) → ¬ (a ≡ b) → (a == b) ≡ false
apart_false a b h = elim (Bool-cases (a == b)) [
  | inl e ↦ absurd (h ((eq_iff a b).0 e))
  | inr ne ↦ ne
]

abbrev pub plain_pair : String × String → Bool
plain_pair (d, k) = plain d

abbrev pub pair_key : (String → String → String) → String × String → String
pair_key key (d, k) = key d k

-- Two places are the same just if their keys are.
module _ (key : String → String → String)
    (inj : (d d' k k' : String)
      → has_dot d ≡ false
      → has_dot d' ≡ false
      → key d k ≡ key d' k'
      → (d ≡ d') × (k ≡ k')) where
  pub pair_keys :
      (i j : String × String)
      → plain_pair i ≡ true
      → plain_pair j ≡ true
      → (pair_key key i == pair_key key j) ≡ both i j
  pair_keys (d, k) (d', k') p p' =
      both_ways (key d k == key d' k') (d == d' && k == k')
        (λ e.
          let (same_d, same_k) =
            inj d d' k k' (plain-no_dot d p) (plain-no_dot d' p')
              ((eq_iff (key d k) (key d' k')).0 e) in
          ground (arith, (eq_iff d d').1 same_d, (eq_iff k k').1 same_k))
        (λ e.
          let same_d = (eq_iff d d').0 (ground (arith, e)) in
          let same_k = (eq_iff k k').0 (ground (arith, e)) in
          rw (same_d, same_k) (eq_refl (key d' k')))

pub meta_keys :
    (d d' : String) → plain d ≡ true → plain d' ≡ true → (meta_key d == meta_key d') ≡ (d == d')
meta_keys d d' p p' =
    both_ways (meta_key d == meta_key d') (d == d')
      (λ e. (eq_iff d d').1 (
        meta_key-inj d d' (plain-no_dot d p) (plain-no_dot d' p')
          ((eq_iff (meta_key d) (meta_key d')).0 e)))
      (λ e. rw ((eq_iff d d').0 e) (eq_refl (meta_key d')))
