-- ===== src/Contract/Bucket.antt =====
-- The store of workflow/store_nats.go keeps the contract, on a bucket that compares sequences, for
-- DAGs whose identifiers have no dot.
use ebind.Base.{
  ℕ, String, Bool, true, false, ◌==◌, Option, is_some, eqb, ◌≡◌, refl, ◌∙◌, ap, ◌⊎◌, inl, inr,
}
use ebind.Types.{Result, ok, err, stale_revision, nats_failed}
use ebind.Nats.{
  key_exists, wrong_sequence, other_error, Reply, answered, refused, Kv, create_answer,
  update_answer,
}
use ebind.Contract.{Table, fits, Put, Done, Kept}

-- The keys of a bucket, as the leader of its stream has them.
abbrev pub keys : {B Bytes : Type 0} → (B → String → Option (Bytes × ℕ)) → Table B String Bytes
keys leader = record { at = leader; is_known = λ k. true; same = λ k k'. k == k' }

-- An answer to a write: done; refused by the sequence, with nothing written; or another error, after
-- which the value was written or not.
abbrev pub Stored :
    {B Bytes : Type 0}
    → (B → String → Option (Bytes × ℕ))
    → (Reply ℕ → Type 0)
    → String
    → Bytes
    → ℕ
    → B
    → Reply ℕ × B
    → Type 0
Stored leader IsStale k v expected b (r, b') =
    ((rev : ℕ) × (r ≡ answered rev) × Done (keys leader) k v expected rev b b')
    ⊎ (IsStale r × (fits expected (leader b k) ≡ false) × Kept (keys leader) b b')
    ⊎ ((r ≡ refused other_error)
        × (Kept (keys leader) b b' ⊎ ((rev : ℕ) × Done (keys leader) k v expected rev b b')))

abbrev pub CreateStale : Reply ℕ → Type 0
CreateStale r = (r ≡ refused key_exists) ⊎ (r ≡ refused wrong_sequence)

abbrev pub UpdateStale : Reply ℕ → Type 0
UpdateStale r = r ≡ refused wrong_sequence

-- What the calls of the client promise: a sequence is compared at the leader of the stream.
pub record IsBucket {B Bytes : Type 0} (kv : Kv B Bytes) (leader : B → String → Option (Bytes × ℕ))
    : Type 0 where
  pub create-stores :
      (k : String) (v : Bytes) (b : B) → Stored leader CreateStale k v 0 b (kv.create k v b)
  pub update-stores :
      (k : String) (v : Bytes) (expected : ℕ) (b : B)
      → eqb expected 0 ≡ false
      → is_some (leader b k) ≡ true
      → Stored leader UpdateStale k v expected b (kv.update k v expected b)

-- What the store answers for each reply.
pub record IsAnswer {R : Type 0} (IsStale : Reply ℕ → Type 0) (answer : Reply ℕ → Result R)
    (f : ℕ → R) : Type 0 where
  pub good : (rev : ℕ) → answer (answered rev) ≡ ok (f rev)
  pub stale : (q : Reply ℕ) → IsStale q → answer q ≡ err stale_revision
  pub odd : answer (refused other_error) ≡ err nats_failed

create_stale :
    {R : Type 0} (f : ℕ → R) (q : Reply ℕ) → CreateStale q → create_answer f q ≡ err stale_revision
create_stale f q (inl e) = ap (create_answer f) e
create_stale f q (inr e) = ap (create_answer f) e

pub create_answers : {R : Type 0} (f : ℕ → R) → IsAnswer CreateStale (create_answer f) f
create_answers f = record { good = λ rev. refl; stale = create_stale f; odd = refl }

pub update_answers : {R : Type 0} (f : ℕ → R) → IsAnswer UpdateStale (update_answer f) f
update_answers f = record { good = λ rev. refl; stale = λ q e. ap (update_answer f) e; odd = refl }

module _ {B Bytes : Type 0} (leader : B → String → Option (Bytes × ℕ)) where
  -- A table whose places are keys.
  abbrev pub keyed : {I : Type 0} → (I → String) → (I → Bool) → (I → I → Bool) → Table B I Bytes
  keyed key known same = record { at = λ b i. leader b (key i); is_known = known; same = same }

  module _ {I : Type 0} (key : I → String) (known : I → Bool) (same : I → I → Bool)
      (as_keys : (i j : I) → known i ≡ true → known j ≡ true → (key i == key j) ≡ same i j) where
    abbrev table : Table B I Bytes
    table = keyed key known same

    Done-keys :
        (i : I) (v : Bytes) (expected rev : ℕ) (b b' : B)
        → known i ≡ true
        → Done (keys leader) (key i) v expected rev b b'
        → Done table i v expected rev b b'
    Done-keys i v expected rev b b' k (fresh, fit, wrote) =
        (fresh, fit, λ j k'. wrote (key j) refl ∙ rw (as_keys i j k k') refl)

    pub Stored-Put :
        {R : Type 0} (IsStale : Reply ℕ → Type 0) (answer : Reply ℕ → Result R) (f : ℕ → R) (i : I)
        (v : Bytes) (expected : ℕ) (b : B) (r : Reply ℕ × B)
        → IsAnswer IsStale answer f
        → known i ≡ true
        → Stored leader IsStale (key i) v expected b r
        → Put table f i v expected b (answer r.0, r.1)
    Stored-Put IsStale answer f i v expected b (r, b') a k (inl (rev, e, done)) =
        inl (rev, ap answer e ∙ a.good rev, Done-keys i v expected rev b b' k done)
    Stored-Put IsStale answer f i v expected b (r, b') a k (inr (inl (stale, fit, kept))) =
        inr (inl (a.stale r stale, fit, λ j k'. kept (key j) refl))
    Stored-Put IsStale answer f i v expected b (r, b') a k (inr (inr (e, inl kept))) =
        inr (inr (ap answer e ∙ a.odd, inl (λ j k'. kept (key j) refl)))
    Stored-Put IsStale answer f i v expected b (r, b') a k (inr (inr (e, inr (rev, done)))) =
        inr (inr (ap answer e ∙ a.odd, inr (rev, Done-keys i v expected rev b b' k done)))

  -- A write under another key.
  pub Stored-Kept :
      {J : Type 0} (key : J → String) (known : J → Bool) (same : J → J → Bool)
      (IsStale : Reply ℕ → Type 0) (k : String) (v : Bytes) (expected : ℕ) (b : B) (r : Reply ℕ × B)
      → ((j : J) → known j ≡ true → (k == key j) ≡ false)
      → Stored leader IsStale k v expected b r
      → Kept (keyed key known same) b r.1
  Stored-Kept key known same IsStale k v expected b (r, b') apart
        (inl (rev, e, (fresh, fit, wrote))) =
      λ j kj. wrote (key j) refl ∙ rw (apart j kj) refl
  Stored-Kept key known same IsStale k v expected b (r, b') apart (inr (inl (stale, fit, kept))) =
      λ j kj. kept (key j) refl
  Stored-Kept key known same IsStale k v expected b (r, b') apart (inr (inr (e, inl kept))) =
      λ j kj. kept (key j) refl
  Stored-Kept key known same IsStale k v expected b (r, b') apart
        (inr (inr (e, inr (rev, (fresh, fit, wrote))))) =
      λ j kj. wrote (key j) refl ∙ rw (apart j kj) refl
