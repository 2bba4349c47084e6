-- ===== src/Contract/Races.antt =====
-- What follows from the contract for two PutStep of workflow/store_nats.go on one record.
use ebind.Nats.{Kv, Codec, step_key}
use ebind.Nats.Keys.{has_dot}
use ebind.Nats.Operations.{put_step}
use ebind.Contract.Bucket.{IsBucket}
use ebind.Contract.Nats.{nats, nats_view, nats-Contract}
use ebind.Base.{
  eqb, is_some, eq_refl, Option, false, ◌||◌, subst, ℕ, String, true, some, arith, ◌≡◌, refl, inl,
  inr,
}
use ebind.Types.{StepRecord, Result, ok}
use ebind.Contract.{Writes, Table, View, Contract, fits, Put, Done, is_due}

module _ {S I A : Type 0} (t : Table S I A) where
  Put-ok :
      {R : Type 0} (answer : ℕ → R) (i : I) (a : A) (expected : ℕ) (s : S) (o : Result R × S)
      (x : R)
      → Put t answer i a expected s o
      → o.0 ≡ ok x
      → (rev : ℕ) × Done t i a expected rev s o.1
  Put-ok answer i a expected s (r, s') x (inl (rev, e, done)) h = (rev, done)
  Put-ok answer i a expected s (r, s') x (inr (inl (e, refusal, kept))) h = cc
  Put-ok answer i a expected s (r, s') x (inr (inr (e, unsure))) h = cc

module _ {S Steps Metas Signals Results : Type 0} (w : Writes S)
    (v : View S Steps Metas Signals Results) (c : Contract w v)
    (same_refl : (i : String × String) → v.steps.same i i ≡ true) where
  -- Of two writers of one step with one expected revision, the second is refused once the first was
  -- let through.
  second_refused :
      (d k : String) (a b : StepRecord) (expected : ℕ) (s : S) (rev rev' : ℕ)
      → v.steps.is_known (d, k) ≡ true
      → (v.refuses_missing || is_due v.steps expected (d, k) s) ≡ true
      → (w.put_step d k a expected s).0 ≡ ok rev
      → ¬ ((w.put_step d k b expected (w.put_step d k a expected s).1).0 ≡ ok rev')
  second_refused d k a b expected s rev rev' known due first second =
      let s1 = (w.put_step d k a expected s).1 in
      let (r, (fresh, fit, wrote)) =
        Put-ok v.steps (λ n. n) (d, k) (v.of_step a) expected s (w.put_step d k a expected s) rev
          (c.step-put d k a expected s known due).0 first in
      let there : v.steps.at s1 (d, k) ≡ some (v.of_step a, r) =
        rw (wrote (d, k) known, same_refl (d, k)) refl in
      let (r', (fresh', fit', wrote')) =
        Put-ok v.steps (λ n. n) (d, k) (v.of_step b) expected s1 (w.put_step d k b expected s1) rev'
          (c.step-put d k b expected s1 known (rw there (ground arith))).0 second in
      let fit'' : fits expected (some (v.of_step a, r)) ≡ true =
        subst (λ o. fits expected o ≡ true) there fit' in
      ground (arith, fit'', fresh)

-- On a bucket whose client compares sequences at the leader, with base64 one-to-one, of two
-- PutStep of NatsStore for one step of a DAG whose identifier has no dot, one after the other
-- with the same expected revision, not both succeed, if that revision is 0 or the step is there.
pub one_writer_wins :
    {B Bytes : Type 0} (kv : Kv B Bytes) (c : Codec Bytes)
    (leader : B → String → Option (Bytes × ℕ)) (d k : String) (first second : StepRecord)
    (expected : ℕ) (b : B) (rev rev' : ℕ)
    → ((x y : String) → c.base64 x ≡ c.base64 y → x ≡ y)
    → IsBucket kv leader
    → has_dot d ≡ false
    → (eqb expected 0 || is_some (leader b (step_key d k))) ≡ true
    → (put_step kv c d k first expected b).0 ≡ ok rev
    → ¬ ((put_step kv c d k second expected (put_step kv c d k first expected b).1).0 ≡ ok rev')
one_writer_wins kv c leader d k first second expected b rev rev' inj law no_dot due =
    second_refused (nats kv c leader) (nats_view kv c leader) (nats-Contract kv c leader inj law)
      (λ (d', k'). ground (arith, eq_refl d', eq_refl k')) d k first second expected b rev rev'
      (ground arith) due
