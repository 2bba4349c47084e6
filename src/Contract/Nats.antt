-- ===== src/Contract/Nats.antt =====
-- `NatsStore` of workflow/store_nats.go against the contract of workflow/store.go.
use ebind.Base.{ℕ, zero, suc, String, true, false, ◌==◌, Option, eqb, arith, ◌≡◌, sym}
use ebind.Types.{StepRecord, DagMeta, Result}
use ebind.Nats.{Reply, Kv, Codec, meta_key, step_key, result_key, create_answer, update_answer}
use ebind.Nats.Operations.{signal_key, put_step, put_meta, put_signal}
use ebind.Nats.Keys.{
  result-meta-apart, result-step-apart, result-signal-apart, has_dot, step_key-inj, signal_key-inj,
  step-meta-apart, signal-meta-apart, step-signal-apart,
}
use ebind.Contract.{Writes, View, Contract, Put, Kept, is_due}
use ebind.Contract.Memory.{both}
use ebind.Contract.Bucket.{
  Stored, CreateStale, UpdateStale, IsBucket, IsAnswer, create_answers, update_answers, keyed,
  Stored-Put, Stored-Kept,
}
use ebind.Contract.Places.{
  plain, plain-no_dot, apart_false, plain_pair, pair_key, pair_keys, meta_keys,
}

suc_not : (n : ℕ) → eqb (suc n) 0 ≡ false
suc_not n = ground arith

module _ {B Bytes : Type 0} (kv : Kv B Bytes) (c : Codec Bytes)
    (leader : B → String → Option (Bytes × ℕ)) where
  abbrev pub nats : Writes B
  nats = record { put_step = put_step kv c; put_meta = put_meta kv c; put_signal = put_signal kv c }

  abbrev of_signal_key : String → String → String
  of_signal_key d k = signal_key kv c d k

  abbrev pub nats_view : View B Bytes Bytes Bytes Bytes
  nats_view = record {
    of_step = c.of_step;
    of_meta = c.of_meta;
    of_signal = c.of_signal;
    steps = keyed leader (pair_key step_key) plain_pair both;
    metas = keyed leader meta_key plain (λ d d'. d == d');
    signals = keyed leader (pair_key of_signal_key) plain_pair both;
    results = keyed leader (pair_key result_key) plain_pair both;
    refuses_missing = false;
  }

  module _ (base64-inj : (a b : String) → c.base64 a ≡ c.base64 b → a ≡ b) where
    signal_inj :
        (d d' k k' : String)
        → has_dot d ≡ false
        → has_dot d' ≡ false
        → of_signal_key d k ≡ of_signal_key d' k'
        → (d ≡ d') × (k ≡ k')
    signal_inj d d' k k' n n' e =
        let (same_d, same_t) = signal_key-inj d d' n n' (c.base64 k) (c.base64 k') e in
        (same_d, base64-inj k k' same_t)

    module _ {R : Type 0} (IsStale : Reply ℕ → Type 0) (answer : Reply ℕ → Result R) (f : ℕ → R)
        (a : IsAnswer IsStale answer f) (v : Bytes) (expected : ℕ) (b : B) (r : Reply ℕ × B)
        (d : String) (p : plain d ≡ true) where
      step_out :
          (k : String)
          → Stored leader IsStale (step_key d k) v expected b r
          → Put nats_view.steps f (d, k) v expected b (answer r.0, r.1)
            × Kept nats_view.metas b r.1
            × Kept nats_view.signals b r.1
            × Kept nats_view.results b r.1
      step_out k out = (
        Stored-Put leader (pair_key step_key) plain_pair both
            (pair_keys step_key (λ d d' k k' n n'. step_key-inj d d' n n' k k')) IsStale answer f
            (d, k) v expected b r a p out,
        Stored-Kept leader meta_key plain (λ d d'. d == d') IsStale (step_key d k) v expected b r
            (λ d' p'.
              apart_false (step_key d k) (meta_key d')
                (step-meta-apart d d' (plain-no_dot d p) (plain-no_dot d' p') k))
            out,
        Stored-Kept leader (pair_key of_signal_key) plain_pair both IsStale (step_key d k) v
            expected b r
            (λ (d', t) p'.
              apart_false (step_key d k) (of_signal_key d' t)
                (step-signal-apart d d' (plain-no_dot d p) (plain-no_dot d' p') k (c.base64 t)))
            out,
        Stored-Kept leader (pair_key result_key) plain_pair both IsStale (step_key d k) v expected b
            r
            (λ (d', j) p'.
              apart_false (step_key d k) (result_key d' j)
                (λ e. result-step-apart d' d (plain-no_dot d' p') (plain-no_dot d p) j k (sym e)))
            out,
      )

      meta_out :
          Stored leader IsStale (meta_key d) v expected b r
          → Put nats_view.metas f d v expected b (answer r.0, r.1)
            × Kept nats_view.steps b r.1
            × Kept nats_view.signals b r.1
            × Kept nats_view.results b r.1
      meta_out out = (
        Stored-Put leader meta_key plain (λ d d'. d == d') meta_keys IsStale answer f d v expected b
            r a p out,
        Stored-Kept leader (pair_key step_key) plain_pair both IsStale (meta_key d) v expected b r
            (λ (d', k) p'.
              apart_false (meta_key d) (step_key d' k)
                (λ e. step-meta-apart d' d (plain-no_dot d' p') (plain-no_dot d p) k (sym e)))
            out,
        Stored-Kept leader (pair_key of_signal_key) plain_pair both IsStale (meta_key d) v expected
            b r
            (λ (d', t) p'. apart_false (meta_key d) (of_signal_key d' t) (λ e.
              signal-meta-apart d' d (plain-no_dot d' p') (plain-no_dot d p) (c.base64 t) (sym e)))
            out,
        Stored-Kept leader (pair_key result_key) plain_pair both IsStale (meta_key d) v expected b r
            (λ (d', j) p'.
              apart_false (meta_key d) (result_key d' j)
                (λ e. result-meta-apart d' d (plain-no_dot d' p') (plain-no_dot d p) j (sym e)))
            out,
      )

      signal_out :
          (t : String)
          → Stored leader IsStale (of_signal_key d t) v expected b r
          → Put nats_view.signals f (d, t) v expected b (answer r.0, r.1)
            × Kept nats_view.steps b r.1
            × Kept nats_view.metas b r.1
            × Kept nats_view.results b r.1
      signal_out t out = (
        Stored-Put leader (pair_key of_signal_key) plain_pair both
            (pair_keys of_signal_key signal_inj) IsStale answer f (d, t) v expected b r a p out,
        Stored-Kept leader (pair_key step_key) plain_pair both IsStale (of_signal_key d t) v
            expected b r
            (λ (d', k) p'. apart_false (of_signal_key d t) (step_key d' k) (λ e.
              step-signal-apart d' d (plain-no_dot d' p') (plain-no_dot d p) k (c.base64 t)
                (sym e)))
            out,
        Stored-Kept leader meta_key plain (λ d d'. d == d') IsStale (of_signal_key d t) v expected b
            r
            (λ d' p'.
              apart_false (of_signal_key d t) (meta_key d')
                (signal-meta-apart d d' (plain-no_dot d p) (plain-no_dot d' p') (c.base64 t)))
            out,
        Stored-Kept leader (pair_key result_key) plain_pair both IsStale (of_signal_key d t) v
            expected b r
            (λ (d', j) p'. apart_false (of_signal_key d t) (result_key d' j) (λ e.
              result-signal-apart d' d (plain-no_dot d' p') (plain-no_dot d p) j (c.base64 t)
                (sym e)))
            out,
      )

    module _ (law : IsBucket kv leader) where
      step-Put :
          (d k : String) (rec : StepRecord) (expected : ℕ) (b : B)
          → plain d ≡ true
          → is_due nats_view.steps expected (d, k) b ≡ true
          → Put nats_view.steps
              (λ rev. rev)
              (d, k)
              (c.of_step rec)
              expected
              b
              (put_step kv c d k rec expected b)
            × Kept nats_view.metas b (put_step kv c d k rec expected b).1
            × Kept nats_view.signals b (put_step kv c d k rec expected b).1
            × Kept nats_view.results b (put_step kv c d k rec expected b).1
      unfolding put_step
      step-Put d k rec zero b p due =
          step_out CreateStale (create_answer (λ rev. rev)) (λ rev. rev)
            (create_answers (λ rev. rev)) (c.of_step rec) 0 b
            (kv.create (step_key d k) (c.of_step rec) b) d p k
            (law.create-stores (step_key d k) (c.of_step rec) b)
      step-Put d k rec (suc n) b p due = rw (suc_not n) (
          step_out UpdateStale (update_answer (λ rev. rev)) (λ rev. rev)
            (update_answers (λ rev. rev)) (c.of_step rec) (suc n) b
            (kv.update (step_key d k) (c.of_step rec) (suc n) b) d p k
            (law.update-stores (step_key d k) (c.of_step rec) (suc n) b (suc_not n)
              (rw (suc_not n) at due)))

      meta-Put :
          (d : String) (meta : DagMeta) (expected : ℕ) (b : B)
          → plain d ≡ true
          → is_due nats_view.metas expected d b ≡ true
          → Put nats_view.metas
              (λ rev. tt)
              d
              (c.of_meta meta)
              expected
              b
              (put_meta kv c d meta expected b)
            × Kept nats_view.steps b (put_meta kv c d meta expected b).1
            × Kept nats_view.signals b (put_meta kv c d meta expected b).1
            × Kept nats_view.results b (put_meta kv c d meta expected b).1
      unfolding put_meta
      meta-Put d meta zero b p due =
          meta_out CreateStale (create_answer (λ rev. tt)) (λ rev. tt) (create_answers (λ rev. tt))
            (c.of_meta meta) 0 b (kv.create (meta_key d) (c.of_meta meta) b) d p
            (law.create-stores (meta_key d) (c.of_meta meta) b)
      meta-Put d meta (suc n) b p due = rw (suc_not n) (
          meta_out UpdateStale (update_answer (λ rev. tt)) (λ rev. tt) (update_answers (λ rev. tt))
            (c.of_meta meta) (suc n) b (kv.update (meta_key d) (c.of_meta meta) (suc n) b) d p
            (law.update-stores (meta_key d) (c.of_meta meta) (suc n) b (suc_not n)
              (rw (suc_not n) at due)))

      pub nats-Contract : Contract nats nats_view
      nats-Contract = record {
        step-put = step-Put;
        meta-put = meta-Put;
        signal-put = λ d rec b p.
            unfold put_signal in
            signal_out CreateStale (create_answer (λ rev. tt)) (λ rev. tt)
              (create_answers (λ rev. tt)) (c.of_signal rec) 0 b
              (kv.create (of_signal_key d rec.name) (c.of_signal rec) b) d p rec.name
              (law.create-stores (of_signal_key d rec.name) (c.of_signal rec) b);
      }
