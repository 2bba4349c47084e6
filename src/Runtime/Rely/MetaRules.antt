-- ===== src/Runtime/Rely/MetaRules.antt =====
-- The rules for the loops on a DAG's record and for the loops over a list.
use ebind.Base.{ℕ, String, some, List, [], ◌∷◌, ◌≡◌, arith, eq_iff}
use ebind.Types.{DagMeta, SignalRecord, Json}
use ebind.Store.{MemStore, get_meta, put_meta, put_signal, put_result}
use ebind.Store.Laws.{put_signal_once}
use ebind.Runtime.{
  M, ◌>>=◌, call, read, retry_on_stale, cas_loop, or_stale, MetaDecision, stop_meta, refuse_meta,
  write_meta, act_meta, attempt_meta, cas_meta, for_each,
}
use ebind.Runtime.Rely.{Evolves, Guarantees, RecEvolves-refl}
use ebind.Runtime.Rely.Rules.{
  Guarantees-pure, Guarantees-raise, Guarantees-call, Guarantees-read, Guarantees-retry_on_stale,
  Guarantees-bind, Guarantees-or_stale, Guarantees-cas_loop,
}

pub same_steps :
    (dag : String) (s : MemStore) (meta : DagMeta) (rev : ℕ)
    → ((put_meta dag s meta rev).1.steps ≡ s.steps)
      × ((put_meta dag s meta rev).1.signals ≡ s.signals)
unfolding put_meta
same_steps dag s meta rev = ground arith

pub put_meta-Evolves :
    (dag : String) (s : MemStore) (meta : DagMeta) (rev : ℕ) → Evolves s (put_meta dag s meta rev).1
put_meta-Evolves dag s meta rev = record {
  kept = λ d k {e} found. (e, rw (same_steps dag s meta rev).0 found, RecEvolves-refl e.rec);
  delivered = λ d k found. rw (same_steps dag s meta rev).1 found;
}

pub put_result-Evolves :
    (dag step : String) (s : MemStore) (bytes : Json) → Evolves s (put_result dag step s bytes)
unfolding put_result
put_result-Evolves dag step s bytes = record {
  kept = λ d k {e} found. (e, found, RecEvolves-refl e.rec);
  delivered = λ d k found. found;
}

pub steps-put_signal :
    (dag : String) (s : MemStore) (rec : SignalRecord) → (put_signal dag s rec).1.steps ≡ s.steps
unfolding put_signal
steps-put_signal dag s rec = ground arith

pub put_signal-Evolves :
    (dag : String) (s : MemStore) (rec : SignalRecord) → Evolves s (put_signal dag s rec).1
put_signal-Evolves dag s rec = record {
  kept = λ d k {e} found. (e, rw (steps-put_signal dag s rec) found, RecEvolves-refl e.rec);
  delivered = λ d k {r} found.
      ground (arith, (put_signal_once dag s rec).1 d k, eq_iff dag d, eq_iff rec.name k);
}

module _ {ℓ} {A : Type ℓ} where
  Guarantees-act_meta :
      (dag : String) (rev : ℕ) (d : MetaDecision A) → Guarantees (act_meta dag rev d)
  Guarantees-act_meta dag rev (stop_meta a) = Guarantees-pure (some a)
  Guarantees-act_meta dag rev (refuse_meta e) = Guarantees-raise e
  Guarantees-act_meta dag rev (write_meta meta a) =
      Guarantees-bind (retry_on_stale (call (λ s. put_meta dag s meta rev))) _
        (Guarantees-retry_on_stale _ (Guarantees-call _ (λ s. put_meta-Evolves dag s meta rev)))
        (λ r. Guarantees-pure _)

  pub Guarantees-cas_meta :
      (n : ℕ) (dag : String) (decide : DagMeta → M (MetaDecision A))
      → ((meta : DagMeta) → Guarantees (decide meta))
      → Guarantees (cas_meta n dag decide)
  unfolding cas_meta
  Guarantees-cas_meta n dag decide g =
      Guarantees-bind (cas_loop n (attempt_meta dag decide)) or_stale
        (Guarantees-cas_loop n (attempt_meta dag decide) attempt) Guarantees-or_stale
    where
      attempt : Guarantees (attempt_meta dag decide)
      attempt =
          Guarantees-bind (read (get_meta dag)) (λ (meta, rev). decide meta >>= act_meta dag rev)
            (Guarantees-read (get_meta dag))
            (λ (meta, rev). Guarantees-bind (decide meta) _ (g meta) (Guarantees-act_meta dag rev))

pub Guarantees-for_each {ℓ} :
    {A : Type ℓ} (f : A → M (Unit {0})) (xs : List A)
    → ((a : A) → Guarantees (f a))
    → Guarantees (for_each f xs)
unfolding for_each
Guarantees-for_each f [] g = Guarantees-pure tt
Guarantees-for_each f (x ∷ xs) g = Guarantees-bind (f x) _ (g x) (λ _. Guarantees-for_each f xs g)
