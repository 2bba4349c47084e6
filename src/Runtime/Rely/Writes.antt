-- ===== src/Runtime/Rely/Writes.antt =====
-- One atomic write of an operation is what the others are supposed to do between two calls.
use ebind.Base.{
  ℕ, String, ◌&&◌, Option, none, some, ◌==◌, ◌≡◌, refl, subst, arith, eq_iff, Bool-cases, inl, inr,
}
use ebind.Types.{StepRecord, DagMeta, SignalRecord}
use ebind.Store.{MemEntry, MemStore, find_in, put_step, put_signal, put_meta}
use ebind.Store.Laws.{accepts, put_step_cas, next_rev-ne}
use ebind.Runtime.{Decision, stop, refuse, write}
use ebind.Runtime.Rely.{RecEvolves-refl, Evolves, Evolves-refl, NoReuse, Interferes}
use ebind.Runtime.Rely.Rules.{OnWrite, put_step-Evolves, signals-put_step}
use ebind.Runtime.Rely.MetaRules.{
  put_signal-Evolves, steps-put_signal, put_meta-Evolves, same_steps,
}

NoReuse-refl : (s : MemStore) → NoReuse s s
NoReuse-refl s d k e e' p q same = cc

put_step-NoReuse :
    (dag step : String) (s : MemStore) (rec : StepRecord) (e : MemEntry)
    → find_in dag step s.steps ≡ some e
    → NoReuse s (put_step dag step s rec e.rev).1
put_step-NoReuse dag step s rec e seen d k a b p q same =
    let law = (put_step_cas dag step s rec e.rev).1 d k in
    elim (Bool-cases (accepts e.rev (find_in dag step s.steps) && (dag == d && step == k))) [
      | inl hit ↦ absurd (ground (arith, eq_iff dag d, eq_iff step k, next_rev-ne a.rev))
      | inr miss ↦ cc
    ]

-- Another process reads a step, decides, and writes it back in time.
abbrev pub write_back {ℓ} :
    {A : Type ℓ} → String → String → Option MemEntry → (MemEntry → Decision A) → MemStore → MemStore
write_back dag step none decide s = s
write_back dag step (some e) decide s = elim (decide e) [
  | stop a ↦ s
  | refuse x ↦ s
  | write rec a ↦ (put_step dag step s rec e.rev).1
]

abbrev pub atomic_write {ℓ} :
    {A : Type ℓ} → String → String → (StepRecord → Decision A) → MemStore → MemStore
atomic_write dag step decide s =
    write_back dag step (find_in dag step s.steps) (λ (e : MemEntry). decide e.rec) s

module _ {ℓ} {A : Type ℓ} (dag step : String) (decide : StepRecord → Decision A)
    (moves : (rec : StepRecord) → OnWrite rec (decide rec)) where
  write_back-Evolves :
      (s : MemStore) (o : Option MemEntry)
      → find_in dag step s.steps ≡ o
      → Evolves s (write_back dag step o (λ (e : MemEntry). decide e.rec) s)
        × NoReuse s (write_back dag step o (λ (e : MemEntry). decide e.rec) s)
  write_back-Evolves s none found = (Evolves-refl s, NoReuse-refl s)
  write_back-Evolves s (some e) found = go (decide e.rec) (moves e.rec)
    where
      go :
          (d : Decision A)
          → OnWrite e.rec d
          → Evolves s (elim d [
            | stop a ↦ s
            | refuse x ↦ s
            | write rec a ↦ (put_step dag step s rec e.rev).1
          ])
            × NoReuse s (elim d [
              | stop a ↦ s
              | refuse x ↦ s
              | write rec a ↦ (put_step dag step s rec e.rev).1
            ])
      go (stop a) m = (Evolves-refl s, NoReuse-refl s)
      go (refuse x) m = (Evolves-refl s, NoReuse-refl s)
      go (write rec a) m = (
        put_step-Evolves dag step s s e rec found (NoReuse-refl s) m,
        put_step-NoReuse dag step s rec e found,
      )

  pub Interferes-atomic_write : Interferes (atomic_write dag step decide)
  Interferes-atomic_write = record {
    evolves = λ s. (write_back-Evolves s (find_in dag step s.steps) refl).0;
    no_reuse = λ s. (write_back-Evolves s (find_in dag step s.steps) refl).1;
  }

pub Interferes-put_signal :
    (dag : String) (rec : SignalRecord) → Interferes (λ s. (put_signal dag s rec).1)
Interferes-put_signal dag rec = record {
  evolves = λ s. put_signal-Evolves dag s rec;
  no_reuse = λ s d k e e' p q same.
      let q' : find_in d k s.steps ≡ some e' =
        subst (λ m. find_in d k m ≡ some e') (steps-put_signal dag s rec) q in
      cc (p, q');
}

-- A create never touches a record that is there.
pub create_step-Evolves :
    (dag step : String) (s : MemStore) (rec : StepRecord) → Evolves s (put_step dag step s rec 0).1
create_step-Evolves dag step s rec = record {
  kept = λ d k {e} found. (
    e,
    ground (arith, (put_step_cas dag step s rec 0).1 d k, eq_iff dag d, eq_iff step k),
    RecEvolves-refl e.rec,
  );
  delivered = λ d k found. rw signals-put_step found;
}

create_step-NoReuse :
    (dag step : String) (s : MemStore) (rec : StepRecord) → NoReuse s (put_step dag step s rec 0).1
create_step-NoReuse dag step s rec d k a b p q same =
    ground (arith, (put_step_cas dag step s rec 0).1 d k, eq_iff dag d, eq_iff step k)

pub Interferes-create_step :
    (dag step : String) (rec : StepRecord) → Interferes (λ s. (put_step dag step s rec 0).1)
Interferes-create_step dag step rec = record {
  evolves = λ s. create_step-Evolves dag step s rec;
  no_reuse = λ s. create_step-NoReuse dag step s rec;
}

pub Interferes-put_meta :
    (dag : String) (meta : DagMeta) (rev : ℕ) → Interferes (λ s. (put_meta dag s meta rev).1)
Interferes-put_meta dag meta rev = record {
  evolves = λ s. put_meta-Evolves dag s meta rev;
  no_reuse = λ s d k e e' p q same.
      let q' : find_in d k s.steps ≡ some e' =
        subst (λ m. find_in d k m ≡ some e') (same_steps dag s meta rev).0 q in
      cc (p, q');
}
