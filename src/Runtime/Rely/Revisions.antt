-- ===== src/Runtime/Rely/Revisions.antt =====
-- How often the records of a store were written again, by their revisions, which are uint64.
use Prim.Native.Nat.{◌%◌}
use ebind.Base.{
  ℕ, ◌+◌, ◌≤◌, ◌<◌, String, ◌&&◌, Option, none, some, ◌==◌, ◌≡◌, refl, arith, eq_iff, Bool-cases,
  ◌⊎◌, inl, inr, ◌∙◌, ap, sym,
}
use ebind.Types.{StepRecord, DagMeta, SignalRecord}
use ebind.Store.{MemEntry, MemStore, find_in, put_step, put_signal, put_meta}
use ebind.Store.Laws.{accepts, put_step_cas}
use ebind.Runtime.{Decision, stop, refuse, write}
use ebind.Runtime.Rely.{NoReuse}
use ebind.Runtime.Rely.Writes.{write_back, atomic_write}
use ebind.Runtime.Rely.MetaRules.{steps-put_signal, same_steps}

-- The entry is the same, or it was written again, at most `n` times.
abbrev pub Later : ℕ → MemEntry → MemEntry → Type 0
Later n e e' =
    (e' ≡ e) ⊎ ((j : ℕ) × (0 < j) × (j ≤ n) × (e'.rev ≡ (e.rev + j) % 18446744073709551616))

abbrev pub Advances : ℕ → MemStore → MemStore → Type 0
Advances n s s' =
    (d k : String) (e : MemEntry)
    → find_in d k s.steps ≡ some e
    → (e' : MemEntry) × (find_in d k s'.steps ≡ some e') × Later n e e'

pub Advances-same : (n : ℕ) (s s' : MemStore) → s'.steps ≡ s.steps → Advances n s s'
Advances-same n s s' same d k e found = (e, rw same found, inl refl)

add_mod :
    (r i j : ℕ)
    → ((r + i) % 18446744073709551616 + j) % 18446744073709551616
      ≡ (r + (i + j)) % 18446744073709551616
add_mod r i j = omega arith

Later-trans : (n m : ℕ) (a b c : MemEntry) → Later n a b → Later m b c → Later (n + m) a c
Later-trans n m a b c (inl e) (inl e') = inl (e' ∙ e)
Later-trans n m a b c (inl e) (inr (j, some_write, few, at)) =
    inr
      (j, some_write, omega arith, at ∙ ap (λ (x : MemEntry). (x.rev + j) % 18446744073709551616) e)
Later-trans n m a b c (inr (i, some_write, few, at)) (inl e) =
    inr (i, some_write, omega arith, ap (λ (x : MemEntry). x.rev) e ∙ at)
Later-trans n m a b c (inr (i, some_write, few, at)) (inr (j, some_write', few', at')) = inr (
  i + j,
  omega arith,
  omega arith,
  at' ∙ ap (λ r. (r + j) % 18446744073709551616) at ∙ add_mod a.rev i j,
)

pub Advances-trans :
    (n m : ℕ) (a b c : MemStore) → Advances n a b → Advances m b c → Advances (n + m) a c
Advances-trans n m a b c p q d k e found =
    let (e', found', l) = p d k e found in
    let (e'', found'', l') = q d k e' found' in (e'', found'', Later-trans n m e e' e'' l l')

-- Fewer than 2 ^ 64 writes do not bring a revision back.
pub NoReuse-Advances :
    (n : ℕ) (s s' : MemStore) → n < 18446744073709551616 → Advances n s s' → NoReuse s s'
NoReuse-Advances n s s' few p d k e e' found found' same =
    let (x, found'', l) = p d k e found in go x (cc (found', found'')) l
  where
    go : (x : MemEntry) → x ≡ e' → Later n e x → e.rec ≡ e'.rec
    go x is_x (inl unchanged) = ap (λ (y : MemEntry). y.rec) (sym unchanged ∙ is_x)
    go x is_x (inr (j, some_write, bound, at)) =
        let back = sym at ∙ ap (λ (y : MemEntry). y.rev) is_x ∙ sym same in
        absurd (omega (arith, back))

put_step-Advances :
    (dag step : String) (s : MemStore) (rec : StepRecord) (e : MemEntry)
    → find_in dag step s.steps ≡ some e
    → Advances 1 s (put_step dag step s rec e.rev).1
put_step-Advances dag step s rec e seen d k a found =
    let law = (put_step_cas dag step s rec e.rev).1 d k in
    elim (Bool-cases (accepts e.rev (find_in dag step s.steps) && (dag == d && step == k))) [
      | inl hit ↦ (
        record { rec = rec; rev = (e.rev + 1) % 18446744073709551616 },
        law ∙ rw (hit, seen) refl,
        inr (1, omega arith, omega arith, ground (arith, eq_iff dag d, eq_iff step k)),
      )
      | inr miss ↦ (a, law ∙ rw miss found, inl refl)
    ]

pub create_step-Advances :
    (dag step : String) (s : MemStore) (rec : StepRecord)
    → Advances 1 s (put_step dag step s rec 0).1
create_step-Advances dag step s rec d k a found = (
  a,
  ground (arith, (put_step_cas dag step s rec 0).1 d k, eq_iff dag d, eq_iff step k),
  inl refl,
)

module _ {ℓ} {A : Type ℓ} (dag step : String) (decide : StepRecord → Decision A) where
  write_back-Advances :
      (s : MemStore) (o : Option MemEntry)
      → find_in dag step s.steps ≡ o
      → Advances 1 s (write_back dag step o (λ (e : MemEntry). decide e.rec) s)
  write_back-Advances s none found = Advances-same 1 s s refl
  write_back-Advances s (some e) found = go (decide e.rec)
    where
      go :
          (d : Decision A)
          → Advances 1 s (elim d [
            | stop a ↦ s
            | refuse x ↦ s
            | write rec a ↦ (put_step dag step s rec e.rev).1
          ])
      go (stop a) = Advances-same 1 s s refl
      go (refuse x) = Advances-same 1 s s refl
      go (write rec a) = put_step-Advances dag step s rec e found

  pub atomic_write-Advances : (s : MemStore) → Advances 1 s (atomic_write dag step decide s)
  atomic_write-Advances s = write_back-Advances s (find_in dag step s.steps) refl

pub put_signal-Advances :
    (dag : String) (s : MemStore) (rec : SignalRecord) → Advances 1 s (put_signal dag s rec).1
put_signal-Advances dag s rec =
    Advances-same 1 s (put_signal dag s rec).1 (steps-put_signal dag s rec)

pub put_meta-Advances :
    (dag : String) (s : MemStore) (meta : DagMeta) (rev : ℕ)
    → Advances 1 s (put_meta dag s meta rev).1
put_meta-Advances dag s meta rev =
    Advances-same 1 s (put_meta dag s meta rev).1 (same_steps dag s meta rev).0
