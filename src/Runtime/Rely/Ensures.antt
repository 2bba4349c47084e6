-- ===== src/Runtime/Rely/Ensures.antt =====
-- What a compare-and-set loop has done once it returns, whatever the others do meanwhile.
mod Loops
use mathlib.Core.Option
use ebind.Base.{
  if◌then◌else◌, Bool, true, false, ℕ, zero, suc, String, Option, none, some, List, [], ◌∷◌, ◌≡◌,
  refl, ap, subst, arith, Map, lookup, values, ◌==◌, ◌∙◌, eq_refl, Bool-cases, inl, inr,
}
use ebind.Types.{Result, ok, err, StepRecord, is_stale}
use ebind.Store.{
  MemEntry, MemStore, find_in, bucket_of, list_steps, rec_of, entry_pair, get_step, put_step,
}
use ebind.Store.Laws.{bucket-find_in, rev_after, put_step-ok}
use ebind.Runtime.{
  World, M, pure, continue, ◌>>=◌, call, retry_on_stale, stale_as_none, cas_loop, or_stale,
  found_store, later, Decision, stop, refuse, write, act, attempt_step, try_step, cas_step,
  for_each,
}
use ebind.Runtime.Rely.{RecEvolves, Evolves, AllInterfere, Guarantees, Kept}
use ebind.Runtime.Rely.MetaRules.{Guarantees-for_each}
pub use ebind.Runtime.Rely.Ensures.Loops.{Each, Each-lookup, Each-list_steps, for_each-Each}

-- The store holds the step, and `P` holds of its record.
abbrev pub Holds : (StepRecord → Type 0) → String → String → MemStore → Type 0
Holds P dag step s = (e : MemEntry) × (find_in dag step s.steps ≡ some e) × P e.rec

-- `P` is not lost while the record moves on.
abbrev pub IsStable : (StepRecord → Type 0) → Type 0
IsStable P = (r r' : StepRecord) → RecEvolves r r' → P r → P r'

pub Holds-Evolves :
    (P : StepRecord → Type 0) (dag step : String) {s s' : MemStore}
    → IsStable P
    → Evolves s s'
    → Holds P dag step s
    → Holds P dag step s'
Holds-Evolves P dag step stable ev (e, found, p) =
    let (e', found', moves) = ev.kept dag step found in (e', found', stable e.rec e'.rec moves p)

ok-injective : {A : Type 0} {a b : A} → ok a ≡ ok b → a ≡ b
ok-injective e = cc

written :
    (dag step : String) (s s' : MemStore) (rec : StepRecord) (rev : ℕ) {n : ℕ}
    → put_step dag step s rec rev ≡ (ok n, s')
    → find_in dag step s'.steps
      ≡ some (record { rec = rec; rev = rev_after (find_in dag step s.steps) })
written dag step s s' rec rev e = rw (← ap (λ (r : Result ℕ × MemStore). r.1) e) (
    ground (
      arith,
      eq_refl dag,
      eq_refl step,
      (put_step-ok dag step s rec rev (ap (λ (r : Result ℕ × MemStore). r.0) e)).1 dag step,
    ))

module _ {A : Type 0} (P : A → StepRecord → Type 0) where
  -- `P` holds of the record that a decision leaves.
  abbrev pub Leaves : StepRecord → Decision A → Type 0
  Leaves rec (stop a) = P a rec
  Leaves rec (refuse e) = Unit {0}
  Leaves rec (write rec' a) = P a rec'

  pub Leaves-if :
      (rec : StepRecord) (b : Bool) (x y : Decision A)
      → (b ≡ true → Leaves rec x)
      → (b ≡ false → Leaves rec y)
      → Leaves rec (if b then x else y)
  Leaves-if rec true x y hx hy = hx refl
  Leaves-if rec false x y hx hy = hy refl

  module _ (dag step : String) where
    -- A result that is a value has `P` in the store.
    abbrev Done : Result (Option A) × World → Type 0
    Done (ok (some a), w) = Holds (P a) dag step w.store
    Done (ok none, w) = Unit {0}
    Done (err e, w) = Unit {0}

    Done-put :
        (rec : StepRecord) (rev : ℕ) (a : A) (w : World)
        → P a rec
        → Done (
            (retry_on_stale (call (λ s. put_step dag step s rec rev)) >>= λ r.
            pure (Option.map (λ _. a) r))
              w)
    unfolding retry_on_stale call
    Done-put rec rev a w p = go (put_step dag step (found_store w.others w.store) rec rev) refl
      where
        s : MemStore
        s = found_store w.others w.store

        go :
            (r : Result ℕ × MemStore)
            → put_step dag step s rec rev ≡ r
            → Done (
                let x = stale_as_none (r.0, record w { store = r.1; others = later w.others }) in
                continue x.0 (λ o. pure (Option.map (λ _. a) o)) x.1)
        go (ok n, s') e = (
          record { rec = rec; rev = rev_after (find_in dag step s.steps) },
          written dag step s s' rec rev e,
          p,
        )
        go (err x, s') e = elim (Bool-cases (is_stale x)) [ inl y ↦ rw y tt | inr n ↦ rw n tt ]

    Done-act :
        (rev : ℕ) (d : Decision A) (w : World) (e : MemEntry)
        → find_in dag step w.store.steps ≡ some e
        → Leaves e.rec d
        → Done (act dag step rev d w)
    Done-act rev (stop a) w e found p = (e, found, p)
    Done-act rev (refuse x) w e found p = tt
    Done-act rev (write rec a) w e found p = Done-put rec rev a w p

    module _ (decide : StepRecord → Decision A)
        (leaves : (rec : StepRecord) → Leaves rec (decide rec)) where
      Done-attempt : (w : World) → Done (attempt_step dag step decide w)
      unfolding attempt_step get_step
      Done-attempt w = go (find_in dag step reached.store.steps) refl
        where
          reached : World
          reached = record w { store = found_store w.others w.store; others = later w.others }

          go :
              (o : Option MemEntry)
              → find_in dag step reached.store.steps ≡ o
              → Done (continue (entry_pair o) (λ (rec, rev). act dag step rev (decide rec)) reached)
          go none e = tt
          go (some x) e = Done-act x.rev (decide x.rec) reached x e (leaves x.rec)

      Done-loop : (n : ℕ) (w : World) → Done (cas_loop n (attempt_step dag step decide) w)
      unfolding cas_loop
      Done-loop zero w = tt
      Done-loop (suc n) w = go (attempt_step dag step decide w) (Done-attempt w) (Done-loop n)
        where
          go :
              (r : Result (Option A) × World)
              → Done r
              → ((w' : World) → Done (cas_loop n (attempt_step dag step decide) w'))
              → Done (
                  continue r.0
                    (λ o. elim o [
                      | none ↦ cas_loop n (attempt_step dag step decide)
                      | some a ↦ pure (some a)
                    ])
                    r.1)
          go (ok none, w') d again = again w'
          go (ok (some a), w') d again = d
          go (err x, w') d again = tt

      -- When the loop returns a value, the record that is in the store has what the decision left.
      pub cas_step-Holds :
          (n : ℕ) (w : World) {a : A}
          → (cas_step n dag step decide w).0 ≡ ok a
          → Holds (P a) dag step (cas_step n dag step decide w).1.store
      unfolding cas_step try_step
      cas_step-Holds n w {a} h = go (cas_loop n (attempt_step dag step decide) w) (Done-loop n w) h
        where
          go :
              (r : Result (Option A) × World)
              → Done r
              → (continue r.0 or_stale r.1).0 ≡ ok a
              → Holds (P a) dag step (continue r.0 or_stale r.1).1.store
          go (ok none, w') d e = absurd (cc)
          go (ok (some b), w') d e = subst (λ x. Holds (P x) dag step w'.store) (ok-injective e) d
          go (err x, w') d e = absurd (cc)

-- What the first part of an operation has done holds when the whole returns.
module _ {A B : Type 0} (P : StepRecord → Type 0) (dag step : String) (stable : IsStable P) where
  pub Holds-bind :
      (m : M A) (f : A → M B) (w : World) {b : B}
      → Kept w.store (m w).1
      → ((a : A) → Guarantees (f a))
      → ((a : A) → (m w).0 ≡ ok a → Holds P dag step (m w).1.store)
      → ((m >>= f) w).0 ≡ ok b
      → Holds P dag step ((m >>= f) w).1.store
  Holds-bind m f w {b} kept rest holds done = go (m w) kept holds done
    where
      go :
          (r : Result A × World)
          → Kept w.store r.1
          → ((a : A) → r.0 ≡ ok a → Holds P dag step r.1.store)
          → (continue r.0 f r.1).0 ≡ ok b
          → Holds P dag step (continue r.0 f r.1).1.store
      go (ok a, w') k h e = Holds-Evolves P dag step stable ((rest a).at w' k.1).0 (h a refl)
      go (err x, w') k h e = absurd (cc)
