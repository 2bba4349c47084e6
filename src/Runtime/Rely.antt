-- ===== src/Runtime/Rely.antt =====
-- What each writer of the store may rely on and has to keep: a step's record only moves on, and a
-- delivered signal stays as it is.
pub mod Moves
pub mod Rules
pub mod MetaRules
pub mod Ensures
pub mod Writes
pub mod Revisions
use ebind.Base.{
  ℕ, String, Bool, true, false, Option, none, some, List, [], ◌∷◌, arith, ◌≡◌, refl, ◌∙◌, ◌⊎◌, inl,
  inr,
}
use ebind.Types.{
  Json, StepStatus, pending, running, skipped, StepRecord, RetryPolicy, PlacementSpec, status_eq,
  is_terminal, is_released, SignalRecord,
}
use ebind.Store.{MemEntry, MemStore, find_in}
use ebind.Runtime.{World, M, found_store, later}

-- The part of a record that is fixed when the step is added.
pub record StepConfig : Type 0 where
  pub dag_id : String
  pub step_id : String
  pub fn_name : String
  pub args_json : Json
  pub deps : List String
  pub optional_deps : List String
  pub optional : Bool
  pub break_before : List String
  pub break_after : List String
  pub wait_signals : List String
  pub policy : Option RetryPolicy
  pub placement : Option PlacementSpec
  pub added_at : ℕ

abbrev pub config : StepRecord → StepConfig
config r = record {
  dag_id = r.dag_id;
  step_id = r.step_id;
  fn_name = r.fn_name;
  args_json = r.args_json;
  deps = r.deps;
  optional_deps = r.optional_deps;
  optional = r.optional;
  break_before = r.break_before;
  break_after = r.break_after;
  wait_signals = r.wait_signals;
  policy = r.policy;
  placement = r.placement;
  added_at = r.added_at;
}

-- How a record may change: never its configuration, never back to pending, never out of a terminal
-- status but to skipped, and a released breakpoint stays released.
pub record RecEvolves (r r' : StepRecord) : Type 0 where
  pub fixed : config r ≡ config r'
  pub left : status_eq r.status pending ≡ false → status_eq r'.status pending ≡ false
  pub ended : is_terminal r ≡ true → (r'.status ≡ r.status) ⊎ (r'.status ≡ skipped)
  pub passed_before : is_released r.bp_before ≡ true → is_released r'.bp_before ≡ true
  pub passed_after : is_released r.bp_after ≡ true → is_released r'.bp_after ≡ true

pub RecEvolves-refl : (r : StepRecord) → RecEvolves r r
RecEvolves-refl r = record {
  fixed = refl;
  left = λ h. h;
  ended = λ h. inl refl;
  passed_before = λ h. h;
  passed_after = λ h. h;
}

ended_trans :
    {a b c : StepRecord}
    → RecEvolves a b
    → RecEvolves b c
    → is_terminal a ≡ true
    → (c.status ≡ a.status) ⊎ (c.status ≡ skipped)
unfolding is_terminal
ended_trans p q h = ground (arith, p.ended h, q.ended)

pub RecEvolves-trans : {a b c : StepRecord} → RecEvolves a b → RecEvolves b c → RecEvolves a c
RecEvolves-trans p q = record {
  fixed = p.fixed ∙ q.fixed;
  left = λ h. q.left (p.left h);
  ended = ended_trans p q;
  passed_before = λ h. q.passed_before (p.passed_before h);
  passed_after = λ h. q.passed_after (p.passed_after h);
}

-- No step is lost, each record only moves on, and delivered signals stay.
pub record Evolves (s s' : MemStore) : Type 0 where
  pub kept :
      (d k : String) {e : MemEntry}
      → find_in d k s.steps ≡ some e
      → (e' : MemEntry) × (find_in d k s'.steps ≡ some e') × RecEvolves e.rec e'.rec
  pub delivered :
      (d k : String) {r : SignalRecord}
      → find_in d k s.signals ≡ some r
      → find_in d k s'.signals ≡ some r

-- Between two calls a revision does not come back with another record.
abbrev pub NoReuse : MemStore → MemStore → Type 0
NoReuse s s' =
    (d k : String) (e e' : MemEntry)
    → find_in d k s.steps ≡ some e
    → find_in d k s'.steps ≡ some e'
    → e.rev ≡ e'.rev
    → e.rec ≡ e'.rec

pub Evolves-refl : (s : MemStore) → Evolves s s
Evolves-refl s = record {
  kept = λ d k {e} found. (e, found, RecEvolves-refl e.rec);
  delivered = λ d k found. found;
}

pub Evolves-trans : {a b c : MemStore} → Evolves a b → Evolves b c → Evolves a c
Evolves-trans p q = record {
  kept = λ d k found.
      let (e', found', step) = p.kept d k found in
      let (e'', found'', step') = q.kept d k found' in (e'', found'', RecEvolves-trans step step');
  delivered = λ d k found. q.delivered d k (p.delivered d k found);
}

-- What another process may do between two calls.
pub record Interferes (f : MemStore → MemStore) : Type 0 where
  pub evolves : (s : MemStore) → Evolves s (f s)
  pub no_reuse : (s : MemStore) → NoReuse s (f s)

abbrev pub AllInterfere : List (MemStore → MemStore) → Type 0
AllInterfere [] = Unit {0}
AllInterfere (f ∷ fs) = Interferes f × AllInterfere fs

pub found_store-Evolves :
    (fs : List (MemStore → MemStore)) (s : MemStore)
    → AllInterfere fs
    → Evolves s (found_store fs s)
found_store-Evolves [] s h = Evolves-refl s
found_store-Evolves (f ∷ fs) s h = h.0.evolves s

pub found_store-NoReuse :
    (fs : List (MemStore → MemStore)) (s : MemStore)
    → AllInterfere fs
    → NoReuse s (found_store fs s)
found_store-NoReuse [] s h d k e e' p q same = cc
found_store-NoReuse (f ∷ fs) s h d k e e' p q same = h.0.no_reuse s d k e e' p q same

pub later-AllInterfere :
    (fs : List (MemStore → MemStore)) → AllInterfere fs → AllInterfere (later fs)
later-AllInterfere [] h = tt
later-AllInterfere (f ∷ fs) h = h.1

abbrev pub Kept : MemStore → World → Type 0
Kept s w = Evolves s w.store × AllInterfere w.others

-- Whatever the others do within the rules, `m` stays within them too.
pub record Guarantees {ℓ} {A : Type ℓ} (m : M A) : Type 0 where
  pub at : (w : World) → AllInterfere w.others → Kept w.store (m w).1
