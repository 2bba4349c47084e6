-- ===== src/Contract.antt =====
-- workflow/store.go: what StateStore promises of the writes with a revision. The store in memory and
-- the one on a JetStream bucket keep it.
pub mod Bucket
pub mod Places
pub mod Nats
pub mod Races
pub mod Memory
use ebind.Base.{
  ℕ, String, Bool, true, false, not, ◌&&◌, ◌||◌, ◌==◌, Option, none, some, is_some, eqb,
  if◌then◌else◌, arith, eq_refl, ◌≡◌, ◌≢◌, refl, sym, ◌∙◌, ap, ◌⊎◌, inl, inr,
}
use ebind.Types.{StepRecord, DagMeta, SignalRecord, Result, ok, err, stale_revision, nats_failed}

-- The writes of the interface that compare a revision.
pub record Writes (S : Type 0) : Type 0 where
  pub put_step : String → String → StepRecord → ℕ → S → Result ℕ × S
  pub put_meta : String → DagMeta → ℕ → S → Result (Unit {0}) × S
  pub put_signal : String → SignalRecord → S → Result (Unit {0}) × S

-- A table of a store: what stands at a place, with its revision.
pub record Table (S I A : Type 0) : Type 0 where
  pub at : S → I → Option (A × ℕ)
  pub is_known : I → Bool
  pub same : I → I → Bool

-- `expectedRev == 0` is "create if absent"; any other revision has to be the one that is stored.
abbrev pub fits : {A : Type 0} → ℕ → Option (A × ℕ) → Bool
fits expected none = eqb expected 0
fits expected (some (a, rev)) = not (eqb expected 0) && eqb rev expected

module _ {S I A : Type 0} (t : Table S I A) where
  abbrev pub Kept : S → S → Type 0
  Kept s s' = (i : I) → t.is_known i ≡ true → t.at s' i ≡ t.at s i

  -- One place is written, and no other.
  abbrev pub Wrote : I → A × ℕ → S → S → Type 0
  Wrote i v s s' =
      (j : I) → t.is_known j ≡ true → t.at s' j ≡ (if t.same i j then some v else t.at s j)

  -- It was written at a new revision, where the expected one was there.
  abbrev pub Done : I → A → ℕ → ℕ → S → S → Type 0
  Done i a expected rev s s' =
      (rev ≢ expected) × (fits expected (t.at s i) ≡ true) × Wrote i (a, rev) s s'

  -- The three outcomes: done; stale, with nothing written; or an error of another kind, after which
  -- the record was written or not.
  abbrev pub Put : {R : Type 0} → (ℕ → R) → I → A → ℕ → S → Result R × S → Type 0
  Put answer i a expected s (r, s') =
      ((rev : ℕ) × (r ≡ ok (answer rev)) × Done i a expected rev s s')
      ⊎ ((r ≡ err stale_revision) × (fits expected (t.at s i) ≡ false) × Kept s s')
      ⊎ ((r ≡ err nats_failed) × (Kept s s' ⊎ ((rev : ℕ) × Done i a expected rev s s')))

  -- A create, or a revision for a record that is there.
  abbrev pub is_due : ℕ → I → S → Bool
  is_due expected i s = eqb expected 0 || is_some (t.at s i)

-- The tables of a store.
pub record View (S Steps Metas Signals Results : Type 0) : Type 0 where
  pub of_step : StepRecord → Steps
  pub of_meta : DagMeta → Metas
  pub of_signal : SignalRecord → Signals
  pub steps : Table S (String × String) Steps
  pub metas : Table S String Metas
  pub signals : Table S (String × String) Signals
  pub results : Table S (String × String) Results
  -- Whether a revision for a record that is missing is told to be stale.
  pub refuses_missing : Bool

-- The contract, for the places that the tables know.
pub record Contract {S Steps Metas Signals Results : Type 0} (w : Writes S)
    (v : View S Steps Metas Signals Results) : Type 0 where
  pub step-put :
      (d k : String) (rec : StepRecord) (expected : ℕ) (s : S)
      → v.steps.is_known (d, k) ≡ true
      → (v.refuses_missing || is_due v.steps expected (d, k) s) ≡ true
      → Put v.steps (λ rev. rev) (d, k) (v.of_step rec) expected s (w.put_step d k rec expected s)
        × Kept v.metas s (w.put_step d k rec expected s).1
        × Kept v.signals s (w.put_step d k rec expected s).1
        × Kept v.results s (w.put_step d k rec expected s).1
  pub meta-put :
      (d : String) (meta : DagMeta) (expected : ℕ) (s : S)
      → v.metas.is_known d ≡ true
      → (v.refuses_missing || is_due v.metas expected d s) ≡ true
      → Put v.metas (λ rev. tt) d (v.of_meta meta) expected s (w.put_meta d meta expected s)
        × Kept v.steps s (w.put_meta d meta expected s).1
        × Kept v.signals s (w.put_meta d meta expected s).1
        × Kept v.results s (w.put_meta d meta expected s).1
  pub signal-put :
      (d : String) (rec : SignalRecord) (s : S)
      → v.signals.is_known (d, rec.name) ≡ true
      → Put v.signals (λ rev. tt) (d, rec.name) (v.of_signal rec) 0 s (w.put_signal d rec s)
        × Kept v.steps s (w.put_signal d rec s).1
        × Kept v.metas s (w.put_signal d rec s).1
        × Kept v.results s (w.put_signal d rec s).1
