-- ===== src/Runtime/Runs.antt =====
-- What a compare-and-set loop does at its first attempt.
use ebind.Base.{ℕ, suc, String, false, some, [], ◌≡◌, ◌∙◌, arith, eqb}
use ebind.Types.{Err, ok, err, StepRecord}
use ebind.Store.{MemEntry, MemStore, find_in, get_step, put_step}
use ebind.Store.Laws.{rev_after, put_step_cas}
use ebind.Runtime.{
  World, call, retry_on_stale, cas_loop, found_store, later, Decision, stop, refuse, write, act,
  attempt_step, try_step, cas_step,
}

-- The world after one read.
abbrev pub after_read : World → World
after_read w = record w { store = found_store w.others w.store; others = later w.others }

module _ {A : Type 0} (dag step : String) (decide : StepRecord → Decision A) (w : World)
    {e : MemEntry} (found : find_in dag step (found_store w.others w.store).steps ≡ some e) where
  attempt_lem :
      (d : Decision A)
      → decide e.rec ≡ d
      → attempt_step dag step decide w ≡ act dag step e.rev d (after_read w)
  unfolding attempt_step get_step
  attempt_lem d h = rw (found, h)

  pub cas_step-refuse :
      (n : ℕ) {x : Err}
      → decide e.rec ≡ refuse x
      → cas_step (suc n) dag step decide w ≡ (err x, after_read w)
  unfolding cas_step try_step cas_loop
  cas_step-refuse n {x} h = rw (attempt_lem (refuse x) h)

  pub cas_step-stop :
      (n : ℕ) {a : A}
      → decide e.rec ≡ stop a
      → cas_step (suc n) dag step decide w ≡ (ok a, after_read w)
  unfolding cas_step try_step cas_loop
  cas_step-stop n {a} h = rw (attempt_lem (stop a) h)

write_answer :
    (dag step : String) (s : MemStore) (rec : StepRecord) {e : MemEntry}
    → find_in dag step s.steps ≡ some e
    → eqb e.rev 0 ≡ false
    → (put_step dag step s rec e.rev).0 ≡ ok (rev_after (some e))
write_answer dag step s rec {e} found used =
    (put_step_cas dag step s rec e.rev).0 ∙ rw found (ground (arith, used))

-- With nobody else writing, the first attempt gets through. Revision 0 asks for a key that is not
-- there, so it is never one that a stored record has until the counter wraps.
pub cas_step-write :
    {A : Type 0} (dag step : String) (decide : StepRecord → Decision A) (w : World) (n : ℕ)
    {e : MemEntry} {rec : StepRecord} {a : A}
    → find_in dag step w.store.steps ≡ some e
    → eqb e.rev 0 ≡ false
    → decide e.rec ≡ write rec a
    → cas_step (suc n) dag step decide (record w { others = [] })
      ≡ (ok a, record w { store = (put_step dag step w.store rec e.rev).1; others = [] })
unfolding cas_step try_step cas_loop call retry_on_stale
cas_step-write dag step decide w n {e} {rec} {a} found used h = rw (
  attempt_lem dag step decide (record w { others = [] }) found (write rec a) h,
  write_answer dag step w.store rec found used,
)
