-- ===== src/Runtime/Rely/Moves.antt =====
-- The ways in which the code rewrites a step's record.
use ebind.Base.{◌≡◌, true, false, inl, inr, sym}
use ebind.Types.{StepRecord, pending, skipped, status_eq, is_terminal, is_released}
use ebind.Runtime.Rely.{config, RecEvolves}

module _ (r r' : StepRecord) (fixed : config r ≡ config r') where
  -- A step that was not over starts, or ends.
  pub RecEvolves-start :
      r.bp_before ≡ r'.bp_before
      → r.bp_after ≡ r'.bp_after
      → is_terminal r ≡ false
      → status_eq r'.status pending ≡ false
      → RecEvolves r r'
  RecEvolves-start before after open_still moved = record {
    fixed = fixed;
    left = λ h. moved;
    ended = λ h. absurd (cc);
    passed_before = λ h. cc;
    passed_after = λ h. cc;
  }

  -- A step is skipped, whatever its status was.
  pub RecEvolves-skip :
      r.bp_before ≡ r'.bp_before → r.bp_after ≡ r'.bp_after → r'.status ≡ skipped → RecEvolves r r'
  unfolding status_eq
  RecEvolves-skip before after skip = record {
    fixed = fixed;
    left = λ h. rw skip;
    ended = λ h. inr skip;
    passed_before = λ h. cc;
    passed_after = λ h. cc;
  }

  -- The status stays, and no breakpoint is taken back.
  pub RecEvolves-mark :
      r.status ≡ r'.status
      → (is_released r.bp_before ≡ true → is_released r'.bp_before ≡ true)
      → (is_released r.bp_after ≡ true → is_released r'.bp_after ≡ true)
      → RecEvolves r r'
  RecEvolves-mark same before after = record {
    fixed = fixed;
    left = λ h. cc;
    ended = λ h. inl (sym same);
    passed_before = before;
    passed_after = after;
  }
