-- ===== src/Control/Message/Bytes.antt =====
-- How long the message is that is stored.
use ebind.Base.{
  pos, ℕ, zero, suc, ◌+◌, ◌≤◌, List, [], ◌∷◌, arith, length, length-append, eqb, if◌then◌else◌,
}
use ebind.Control.Message.{take, rune_cut, ellipsis, truncate_at, truncate_error_message}

length-take : (n : ℕ) (s : List ℕ) → length (take n s) ≤ n
unfolding take
length-take zero s = omega arith
length-take (suc n) [] = omega arith
length-take (suc n) (b ∷ s) = omega (arith, length-take n s)

pub rune_cut-le : (s : List ℕ) (n : ℕ) → rune_cut s n ≤ n
unfolding rune_cut
rune_cut-le s zero = omega arith
rune_cut-le s (suc n) = ground (arith, rune_cut-le s n)

truncate_at-length : (max : ℕ) (s : List ℕ) → length (truncate_at max s) ≤ max + 3
truncate_at-length max s = ground (
  arith,
  length-append (take (rune_cut s max) s) ellipsis,
  length-take (rune_cut s max) s,
  rune_cut-le s max,
)

-- With a limit that is not negative, a truncated message has at most three bytes more than the
-- limit, or than 4096 where the limit is 0.
pub truncate-bounded :
    (s : List ℕ) (max : ℕ)
    → length (truncate_error_message s (pos max)) ≤ (if eqb max 0 then 4096 else max) + 3
unfolding truncate_error_message
truncate-bounded s max = truncate_at-length (if eqb max 0 then 4096 else max) s
