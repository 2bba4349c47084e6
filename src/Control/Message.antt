-- ===== src/Control/Message.antt =====
-- `truncateErrorMessage` of workflow/hook.go. A Go string is the list of its bytes.
pub mod Bytes
pub mod Utf8
use ebind.Base.{
  ℕ, zero, suc, ◌+◌, Bool, true, false, not, ◌&&◌, Option, none, some, List, [], ◌∷◌, ◌++◌, ltb,
  leb, eqb, length, ℤ, pos, negsuc, if◌then◌else◌,
}

-- s[:n]
unfoldable pub take : ℕ → List ℕ → List ℕ
take zero s = []
take (suc n) [] = []
take (suc n) (b ∷ s) = b ∷ take n s

unfoldable pub get_elem? : List ℕ → ℕ → Option ℕ
get_elem? [] n = none
get_elem? (b ∷ s) zero = some b
get_elem? (b ∷ s) (suc n) = get_elem? s n

-- `utf8.RuneStart`: the byte is not one of 0x80 to 0xBF.
abbrev pub rune_start : ℕ → Bool
rune_start b = not (leb 128 b && ltb b 192)

abbrev pub starts_rune : Option ℕ → Bool
starts_rune none = false
starts_rune (some b) = rune_start b

-- The loop from `cut` down to the start of a rune, or to 0.
unfoldable pub rune_cut : List ℕ → ℕ → ℕ
unfolding get_elem?
rune_cut s zero = zero
rune_cut s (suc n) =
    let lower = rune_cut s n in if starts_rune (get_elem? s (suc n)) then suc n else lower

-- The bytes of "…".
abbrev pub ellipsis : List ℕ
ellipsis = 226 ∷ 128 ∷ 166 ∷ []

abbrev pub truncate_at : ℕ → List ℕ → List ℕ
truncate_at max s = if leb (length s) max then s else take (rune_cut s max) s ++ ellipsis

-- `DefaultMaxStepErrorBytes` is 4096.
unfoldable pub truncate_error_message : List ℕ → ℤ → List ℕ
unfolding take rune_cut
truncate_error_message s (negsuc n) = []
truncate_error_message s (pos max) = truncate_at (if eqb max 0 then 4096 else max) s
