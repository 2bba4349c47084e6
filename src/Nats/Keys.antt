-- ===== src/Nats/Keys.antt =====
-- The keys of workflow/store_nats.go are apart from each other, if no identifier of a DAG has a dot.
use Prim.Native.Char.{Char, code}
use Prim.Native.String.{[] as nil, ◌∷◌ as cons, ◌++◌ as append}
use text.Mathlib.TextLemmas.{
  nil-append, cons-append, head-eq_of_cons-eq, tail-eq_of_cons-eq, append_cancel_left,
}
use ebind.Base.{String, Bool, false, ◌||◌, eqb, arith, ◌≡◌, refl, sym, ◌∙◌, ap}
use ebind.Nats.{meta_key, step_key, result_key}

abbrev dot : Char
dot = "."

unfoldable pub has_dot : String → Bool
has_dot nil = false
has_dot (cons c s) = eqb (code c) 46 || has_dot s

append_nil_dot : (t : String) → append nil (cons dot t) ≡ cons dot t
append_nil_dot t = nil-append (cons dot t)

-- The first dot ends the identifier.
split_at_dot :
    (d d' t t' : String)
    → has_dot d ≡ false
    → has_dot d' ≡ false
    → append d (cons dot t) ≡ append d' (cons dot t')
    → (d ≡ d') × (t ≡ t')
unfolding has_dot
split_at_dot nil nil t t' h h' e =
    (refl, tail-eq_of_cons-eq (sym (append_nil_dot t) ∙ e ∙ append_nil_dot t'))
split_at_dot nil (cons c d') t t' h h' e =
    let same =
      ap code (head-eq_of_cons-eq (sym (append_nil_dot t) ∙ e ∙ cons-append c d' (cons dot t'))) in
    absurd (ground (arith, same))
split_at_dot (cons c d) nil t t' h h' e =
    let same =
      ap code (head-eq_of_cons-eq (sym (cons-append c d (cons dot t)) ∙ e ∙ append_nil_dot t')) in
    absurd (ground (arith, same))
split_at_dot (cons c d) (cons c' d') t t' h h' e =
    let whole = sym (cons-append c d (cons dot t)) ∙ e ∙ cons-append c' d' (cons dot t') in
    let rest = split_at_dot d d' t t' (ground arith) (ground arith) (tail-eq_of_cons-eq whole) in
    (λ i. cons (head-eq_of_cons-eq whole i) (rest.0 i), rest.1)

-- A key is the identifier of the DAG, a dot, and the rest.
abbrev pub key_of : String → String → String
key_of d rest = append d (cons dot rest)

meta_parts : (d : String) → meta_key d ≡ key_of d "meta"
meta_parts d = refl

step_parts : (d k : String) → step_key d k ≡ key_of d (append "step." k)
step_parts d k = ap (append d) (cons-append dot "step." k)

pub signal_parts : (d t : String) → append d (append ".signal." t) ≡ key_of d (append "signal." t)
signal_parts d t = ap (append d) (cons-append dot "signal." t)

result_parts : (d k : String) → result_key d k ≡ key_of d (append "result." k)
result_parts d k = ap (append d) (cons-append dot "result." k)

different_heads :
    (c c' : Char) (s s' : String) → eqb (code c) (code c') ≡ false → ¬ (cons c s ≡ cons c' s')
different_heads c c' s s' apart e =
    let same = ap code (head-eq_of_cons-eq e) in ground (arith, same)

module _ (d d' : String) (plain : has_dot d ≡ false) (plain' : has_dot d' ≡ false) where
  pub meta_key-inj : meta_key d ≡ meta_key d' → d ≡ d'
  meta_key-inj e = (split_at_dot d d' "meta" "meta" plain plain' e).0

  pub step_key-inj : (k k' : String) → step_key d k ≡ step_key d' k' → (d ≡ d') × (k ≡ k')
  step_key-inj k k' e =
      let parts =
        split_at_dot d d' (append "step." k) (append "step." k') plain plain'
          (sym (step_parts d k) ∙ e ∙ step_parts d' k') in
      (parts.0, append_cancel_left "step." k k' parts.1)

  pub signal_key-inj :
      (t t' : String)
      → append d (append ".signal." t) ≡ append d' (append ".signal." t')
      → (d ≡ d') × (t ≡ t')
  signal_key-inj t t' e =
      let parts =
        split_at_dot d d' (append "signal." t) (append "signal." t') plain plain'
          (sym (signal_parts d t) ∙ e ∙ signal_parts d' t') in
      (parts.0, append_cancel_left "signal." t t' parts.1)

  pub step-meta-apart : (k : String) → ¬ (step_key d k ≡ meta_key d')
  step-meta-apart k e = different_heads "s" "m" (append "tep." k) "eta" refl (
      sym (cons-append "s" "tep." k)
      ∙ (split_at_dot d d' (append "step." k) "meta" plain plain' (sym (step_parts d k) ∙ e)).1)

  pub signal-meta-apart : (t : String) → ¬ (append d (append ".signal." t) ≡ meta_key d')
  signal-meta-apart t e = different_heads "s" "m" (append "ignal." t) "eta" refl (
      sym (cons-append "s" "ignal." t)
      ∙ (split_at_dot d d' (append "signal." t) "meta" plain plain' (sym (signal_parts d t) ∙ e)).1)

  pub step-signal-apart : (k t : String) → ¬ (step_key d k ≡ append d' (append ".signal." t))
  step-signal-apart k t e = different_heads "t" "i" (append "ep." k) (append "gnal." t) refl (
      sym (cons-append "t" "ep." k)
      ∙ tail-eq_of_cons-eq (
          sym (cons-append "s" "tep." k)
          ∙ (split_at_dot d d' (append "step." k) (append "signal." t) plain plain'
              (sym (step_parts d k) ∙ e ∙ signal_parts d' t)).1
          ∙ cons-append "s" "ignal." t)
      ∙ cons-append "i" "gnal." t)

  pub result-meta-apart : (k : String) → ¬ (result_key d k ≡ meta_key d')
  result-meta-apart k e = different_heads "r" "m" (append "esult." k) "eta" refl (
      sym (cons-append "r" "esult." k)
      ∙ (split_at_dot d d' (append "result." k) "meta" plain plain' (sym (result_parts d k) ∙ e)).1)

  pub result-step-apart : (k j : String) → ¬ (result_key d k ≡ step_key d' j)
  result-step-apart k j e = different_heads "r" "s" (append "esult." k) (append "tep." j) refl (
      sym (cons-append "r" "esult." k)
      ∙ (split_at_dot d d' (append "result." k) (append "step." j) plain plain'
          (sym (result_parts d k) ∙ e ∙ step_parts d' j)).1
      ∙ cons-append "s" "tep." j)

  pub result-signal-apart : (k t : String) → ¬ (result_key d k ≡ append d' (append ".signal." t))
  result-signal-apart k t e = different_heads "r" "s" (append "esult." k) (append "ignal." t) refl (
      sym (cons-append "r" "esult." k)
      ∙ (split_at_dot d d' (append "result." k) (append "signal." t) plain plain'
          (sym (result_parts d k) ∙ e ∙ signal_parts d' t)).1
      ∙ cons-append "s" "ignal." t)
