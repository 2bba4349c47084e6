-- ===== src/Wire/Resolve.antt =====
-- `ResolveArgs` on the wire does what an evaluation of the arguments before they are written does.
use ebind.Base.{◌≡◌, refl, true, false, Bool, List, [], ◌∷◌, Map, lookup, arith, any, ◌&&◌, ◌≢◌}
use ebind.Types.{Json, required, StepStatus, failed, skipped, canceled, SignalRecord, ref_mode_eq}
use ebind.Wire.{
  Outcome, value, skip, fail, status_of, signal_value, resolve_ref, resolve_arg, resolve_args,
}
use ebind.Wire.Args.{Arg, marshal_arg, marshal_list, IsPlain, ArePlain}
use ebind.Wire.RoundTrip.{
  decode_ref-marshal_ref, decode_signal_ref-marshal_signal_ref, decode_signal_ref-marshal_ref,
}

abbrev pub is_dead : StepStatus → Bool
is_dead failed = true
is_dead skipped = true
is_dead canceled = true
is_dead _ = false

module _ (results : Map Json) (statuses : Map StepStatus) (signals : Map SignalRecord) where
  -- An argument's meaning, with no wire format in between.
  abbrev pub evaluate : Arg → Outcome Json
  evaluate (Arg.ref r) = resolve_ref results statuses signals r
  evaluate (Arg.signal s) = signal_value s.name (lookup s.name signals)
  evaluate (Arg.literal v) = value v

  -- The values of all arguments, or the first outcome that is no value.
  abbrev pub evaluate_all : List Arg → Outcome (List Json)
  evaluate_all [] = value []
  evaluate_all (a ∷ args) = elim (evaluate a) [
    | value v ↦ elim (evaluate_all args) [
      | value vs ↦ value (v ∷ vs)
      | skip ↦ skip
      | fail e ↦ fail e
    ]
    | skip ↦ skip
    | fail e ↦ fail e
  ]

  resolve_arg-marshal_arg :
      (a : Arg) → IsPlain a → resolve_arg results statuses signals (marshal_arg a) ≡ evaluate a
  unfolding resolve_arg marshal_arg
  resolve_arg-marshal_arg (Arg.ref r) h =
      ground (arith, decode_signal_ref-marshal_ref r h, decode_ref-marshal_ref r h.canonical)
  resolve_arg-marshal_arg (Arg.signal s) h = ground (arith, decode_signal_ref-marshal_signal_ref s)
  resolve_arg-marshal_arg (Arg.literal v) h = ground arith

  -- ResolveArgs, on arguments written as JSON that the markers keep apart, gives what an
  -- evaluation of the arguments before they are written gives: their values, or the first skip
  -- or error.
  pub resolve_args-marshal_list :
      (args : List Arg)
      → ArePlain args
      → resolve_args results statuses signals (marshal_list args) ≡ evaluate_all args
  unfolding resolve_args marshal_list
  resolve_args-marshal_list [] h = refl
  resolve_args-marshal_list (a ∷ args) h =
      ground (arith, resolve_arg-marshal_arg a h.0, resolve_args-marshal_list args h.1)

  -- A reference in required mode to a step that ended without a result.
  abbrev pub is_dead_required : Arg → Bool
  is_dead_required (Arg.ref r) =
      ref_mode_eq r.mode required && is_dead (status_of (lookup r.step_id statuses))
  is_dead_required _ = false

  evaluate-skip : (a : Arg) → evaluate a ≡ skip → is_dead_required a ≡ true
  unfolding resolve_ref ref_mode_eq
  evaluate-skip (Arg.ref r) h = ground arith
  evaluate-skip (Arg.signal s) h = ground arith
  evaluate-skip (Arg.literal v) h = cc

  skip-evaluate : (a : Arg) → is_dead_required a ≡ true → evaluate a ≡ skip
  unfolding resolve_ref ref_mode_eq
  skip-evaluate (Arg.ref r) h = ground arith
  skip-evaluate (Arg.signal s) h = cc
  skip-evaluate (Arg.literal v) h = cc

  evaluate_all-skip :
      (args : List Arg) → evaluate_all args ≡ skip → any is_dead_required args ≡ true
  evaluate_all-skip [] h = cc
  evaluate_all-skip (a ∷ args) h = ground (arith, evaluate-skip a, evaluate_all-skip args)

  not-evaluate_all-value :
      (args : List Arg) (vs : List Json)
      → any is_dead_required args ≡ true
      → evaluate_all args ≢ value vs
  not-evaluate_all-value [] vs h e = cc
  not-evaluate_all-value (a ∷ args) [] h e = ground (arith, skip-evaluate a)
  not-evaluate_all-value (a ∷ args) (v ∷ vs) h e =
      ground (arith, skip-evaluate a, not-evaluate_all-value args vs)

  -- For arguments that the markers keep apart, ResolveArgs asks for a skip only if one of them
  -- is a reference in required mode to a failed, skipped or canceled step, and with such a
  -- reference it never gives values.
  pub resolve_args-skip :
      (args : List Arg)
      → ArePlain args
      → (resolve_args results statuses signals (marshal_list args) ≡ skip
          → any is_dead_required args ≡ true)
        × ((vs : List Json)
            → any is_dead_required args ≡ true
            → resolve_args results statuses signals (marshal_list args) ≢ value vs)
  resolve_args-skip args h =
      rw (resolve_args-marshal_list args h) (evaluate_all-skip args, not-evaluate_all-value args)
