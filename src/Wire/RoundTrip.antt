-- ===== src/Wire/RoundTrip.antt =====
-- What is written by `MarshalJSON` is read back, and the two kinds of reference are kept apart.
use ebind.Base.{◌≡◌, refl, Option, none, some, arith}
use ebind.Types.{Json, RefMode, required, or_default}
use ebind.Wire.{
  Ref, SigRef, marshal_ref, marshal_signal_ref, decode_ref, decode_signal_ref, mode_text,
  mode_of_text, get_field, default_field,
}
use ebind.Wire.Args.{IsCanonicalMode, IsPlainRef}

mode_round : (m : RefMode) → IsCanonicalMode m → mode_of_text (mode_text m) ≡ m
unfolding mode_of_text mode_text
mode_round required h = refl
mode_round or_default h = refl
mode_round (RefMode.other s) h = ground arith

default_round : (d : Option Json) → get_field "default" (default_field d) ≡ d
unfolding get_field
default_round none = refl
default_round (some d) = refl

-- A reference whose mode is the constructor of its text is read back as it was written, whatever
-- its step, its default and its mode.
pub decode_ref-marshal_ref :
    (r : Ref) → IsCanonicalMode r.mode → decode_ref (marshal_ref r) ≡ some r
unfolding decode_ref marshal_ref
decode_ref-marshal_ref r h = cc (mode_round r.mode h, default_round r.default)

pub decode_signal_ref-marshal_signal_ref :
    (s : SigRef) → decode_signal_ref (marshal_signal_ref s) ≡ some s
unfolding decode_signal_ref marshal_signal_ref
decode_signal_ref-marshal_signal_ref s = ground arith

-- A reference in which no text is the signal's marker is not read as a signal reference once it
-- is written.
pub decode_signal_ref-marshal_ref :
    (r : Ref) → IsPlainRef r → decode_signal_ref (marshal_ref r) ≡ none
unfolding decode_signal_ref marshal_ref
decode_signal_ref-marshal_ref r h = ground arith
