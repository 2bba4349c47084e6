-- ===== src/Wire/Args.antt =====
-- The arguments that a step is built with, before `marshalArgs` of workflow/dag.go writes them.
use ebind.Base.{String, Bool, false, List, [], ◌∷◌, Option, none, some, ◌≡◌, ◌==◌}
use ebind.Types.{Json, RefMode}
use ebind.Wire.{
  Ref, SigRef, marshal_ref, marshal_signal_ref, mentions, is_marked, mode_text, ref_marker,
  signal_marker, of_list,
}

-- The `any` of the source: a reference, a signal reference, or a value as encoding/json writes it.
pub data Arg : Type 0 where
  ref : Ref → Arg
  signal : SigRef → Arg
  literal : Json → Arg

-- The `switch` in the loop of `marshalArgs`.
unfoldable pub marshal_arg : Arg → Json
unfolding marshal_ref marshal_signal_ref
marshal_arg (ref r) = marshal_ref r
marshal_arg (signal s) = marshal_signal_ref s
marshal_arg (literal v) = v

unfoldable pub marshal_list : List Arg → List Json
unfolding marshal_arg
marshal_list [] = []
marshal_list (a ∷ args) = marshal_arg a ∷ marshal_list args

-- `marshalArgs`: a JSON array. Values that encoding/json refuses are not arguments here.
unfoldable pub marshal_args : List Arg → Json
unfolding marshal_list
marshal_args args = Json.arr (of_list (marshal_list args))

-- A mode is the constructor of its text.
abbrev pub IsCanonicalMode : RefMode → Type 0
IsCanonicalMode (RefMode.other s) = (s == "required" ≡ false) × (s == "or_default" ≡ false)
IsCanonicalMode _ = Unit {0}

abbrev default_mentions : String → Option Json → Bool
default_mentions mark none = false
default_mentions mark (some d) = mentions mark d

-- A reference that is not taken for a signal: the bytes of no text in it have the signal's marker
-- between quotes.
pub record IsPlainRef (r : Ref) : Type 0 where
  pub canonical : IsCanonicalMode r.mode
  pub id_plain : is_marked signal_marker r.step_id ≡ false
  pub mode_plain : is_marked signal_marker (mode_text r.mode) ≡ false
  pub default_plain : default_mentions signal_marker r.default ≡ false

-- The arguments that the wire format keeps apart.
abbrev pub IsPlain : Arg → Type 0
IsPlain (ref r) = IsPlainRef r
IsPlain (signal s) = Unit {0}
IsPlain (literal v) = (mentions ref_marker v ≡ false) × (mentions signal_marker v ≡ false)

abbrev pub ArePlain : List Arg → Type 0
ArePlain [] = Unit {0}
ArePlain (a ∷ args) = IsPlain a × ArePlain args
