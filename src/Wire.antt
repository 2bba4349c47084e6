-- ===== src/Wire.antt =====
-- workflow/ref.go: references in a step's arguments, on the wire and when they are resolved. A raw
-- argument is a JSON value, so `bytes.Contains(raw, "\"marker\"")` is a search for a key or a
-- text that is the marker, or ends with a quote and the marker. Field names are compared exactly, and
-- no object has a key twice.
pub mod Args
pub mod RoundTrip
pub mod Resolve
use Prim.Native.String.{◌++◌ as append}
use ebind.Base.{
  has_suffix, ◌||◌, String, Bool, true, false, Option, none, some, List, [], ◌∷◌, Map, lookup,
  is_nil, ◌==◌, ◌&&◌, if◌then◌else◌,
}
use ebind.Types.{
  Json, Items, Fields, RefMode, required, or_default, StepStatus, done, failed, skipped, canceled,
  SignalRecord, Err, not_delivered, no_result, unknown_mode, not_terminal, ref_mode_eq,
}

pub record Ref : Type 0 where
  pub step_id : String
  pub mode : RefMode
  pub default : Option Json

pub record SigRef : Type 0 where
  pub name : String

abbrev pub ref_marker : String
ref_marker = "__ebind_ref__"

abbrev pub signal_marker : String
signal_marker = "__ebind_signal__"

-- Whether the bytes of a text have the marker between two quotes: the text is the marker, or it ends
-- with a quote, which is written with a backslash before it, and the marker.
abbrev pub is_marked : String → String → Bool
is_marked mark s = s == mark || has_suffix s (append "\"" mark)

unfoldable mutual
  pub mentions : String → Json → Bool
  mentions mark (Json.str s) = is_marked mark s
  mentions mark (Json.arr xs) = mentions_items mark xs
  mentions mark (Json.obj fs) = mentions_fields mark fs
  mentions mark _ = false

  pub mentions_items : String → Items → Bool
  mentions_items mark Items.nil = false
  mentions_items mark (Items.cons x xs) = if mentions mark x then true else mentions_items mark xs

  pub mentions_fields : String → Fields → Bool
  mentions_fields mark Fields.end = false
  mentions_fields mark (Fields.field k v fs) =
      if is_marked mark k then true else if mentions mark v then true else mentions_fields mark fs

-- `IsRef` and `IsSignalRef`.
unfoldable pub is_ref : Json → Bool
unfolding mentions
is_ref raw = mentions ref_marker raw

unfoldable pub is_signal_ref : Json → Bool
unfolding mentions
is_signal_ref raw = mentions signal_marker raw

unfoldable pub mode_text : RefMode → String
mode_text required = "required"
mode_text or_default = "or_default"
mode_text (RefMode.other s) = s

unfoldable pub mode_of_text : String → RefMode
mode_of_text s =
    if s == "required" then required else if s == "or_default" then or_default else RefMode.other s

-- `omitempty`: a default of no bytes is left out.
abbrev default_field : Option Json → Fields
default_field none = Fields.end
default_field (some d) = Fields.field "default" d Fields.end

-- `Ref.MarshalJSON`.
unfoldable pub marshal_ref : Ref → Json
unfolding mode_text
marshal_ref r = Json.obj (
    Fields.field ref_marker (Json.str ref_marker) (
      Fields.field "step_id" (Json.str r.step_id)
        (Fields.field "mode" (Json.str (mode_text r.mode)) (default_field r.default))))

-- `SigRef.MarshalJSON`.
unfoldable pub marshal_signal_ref : SigRef → Json
marshal_signal_ref r = Json.obj (
    Fields.field signal_marker (Json.str signal_marker)
      (Fields.field "name" (Json.str r.name) Fields.end))

unfoldable pub get_field : String → Fields → Option Json
get_field k Fields.end = none
get_field k (Fields.field j v fs) = if j == k then some v else get_field k fs

-- A `string` field of a Go struct: absent or null leaves it empty, another type is an error.
abbrev string_field : Option Json → Option String
string_field none = some ""
string_field (some Json.null) = some ""
string_field (some (Json.str s)) = some s
string_field (some _) = none

abbrev ref_of : Option Json → Option String → Option String → Option String → Option Ref
ref_of default (some mark) (some step_id) (some mode) =
    some (record { step_id = step_id; mode = mode_of_text mode; default = default })
ref_of default _ _ _ = none

-- `Ref.UnmarshalJSON`; the callers have seen the marker, so `raw` is not null.
unfoldable pub unmarshal_ref : Json → Option Ref
unfolding get_field mode_of_text
unmarshal_ref (Json.obj fs) =
    ref_of (get_field "default" fs) (string_field (get_field ref_marker fs))
      (string_field (get_field "step_id" fs)) (string_field (get_field "mode" fs))
unmarshal_ref _ = none

abbrev signal_ref_of : Option String → Option String → Option SigRef
signal_ref_of (some mark) (some name) = some (record { name = name })
signal_ref_of _ _ = none

-- `SigRef.UnmarshalJSON`.
unfoldable pub unmarshal_signal_ref : Json → Option SigRef
unfolding get_field
unmarshal_signal_ref (Json.obj fs) =
    signal_ref_of (string_field (get_field signal_marker fs)) (string_field (get_field "name" fs))
unmarshal_signal_ref _ = none

unfoldable pub decode_ref : Json → Option Ref
unfolding is_ref unmarshal_ref
decode_ref raw = if is_ref raw then unmarshal_ref raw else none

unfoldable pub decode_signal_ref : Json → Option SigRef
unfolding is_signal_ref unmarshal_signal_ref
decode_signal_ref raw = if is_signal_ref raw then unmarshal_signal_ref raw else none

-- What `ResolveArgs` makes of one argument, and of all of them.
pub data Outcome {ℓ} (A : Type ℓ) : Type ℓ where
  value : A → Outcome A
  skip : Outcome A
  fail : Err → Outcome A

abbrev or_null : Option Json → Json
or_null none = Json.null
or_null (some j) = j

-- statuses[id]: the empty string where the map has no entry.
abbrev pub status_of : Option StepStatus → StepStatus
status_of none = StepStatus.other ""
status_of (some s) = s

abbrev done_value : String → Option Json → Outcome Json
done_value id none = fail (no_result id)
done_value id (some upstream) = value upstream

abbrev default_value : Ref → RefMode → Outcome Json
default_value r required = skip
default_value r or_default = value (or_null r.default)
default_value r mode = fail (unknown_mode mode r.step_id)

abbrev pub signal_value : String → Option SignalRecord → Outcome Json
signal_value name none = fail (not_delivered name)
signal_value name (some sig) = value (or_null sig.payload)

-- The `switch status` of the loop.
abbrev pub ref_value : Ref → Option Json → StepStatus → Outcome Json
ref_value r result done = done_value r.step_id result
ref_value r result failed = default_value r r.mode
ref_value r result skipped = default_value r r.mode
ref_value r result canceled = default_value r r.mode
ref_value r result status = fail (not_terminal r.step_id status)

module _ (results : Map Json) (statuses : Map StepStatus) (signals : Map SignalRecord) where
  unfoldable pub resolve_ref : Ref → Outcome Json
  unfolding lookup
  resolve_ref r = ref_value r (lookup r.step_id results) (status_of (lookup r.step_id statuses))

  -- The body of the loop over the arguments.
  unfoldable pub resolve_arg : Json → Outcome Json
  unfolding resolve_ref decode_ref decode_signal_ref lookup
  resolve_arg raw = elim (decode_signal_ref raw) [
    | some sig ↦ signal_value sig.name (lookup sig.name signals)
    | none ↦ elim (decode_ref raw) [ none ↦ value raw | some r ↦ resolve_ref r ]
  ]

  abbrev prepend : Outcome Json → Outcome (List Json) → Outcome (List Json)
  prepend (value v) (value vs) = value (v ∷ vs)
  prepend (value v) skip = skip
  prepend (value v) (fail e) = fail e
  prepend skip rest = skip
  prepend (fail e) rest = fail e

  unfoldable pub resolve_args : List Json → Outcome (List Json)
  unfolding resolve_arg
  resolve_args [] = value []
  resolve_args (raw ∷ raws) = prepend (resolve_arg raw) (resolve_args raws)

abbrev pub to_list : Items → List Json
to_list Items.nil = []
to_list (Items.cons x xs) = x ∷ to_list xs

abbrev pub of_list : List Json → Items
of_list [] = Items.nil
of_list (x ∷ xs) = Items.cons x (of_list xs)

-- json.Unmarshal(argsJSON, &rawArgs) into a slice: null leaves it nil.
abbrev pub unmarshal_args : Json → Option (List Json)
unmarshal_args (Json.arr xs) = some (to_list xs)
unmarshal_args Json.null = some []
unmarshal_args _ = none

-- The test in the loop of `hasRefMode`.
abbrev is_ref_to : String → RefMode → Option Ref → Bool
is_ref_to target mode none = false
is_ref_to target mode (some r) = r.step_id == target && ref_mode_eq r.mode mode

unfoldable pub any_ref_mode : String → RefMode → List Json → Bool
unfolding decode_ref ref_mode_eq
any_ref_mode target mode [] = false
any_ref_mode target mode (raw ∷ raws) =
    if is_ref_to target mode (decode_ref raw) then true else any_ref_mode target mode raws

-- `hasRefMode` of workflow/state.go.
unfoldable pub has_ref_mode : Json → String → RefMode → Bool
unfolding any_ref_mode
has_ref_mode args_json target mode = elim (unmarshal_args args_json) [
  | none ↦ false
  | some raws ↦ any_ref_mode target mode raws
]
