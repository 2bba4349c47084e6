-- ===== src/Examples/Builds.antt =====
-- The theorems on the building of a DAG, applied to small ones.
use ebind.Base.{String, true, false, none, some, is_some, List, [], ◌∷◌, Map, ◌≡◌, refl}
use ebind.Types.{err, required, cycle}
use ebind.Wire.Args.{Arg}
use ebind.Builder.{Step, detect_cycles}
use ebind.Builder.Cycles.Fuel.{cycles_answers}

abbrev pub built : String → List Arg → List String → List String → Step
built id args after_deps after_any_deps = record {
  id = id;
  fn_name = some "f";
  args = args;
  optional = false;
  policy = none;
  placement = none;
  after_deps = after_deps;
  after_any_deps = after_any_deps;
  break_before = [];
  break_after = [];
  has_break_before = false;
  has_break_after = false;
  wait_signals = [];
  has_wait_signals = false;
}

abbrev result_of_a : Arg
result_of_a = Arg.ref (record { step_id = "a"; mode = required; default = none })

abbrev last_step : Step
last_step = built "c" (result_of_a ∷ []) ("b" ∷ []) ("a" ∷ "b" ∷ [])

abbrev pub three_steps : Map Step
three_steps =
    ("c", last_step) ∷ ("b", built "b" (result_of_a ∷ []) [] []) ∷ ("a", built "a" [] [] []) ∷ []

abbrev a_circle : Map Step
a_circle = ("a", built "a" [] ("b" ∷ []) []) ∷ ("b", built "b" [] [] ("a" ∷ [])) ∷ []

cycles_answers_example : is_some (detect_cycles a_circle) ≡ true
cycles_answers_example = cycles_answers a_circle

circle_found : detect_cycles a_circle ≡ some (err cycle)
unfolding detect_cycles
circle_found = refl
