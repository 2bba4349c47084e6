-- ===== src/Builder/Deps.antt =====
-- What a step waits on: every source of a dependency counts, and the required ones take precedence.
use ebind.Base.{
  String, not, ◌&&◌, ◌||◌, [], ◌++◌, contains, contains-append, contains-dedupe_from, arith, ◌≡◌,
}
use ebind.Builder.{Step, ref_ids, step_arg_deps, required_deps, optional_deps, all_deps}

required_deps-exact :
    (s : Step) (x : String)
    → contains (required_deps s) x ≡ (contains (ref_ids s.args) x || contains s.after_deps x)
unfolding required_deps step_arg_deps contains
required_deps-exact s x = ground (
  arith,
  contains-dedupe_from [] (step_arg_deps s.args ++ s.after_deps) x,
  contains-append (step_arg_deps s.args) s.after_deps x,
  contains-dedupe_from [] (ref_ids s.args) x,
)

-- The required dependencies of a step are the steps that its arguments refer to and those of
-- After; the optional ones are those of AfterAny that are not required; all of them together are
-- the steps of the three sources.
pub deps_exact :
    (s : Step) (x : String)
    → (contains (required_deps s) x ≡ (contains (ref_ids s.args) x || contains s.after_deps x))
      × (contains (optional_deps s) x
          ≡ (contains s.after_any_deps x && not (contains (required_deps s) x)))
      × (contains (all_deps s) x
          ≡ (contains (ref_ids s.args) x || contains s.after_deps x || contains s.after_any_deps x))
unfolding optional_deps all_deps contains
deps_exact s x = (
  required_deps-exact s x,
  contains-dedupe_from (required_deps s) s.after_any_deps x,
  ground (
    arith,
    required_deps-exact s x,
    contains-dedupe_from (required_deps s) s.after_any_deps x,
    contains-dedupe_from [] (required_deps s ++ optional_deps s) x,
    contains-append (required_deps s) (optional_deps s) x,
  ),
)
