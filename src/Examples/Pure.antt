-- ===== src/Examples/Pure.antt =====
-- The theorems on the state of a DAG, on references and on retries, applied to small cases.
use ebind.Base.{
  true, false, none, some, List, [], ◌∷◌, contains, UniqueKeys, lookup, ◌≡◌, refl, ◌↔◌,
  if◌then◌else◌,
}
use ebind.Types.{
  Json, StepStatus, pending, done, failed, DagStatus, required, or_default, status_eq, StepRecord,
}
use ebind.Task.{TaskError}
use ebind.Wire.{is_ref, Ref, mentions, mode_text, marshal_ref, decode_ref, resolve_args}
use ebind.Wire.Args.{Arg, marshal_list}
use ebind.Wire.RoundTrip.{decode_ref-marshal_ref}
use ebind.Wire.Resolve.{evaluate_all, resolve_args-marshal_list}
use ebind.State.{
  ready_to_run, before_bp_blocks, signal_blocks, deps_satisfied, terminal, all_steps_terminal,
  derive_final_status,
}
use ebind.State.Ready.{MayStart, ready_to_run_exact}
use ebind.State.Final.{terminal_agrees}
use ebind.State.Cascade.{cascade_skip_from}
use ebind.State.Cascade.Chains.{Chain, marked}
use ebind.State.Cascade.Exact.{cascade_exact}
use ebind.Examples.{step_of, chain_dag, ended_dag, go_signal}

chain_dag-UniqueKeys : (first : StepStatus) → UniqueKeys (chain_dag first).steps
unfolding lookup
chain_dag-UniqueKeys first = (refl, (refl, (refl, (refl, tt))))

cascade_exact_example :
    ((contains (cascade_skip_from 7 "a" (chain_dag failed)).1 "c" ≡ true)
      ↔ Chain (chain_dag failed).steps "a" "c")
    × (lookup "c" (cascade_skip_from 7 "a" (chain_dag failed)).0.steps
        ≡ marked 7
            (contains (cascade_skip_from 7 "a" (chain_dag failed)).1 "c")
            (lookup "c" (chain_dag failed).steps))
cascade_exact_example = cascade_exact 7 "a" (chain_dag failed) (chain_dag-UniqueKeys failed) "c"

skips_the_chain : (cascade_skip_from 7 "a" (chain_dag failed)).1 ≡ "b" ∷ "c" ∷ []
unfolding cascade_skip_from
skips_the_chain = refl

ready_to_run_exact_example :
    (contains (ready_to_run (chain_dag done)) "b" ≡ true) ↔ MayStart (chain_dag done) "b"
ready_to_run_exact_example = ready_to_run_exact (chain_dag done) "b" (chain_dag-UniqueKeys done)

starts_two : ready_to_run (chain_dag done) ≡ "b" ∷ "e" ∷ []
unfolding ready_to_run status_eq before_bp_blocks signal_blocks deps_satisfied
starts_two = refl

abbrev b_step : StepRecord
b_step = step_of "b" ("a" ∷ []) pending

terminal_agrees_example : terminal ended_dag ≡ (
    if all_steps_terminal ended_dag
    then (derive_final_status ended_dag, true)
    else (DagStatus.running, false))
terminal_agrees_example = terminal_agrees ended_dag (λ e. cc) (λ e. cc) (λ e. cc) (λ e. cc)

abbrev result_of_a : Ref
result_of_a = record { step_id = "a"; mode = or_default; default = some (Json.num "1") }

decode_ref-marshal_ref_example : decode_ref (marshal_ref result_of_a) ≡ some result_of_a
decode_ref-marshal_ref_example = decode_ref-marshal_ref result_of_a tt

abbrev three_args : List Arg
three_args =
    Arg.ref (record { step_id = "a"; mode = required; default = none })
    ∷ Arg.signal (record { name = "go" })
    ∷ Arg.literal (Json.str "x")
    ∷ []

resolve_args-marshal_list_example :
    resolve_args
      (("a", Json.num "5") ∷ [])
      (("a", done) ∷ [])
      (("go", go_signal) ∷ [])
      (marshal_list three_args)
    ≡ evaluate_all (("a", Json.num "5") ∷ []) (("a", done) ∷ []) (("go", go_signal) ∷ []) three_args
unfolding mentions mode_text
resolve_args-marshal_list_example =
    resolve_args-marshal_list (("a", Json.num "5") ∷ []) (("a", done) ∷ []) (("go", go_signal) ∷ [])
      three_args
      (
        record { canonical = tt; id_plain = refl; mode_plain = refl; default_plain = refl },
        (tt, ((refl, refl), tt)),
      )

abbrev timeout_error : TaskError
timeout_error = record { kind = "timeout"; message = []; retryable = true }

-- A text that ends with a quote and the marker has the marker between quotes in its bytes.
taken_for_a_ref : is_ref (Json.str "x\"__ebind_ref__") ≡ true
unfolding is_ref
taken_for_a_ref = refl
