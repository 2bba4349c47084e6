-- ===== src/Nats/Operations.antt =====
-- The methods of `NatsStore` in workflow/store_nats.go.
use Prim.Native.String.{◌++◌ as append}
use ebind.Base.{has_suffix, ℕ, String, true, Option, some, List, eqb, if◌then◌else◌}
use ebind.Types.{
  Json, StepRecord, DagMeta, SignalRecord, Result, dag_not_found, step_not_found, signal_not_found,
}
use ebind.Nats.{
  Kv, Codec, meta_key, step_key, result_key, create_answer, update_answer, delete_answer,
  put_answer, get_answer, value_only,
}
use ebind.Nats.Reads.{list_live, map_values}

module _ {B Bytes : Type 0} (kv : Kv B Bytes) (c : Codec Bytes) where
  abbrev pub signal_key : String → String → String
  signal_key dag name = append dag (append ".signal." (c.base64 name))

  unfoldable pub get_meta : String → B → Result (DagMeta × ℕ) × B
  get_meta dag b =
      let (r, b') = kv.get (meta_key dag) b in (get_answer dag_not_found c.to_meta r, b')

  unfoldable pub put_meta : String → DagMeta → ℕ → B → Result (Unit {0}) × B
  put_meta dag meta expected b =
      if eqb expected 0
      then (let (r, b') = kv.create (meta_key dag) (c.of_meta meta) b in
          (create_answer (λ _. tt) r, b'))
      else (let (r, b') = kv.update (meta_key dag) (c.of_meta meta) expected b in
          (update_answer (λ _. tt) r, b'))

  unfoldable pub get_step : String → String → B → Result (StepRecord × ℕ) × B
  get_step dag id b =
      let (r, b') = kv.get (step_key dag id) b in (get_answer step_not_found c.to_step r, b')

  unfoldable pub put_step : String → String → StepRecord → ℕ → B → Result ℕ × B
  put_step dag id rec expected b =
      if eqb expected 0
      then (let (r, b') = kv.create (step_key dag id) (c.of_step rec) b in
          (create_answer (λ rev. rev) r, b'))
      else (let (r, b') = kv.update (step_key dag id) (c.of_step rec) expected b in
          (update_answer (λ rev. rev) r, b'))

  unfoldable pub list_dags : ℕ → B → Option (Result (List DagMeta) × B)
  unfolding list_live
  list_dags n b = map_values kv c.to_meta (list_live kv n ">" (λ key. has_suffix key ".meta") b)

  unfoldable pub list_steps : ℕ → String → B → Option (Result (List StepRecord) × B)
  unfolding list_live
  list_steps n dag b =
      map_values kv c.to_step (list_live kv n (append dag ".step.>") (λ key. true) b)

  unfoldable pub get_result : String → String → B → Result Json × B
  get_result dag id b =
      let (r, b') = kv.get (result_key dag id) b in
      (value_only (get_answer step_not_found (λ v. some (c.to_result v)) r), b')

  unfoldable pub put_result : String → String → Json → B → Result (Unit {0}) × B
  put_result dag id bytes b =
      let (r, b') = kv.put (result_key dag id) (c.of_result bytes) b in (put_answer r, b')

  abbrev pub delete : String → B → Result (Unit {0}) × B
  delete key b = let (r, b') = kv.delete key b in (delete_answer r, b')

  abbrev pub delete_meta : String → B → Result (Unit {0}) × B
  delete_meta dag = delete (meta_key dag)

  abbrev pub delete_step : String → String → B → Result (Unit {0}) × B
  delete_step dag id = delete (step_key dag id)

  abbrev pub delete_result : String → String → B → Result (Unit {0}) × B
  delete_result dag id = delete (result_key dag id)

  unfoldable pub get_signal : String → String → B → Result SignalRecord × B
  get_signal dag name b =
      let (r, b') = kv.get (signal_key dag name) b in
      (value_only (get_answer signal_not_found c.to_signal r), b')

  unfoldable pub put_signal : String → SignalRecord → B → Result (Unit {0}) × B
  put_signal dag rec b =
      let (r, b') = kv.create (signal_key dag rec.name) (c.of_signal rec) b in
      (create_answer (λ _. tt) r, b')

  unfoldable pub list_signals : ℕ → String → B → Option (Result (List SignalRecord) × B)
  unfolding list_live
  list_signals n dag b =
      map_values kv c.to_signal (list_live kv n (append dag ".signal.*") (λ key. true) b)

  abbrev pub delete_signal : String → String → B → Result (Unit {0}) × B
  delete_signal dag name = delete (signal_key dag name)
