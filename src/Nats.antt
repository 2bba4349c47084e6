-- ===== src/Nats.antt =====
-- workflow/store_nats.go: the StateStore on a JetStream bucket. The bucket is a parameter: the calls of
-- its client, and the two requests that only the leader of its stream answers. So is the JSON of the
-- records, and the base64 of a signal's name.
pub mod Keys
pub mod Listing
pub mod Paging
pub mod Reads
pub mod Operations
use Prim.Native.String.{◌++◌ as append, len, slice}
use text.Mathlib.Text.{starts_with}
use ebind.Base.{
  ℕ, zero, suc, ◌-◌, String, Bool, true, false, not, ◌&&◌, ◌||◌, ◌==◌, Option, none, some, List, [],
  ◌∷◌, contains, length, eqb, leb, sort_strings, if◌then◌else◌,
}
use ebind.Types.{
  Json, StepRecord, DagMeta, SignalRecord, Err, Result, ok, err, dag_not_found, step_not_found,
  signal_not_found, stale_revision, nats_failed,
}

-- The errors that the store tells apart: ErrKeyNotFound, ErrKeyExists, a text with "wrong last
-- sequence", and all others.
pub data KvErr : Type 0 where
  key_not_found key_exists wrong_sequence other_error : KvErr

pub data Reply (A : Type 0) : Type 0 where
  answered : A → Reply A
  refused : KvErr → Reply A

-- An answer of STREAM.INFO: the number of subjects and a page of them.
pub record Page : Type 0 where
  pub total : ℕ
  pub subjects : List String

-- An answer of STREAM.MSG.GET: no such message, or the value of `KV-Operation` and the data.
pub data LastMessage (Bytes : Type 0) : Type 0 where
  no_message : LastMessage Bytes
  message : String → Bytes → LastMessage Bytes

-- What the store asks of the bucket. Other clients write to it and its replicas catch up at any call,
-- so each gives a new bucket.
pub record Kv (B Bytes : Type 0) : Type 0 where
  pub get : String → B → Reply (Bytes × ℕ) × B
  pub create : String → Bytes → B → Reply ℕ × B
  pub update : String → Bytes → ℕ → B → Reply ℕ × B
  pub put : String → Bytes → B → Reply ℕ × B
  pub delete : String → B → Reply (Unit {0}) × B
  pub stream_info : String → ℕ → B → Reply Page × B
  pub last_for_subject : String → B → Reply (LastMessage Bytes) × B

-- The bytes of the records.
pub record Codec (Bytes : Type 0) : Type 0 where
  pub of_meta : DagMeta → Bytes
  pub to_meta : Bytes → Option DagMeta
  pub of_step : StepRecord → Bytes
  pub to_step : Bytes → Option StepRecord
  pub of_signal : SignalRecord → Bytes
  pub to_signal : Bytes → Option SignalRecord
  pub of_result : Json → Bytes
  pub to_result : Bytes → Json
  pub base64 : String → String

abbrev pub meta_key : String → String
meta_key dag = append dag ".meta"

abbrev pub step_key : String → String → String
step_key dag id = append dag (append ".step." id)

abbrev pub result_key : String → String → String
result_key dag id = append dag (append ".result." id)

-- `strings.TrimPrefix`.
abbrev pub trim_prefix : String → String → String
trim_prefix s p = if starts_with s p then slice s (len p) (len s) else s

abbrev pub subject_prefix : String
subject_prefix = "$KV.ebind-dags."

-- A write that another one came before is stale.
abbrev pub create_answer {ℓ} : {A : Type ℓ} → (ℕ → A) → Reply ℕ → Result A
create_answer f (answered rev) = ok (f rev)
create_answer f (refused key_exists) = err stale_revision
create_answer f (refused wrong_sequence) = err stale_revision
create_answer f (refused e) = err nats_failed

abbrev pub update_answer {ℓ} : {A : Type ℓ} → (ℕ → A) → Reply ℕ → Result A
update_answer f (answered rev) = ok (f rev)
update_answer f (refused wrong_sequence) = err stale_revision
update_answer f (refused e) = err nats_failed

-- A key that is missing is no error.
abbrev pub delete_answer : Reply (Unit {0}) → Result (Unit {0})
delete_answer (answered u) = ok tt
delete_answer (refused key_not_found) = ok tt
delete_answer (refused e) = err nats_failed

abbrev pub put_answer : Reply ℕ → Result (Unit {0})
put_answer (answered rev) = ok tt
put_answer (refused e) = err nats_failed

module _ {ℓ} {A : Type ℓ} where
  abbrev pub decoded : Option A → ℕ → Result (A × ℕ)
  decoded none rev = err nats_failed
  decoded (some a) rev = ok (a, rev)

  -- `Get` and the decoding of what it found.
  abbrev pub get_answer :
      {Bytes : Type 0} → Err → (Bytes → Option A) → Reply (Bytes × ℕ) → Result (A × ℕ)
  get_answer missing decode (answered (v, rev)) = decoded (decode v) rev
  get_answer missing decode (refused key_not_found) = err missing
  get_answer missing decode (refused e) = err nats_failed

  abbrev pub value_only : Result (A × ℕ) → Result A
  value_only (ok (a, rev)) = ok a
  value_only (err e) = err e

  -- The values that decode; the others are passed over.
  abbrev pub decode_all : {Bytes : Type 0} → (Bytes → Option A) → List Bytes → List A
  decode_all decode [] = []
  decode_all decode (v ∷ vs) =
      let rest = decode_all decode vs in elim (decode v) [ none ↦ rest | some a ↦ a ∷ rest ]
