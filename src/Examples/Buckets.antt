-- ===== src/Examples/Buckets.antt =====
-- The theorems on the contract of a store and on its bucket, applied to small stores.
use Prim.Native.String.{◌++◌ as append}
use mathlib.Core.Option
use ebind.Base.{
  ℕ, ◌+◌, String, true, Option, none, some, List, [], ◌∷◌, Map, lookup, insert, remove,
  lookup-insert, arith, ◌≡◌, refl, inl, inr, Bool-cases, if◌then◌else◌, sym, ap, ◌∙◌, all, contains,
}
use ebind.Types.{Json, StepRecord, DagMeta, SignalRecord, pending, running, ok}
use ebind.Nats.{
  Reply, answered, refused, key_not_found, key_exists, wrong_sequence, Page, LastMessage,
  no_message, message, Kv, Codec, trim_prefix, subject_prefix,
}
use ebind.Nats.Reads.{live_of, subjects_from, list_live}
use ebind.Nats.Paging.{IsPaged}
use ebind.Nats.Listing.{IsRead, ListsAll, list_live_complete}
use ebind.Contract.{Contract, fits, Wrote}
use ebind.Contract.Races.{one_writer_wins}
use ebind.Contract.Bucket.{keys, Stored, CreateStale, UpdateStale, IsBucket}
use ebind.Nats.Keys.{has_dot}
use ebind.Nats.Operations.{put_step}
use ebind.Examples.{step_of}

data Value : Type 0 where
  meta_value : DagMeta → Value
  step_value : StepRecord → Value
  signal_value : SignalRecord → Value
  result_value : Json → Value

abbrev to_step : Value → Option StepRecord
to_step (step_value rec) = some rec
to_step _ = none

abbrev to_meta : Value → Option DagMeta
to_meta (meta_value meta) = some meta
to_meta _ = none

abbrev to_signal : Value → Option SignalRecord
to_signal (signal_value rec) = some rec
to_signal _ = none

abbrev to_result : Value → Json
to_result (result_value bytes) = bytes
to_result _ = Json.null

abbrev plain_codec : Codec Value
plain_codec = record {
  of_meta = meta_value;
  to_meta = to_meta;
  of_step = step_value;
  to_step = to_step;
  of_signal = signal_value;
  to_signal = to_signal;
  of_result = result_value;
  to_result = to_result;
  base64 = λ s. s;
}

-- Each key has revisions of its own.
abbrev Bucket : Type 0
Bucket = Map (Value × ℕ)

abbrev get_reply : Option (Value × ℕ) → Reply (Value × ℕ)
get_reply none = refused key_not_found
get_reply (some v) = answered v

abbrev last_reply : Option (Value × ℕ) → LastMessage Value
last_reply none = no_message
last_reply (some (v, rev)) = message "" v

abbrev store_value : String → Value → ℕ → Bucket → Reply ℕ × Bucket
store_value k v rev b = (answered rev, insert k (v, rev) b)

-- The bucket's stream has one subject.
abbrev subject_a : String
subject_a = "$KV.ebind-dags.d.step.a"

abbrev small_kv : Kv Bucket Value
small_kv = record {
  get = λ k b. (get_reply (lookup k b), b);
  create = λ k v b. if fits 0 (lookup k b) then store_value k v 1 b else (refused key_exists, b);
  update = λ k v n b.
      if fits n (lookup k b) then store_value k v (n + 1) b else (refused wrong_sequence, b);
  put = λ k v b. store_value k v 1 b;
  delete = λ k b. (answered tt, remove k b);
  stream_info = λ filter offset b. (answered (record { total = 1; subjects = subject_a ∷ [] }), b);
  last_for_subject = λ s b. (answered (last_reply (lookup (trim_prefix s subject_prefix) b)), b);
}

abbrev leader : Bucket → String → Option (Value × ℕ)
leader b k = lookup k b

Wrote-value :
    (k : String) (v : Value) (rev : ℕ) (b : Bucket)
    → Wrote (keys leader) k (v, rev) b (insert k (v, rev) b)
Wrote-value k v rev b j known = lookup-insert k j (v, rev) b

create_stores :
    (k : String) (v : Value) (b : Bucket)
    → Stored leader CreateStale k v 0 b (small_kv.create k v b)
create_stores k v b = elim (Bool-cases (fits 0 (lookup k b))) [
  | inl free ↦ rw free (inl (1, refl, (ground arith, refl, Wrote-value k v 1 b)))
  | inr taken ↦ rw taken (inr (inl (inl refl, refl, λ j known. refl)))
]

update_stores :
    (k : String) (v : Value) (n : ℕ) (b : Bucket)
    → Stored leader UpdateStale k v n b (small_kv.update k v n b)
update_stores k v n b = elim (Bool-cases (fits n (lookup k b))) [
  | inl due ↦ rw due (inl (n + 1, refl, (ground arith, refl, Wrote-value k v (n + 1) b)))
  | inr stale ↦ rw stale (inr (inl (refl, refl, λ j known. refl)))
]

small_kv-IsBucket : IsBucket small_kv leader
small_kv-IsBucket = record {
  create-stores = create_stores;
  update-stores = λ k v n b changes there. update_stores k v n b;
}

abbrev live : String → Bucket → Option Value
live k b = Option.map (λ (v : Value × ℕ). v.0) (lookup k b)

last_told :
    (o : Option (Value × ℕ))
    → live_of small_kv (last_reply o) ≡ Option.map (λ (v : Value × ℕ). v.0) o
last_told none = refl
last_told (some (v, rev)) = refl

abbrev told : Reply (LastMessage Value) → LastMessage Value
told (answered m) = m
told (refused e) = no_message

small_kv-IsRead : IsRead small_kv live
small_kv-IsRead = record {
  get-keeps = λ k k' b. refl;
  last-keeps = λ s k' b. refl;
  last-live = λ s b m b' e.
      sym (ap (λ (r : Reply (LastMessage Value) × Bucket). live_of small_kv (told r.0)) e)
      ∙ last_told (lookup (trim_prefix s subject_prefix) b);
}

abbrev told_page : Reply Page → List String
told_page (answered p) = p.subjects
told_page (refused e) = []

one_subject : IsPaged small_kv (append subject_prefix "d.step.>") (subject_a ∷ [])
unfolding contains
one_subject offset b b' p e =
    ap (λ (r : Reply Page × Bucket). all (contains (subject_a ∷ [])) (told_page r.0)) (sym e)

abbrev one_key : Bucket
one_key = ("d.step.a", (step_value (step_of "a" [] pending), 4)) ∷ []

list_live_complete_example :
    ListsAll small_kv live
      (λ key. true)
      (subjects_from small_kv 2 (append subject_prefix "d.step.>") [] one_key)
      (list_live small_kv 2 "d.step.>" (λ key. true) one_key)
list_live_complete_example =
    list_live_complete small_kv live (λ key. true) 2 "d.step.>" (subject_a ∷ []) one_key
      small_kv-IsRead one_subject (ground arith)

-- Both writers have read revision 4.
one_writer_wins_example : ¬ (
    (put_step small_kv plain_codec "d" "a"
      (step_of "a" [] pending)
      4
      (put_step small_kv plain_codec "d" "a" (step_of "a" [] running) 4 one_key).1).0
    ≡ ok 5)
unfolding put_step lookup has_dot
one_writer_wins_example =
    one_writer_wins small_kv plain_codec leader "d" "a" (step_of "a" [] running)
      (step_of "a" [] pending) 4 one_key 5 5 (λ a b e. e) small_kv-IsBucket refl refl refl
