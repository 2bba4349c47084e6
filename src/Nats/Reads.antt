-- ===== src/Nats/Reads.antt =====
-- The lists of workflow/store_nats.go: `listLive` and its requests to the leader of the stream.
use Prim.Native.String.{◌++◌ as append}
use ebind.Base.{
  ℕ, zero, suc, String, Bool, not, ◌||◌, ◌==◌, Option, none, some, List, [], ◌∷◌, contains, length,
  eqb, leb, sort_strings, sort_by, if◌then◌else◌,
}
use ebind.Types.{Result, ok, err, nats_failed}
use ebind.Nats.{
  key_not_found, Reply, Page, answered, refused, LastMessage, no_message, message, Kv, trim_prefix,
  subject_prefix, decode_all,
}

abbrev pub add_seen : List String → List String → List String
add_seen seen [] = seen
add_seen seen (s ∷ page) = add_seen (if contains seen s then seen else s ∷ seen) page

module _ {B Bytes : Type 0} (kv : Kv B Bytes) where
  -- A page that adds nothing new ends the scan, and one that reaches the total.
  abbrev pub on_page :
      (List String → B → Option (Result (List String) × B))
      → List String
      → Reply Page × B
      → Option (Result (List String) × B)
  on_page more seen (refused e, b) = some (err nats_failed, b)
  on_page more seen (answered page, b) =
      let seen' = add_seen seen page.subjects in
      if eqb (length seen') (length seen) || leb page.total (length seen')
      then some (ok (sort_strings seen'), b)
      else more seen' b

  -- The loop of `leaderSubjects`; `none` where the fuel does not suffice.
  unfoldable pub subjects_from : ℕ → String → List String → B → Option (Result (List String) × B)
  unfolding contains sort_by
  subjects_from zero filter seen b = none
  subjects_from (suc n) filter seen b =
      on_page (subjects_from n filter) seen (kv.stream_info filter (length seen) b)

  -- `leaderLastMsg`: the bytes, or `none` for a tombstone and for no message.
  abbrev pub live_of : LastMessage Bytes → Option Bytes
  live_of no_message = none
  live_of (message op value) = if op == "DEL" || op == "PURGE" then none else some value

  abbrev pub last_answer : Reply (LastMessage Bytes) → Result (Option Bytes)
  last_answer (answered m) = ok (live_of m)
  last_answer (refused e) = err nats_failed

  abbrev pub leader_last_msg : String → B → Result (Option Bytes) × B
  leader_last_msg subj b = let (r, b') = kv.last_for_subject subj b in (last_answer r, b')

  abbrev pub cons_answer : Bytes → Result (List Bytes) × B → Result (List Bytes) × B
  cons_answer v (ok vs, b) = (ok (v ∷ vs), b)
  cons_answer v (err e, b) = (err e, b)

  abbrev pub after_last :
      (B → Result (List Bytes) × B) → Result (Option Bytes) × B → Result (List Bytes) × B
  after_last rest (err e, b) = (err e, b)
  after_last rest (ok none, b) = rest b
  after_last rest (ok (some v), b) = cons_answer v (rest b)

  -- One listed key: its value, by the leader where the direct get does not find it.
  abbrev pub after_get :
      String → (B → Result (List Bytes) × B) → Reply (Bytes × ℕ) × B → Result (List Bytes) × B
  after_get subj rest (answered (v, rev), b) = cons_answer v (rest b)
  after_get subj rest (refused key_not_found, b) = after_last rest (leader_last_msg subj b)
  after_get subj rest (refused e, b) = (err nats_failed, b)

  -- The loop of `listLive`.
  unfoldable pub list_values : (String → Bool) → List String → B → Result (List Bytes) × B
  list_values keep [] b = (ok [], b)
  list_values keep (subj ∷ subjs) b =
      let rest = list_values keep subjs in
      let key = trim_prefix subj subject_prefix in
      if not (keep key) then rest b else after_get subj rest (kv.get key b)

  abbrev pub after_subjects :
      (String → Bool) → Option (Result (List String) × B) → Option (Result (List Bytes) × B)
  after_subjects keep none = none
  after_subjects keep (some (err e, b)) = some (err e, b)
  after_subjects keep (some (ok subjs, b)) = some (list_values keep subjs b)

  unfoldable pub list_live : ℕ → String → (String → Bool) → B → Option (Result (List Bytes) × B)
  unfolding subjects_from list_values
  list_live n pattern keep b =
      after_subjects keep (subjects_from n (append subject_prefix pattern) [] b)

  abbrev pub map_values {ℓ} :
      {A : Type ℓ}
      → (Bytes → Option A)
      → Option (Result (List Bytes) × B)
      → Option (Result (List A) × B)
  map_values decode none = none
  map_values decode (some (ok vs, b)) = some (ok (decode_all decode vs), b)
  map_values decode (some (err e, b)) = some (err e, b)
