-- ===== src/Examples/Letters.antt =====
-- The theorems on dead letters and on the names of handlers, applied to small ones.
use ebind.Base.{
  ℕ, String, Bool, true, false, ◌==◌, ◌||◌, Option, none, some, List, [], ◌∷◌, ◌++◌, Map, lookup,
  contains, eqb, arith, ◌≡◌, refl, ◌⊎◌, inl, inr, Bool-cases, if◌then◌else◌, sym, ap,
}
use ebind.Task.{Task}
use ebind.Dlq.{Entry, Found, no_message, entry, DlqClient, requeue, IsDlq, entry_of}
use ebind.Dlq.Safe.{KeptOrSent, requeue_safe}
use ebind.Registry.{register, name_or, register_exact}
use ebind.Worker.{deadline_error}
use ebind.Examples.{done_task}

-- A stream with one dead letter, number 7, and the tasks that were sent.
abbrev Streams : Type 0
Streams = Found × List (String × Task)

abbrev letters : Streams → ℕ → Found
letters (m, sent) n = if eqb 7 n then m else no_message

abbrev sent_tasks : Streams → List (String × Task)
sent_tasks (m, sent) = sent

abbrev delete_letter : ℕ → Streams → Streams
delete_letter seq (m, sent) = (if eqb seq 7 then no_message else m, sent)

abbrev one_letter : DlqClient Streams
one_letter = record {
  get_msg = λ seq b. (some (letters b seq), b);
  delete_msg = λ seq b. (true, delete_letter seq b);
  publish_task = λ subject t (m, sent). (true, (m, sent ++ (subject, t) ∷ []));
  publish_entry = λ subject e b. (true, b);
}

deletes_one :
    (seq n : ℕ) (b : Streams) → eqb seq n ≡ true ⊎ (letters (delete_letter seq b) n ≡ letters b n)
deletes_one seq n (m, sent) = elim (Bool-cases (eqb seq n)) [
  | inl same ↦ inl same
  | inr other ↦ inr (ground arith)
]

abbrev found_in : Option Found → Found
found_in none = no_message
found_in (some m) = m

one_letter-IsDlq : IsDlq one_letter letters sent_tasks
one_letter-IsDlq = record {
  get-keeps = λ seq n b. (refl, refl);
  get-found = λ seq b b' m e. sym (ap (λ (p : Option Found × Streams). found_in p.0) e);
  publish-keeps = λ subject t b n. refl;
  publish-sends = λ subject t b b' e. sym (ap (λ (p : Bool × Streams). sent_tasks p.1) e);
  delete-keeps = λ seq n b. (deletes_one seq n b, refl);
}

abbrev late_entry : Entry
late_entry = entry_of 3 done_task deadline_error

requeue_safe_example :
    KeptOrSent one_letter
      (λ s. s)
      letters
      sent_tasks
      9
      7
      late_entry
      (entry late_entry, [])
      (requeue one_letter (λ s. s) 9 7 (entry late_entry, [])).1
requeue_safe_example =
    requeue_safe one_letter (λ s. s) letters sent_tasks 9 7 late_entry (entry late_entry, [])
      one_letter-IsDlq refl

abbrev two_handlers : Map ℕ
two_handlers = ("f", 1) ∷ ("g", 2) ∷ []

register_exact_example : lookup "h" (register (some 3) "pkg.h" "" ("h" ∷ []) two_handlers).1 ≡ (
    if name_or "" "pkg.h" == "h" || contains ("h" ∷ []) "h"
    then some 3
    else lookup "h" two_handlers)
unfolding register
register_exact_example = register_exact 3 "pkg.h" "" ("h" ∷ []) two_handlers "h" refl

-- The alias is taken: an error, and the new name stands all the same.
half_registered :
    register (some 3) "pkg.h" "" ("g" ∷ []) two_handlers
    ≡ (false, ("f", 1) ∷ ("g", 2) ∷ ("pkg.h", 3) ∷ [])
unfolding register
half_registered = refl
