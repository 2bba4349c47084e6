-- ===== src/Examples/Live.antt =====
-- The theorems on the store and on the operations that write to it, applied to small stores.
use ebind.Base.{arith, List, [], ◌∷◌, String, true, ◌&&◌, ◌==◌, some, ◌≡◌, refl, if◌then◌else◌}
use ebind.Types.{pending, done, DagStatus, StepRecord, ok, err, stale_revision}
use ebind.Store.{MemEntry, MemStore, find_in, get_step, put_step, get_meta, put_meta}
use ebind.Store.Laws.{accepts, rev_after, put_step_cas}
use ebind.Runtime.Rely.Ensures.{Holds}
use ebind.Control.Cancel.{cancel}
use ebind.Control.Cancel.Sweep.{HasLeft, cancel_stops}
use ebind.Runtime.{World}
use ebind.System.Peers.{
  Peer, peer_write, peer_writes, AreShort, Interferes-in_turn, peers_interfere,
}
use ebind.Examples.{step_of, store_of, world_of}

abbrev waiting : MemStore
waiting = store_of DagStatus.running (step_of "a" [] pending)

abbrev entry : MemEntry
entry = record { rec = step_of "a" [] pending; rev = 4 }

put_step_cas_example :
    ((put_step "d" "a" waiting (step_of "a" [] done) 4).0 ≡ (
      if accepts 4 (find_in "d" "a" waiting.steps)
      then ok (rev_after (find_in "d" "a" waiting.steps))
      else err stale_revision))
    × ((d k : String)
        → find_in d k (put_step "d" "a" waiting (step_of "a" [] done) 4).1.steps ≡ (
            if accepts 4 (find_in "d" "a" waiting.steps) && ("d" == d && "a" == k)
            then some (record {
              rec = step_of "a" [] done;
              rev = rev_after (find_in "d" "a" waiting.steps);
            })
            else find_in d k waiting.steps))
put_step_cas_example = put_step_cas "d" "a" waiting (step_of "a" [] done) 4

-- Between the two calls that cancel the DAG and the step a scheduler starts the step.
abbrev between : List (List Peer)
between = [] ∷ (Peer.starts 9 "d" "other" ∷ []) ∷ (Peer.starts 9 "d" "a" ∷ []) ∷ []

between-AreShort : AreShort between
between-AreShort = (ground arith, (ground arith, (ground arith, tt)))

abbrev raced : World
raced = record (world_of waiting) { others = peer_writes between }

-- Afterwards an operator releases the hold of the step.
cancel_stops_example :
    Holds HasLeft "d" "a" (peer_write (Peer.unholds "d" "a") (cancel "d" raced).1.store)
unfolding cancel get_meta put_meta get_step put_step
cancel_stops_example =
    cancel_stops "d" raced (peer_write (Peer.unholds "d" "a") (cancel "d" raced).1.store)
      (peers_interfere between between-AreShort) refl refl
      ((Interferes-in_turn (Peer.unholds "d" "a" ∷ []) (ground arith)).evolves
        (cancel "d" raced).1.store)
      "a" {e = entry} refl refl

abbrev fenced_step : StepRecord
fenced_step = record (step_of "a" [] pending) { held = true; held_at = 8 }

abbrev fenced_entry : MemEntry
fenced_entry = record { rec = fenced_step; rev = 4 }

abbrev fenced_store : MemStore
fenced_store = store_of DagStatus.pausing fenced_step
