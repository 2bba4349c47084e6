-- ===== src/System/Peers.antt =====
-- The writes of other processes that run the same program, between the calls of an operation.
use ebind.Base.{subst, arith, ◌+◌, length, ◌<◌, ℕ, String, List, [], ◌∷◌, some, ◌≡◌, refl, inl, inr}
use ebind.Types.{running, skipped, done, failed, BpPosition, StepRecord, DagMeta, SignalRecord}
use ebind.Store.{MemEntry, MemStore, find_in, put_step, put_signal, put_meta}
use ebind.Runtime.{World}
use ebind.Runtime.Rely.{RecEvolves, Evolves, Evolves-refl, Evolves-trans, Interferes, AllInterfere}
use ebind.Runtime.Rely.Revisions.{
  Advances, Advances-same, Advances-trans, NoReuse-Advances, atomic_write-Advances,
  put_signal-Advances, create_step-Advances, put_meta-Advances,
}
use ebind.Runtime.Rely.Writes.{
  atomic_write, Interferes-atomic_write, Interferes-put_signal, Interferes-create_step,
  Interferes-put_meta,
}
use ebind.Control.Cancel.{cancel_decision}
use ebind.Control.Cancel.Sweep.{cancel_decision-OnWrite}
use ebind.Control.Persist.{persist_decision, running-OnWrite, skipped-OnWrite}
use ebind.Control.Hook.{end_decision}
use ebind.Control.Hook.Outcome.{end_decision-OnWrite}
use ebind.Control.Pause.{fence_decision, release_decision}
use ebind.Control.Pause.Rules.{fence_decision-OnWrite, release_decision-OnWrite}
use ebind.Control.Breakpoint.{release_bp_decision}
use ebind.Control.Breakpoint.Release.{release_bp_decision-OnWrite}
use ebind.Scheduler.Marks.{mark_decision}
use ebind.Scheduler.Rules.{mark_decision-OnWrite}
use ebind.System.{Operation, run_all, steps_move_on}

-- A write: at which time, to which step of which DAG.
pub data Peer : Type 0 where
  starts skips cancels holds : ℕ → String → String → Peer
  unholds : String → String → Peer
  succeeds : ℕ → String → String → String → Peer
  fails : ℕ → String → String → String → String → List ℕ → Peer
  passes : BpPosition → String → String → Peer
  marks : ℕ → BpPosition → String → String → Peer
  signals : String → SignalRecord → Peer
  creates : String → String → StepRecord → Peer
  puts_meta : String → DagMeta → ℕ → Peer

abbrev pub peer_write : Peer → MemStore → MemStore
peer_write (Peer.starts now dag step) s = atomic_write dag step (persist_decision now running) s
peer_write (Peer.skips now dag step) s = atomic_write dag step (persist_decision now skipped) s
peer_write (Peer.cancels now dag step) s = atomic_write dag step (cancel_decision now) s
peer_write (Peer.holds now dag step) s = atomic_write dag step (fence_decision now) s
peer_write (Peer.unholds dag step) s = atomic_write dag step release_decision s
peer_write (Peer.succeeds now dag step worker) s =
    atomic_write dag step (end_decision now done "" [] worker) s
peer_write (Peer.fails now dag step worker kind message) s =
    atomic_write dag step (end_decision now failed kind message worker) s
peer_write (Peer.passes pos dag step) s = atomic_write dag step (release_bp_decision pos) s
peer_write (Peer.marks now pos dag step) s = atomic_write dag step (mark_decision now pos) s
peer_write (Peer.signals dag rec) s = (put_signal dag s rec).1
peer_write (Peer.creates dag step rec) s = (put_step dag step s rec 0).1
peer_write (Peer.puts_meta dag meta rev) s = (put_meta dag s meta rev).1

-- The writes between two calls, one after the other.
abbrev pub in_turn : List Peer → MemStore → MemStore
in_turn [] s = s
in_turn (p ∷ ps) s = in_turn ps (peer_write p s)

-- What happens before each call.
abbrev pub peer_writes : List (List Peer) → List (MemStore → MemStore)
peer_writes [] = []
peer_writes (ps ∷ gaps) = in_turn ps ∷ peer_writes gaps

-- Fewer than 2 ^ 64 writes before each call.
abbrev pub AreShort : List (List Peer) → Type 0
AreShort [] = Unit {0}
AreShort (ps ∷ gaps) = (length ps < 18446744073709551616) × AreShort gaps

Interferes-peer_write : (p : Peer) → Interferes (peer_write p)
Interferes-peer_write (Peer.starts now dag step) =
    Interferes-atomic_write dag step _ (running-OnWrite now)
Interferes-peer_write (Peer.skips now dag step) =
    Interferes-atomic_write dag step _ (skipped-OnWrite now)
Interferes-peer_write (Peer.cancels now dag step) =
    Interferes-atomic_write dag step _ (cancel_decision-OnWrite now)
Interferes-peer_write (Peer.holds now dag step) =
    Interferes-atomic_write dag step _ (fence_decision-OnWrite dag now)
Interferes-peer_write (Peer.unholds dag step) =
    Interferes-atomic_write dag step _ (release_decision-OnWrite dag)
Interferes-peer_write (Peer.succeeds now dag step worker) =
    Interferes-atomic_write dag step _ (end_decision-OnWrite now done "" [] worker (inl refl))
Interferes-peer_write (Peer.fails now dag step worker kind message) =
    Interferes-atomic_write dag step _
      (end_decision-OnWrite now failed kind message worker (inr refl))
Interferes-peer_write (Peer.passes pos dag step) =
    Interferes-atomic_write dag step _ (release_bp_decision-OnWrite pos)
Interferes-peer_write (Peer.marks now pos dag step) =
    Interferes-atomic_write dag step _ (mark_decision-OnWrite now pos)
Interferes-peer_write (Peer.signals dag rec) = Interferes-put_signal dag rec
Interferes-peer_write (Peer.creates dag step rec) = Interferes-create_step dag step rec
Interferes-peer_write (Peer.puts_meta dag meta rev) = Interferes-put_meta dag meta rev

peer_write-Advances : (p : Peer) (s : MemStore) → Advances 1 s (peer_write p s)
peer_write-Advances (Peer.starts now dag step) s = atomic_write-Advances dag step _ s
peer_write-Advances (Peer.skips now dag step) s = atomic_write-Advances dag step _ s
peer_write-Advances (Peer.cancels now dag step) s = atomic_write-Advances dag step _ s
peer_write-Advances (Peer.holds now dag step) s = atomic_write-Advances dag step _ s
peer_write-Advances (Peer.unholds dag step) s = atomic_write-Advances dag step _ s
peer_write-Advances (Peer.succeeds now dag step worker) s = atomic_write-Advances dag step _ s
peer_write-Advances (Peer.fails now dag step worker kind message) s =
    atomic_write-Advances dag step _ s
peer_write-Advances (Peer.passes pos dag step) s = atomic_write-Advances dag step _ s
peer_write-Advances (Peer.marks now pos dag step) s = atomic_write-Advances dag step _ s
peer_write-Advances (Peer.signals dag rec) s = put_signal-Advances dag s rec
peer_write-Advances (Peer.creates dag step rec) s = create_step-Advances dag step s rec
peer_write-Advances (Peer.puts_meta dag meta rev) s = put_meta-Advances dag s meta rev

in_turn-Evolves : (ps : List Peer) (s : MemStore) → Evolves s (in_turn ps s)
in_turn-Evolves [] s = Evolves-refl s
in_turn-Evolves (p ∷ ps) s =
    Evolves-trans ((Interferes-peer_write p).evolves s) (in_turn-Evolves ps (peer_write p s))

in_turn-Advances : (ps : List Peer) (s : MemStore) → Advances (length ps) s (in_turn ps s)
in_turn-Advances [] s = Advances-same 0 s s refl
in_turn-Advances (p ∷ ps) s =
    let count : 1 + length ps ≡ length (p ∷ ps) = omega arith in
    subst (λ n. Advances n s (in_turn (p ∷ ps) s)) count
      (Advances-trans 1 (length ps) s (peer_write p s) (in_turn ps (peer_write p s))
        (peer_write-Advances p s) (in_turn-Advances ps (peer_write p s)))

pub Interferes-in_turn :
    (ps : List Peer) → length ps < 18446744073709551616 → Interferes (in_turn ps)
Interferes-in_turn ps few = record {
  evolves = in_turn-Evolves ps;
  no_reuse = λ s. NoReuse-Advances (length ps) s (in_turn ps s) few (in_turn-Advances ps s);
}

pub peers_interfere : (gaps : List (List Peer)) → AreShort gaps → AllInterfere (peer_writes gaps)
peers_interfere [] h = tt
peers_interfere (ps ∷ gaps) h = (Interferes-in_turn ps h.0, peers_interfere gaps h.1)

-- Whatever sequence of cancels, pauses, resumes, signals, breakpoint releases, worker reports,
-- additions of steps by running ones, scheduler events and sweeps runs, and whatever starts,
-- skips, cancels, holds, releases, outcomes, breakpoint marks and signals, creations of steps and
-- writes of metas, fewer than 2^64 of them, other processes that run the same program make before
-- each of its calls, a step that the store holds at the beginning is there at the end with its
-- configuration unchanged, is not back in pending once it left it, has left a terminal status
-- only for skipped, and has its released breakpoints still released.
pub interleaved :
    (ops : List Operation) (peers : List (List Peer)) (w : World) (dag k : String) {e : MemEntry}
    → AreShort peers
    → find_in dag k w.store.steps ≡ some e
    → (e' : MemEntry) × (find_in dag k
          (run_all ops (record w { others = peer_writes peers })).1.store.steps
        ≡ some e')
      × RecEvolves e.rec e'.rec
interleaved ops peers w dag k short found =
    steps_move_on ops (record w { others = peer_writes peers }) dag k (peers_interfere peers short)
      found
