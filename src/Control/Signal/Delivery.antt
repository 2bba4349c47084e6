-- ===== src/Control/Signal/Delivery.antt =====
-- The first delivery of a signal wins.
use ebind.Base.{
  ℕ, String, Bool, true, false, Bool-cases, inl, inr, Option, none, some, ◌==◌, ◌≡◌, ◌≢◌, refl,
  arith, eq_refl, ap, sym, ◌∙◌, if◌then◌else◌, is_some, not, ◌&&◌,
}
use ebind.Types.{Json, DagMeta, SignalRecord, Err, Result, ok, err, is_stale, stale_revision}
use ebind.Store.{MemStore, find_in, get_meta, put_signal}
use ebind.Store.Laws.{put_signal_once}
use ebind.Runtime.{
  World, M, pure, continue, ◌>>=◌, catch, call, read, retry_on_stale, stale_as_none, publish,
  time_now, found_store, later, is_up,
}
use ebind.Runtime.Runs.{after_read}
use ebind.Runtime.Rely.{Guarantees, AllInterfere, found_store-Evolves, later-AllInterfere}
use ebind.Runtime.Rely.Rules.{
  Guarantees-pure, Guarantees-raise, Guarantees-catch, Guarantees-call, Guarantees-read,
  Guarantees-retry_on_stale, Guarantees-bind, Guarantees-if, Guarantees-time_now,
  Guarantees-publish,
}
use ebind.Runtime.Rely.MetaRules.{put_signal-Evolves}
use ebind.Control.Signal.{
  is_over, error_of, signal_record, was_delivered, create_signal, signal_event, deliver, signal,
}

stale_of : (x : Err) → ◌≡◌ {A = Result (Unit {0})} (err x) (err stale_revision) → is_stale x ≡ true
stale_of x h = cc

module _ (dag name : String) (payload : Json) where
  Guarantees-create_signal : Guarantees (create_signal dag name payload)
  unfolding create_signal
  Guarantees-create_signal = Guarantees-bind time_now _ Guarantees-time_now (λ now.
      Guarantees-bind
        (retry_on_stale (call (λ s. put_signal dag s (signal_record dag name payload now)))) _
        (Guarantees-retry_on_stale _ (
          Guarantees-call (λ s. put_signal dag s (signal_record dag name payload now))
            (λ s. put_signal-Evolves dag s _)))
        (λ o. Guarantees-pure _))

  Guarantees-deliver : Guarantees (deliver dag name payload)
  unfolding deliver
  Guarantees-deliver =
      Guarantees-bind (create_signal dag name payload) _ Guarantees-create_signal (λ delivered.
        Guarantees-bind (catch (publish (signal_event dag name))) _
          (Guarantees-catch (publish (signal_event dag name)) (Guarantees-publish _))
          (λ r. Guarantees-pure (delivered, error_of r)))

  pub Guarantees-signal : Guarantees (signal dag name payload)
  unfolding signal
  Guarantees-signal = Guarantees-if (name == "") _ _ (Guarantees-raise _) (
      Guarantees-bind (read (get_meta dag)) _ (Guarantees-read (get_meta dag)) (λ (meta, rev).
        Guarantees-if (is_over meta.status) _ _ (Guarantees-pure (false, none)) Guarantees-deliver))

  -- True only for a record that this call made.
  abbrev Made : World → Result Bool × World → Type 0
  Made w (ok true, w') =
      (find_in dag name (found_store w.others w.store).signals ≡ none)
      × (find_in dag name w'.store.signals ≡ some (signal_record dag name payload w.clock))
  Made w (ok false, w') = is_some (find_in dag name w'.store.signals) ≡ true
  Made w (err e, w') = Unit {0}

  Made-create_signal : (w : World) → Made w (create_signal dag name payload w)
  unfolding create_signal time_now retry_on_stale call
  Made-create_signal w =
      go (put_signal dag s made) (find_in dag name s.signals) refl law.0
        (law.1 dag name ∙ ground (arith, eq_refl dag, eq_refl name))
    where
      s : MemStore
      s = found_store w.others w.store

      made : SignalRecord
      made = signal_record dag name payload w.clock

      law :
          ((put_signal dag s made).0
            ≡ (if is_some (find_in dag name s.signals) then err stale_revision else ok tt))
          × ((d k : String)
              → find_in d k (put_signal dag s made).1.signals ≡ (
                  if not (is_some (find_in dag name s.signals)) && (dag == d && name == k)
                  then some made
                  else find_in d k s.signals))
      law = put_signal_once dag s made

      go :
          (r : Result (Unit {0}) × MemStore) (o : Option SignalRecord)
          → find_in dag name s.signals ≡ o
          → r.0 ≡ (if is_some o then err stale_revision else ok tt)
          → find_in dag name r.1.signals ≡ (if is_some o then o else some made)
          → Made w (
              let x = stale_as_none (r.0, record w { store = r.1; others = later w.others }) in
              continue x.0 (λ o. pure (was_delivered o)) x.1)
      go (ok u, s') none e a b = (e, b)
      go (ok u, s') (some old) e a b = absurd (cc)
      go (err x, s') none e a b = absurd (cc)
      go (err x, s') (some old) e a b = rw (stale_of x a) (rw b refl)

  -- The same of an answer that comes with the error of the publish or with none.
  abbrev Answered : World → Result (Bool × Option Err) × World → Type 0
  Answered w (ok (delivered, e), w') = Made w (ok delivered, w')
  Answered w (err e, w') = Unit {0}

  Made-deliver : (w : World) → Answered w (deliver dag name payload w)
  unfolding deliver publish catch
  Made-deliver w = go (create_signal dag name payload w) (Made-create_signal w)
    where
      go :
          (r : Result Bool × World)
          → Made w r
          → Answered w (
              continue r.0
                (λ delivered.
                  catch (publish (signal_event dag name)) >>= λ p. pure (delivered, error_of p))
                r.1)
      go (ok true, w') made = elim (Bool-cases (is_up w'.bus_up)) [
        | inl up ↦ rw up made
        | inr down ↦ rw down made
      ]
      go (ok false, w') made = elim (Bool-cases (is_up w'.bus_up)) [
        | inl up ↦ rw up made
        | inr down ↦ rw down made
      ]
      go (err x, w') made = tt

  -- `signal` once the record of the DAG is read.
  abbrev on_meta : DagMeta × ℕ → M (Bool × Option Err)
  on_meta (meta, rev) = if is_over meta.status then pure (false, none) else deliver dag name payload

  -- A call that answers true has delivered.
  delivers :
      (w : World) (e : Option Err)
      → (signal dag name payload w).0 ≡ ok (true, e)
      → signal dag name payload w ≡ deliver dag name payload (after_read w)
  unfolding signal read call
  delivers w e = elim (Bool-cases (name == "")) [
    | inl empty ↦ rw empty (λ h. absurd (cc))
    | inr named ↦ rw named (go (get_meta dag (found_store w.others w.store)))
  ]
    where
      open_dag :
          (b : Bool)
          → ((if b then pure (false, none) else deliver dag name payload) (after_read w)).0
            ≡ ok (true, e)
          → (if b then pure (false, none) else deliver dag name payload) (after_read w)
            ≡ deliver dag name payload (after_read w)
      open_dag true h = absurd (cc)
      open_dag false h = refl

      go :
          (r : Result (DagMeta × ℕ))
          → (continue r on_meta (after_read w)).0 ≡ ok (true, e)
          → continue r on_meta (after_read w) ≡ deliver dag name payload (after_read w)
      go (err x) h = absurd (cc)
      go (ok (meta, rev)) h = open_dag (is_over meta.status) h

  Made-true :
      (w : World) (e : Option Err) (r : Result (Bool × Option Err) × World)
      → Answered w r
      → r.0 ≡ ok (true, e)
      → (find_in dag name (found_store w.others w.store).signals ≡ none)
        × (find_in dag name r.1.store.signals ≡ some (signal_record dag name payload w.clock))
  Made-true w e (ok (true, e'), w') made h = made
  Made-true w e (ok (false, e'), w') made h = absurd (cc)
  Made-true w e (err x, w') made h = absurd (cc)

  made_by_signal :
      (w : World) (e : Option Err)
      → (signal dag name payload w).0 ≡ ok (true, e)
      → (find_in dag name (found_store (after_read w).others (after_read w).store).signals ≡ none)
        × (find_in dag name (signal dag name payload w).1.store.signals
            ≡ some (signal_record dag name payload w.clock))
  made_by_signal w e h =
      let same = delivers w e h in
      let (before, after) =
        Made-true (after_read w) e (deliver dag name payload (after_read w))
          (Made-deliver (after_read w))
          (ap (λ (r : Result (Bool × Option Err) × World). r.0) (sym same) ∙ h) in
      (
        before,
        ap (λ (r : Result (Bool × Option Err) × World). find_in dag name r.1.store.signals) same
            ∙ after,
      )

  -- When Signal answers true, with the error of its publish or without one, the store holds
  -- under its name the record of this DAG, name and payload with the present time.
  pub signal_first_wins :
      (w : World) (e : Option Err)
      → (signal dag name payload w).0 ≡ ok (true, e)
      → find_in dag name (signal dag name payload w).1.store.signals
        ≡ some
            (record { dag_id = dag; name = name; payload = some payload; delivered_at = w.clock })
  signal_first_wins w e h = (made_by_signal w e h).1

  -- When a signal of the name is already stored and other writers keep to the rules, Signal
  -- never answers true, with an error or without one, and the stored record stays as it is.
  pub signal_repeated :
      (w : World) {r : SignalRecord}
      → AllInterfere w.others
      → find_in dag name w.store.signals ≡ some r
      → ((e : Option Err) → (signal dag name payload w).0 ≢ ok (true, e))
        × (find_in dag name (signal dag name payload w).1.store.signals ≡ some r)
  signal_repeated w {r} h old = (
    λ e answer.
        let read_first = found_store-Evolves w.others w.store h in
        let write_next =
          found_store-Evolves (later w.others) (found_store w.others w.store)
            (later-AllInterfere w.others h) in
        let still = write_next.delivered dag name (read_first.delivered dag name old) in
        cc ((made_by_signal w e answer).0, still),
    (Guarantees-signal.at w h).0.delivered dag name old,
  )
