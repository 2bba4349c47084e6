-- ===== src/Runtime/Rely/Rules/Basic.antt =====
-- The rules for the primitive operations and for the ways to put two together.
use ebind.Base.{Bool, true, false, Option, none, some, inl, inr, Bool-cases, if◌then◌else◌}
use ebind.Types.{Err, Result, ok, err, Event, is_stale}
use ebind.Task.{Task}
use ebind.Store.{MemStore}
use ebind.Runtime.{
  World, M, pure, raise, continue, ◌>>=◌, call, read, catch, retry_on_stale, stale_as_none,
  or_stale, ignore, publish, enqueue, time_now, is_up, found_store,
}
use ebind.Runtime.Rely.{
  Evolves, Evolves-refl, Evolves-trans, Kept, found_store-Evolves, later-AllInterfere, Guarantees,
}

module _ {ℓ} {A : Type ℓ} where
  pub Guarantees-pure : (a : A) → Guarantees (pure a)
  Guarantees-pure a = record { at = λ w h. (Evolves-refl w.store, h) }

  pub Guarantees-raise : (e : Err) → Guarantees (raise {A = A} e)
  Guarantees-raise e = record { at = λ w h. (Evolves-refl w.store, h) }

  pub Guarantees-call :
      (f : MemStore → Result A × MemStore)
      → ((s : MemStore) → Evolves s (f s).1)
      → Guarantees (call f)
  unfolding call
  Guarantees-call f evolves = record {
    at = λ w h. (
      Evolves-trans (found_store-Evolves w.others w.store h)
          (evolves (found_store w.others w.store)),
      later-AllInterfere w.others h,
    );
  }

  pub Guarantees-read : (f : MemStore → Result A) → Guarantees (read f)
  unfolding read
  Guarantees-read f = Guarantees-call (λ s. (f s, s)) Evolves-refl

  pub Guarantees-catch : (m : M A) → Guarantees m → Guarantees (catch m)
  unfolding catch
  Guarantees-catch m g = record { at = g.at }

  pub Guarantees-ignore : (m : M A) → Guarantees m → Guarantees (ignore m)
  Guarantees-ignore m g = record { at = g.at }

  pub Kept-stale : (s : MemStore) (r : Result A × World) → Kept s r.1 → Kept s (stale_as_none r).1
  Kept-stale s (ok a, w') k = k
  Kept-stale s (err e, w') k = elim (Bool-cases (is_stale e)) [ inl y ↦ rw y k | inr n ↦ rw n k ]

  pub Guarantees-retry_on_stale : (m : M A) → Guarantees m → Guarantees (retry_on_stale m)
  unfolding retry_on_stale
  Guarantees-retry_on_stale m g = record { at = λ w h. Kept-stale w.store (m w) (g.at w h) }

  pub Guarantees-if :
      (b : Bool) (m n : M A) → Guarantees m → Guarantees n → Guarantees (if b then m else n)
  Guarantees-if true m n gm gn = gm
  Guarantees-if false m n gm gn = gn

  pub Guarantees-or_stale : (o : Option A) → Guarantees (or_stale o)
  Guarantees-or_stale none = record { at = λ w h. (Evolves-refl w.store, h) }
  Guarantees-or_stale (some a) = record { at = λ w h. (Evolves-refl w.store, h) }

Kept-if {ℓ} :
    {A : Type ℓ} (b : Bool) (s : MemStore) (x y : Result A × World)
    → Kept s x.1
    → Kept s y.1
    → Kept s (if b then x else y).1
Kept-if true s x y kx ky = kx
Kept-if false s x y kx ky = ky

pub Guarantees-publish : (e : Event) → Guarantees (publish e)
unfolding publish
Guarantees-publish e = record {
  at = λ w h.
      Kept-if (is_up w.bus_up) w.store _ _ (Evolves-refl w.store, h) (Evolves-refl w.store, h);
}

pub Guarantees-enqueue : (t : Task) → Guarantees (enqueue t)
unfolding enqueue
Guarantees-enqueue t = record {
  at = λ w h.
      Kept-if (is_up w.queue_up) w.store _ _ (Evolves-refl w.store, h) (Evolves-refl w.store, h);
}

pub Guarantees-time_now : Guarantees time_now
unfolding time_now
Guarantees-time_now = record { at = λ w h. (Evolves-refl w.store, h) }

module _ {ℓ κ} {A : Type ℓ} {B : Type κ} where
  pub Kept-continue :
      (s : MemStore) (r : Result A × World) (f : A → M B)
      → Kept s r.1
      → ((a : A) → Guarantees (f a))
      → Kept s (continue r.0 f r.1).1
  Kept-continue s (ok a, w') f k gf =
      let (step, h) = (gf a).at w' k.1 in (Evolves-trans k.0 step, h)
  Kept-continue s (err e, w') f k gf = k

  pub Guarantees-bind :
      (m : M A) (f : A → M B) → Guarantees m → ((a : A) → Guarantees (f a)) → Guarantees (m >>= f)
  Guarantees-bind m f g gf = record { at = λ w h. Kept-continue w.store (m w) f (g.at w h) gf }
