-- ===== src/Worker/Middleware.antt =====
-- worker/middleware.go: the chain of handlers that a worker calls.
use ebind.Base.{false, List, [], ◌∷◌, ◌++◌, ◌≡◌, refl, ap}
use ebind.Task.{Task}
use ebind.Worker.{Returned, returns, fails, fails_plain, panics, Handler}

abbrev pub Wrapper : Type 0
Wrapper = Handler → Handler

-- `Chain`: the loop runs from the last to the first, so the first is the outermost.
unfoldable pub chain : List Wrapper → Wrapper
chain [] final = final
chain (m ∷ ms) final = m (chain ms final)

abbrev pub no_panic : Returned → Returned
no_panic (panics text) = fails (record { kind = "panic"; message = text; retryable = false })
no_panic (returns v) = returns v
no_panic (fails e) = fails e
no_panic (fails_plain text) = fails_plain text

-- `Recover`.
abbrev pub recover : Wrapper
recover next t = no_panic (next t)

-- What `New` and `Use` set `invoke` to.
unfoldable pub composed : List Wrapper → Handler → Handler
unfolding chain
composed mws base = chain (recover ∷ mws) base

pub chain-append :
    (ms ns : List Wrapper) (final : Handler) → chain (ms ++ ns) final ≡ chain ms (chain ns final)
unfolding chain
chain-append [] ns final = refl
chain-append (m ∷ ms) ns final = ap m (chain-append ms ns final)

abbrev pub IsNoPanic : Returned → Type 0
IsNoPanic (panics text) = ⊥
IsNoPanic _ = Unit {0}

no_panic-IsNoPanic : (r : Returned) → IsNoPanic (no_panic r)
no_panic-IsNoPanic (panics text) = tt
no_panic-IsNoPanic (returns v) = tt
no_panic-IsNoPanic (fails e) = tt
no_panic-IsNoPanic (fails_plain text) = tt

-- The composed handler lets no panic through, of no middleware either.
pub composed-IsNoPanic :
    (mws : List Wrapper) (base : Handler) (t : Task) → IsNoPanic (composed mws base t)
unfolding composed
composed-IsNoPanic mws base t = no_panic-IsNoPanic (chain mws base t)
