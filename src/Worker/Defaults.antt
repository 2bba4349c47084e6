-- ===== src/Worker/Defaults.antt =====
-- `setDefaults` of worker/worker.go.
use ebind.Base.{
  ℕ, String, ◌&&◌, ◌==◌, List, [], ◌∷◌, length, eqb, ltb, ℤ, pos, negsuc, if◌then◌else◌, zero, suc,
}
use ebind.Worker.{Options}

abbrev or_second : ℕ → ℕ → ℕ
or_second n default = if eqb n 0 then default else n

-- A concurrency that is not positive is 16.
abbrev pub default_concurrency : ℤ → ℤ
default_concurrency (pos n) = if eqb n 0 then pos 16 else pos n
default_concurrency (negsuc n) = pos 16

-- No limit of deliveries is -1.
abbrev pub default_max_deliver : ℤ → ℤ
default_max_deliver (pos n) = if eqb n 0 then negsuc 0 else pos n
default_max_deliver (negsuc n) = negsuc n

abbrev pub default_backoff : List ℕ → List ℕ
default_backoff [] = 1000000000 ∷ 5000000000 ∷ 15000000000 ∷ 60000000000 ∷ 300000000000 ∷ []
default_backoff (d ∷ ds) = d ∷ ds

unfoldable pub first : ℕ → List ℕ → List ℕ
first zero ds = []
first (suc n) [] = []
first (suc n) (d ∷ ds) = d ∷ first n ds

-- The stream refuses more delays than deliveries.
abbrev pub fit_backoff : ℤ → List ℕ → List ℕ
fit_backoff (pos n) ds = if ltb 0 n && ltb n (length ds) then first n ds else ds
fit_backoff (negsuc n) ds = ds

-- `setDefaults`, given the identifier that package uuid makes.
unfoldable pub set_defaults : String → Options → Options
unfolding first
set_defaults uuid o =
    let max_deliver = default_max_deliver o.max_deliver in
    record o {
      durable = if o.durable == "" then "ebind-worker" else o.durable;
      concurrency = default_concurrency o.concurrency;
      ack_wait = or_second o.ack_wait 30000000000;
      max_deliver = max_deliver;
      backoff = fit_backoff max_deliver (default_backoff o.backoff);
      shutdown_grace = or_second o.shutdown_grace 30000000000;
      worker_id = if o.worker_id == "" then uuid else o.worker_id;
      claim_refresh_interval = or_second o.claim_refresh_interval 2000000000;
      claim_retry_delay = or_second o.claim_retry_delay 1000000000;
    }
