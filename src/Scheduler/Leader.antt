-- ===== src/Scheduler/Leader.antt =====
-- `watchLeadership` of workflow/scheduler.go: when the leader starts a sweep. The ticker and the
-- goroutine of a sweep are steps that come in any order.
use ebind.Base.{
  ℕ, suc, ◌-◌, Bool, false, not, ◌&&◌, ◌||◌, eqb, leb, arith, ◌≡◌, refl, if◌then◌else◌, ℤ, pos,
  negsuc,
}

-- The fields of Scheduler that the watch keeps, and its `lastSweep`.
pub record Leader : Type 0 where
  pub was_leader : Bool
  pub sweep_running : Bool
  pub last_sweep : ℕ

abbrev pub new_leader : Leader
new_leader = record { was_leader = false; sweep_running = false; last_sweep = 0 }

-- The interval between two sweeps; one that is not positive is a minute.
abbrev pub sweep_every : ℤ → ℕ
sweep_every (pos n) = if eqb n 0 then 60000000000 else n
sweep_every (negsuc n) = 60000000000

-- One tick, and whether it starts a sweep.
unfoldable pub on_tick : ℕ → Bool → ℕ → Leader → Bool × Leader
on_tick every is_leader now l =
    let edge = is_leader && not l.was_leader in
    let due = is_leader && (edge || leb every (now - l.last_sweep)) in
    let start = due && not l.sweep_running in
    (
      start,
      record {
        was_leader = is_leader;
        sweep_running = start || l.sweep_running;
        last_sweep = if start then now else l.last_sweep;
      },
    )

-- The end of `runSweep`.
abbrev pub on_swept : Leader → Leader
on_swept l = record l { sweep_running = false }

abbrev pub with_start : Bool → ℕ → ℕ
with_start start n = if start then suc n else n

-- The watch with the number of sweeps that run.
pub data Step (every : ℕ) : Leader × ℕ → Leader × ℕ → Type 0 where
  tick :
      (is_leader : Bool) (now : ℕ) {l : Leader} {n : ℕ}
      → Step every
          (l, n)
          ((on_tick every is_leader now l).1, with_start (on_tick every is_leader now l).0 n)
  swept : {l : Leader} {n : ℕ} → Step every (l, suc n) (on_swept l, n)

pub data Reaches (every : ℕ) : Leader × ℕ → Type 0 where
  begin : Reaches every (new_leader, 0)
  after : {s t : Leader × ℕ} → Reaches every s → Step every s t → Reaches every t

abbrev Counted : Leader × ℕ → Type 0
Counted (l, n) = n ≡ (if l.sweep_running then 1 else 0)

step-Counted : (every : ℕ) {s t : Leader × ℕ} → Step every s t → Counted s → Counted t
unfolding on_tick
step-Counted every (tick is_leader now {l = l} {n = n}) h = ground (arith, h)
step-Counted every (swept {l = l} {n = n}) h = ground (arith, h)

reached-Counted : (every : ℕ) {s : Leader × ℕ} → Reaches every s → Counted s
reached-Counted every begin = refl
reached-Counted every (after r step) = step-Counted every step (reached-Counted every r)

-- In whatever order the ticks of the leadership watch and the ends of sweeps come, at most one
-- sweep runs at a time, and one runs just if sweepRunning is set.
pub one_sweep :
    (every : ℕ) (l : Leader) (n : ℕ) → Reaches every (l, n) → n ≡ (if l.sweep_running then 1 else 0)
one_sweep every l n r = reached-Counted every r
