-- ===== src/Lock.antt =====
-- CLab/xv6/kernel/spinlock.c and sleeplock.c: interrupts switched off in nested sections, a spin lock
-- taken by an atomic swap, and a lock that sleeps. The loop of `acquire` is one swap at a time, so
-- that CPUs interleave; memory is sequentially consistent, as the fences of the code ask for.
pub mod Nesting
pub mod Mutex
pub mod Sleep
mod Tests
mod SleepTests
use team.Common.{
  ℕ, zero, suc, ◌+◌, ◌-◌, Bool, true, false, Option, none, some, ◌==◌, ◌&&◌, not, if◌then◌else◌,
}
use team.Common.Outcome.{Outcome, done, panic, ◌>>=◌, ◌>>◌, panic_if}

-- `struct cpu`, with the interrupt enable bit that `intr_get` reads.
pub record Cpu : Type 0 where
  pub noff : ℕ
  pub intena : Bool
  pub intr : Bool

unfoldable pub push_off : Cpu → Cpu
push_off c = record {
  noff = c.noff + 1;
  intena = if c.noff == 0 then c.intr else c.intena;
  intr = false;
}

unfoldable pub pop_off : Cpu → Outcome Cpu
pop_off c = do
  panic_if c.intr
  panic_if (c.noff == 0)
  done (record c { noff = c.noff - 1; intr = if c.noff - 1 == 0 && c.intena then true else c.intr })

-- `struct spinlock`; `cpu` is the index of the holder.
pub record Spinlock : Type 0 where
  pub locked : Bool
  pub cpu : Option ℕ

abbrev pub is_cpu : Option ℕ → ℕ → Bool
is_cpu none me = false
is_cpu (some i) me = i == me

unfoldable pub initlock : Spinlock
initlock = record { locked = false; cpu = none }

unfoldable pub holding : ℕ → Spinlock → Bool
holding me lk = lk.locked && is_cpu lk.cpu me

-- The start of `acquire`, up to its loop.
unfoldable pub acquire_start : ℕ → Spinlock → Cpu → Outcome Cpu
acquire_start me lk c = do panic_if (holding me lk); done (push_off c)

-- One `__sync_lock_test_and_set(&lk->locked, 1)`: what it returns, and the lock.
unfoldable pub test_and_set : Spinlock → Bool × Spinlock
test_and_set lk = (lk.locked, record lk { locked = true })

-- The end of `acquire`.
unfoldable pub record_holder : ℕ → Spinlock → Spinlock
record_holder me lk = record lk { cpu = some me }

-- `release`: the holder is forgotten, then the lock is opened, then interrupts come back.
unfoldable pub release_start : ℕ → Spinlock → Outcome Spinlock
release_start me lk = do panic_if (not (holding me lk)); done (record lk { cpu = none })

unfoldable pub open_lock : Spinlock → Spinlock
open_lock lk = record lk { locked = false }

-- `struct sleeplock`, whose inner spin lock makes each function here one step. `wakeups` counts
-- the calls of `wakeup` on it.
pub record Sleeplock : Type 0 where
  pub locked : Bool
  pub pid : ℕ
  pub wakeups : ℕ

unfoldable pub initsleeplock : Sleeplock
initsleeplock = record { locked = false; pid = 0; wakeups = 0 }

-- One turn of `acquiresleep` by the process `pid`: it sleeps (`none`), or has the lock.
unfoldable pub acquiresleep : ℕ → Sleeplock → Option Sleeplock
acquiresleep pid lk = if lk.locked then none else some (record lk { locked = true; pid = pid })

unfoldable pub releasesleep : Sleeplock → Sleeplock
releasesleep lk = record { locked = false; pid = 0; wakeups = lk.wakeups + 1 }

unfoldable pub holdingsleep : ℕ → Sleeplock → Bool
holdingsleep pid lk = lk.locked && lk.pid == pid
