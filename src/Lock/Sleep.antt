-- ===== src/Lock/Sleep.antt =====
-- Processes that take and release one sleep lock of CLab/xv6/kernel/sleeplock.c in any order, each
-- under its pid. `asleep k` is a process that called `sleep` when `wakeup` had been called `k` times on
-- the lock: it sleeps as long as that is the count, unless a `kill` makes it run.
use team.Common.{ℕ, ◌≤◌, ◌<◌, ◌≡◌, ◌≢◌, ◌↔◌, true, false, none, some, arith}
use team.Common.Family.{update}
use team.Lock.{Sleeplock, initsleeplock, acquiresleep, releasesleep, holdingsleep}

-- Where a process is: outside, at the test of the loop of `acquiresleep`, in `sleep`, or behind
-- `acquiresleep` with the lock.
pub data Pc : Type 0 where
  outside trying critical : Pc
  asleep : ℕ → Pc

pub record System : Type 0 where
  pub lock : Sleeplock
  pub pc : ℕ → Pc

pub data Step (s : System) : System → Type 0 where
  start : (i : ℕ) → s.pc i ≡ outside → Step s (record s { pc = update s.pc i trying })
  takes :
      {lk : Sleeplock} (i : ℕ)
      → s.pc i ≡ trying
      → acquiresleep i s.lock ≡ some lk
      → Step s (record { lock = lk; pc = update s.pc i critical })
  falls_asleep :
      (i : ℕ)
      → s.pc i ≡ trying
      → acquiresleep i s.lock ≡ none
      → Step s (record s { pc = update s.pc i (asleep s.lock.wakeups) })
  wakes :
      (i k : ℕ)
      → s.pc i ≡ asleep k
      → k ≢ s.lock.wakeups
      → Step s (record s { pc = update s.pc i trying })
  killed : (i k : ℕ) → s.pc i ≡ asleep k → Step s (record s { pc = update s.pc i trying })
  releases :
      (i : ℕ)
      → s.pc i ≡ critical
      → Step s (record { lock = releasesleep s.lock; pc = update s.pc i outside })

pub data Reach (s : System) : System → Type 0 where
  here : Reach s s
  next : {t u : System} → Reach s t → Step t u → Reach s u

-- Every process is outside and the lock is as `initsleeplock` leaves it.
unfoldable pub initial : System
unfolding initsleeplock
initial = record { lock = initsleeplock; pc = λ _. outside }

record Held (s : System) : Type 0 where
  mine : (i : ℕ) → s.pc i ≡ critical → (s.lock.locked ≡ true) × (s.lock.pid ≡ i)
  held : s.lock.locked ≡ true → s.pc s.lock.pid ≡ critical
  past : (i k : ℕ) → s.pc i ≡ asleep k → k ≤ s.lock.wakeups
  called : (i k : ℕ) → s.pc i ≡ asleep k → s.lock.locked ≡ false → k < s.lock.wakeups

initial-Held : Held initial
unfolding initial
initial-Held = record {
  mine = λ i h. cc;
  held = λ h. cc;
  past = λ i k h. cc;
  called = λ i k h open_lock. cc;
}

module _ {s : System} (x : Held s) where
  open x use {mine, held, past, called}

  -- A process that has not got the lock goes to where it has not got it.
  trying-Held : (i : ℕ) → s.pc i ≢ critical → Held (record s { pc = update s.pc i trying })
  trying-Held i other = record {
    mine = λ a h. ground (arith, mine a);
    held = λ h. ground (arith, held h);
    past = λ a k h. ground (arith, past a k);
    called = λ a k h free. ground (arith, called a k);
  }

  asleep-Held :
      (i : ℕ)
      → s.pc i ≢ critical
      → s.lock.locked ≡ true
      → Held (record s { pc = update s.pc i (asleep s.lock.wakeups) })
  asleep-Held i other shut = record {
    mine = λ a h. ground (arith, mine a);
    held = λ h. ground (arith, held h);
    past = λ a k h. ground (arith, past a k);
    called = λ a k h free. cc;
  }

  takes-Held :
      (i : ℕ) (lk : Sleeplock)
      → acquiresleep i s.lock ≡ some lk
      → Held (record { lock = lk; pc = update s.pc i critical })
  unfolding acquiresleep
  takes-Held i lk got = record {
    mine = λ a h. ground (arith, mine a);
    held = λ h. ground arith;
    past = λ a k h. ground (arith, past a k);
    called = λ a k h free. ground (arith, called a k);
  }

  releases-Held :
      (i : ℕ)
      → s.pc i ≡ critical
      → Held (record { lock = releasesleep s.lock; pc = update s.pc i outside })
  unfolding releasesleep
  releases-Held i at = record {
    mine = λ a h. ground (arith, mine a, mine i);
    held = λ h. cc;
    past = λ a k h. ground (arith, past a k);
    called = λ a k h free. ground (arith, past a k);
  }

Step-Held : {s t : System} → Held s → Step s t → Held t
unfolding acquiresleep
Step-Held x (start i at) = trying-Held x i (λ e. cc)
Step-Held x (takes {lk} i at got) = takes-Held x i lk got
Step-Held x (falls_asleep i at shut) = asleep-Held x i (λ e. cc) (ground arith)
Step-Held x (wakes i k at woken) = trying-Held x i (λ e. cc)
Step-Held x (killed i k at) = trying-Held x i (λ e. cc)
Step-Held x (releases i at) = releases-Held x i at

Reach-Held : {s t : System} → Held s → Reach s t → Held t
Reach-Held x here = x
Reach-Held x (next r st) = Step-Held (Reach-Held x r) st

-- In every state that is reached from `initsleeplock` by processes that take and release the lock in
-- any order, with kills: at most one process has the lock; `holdingsleep` is true of exactly the
-- process that has it; if the lock is taken, somebody has it; and while it is open, `wakeup` has been
-- called since for every process that fell asleep on it, so no wake-up is lost.
pub sleep_exclusion :
    {s : System}
    → Reach initial s
    → ((i j : ℕ) → s.pc i ≡ critical → s.pc j ≡ critical → i ≡ j)
      × ((i : ℕ) → (holdingsleep i s.lock ≡ true) ↔ (s.pc i ≡ critical))
      × (s.lock.locked ≡ true → s.pc s.lock.pid ≡ critical)
      × ((i k : ℕ) → s.pc i ≡ asleep k → s.lock.locked ≡ false → k < s.lock.wakeups)
unfolding holdingsleep
sleep_exclusion {s} r =
    let x = Reach-Held initial-Held r in
    (
      λ i j h h'. ground (arith, x.mine i h, x.mine j h'),
      λ i. ((λ e. ground (arith, x.held)), λ h. ground (arith, x.mine i h)),
      x.held,
      x.called,
    )
