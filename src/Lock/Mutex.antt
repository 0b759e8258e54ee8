-- ===== src/Lock/Mutex.antt =====
-- CPUs that take and release one spin lock, step by step in any order.
use team.Common.{ℕ, ◌≡◌, refl, ◌≢◌, ◌∙◌, ap, sym, Bool, true, false, none, some, arith}
use team.Common.Outcome.{done, panic, done-injective}
use team.Common.Family.{update}
use team.Lock.{
  Cpu, Spinlock, initlock, push_off, pop_off, holding, acquire_start, test_and_set, record_holder,
  release_start, open_lock,
}

-- Where a CPU is: outside, in the loop of `acquire`, behind the swap that won, in the critical
-- section, and in `release` before the lock is opened.
pub data Pc : Type 0 where
  outside spinning won critical leaving : Pc

pub record System : Type 0 where
  pub lock : Spinlock
  pub cpus : ℕ → Cpu
  pub pc : ℕ → Pc

abbrev go : ℕ → Pc → System → System
go i p s = record s { pc = update s.pc i p }

pub data Step (s : System) : System → Type 0 where
  start :
      {c : Cpu} (i : ℕ)
      → s.pc i ≡ outside
      → acquire_start i s.lock (s.cpus i) ≡ done c
      → Step s (record s { cpus = update s.cpus i c; pc = update s.pc i spinning })
  lose :
      (i : ℕ)
      → s.pc i ≡ spinning
      → (test_and_set s.lock).0 ≡ true
      → Step s (record s { lock = (test_and_set s.lock).1 })
  win :
      (i : ℕ)
      → s.pc i ≡ spinning
      → (test_and_set s.lock).0 ≡ false
      → Step s (record s { lock = (test_and_set s.lock).1; pc = update s.pc i won })
  enter :
      (i : ℕ)
      → s.pc i ≡ won
      → Step s (record s { lock = record_holder i s.lock; pc = update s.pc i critical })
  leave :
      {lk : Spinlock} (i : ℕ)
      → s.pc i ≡ critical
      → release_start i s.lock ≡ done lk
      → Step s (record s { lock = lk; pc = update s.pc i leaving })
  finish :
      {c : Cpu} (i : ℕ)
      → s.pc i ≡ leaving
      → pop_off (s.cpus i) ≡ done c
      → Step s
          (record { lock = open_lock s.lock; cpus = update s.cpus i c; pc = update s.pc i outside })

pub data Reach (s : System) : System → Type 0 where
  here : Reach s s
  next : {t u : System} → Reach s t → Step t u → Reach s u

-- Every CPU is outside and the lock is as `initlock` leaves it.
unfoldable pub initial : (ℕ → Cpu) → System
unfolding initlock
initial cpus = record { lock = initlock; cpus = cpus; pc = λ _. outside }

abbrev pub owns : Pc → Bool
owns outside = false
owns spinning = false
owns _ = true

pub record Exclusive (s : System) : Type 0 where
  pub one : (i j : ℕ) → owns (s.pc i) ≡ true → owns (s.pc j) ≡ true → i ≡ j
  pub shut : (i : ℕ) → owns (s.pc i) ≡ true → s.lock.locked ≡ true
  pub known : (i : ℕ) → s.pc i ≡ critical → s.lock.cpu ≡ some i
  pub true_name : (i : ℕ) → s.lock.cpu ≡ some i → s.pc i ≡ critical

-- `release` by the holder of a lock that is taken.
release_start-holder :
    (i : ℕ) (lk : Spinlock)
    → lk.locked ≡ true
    → lk.cpu ≡ some i
    → release_start i lk ≡ done (record lk { cpu = none })
unfolding release_start holding
release_start-holder i lk shut mine = ground arith

acquire_start-other :
    (i : ℕ) (lk : Spinlock) (c : Cpu) → lk.cpu ≢ some i → acquire_start i lk c ≡ done (push_off c)
unfolding acquire_start holding
acquire_start-other i lk c other = ground arith

initial-Exclusive : (cpus : ℕ → Cpu) → Exclusive (initial cpus)
unfolding initial
initial-Exclusive cpus = record {
  one = λ i j h h'. cc;
  shut = λ i h. cc;
  known = λ i h. cc;
  true_name = λ i h. cc;
}

module _ {s : System} (x : Exclusive s) where
  open x use {one, shut, known, true_name}

  start-Exclusive :
      (c : Cpu) (i : ℕ)
      → s.pc i ≡ outside
      → Exclusive (record s { cpus = update s.cpus i c; pc = update s.pc i spinning })
  start-Exclusive c i at = record {
    one = λ a b h h'. ground (arith, one a b);
    shut = λ a h. ground (arith, shut a);
    known = λ a h. ground (arith, known a);
    true_name = λ a h. ground (arith, true_name a h);
  }

  win-Exclusive :
      (i : ℕ)
      → s.pc i ≡ spinning
      → s.lock.locked ≡ false
      → Exclusive (record s { lock = (test_and_set s.lock).1; pc = update s.pc i won })
  unfolding test_and_set
  win-Exclusive i at free = record {
    one = λ a b h h'. ground (arith, one a b, shut a, shut b);
    shut = λ a h. refl;
    known = λ a h. ground (arith, known a);
    true_name = λ a h. ground (arith, true_name a h);
  }

  enter-Exclusive :
      (i : ℕ)
      → s.pc i ≡ won
      → Exclusive (record s { lock = record_holder i s.lock; pc = update s.pc i critical })
  unfolding record_holder
  enter-Exclusive i at = record {
    one = λ a b h h'. ground (arith, one a b, one i a, one i b);
    shut = λ a h. ground (arith, shut a, shut i);
    known = λ a h. ground (arith, one i a);
    true_name = λ a h. ground arith;
  }

  leave-Exclusive :
      (i : ℕ) (lk : Spinlock)
      → s.pc i ≡ critical
      → release_start i s.lock ≡ done lk
      → Exclusive (record s { lock = lk; pc = update s.pc i leaving })
  leave-Exclusive i lk at h =
      let gone : lk ≡ record s.lock { cpu = none } =
        done-injective
          (sym h ∙ release_start-holder i s.lock (shut i (ground arith)) (known i at)) in
      record {
        one = λ a b h h'. ground (arith, one a b, one i a, one i b);
        shut = λ a h. ap (λ (x : Spinlock). x.locked) gone ∙ shut i (ground arith);
        known = λ a h. ground (arith, one i a);
        true_name = λ a h. cc (ap (λ (x : Spinlock). x.cpu) gone);
      }

  finish-Exclusive :
      (i : ℕ) (c : Cpu)
      → s.pc i ≡ leaving
      → Exclusive
          (record { lock = open_lock s.lock; cpus = update s.cpus i c; pc = update s.pc i outside })
  unfolding open_lock
  finish-Exclusive i c at = record {
    one = λ a b h h'. ground (arith, one a b);
    shut = λ a h. ground (arith, one i a);
    known = λ a h. ground (arith, known a);
    true_name = λ a h. ground (arith, true_name a h);
  }

Step-Exclusive : {s t : System} → Step s t → Exclusive s → Exclusive t
unfolding test_and_set
Step-Exclusive (start {c} i at h) x = start-Exclusive x c i at
Step-Exclusive (lose i at h) x = record {
  one = x.one;
  shut = λ a h. refl;
  known = x.known;
  true_name = x.true_name;
}
Step-Exclusive (win i at h) x = win-Exclusive x i at h
Step-Exclusive (enter i at) x = enter-Exclusive x i at
Step-Exclusive (leave {lk} i at h) x = leave-Exclusive x i lk at h
Step-Exclusive (finish {c} i at h) x = finish-Exclusive x i c at

Reach-Exclusive : {s t : System} → Exclusive s → Reach s t → Exclusive t
Reach-Exclusive x here = x
Reach-Exclusive x (next r st) = Step-Exclusive st (Reach-Exclusive x r)

-- In every state that CPUs reach, in any order of their steps, from an open lock: two CPUs that are
-- between the swap that takes the lock and the write that opens it are the same; no CPU outside
-- meets the panic of `acquire`, and none in its critical section that of `release`.
pub mutual_exclusion :
    {t : System} (cpus : ℕ → Cpu)
    → Reach (initial cpus) t
    → ((i j : ℕ) → owns (t.pc i) ≡ true → owns (t.pc j) ≡ true → i ≡ j)
      × ((i : ℕ) → t.pc i ≡ outside → acquire_start i t.lock (t.cpus i) ≢ panic)
      × ((i : ℕ) → t.pc i ≡ critical → release_start i t.lock ≢ panic)
mutual_exclusion {t} cpus r =
    let x = Reach-Exclusive (initial-Exclusive cpus) r in
    (
      x.one,
      λ i at e. cc (acquire_start-other i t.lock (t.cpus i) (λ mine. cc (x.true_name i mine))),
      λ i at e. cc (release_start-holder i t.lock (x.shut i (ground arith)) (x.known i at)),
    )
