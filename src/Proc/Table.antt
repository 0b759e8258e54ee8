-- ===== src/Proc/Table.antt =====
-- The process table of proc_our.c under any sequence of the steps that change it, each of them what
-- one process, or the scheduler, does under the locks that it holds.
use team.Common.{
  suc, ◌≤◌, sym, false, ℕ, ◌+◌, ◌^◌, ◌<◌, subst, ◌≡◌, refl, Bool, true, Option, some, arith,
  get_elem?, set,
}
use team.Common.Outcome.{done}
use team.Proc.{Proc, Machine, is_runnable, running, wakeup, kill, setkilled}
use team.Proc.Lifecycle.{Waited, allocproc, wait_turn, set_priority}
use team.Proc.Fork.{
  Kernel, fork_copy, fork_parent, fork_start, exit_files, exit_zombie, growproc, fall_asleep,
  tidy_up, yield,
}
use team.Proc.Pids.{Live, PidsOk, PidsOk-SamePids, wakeup-PidsOk, kill-PidsOk, set_priority-PidsOk}
use team.Proc.Allocation.{allocproc-PidsOk}
use team.Proc.Wait.{wait_turn-PidsOk}
use team.Proc.Keep.{
  PidsOk-same, exit_zombie-SamePids, exit_zombie-nextpid, modify-SamePids, modify-used,
  set-SamePids,
}
use team.Proc.ForkPids.{fork_copy-PidsOk, growproc-PidsOk, exit_files-PidsOk}

unfoldable pub counted : Bool → ℕ → ℕ
counted true n = suc n
counted false n = n

counted-+ : (b : Bool) (n k : ℕ) → counted b n + k ≡ counted b (n + k)
unfolding counted
counted-+ true n k = omega arith
counted-+ false n k = refl

counted-least : (b : Bool) (n : ℕ) → n ≤ counted b n
unfolding counted
counted-least b n = ground arith

module _ (kernel : Kernel) (forkret : ℕ) (chan_of : Option ℕ → ℕ) where
  open kernel use {memory, uvmcopy, uvmalloc, uvmdealloc, iput, begin_op}

  -- One step. The entry that `me` or the child of a `fork` has is in use: a process is on some CPU
  -- when it takes its step, and the child has been USED since `allocproc`.
  pub data Step (m : Machine) : Machine → Type 0 where
    allocates :
        (r : Option ℕ) {m' : Machine} (s s' : memory.State)
        → allocproc memory forkret m s ≡ done (r, m', s')
        → Step m m'
    copies :
        (r : Option (ℕ × ℕ)) {m' : Machine} (tf tf' : ℕ → ℕ → ℕ) (s s' : memory.State) (me : ℕ)
        → fork_copy kernel forkret me m tf s ≡ done (r, m', tf', s')
        → Step m m'
    gets_parent : (me i : ℕ) → Step m (fork_parent kernel me i m)
    starts : (i : ℕ) (p : Proc) → Live m.procs i p → Step m (fork_start kernel i m)
    runs :
        (i : ℕ) (p : Proc)
        → get_elem? m.procs i ≡ some p
        → is_runnable p.state ≡ true
        → Step m (record m { procs = set m.procs i (record p { state = running }) })
    yields : (me : ℕ) (p : Proc) → Live m.procs me p → Step m (yield me m)
    falls_asleep : (me chan : ℕ) (p : Proc) → Live m.procs me p → Step m (fall_asleep me chan m)
    tidies_up : (me : ℕ) → Step m (tidy_up me m)
    wakes : (me : Option ℕ) (chan : ℕ) → Step m (wakeup me chan m)
    kills : (pid : ℕ) → Step m (kill pid m).1
    marks : (i : ℕ) → Step m (setkilled i m)
    grows :
        (ok : Bool) {m' : Machine} (s s' : memory.State) (me n : ℕ)
        → growproc kernel me n m s ≡ done (ok, m', s')
        → Step m m'
    closes :
        {m' : Machine} (s s' : memory.State) (me : ℕ)
        → exit_files kernel me m s ≡ done (m', s')
        → Step m m'
    exits :
        (me status : ℕ) (p : Proc) → Live m.procs me p → Step m (exit_zombie chan_of me status m)
    waits :
        (r : Waited) {m' : Machine} (s s' : memory.State) (me addr : ℕ) (parent : Proc)
        → wait_turn memory me addr parent m s ≡ done (r, m', s')
        → Step m m'
    sets_priority :
        (ok : Bool) {m' : Machine} (me pid priority : ℕ)
        → set_priority me pid priority m ≡ some (ok, m')
        → Step m m'

  pub data Reach (m : Machine) : Machine → Type 0 where
    here : Reach m m
    next : {m1 m2 : Machine} → Reach m m1 → Step m1 m2 → Reach m m2

  -- The step calls `allocproc`.
  unfoldable pub calls : {m m' : Machine} → Step m m' → Bool
  calls (allocates r s s' h) = true
  calls (copies r tf tf' s s' me h) = true
  calls (gets_parent me i) = false
  calls (starts i p live) = false
  calls (runs i p at run) = false
  calls (yields me p live) = false
  calls (falls_asleep me chan p live) = false
  calls (tidies_up me) = false
  calls (wakes me chan) = false
  calls (kills pid) = false
  calls (marks i) = false
  calls (grows r s s' me n h) = false
  calls (closes s s' me h) = false
  calls (exits me status p live) = false
  calls (waits r s s' me addr parent h) = false
  calls (sets_priority r me pid priority h) = false

  -- How many steps of a run do.
  unfoldable pub allocations : {m m' : Machine} → Reach m m' → ℕ
  allocations here = 0
  allocations (next r st) = counted (calls st) (allocations r)

  Step-PidsOk :
      {lim : ℕ} {m m' : Machine}
      → PidsOk lim m
      → (st : Step m m') → counted (calls st) lim < 2 ^ 31
      → PidsOk (counted (calls st) lim) m'
  unfolding calls counted fork_parent fork_start yield fall_asleep tidy_up setkilled
  Step-PidsOk {m} {m'} ok (allocates r s s' h) room =
      allocproc-PidsOk memory forkret m s r m' s' ok (omega arith) h
  Step-PidsOk {m} {m'} ok (copies r tf tf' s s' me h) room =
      fork_copy-PidsOk kernel forkret me m m' tf tf' s s' r ok (omega arith) h
  Step-PidsOk {m} ok (gets_parent me i) room =
      PidsOk-SamePids m _ ok
        (modify-SamePids _ i m.procs (λ p at. record { pid = refl; use_of = refl }))
  Step-PidsOk {m} ok (starts i p live) room =
      PidsOk-SamePids m _ ok (modify-used _ i m.procs p live (λ q. refl) (λ q. refl))
  Step-PidsOk {m} ok (runs i p at run) room =
      PidsOk-SamePids m _ ok
        (set-SamePids m.procs i p _ at (record { pid = refl; use_of = ground arith }))
  Step-PidsOk {m} ok (yields me p live) room =
      PidsOk-SamePids m _ ok (modify-used _ me m.procs p live (λ q. refl) (λ q. refl))
  Step-PidsOk {m} ok (falls_asleep me chan p live) room =
      PidsOk-SamePids m _ ok (modify-used _ me m.procs p live (λ q. refl) (λ q. refl))
  Step-PidsOk {m} ok (tidies_up me) room =
      PidsOk-SamePids m _ ok
        (modify-SamePids _ me m.procs (λ p at. record { pid = refl; use_of = refl }))
  Step-PidsOk {m} ok (wakes me chan) room = wakeup-PidsOk me chan m ok
  Step-PidsOk {m} ok (kills pid) room = kill-PidsOk pid m ok
  Step-PidsOk {m} ok (marks i) room =
      PidsOk-SamePids m _ ok
        (modify-SamePids _ i m.procs (λ p at. record { pid = refl; use_of = refl }))
  Step-PidsOk {m} {m'} ok (grows r s s' me n h) room =
      growproc-PidsOk kernel forkret me n m m' s s' r ok h
  Step-PidsOk {m} {m'} ok (closes s s' me h) room =
      exit_files-PidsOk kernel forkret me m m' s s' ok h
  Step-PidsOk {m} ok (exits me status p live) room =
      PidsOk-same m (exit_zombie chan_of me status m) ok (exit_zombie-nextpid chan_of me status m)
        (exit_zombie-SamePids chan_of me status m p live)
  Step-PidsOk {m} {m'} ok (waits r s s' me addr parent h) room =
      wait_turn-PidsOk memory me addr parent m m' s s' r ok h
  Step-PidsOk {m} {m'} ok (sets_priority r me pid priority h) room =
      set_priority-PidsOk me pid priority m m' r ok h

  -- In every table that is reached from one where the pids are in order and `nextpid` is at most
  -- `lim`, by any sequence of these steps (allocproc, fork, exit, wait, kill, wakeup, sleep, yield,
  -- growproc, sys_setPriority, the dispatch of the scheduler), which do not panic: as long as `lim` and
  -- the number of calls of allocproc add up to less than 2^31, every process in use has a pid of its
  -- own, above 0 and below `nextpid`, and `nextpid` is at most that sum.
  pub Reach-PidsOk :
      {lim : ℕ} {m m' : Machine}
      → PidsOk lim m
      → (r : Reach m m') → allocations r + lim < 2 ^ 31
      → PidsOk (allocations r + lim) m'
  unfolding allocations
  Reach-PidsOk {lim} {m} {m'} ok here room = subst (λ n. PidsOk n m') (omega arith) ok
  Reach-PidsOk {lim} {m} {m'} ok (next r st) room =
      let more : counted (calls st) (allocations r) + lim
          ≡ counted (calls st) (allocations r + lim) =
        counted-+ (calls st) (allocations r) lim in
      let before : allocations r + lim < 2 ^ 31 =
        omega (arith, more, counted-least (calls st) (allocations r + lim)) in
      subst (λ n. PidsOk n m') (sym more) (Step-PidsOk (Reach-PidsOk ok r before) st (omega arith))
