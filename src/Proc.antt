-- ===== src/Proc.antt =====
-- The process table of CLab/xv6/kernel/proc.h and proc_our.c: `struct proc`, the pseudo-random
-- numbers, process identifiers, and the operations that walk the table. A pointer to a process is
-- its index in `proc[]`, and a null pointer `none`. The section between `acquire(&p->lock)` and
-- `release(&p->lock)` is one step; the locks themselves are modelled in `Lock`.
pub mod Lifecycle
pub mod Fork
pub mod Pids
pub mod Allocation
pub mod Wait
pub mod Wakeup
pub mod Keep
pub mod ForkPids
pub mod Table
pub mod Forked
pub mod Child
pub mod Exit
mod Tests
use team.Common.{
  ℕ, zero, suc, ◌+◌, ◌*◌, ◌%◌, ◌^◌, Bool, true, false, Option, none, some, List, [], ◌∷◌, ◌&&◌,
  ◌==◌, if◌then◌else◌, ltb, get_elem?, set,
}

-- `enum procstate`
pub data ProcState : Type 0 where
  unused used sleeping runnable running zombie : ProcState

-- `struct context`, the callee-saved registers s0 to s11 as a list.
pub record Context : Type 0 where
  pub ra : ℕ
  pub sp : ℕ
  pub saved : List ℕ

-- `struct proc`. The page table, the trapframe, open files and the current directory are addresses
-- (0 is null); `int` fields hold the 32-bit pattern.
pub record Proc : Type 0 where
  pub state : ProcState
  pub chan : ℕ
  pub killed : ℕ
  pub xstate : ℕ
  pub pid : ℕ
  pub parent : Option ℕ
  pub kstack : ℕ
  pub sz : ℕ
  pub pagetable : ℕ
  pub trapframe : ℕ
  pub context : Context
  pub ofile : List ℕ
  pub cwd : ℕ
  pub name : List ℕ
  pub priority : ℕ
  pub tickets : ℕ

abbrev pub nproc : ℕ
nproc = 64

abbrev pub is_unused : ProcState → Bool
is_unused unused = true
is_unused _ = false

abbrev pub is_sleeping : ProcState → Bool
is_sleeping sleeping = true
is_sleeping _ = false

abbrev pub is_runnable : ProcState → Bool
is_runnable runnable = true
is_runnable _ = false

abbrev pub is_zombie : ProcState → Bool
is_zombie zombie = true
is_zombie _ = false

-- `p == q` for pointers to processes.
abbrev pub same : Option ℕ → Option ℕ → Bool
same none none = true
same (some i) (some j) = i == j
same _ _ = false

-- The globals of proc_our.c: `proc`, `nextpid`, `seed`, `initproc`.
pub record Machine : Type 0 where
  pub procs : List Proc
  pub nextpid : ℕ
  pub seed : ℕ
  pub initproc : Option ℕ

unfoldable pub srand : ℕ → Machine → Machine
srand s m = record m { seed = s }

-- `rand`: `unsigned int` arithmetic wraps, and `& 0x7FFFFFFF` keeps 31 bits.
unfoldable pub rand : Machine → ℕ × Machine
rand m =
    let seed = (m.seed * 1664525 + 1013904223) % 2 ^ 32 in (seed % 2 ^ 31, record m { seed = seed })

-- `nextpid` is an `int`, here its 32 bits.
unfoldable pub allocpid : Machine → ℕ × Machine
allocpid m = (m.nextpid, record m { nextpid = (m.nextpid + 1) % 2 ^ 32 })

-- `wakeup(chan)`, called by `me` (`none` in an interrupt with no process on this CPU).
abbrev pub wake_one : Option ℕ → ℕ → ℕ → Proc → Proc
wake_one me chan i p =
    if same (some i) me
    then p
    else if is_sleeping p.state && p.chan == chan
    then record p { state = runnable }
    else p

pub wakeup_from : Option ℕ → ℕ → ℕ → List Proc → List Proc
wakeup_from me chan i [] = []
wakeup_from me chan i (p ∷ ps) = wake_one me chan i p ∷ wakeup_from me chan (suc i) ps

unfoldable pub wakeup : Option ℕ → ℕ → Machine → Machine
unfolding wakeup_from
wakeup me chan m = record m { procs = wakeup_from me chan 0 m.procs }

-- The victim of `kill`: marked, and woken if it sleeps.
abbrev pub kill_one : Proc → Proc
kill_one p = record p { killed = 1; state = if is_sleeping p.state then runnable else p.state }

-- `kill(pid)`: the status, true for 0 and false for -1, and the table.
pub kill_list : ℕ → List Proc → Bool × List Proc
kill_list pid [] = (false, [])
kill_list pid (p ∷ ps) =
    let rest = kill_list pid ps in
    if p.pid == pid then (true, kill_one p ∷ ps) else (rest.0, p ∷ rest.1)

unfoldable pub kill : ℕ → Machine → Bool × Machine
unfolding kill_list
kill pid m = let (r, ps) = kill_list pid m.procs in (r, record m { procs = ps })

-- A change of one process, through a pointer to it.
abbrev pub modify : ℕ → (Proc → Proc) → List Proc → List Proc
modify i f [] = []
modify zero f (p ∷ ps) = f p ∷ ps
modify (suc i) f (p ∷ ps) = p ∷ modify i f ps

unfoldable pub setkilled : ℕ → Machine → Machine
setkilled i m = record m { procs = modify i (λ p. record p { killed = 1 }) m.procs }

unfoldable pub killed : ℕ → Machine → Option ℕ
killed i m = elim (get_elem? m.procs i) [ none ↦ none | some p ↦ some p.killed ]

-- `reparent(p)`: the children of `p` go to init, and init is woken once for each of them.
-- `chan_of` is the address of a process as a wait channel, and `p` is the calling process.
module _ (chan_of : Option ℕ → ℕ) where
  -- The body of the loop, at the process `pp` with index `i`.
  unfoldable pub adopt : ℕ → ℕ → Proc → Machine → Machine
  unfolding wakeup
  adopt p i pp m =
      if same pp.parent (some p)
      then wakeup (some p) (chan_of m.initproc)
          (record m { procs = set m.procs i (record pp { parent = m.initproc }) })
      else m

  pub reparent_loop : ℕ → ℕ → ℕ → Machine → Machine
  reparent_loop p zero i m = m
  reparent_loop p (suc k) i m =
      let next : Machine = elim (get_elem? m.procs i) [ none ↦ m | some pp ↦ adopt p i pp m ] in
      reparent_loop p k (suc i) next

  unfoldable pub reparent : ℕ → Machine → Machine
  unfolding reparent_loop adopt
  reparent p m = reparent_loop p nproc 0 m
