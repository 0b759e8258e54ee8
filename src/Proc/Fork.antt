-- ===== src/Proc/Fork.antt =====
-- `fork`, `exit`, `sleep`, `yield` and `growproc` of CLab/xv6/kernel/proc_our.c. What they ask of
-- vm.c, file.c, fs.c and log.c comes through the interface `Kernel`. Trapframes are words: `tf a j`
-- is word `j` of the one at the address `a`. A section under a lock is one function here.
use team.Common.{
  ℕ, zero, suc, ◌+◌, ◌-◌, ◌%◌, ◌^◌, Bool, true, false, Option, none, some, List, [], ◌∷◌, ◌==◌,
  if◌then◌else◌, ltb, get_elem?, set, ◌++◌,
}
use team.Common.Outcome.{Outcome, done, panic, ◌>>=◌, ◌>>◌, panic_if}
use team.Common.Family.{update}
use team.Text.{safestrcpy}
use team.Proc.{Proc, Machine, runnable, sleeping, zombie, same, modify, wakeup, reparent}
use team.Proc.Lifecycle.{Memory, freeproc, allocproc}

-- `uvmcopy` fails or not, `uvmalloc` returns 0 when it fails, and `filedup`, `fileclose` and `iput` may
-- panic; each begins and ends with what it keeps, `State`.
pub record Kernel : Type 1 where
  pub memory : Memory
  pub uvmcopy : ℕ → ℕ → ℕ → memory.State → Bool × memory.State
  pub uvmalloc : ℕ → ℕ → ℕ → ℕ → memory.State → ℕ × memory.State
  pub uvmdealloc : ℕ → ℕ → ℕ → memory.State → Outcome (ℕ × memory.State)
  pub filedup : ℕ → memory.State → Outcome memory.State
  pub fileclose : ℕ → memory.State → Outcome memory.State
  pub idup : ℕ → memory.State → memory.State
  pub iput : ℕ → memory.State → Outcome memory.State
  pub begin_op : memory.State → memory.State
  pub end_op : memory.State → memory.State

-- The word of a trapframe that holds a0.
abbrev pub frame_a0 : ℕ
frame_a0 = 14

abbrev pub byte_at : List ℕ → ℕ → ℕ
byte_at [] i = 0
byte_at (b ∷ bs) zero = b
byte_at (b ∷ bs) (suc i) = byte_at bs i

abbrev pub first_bytes : ℕ → (ℕ → ℕ) → List ℕ
first_bytes zero m = []
first_bytes (suc k) m = m 0 ∷ first_bytes k (λ a. m (suc a))

-- `safestrcpy(np->name, p->name, sizeof(p->name))`, with one name behind the other in memory.
unfoldable pub copy_name : List ℕ → List ℕ → List ℕ
copy_name dst src = first_bytes 16 (safestrcpy 0 16 16 (byte_at (dst ++ src)))

module _ (kernel : Kernel) where
  open kernel use {
    memory, uvmcopy, uvmalloc, uvmdealloc, filedup, fileclose, idup, iput, begin_op, end_op,
  }

  -- The loop of `fork` over the open files of the parent and the child.
  unfoldable pub dup_files : List ℕ → List ℕ → memory.State → Outcome (List ℕ × memory.State)
  dup_files [] gs s = done (gs, s)
  dup_files (f ∷ fs) [] s = panic
  dup_files (f ∷ fs) (g ∷ gs) s = do
    s1 ← (if f == 0 then done s else filedup f s)
    (hs, s2) ← dup_files fs gs s1
    done ((if f == 0 then g else f) ∷ hs, s2)

  -- The child `np` of `p` when `uvmcopy` has succeeded, up to the release of its lock.
  unfoldable pub copy_parent :
      Proc → Proc → (ℕ → ℕ → ℕ) → memory.State → Outcome (Proc × (ℕ → ℕ → ℕ) × memory.State)
  copy_parent p np tf s = do
    (files, s1) ← dup_files p.ofile np.ofile s
    done (
      record np { sz = p.sz; ofile = files; cwd = p.cwd; name = copy_name np.name p.name },
      update tf np.trapframe (update (tf p.trapframe) frame_a0 0),
      idup p.cwd s1,
    )

  -- `fork` behind `uvmcopy`: the child `np` of `p`, at index `i`, is kept or given up.
  unfoldable pub keep_child :
      Proc
      → Proc
      → ℕ
      → Machine
      → (ℕ → ℕ → ℕ)
      → memory.State
      → Outcome (Option (ℕ × ℕ) × Machine × (ℕ → ℕ → ℕ) × memory.State)
  keep_child p np i m tf s = do
    (q, tf', s') ← copy_parent p np tf s
    done (some (i, np.pid), record m { procs = set m.procs i q }, tf', s')

  unfoldable pub drop_child :
      Proc
      → ℕ
      → Machine
      → (ℕ → ℕ → ℕ)
      → memory.State
      → Outcome (Option (ℕ × ℕ) × Machine × (ℕ → ℕ → ℕ) × memory.State)
  drop_child np i m tf s = do
    (q, s') ← freeproc memory np s
    done (none, record m { procs = set m.procs i q }, tf, s')

  unfoldable pub copy_child :
      Proc
      → Proc
      → ℕ
      → Machine
      → (ℕ → ℕ → ℕ)
      → memory.State
      → Outcome (Option (ℕ × ℕ) × Machine × (ℕ → ℕ → ℕ) × memory.State)
  copy_child p np i m tf s =
      let (ok, s1) = uvmcopy p.pagetable np.pagetable p.sz s in
      if ok then keep_child p np i m tf s1 else drop_child np i m tf s1

  -- `fork` of process `me` behind `allocproc`, which returned `r`.
  unfoldable pub fork_entry :
      ℕ
      → Option ℕ
      → Machine
      → (ℕ → ℕ → ℕ)
      → memory.State
      → Outcome (Option (ℕ × ℕ) × Machine × (ℕ → ℕ → ℕ) × memory.State)
  fork_entry me none m tf s = done (none, m, tf, s)
  fork_entry me (some i) m tf s = elim (get_elem? m.procs me) [
    | none ↦ panic
    | some p ↦ elim (get_elem? m.procs i) [ none ↦ panic | some np ↦ copy_child p np i m tf s ]
  ]

  -- `fork` of process `me` up to the release of the child's lock: the child's index and pid, or none
  -- for -1.
  unfoldable pub fork_copy :
      ℕ
      → ℕ
      → Machine
      → (ℕ → ℕ → ℕ)
      → memory.State
      → Outcome (Option (ℕ × ℕ) × Machine × (ℕ → ℕ → ℕ) × memory.State)
  fork_copy forkret me m tf s = do
    (r, m1, s1) ← allocproc memory forkret m s
    fork_entry me r m1 tf s1

  -- Under `wait_lock`
  unfoldable pub fork_parent : ℕ → ℕ → Machine → Machine
  fork_parent me i m = record m { procs = modify i (λ p. record p { parent = some me }) m.procs }

  -- Under the child's lock once more
  unfoldable pub fork_start : ℕ → Machine → Machine
  fork_start i m = record m { procs = modify i (λ p. record p { state = runnable }) m.procs }

  -- The rest of `fork`
  unfoldable pub fork_end :
      Option (ℕ × ℕ)
      → ℕ
      → Machine
      → (ℕ → ℕ → ℕ)
      → memory.State
      → Outcome (Option ℕ × Machine × (ℕ → ℕ → ℕ) × memory.State)
  fork_end none me m tf s = done (none, m, tf, s)
  fork_end (some (i, pid)) me m tf s = done (some pid, fork_start i (fork_parent me i m), tf, s)

  -- `fork` without another process in between: the child's pid, or none for -1.
  unfoldable pub fork :
      ℕ
      → ℕ
      → Machine
      → (ℕ → ℕ → ℕ)
      → memory.State
      → Outcome (Option ℕ × Machine × (ℕ → ℕ → ℕ) × memory.State)
  fork forkret me m tf s = do
    (r, m1, tf1, s1) ← fork_copy forkret me m tf s
    fork_end r me m1 tf1 s1

  -- The loop of `exit` over the open files.
  unfoldable pub close_files : List ℕ → memory.State → Outcome (List ℕ × memory.State)
  close_files [] s = done ([], s)
  close_files (f ∷ fs) s = do
    s1 ← (if f == 0 then done s else fileclose f s)
    (hs, s2) ← close_files fs s1
    done (0 ∷ hs, s2)

  -- `exit` of process `me` up to `acquire(&wait_lock)`.
  unfoldable pub exit_files : ℕ → Machine → memory.State → Outcome (Machine × memory.State)
  exit_files me m s = do
    panic_if (same m.initproc (some me))
    elim (get_elem? m.procs me) [
      | none ↦ panic
      | some p ↦ do
        (files, s1) ← close_files p.ofile s
        s2 ← iput p.cwd (begin_op s1)
        done (record m { procs = set m.procs me (record p { ofile = files; cwd = 0 }) }, end_op s2)
    ]

  -- `growproc`, with `n` the 32-bit pattern of the argument; true for 0 and false for -1.
  unfoldable pub growproc : ℕ → ℕ → Machine → memory.State → Outcome (Bool × Machine × memory.State)
  growproc me n m s = elim (get_elem? m.procs me) [
    | none ↦ panic
    | some p ↦
        let (grown, s1) = uvmalloc p.pagetable p.sz ((p.sz + n) % 2 ^ 64) 4 s in
        let resized = λ (sz : ℕ). record m { procs = set m.procs me (record p { sz = sz }) } in
        if n == 0
        then done (true, resized p.sz, s)
        else if ltb n (2 ^ 31)
        then (if grown == 0 then done (false, m, s1) else done (true, resized grown, s1))
        else (uvmdealloc p.pagetable p.sz ((p.sz + n + 2 ^ 64 - 2 ^ 32) % 2 ^ 64) s >>= λ (sz, s2).
            done (true, resized sz, s2))
  ]

-- `exit` from `acquire(&wait_lock)` to its release. `chan_of` is the address of a process as a wait
-- channel.
unfoldable pub exit_zombie : (Option ℕ → ℕ) → ℕ → ℕ → Machine → Machine
exit_zombie chan_of me status m =
    let m1 = reparent chan_of me m in
    let parent : Option ℕ = elim (get_elem? m1.procs me) [ none ↦ none | some p ↦ p.parent ] in
    let m2 = wakeup (some me) (chan_of parent) m1 in
    record m2 { procs = modify me (λ p. record p { xstate = status; state = zombie }) m2.procs }

-- `sleep` before and after `sched`
unfoldable pub fall_asleep : ℕ → ℕ → Machine → Machine
fall_asleep me chan m = record m {
  procs = modify me (λ p. record p { chan = chan; state = sleeping }) m.procs;
}

unfoldable pub tidy_up : ℕ → Machine → Machine
tidy_up me m = record m { procs = modify me (λ p. record p { chan = 0 }) m.procs }

-- `yield` up to `sched`
unfoldable pub yield : ℕ → Machine → Machine
yield me m = record m { procs = modify me (λ p. record p { state = runnable }) m.procs }
