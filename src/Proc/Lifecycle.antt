-- ===== src/Proc/Lifecycle.antt =====
-- `allocproc`, `freeproc` and the scan of `wait` in CLab/xv6/kernel/proc_our.c, and the system call
-- `sys_setPriority` of sysproc.c. The pages and page tables that they take and give back come from
-- kalloc.c and vm.c through the interface `Memory`.
use team.Common.{
  ℕ, suc, ◌+◌, ◌%◌, ◌^◌, Bool, true, false, Option, none, some, List, [], ◌∷◌, ◌==◌, ◌||◌,
  if◌then◌else◌, ltb, get_elem?, set, replicate, not,
}
use team.Common.Outcome.{Outcome, done, panic, ◌>>=◌}
use team.Proc.{Proc, Machine, used, unused, is_unused, is_zombie, rand, allocpid, same}

-- What the process table needs of memory: `kalloc` and `proc_pagetable` return 0 when there is no
-- memory, and `kfree` and `proc_freepagetable` may panic.
pub record Memory : Type 1 where
  pub State : Type 0
  pub kalloc : State → ℕ × State
  pub kfree : ℕ → State → Outcome State
  pub proc_pagetable : Proc → State → ℕ × State
  pub proc_freepagetable : ℕ → ℕ → State → Outcome State
  pub copyout : ℕ → ℕ → ℕ → State → Bool × State

-- The index of the first UNUSED entry; `i` is the index of the head of the list.
unfoldable pub find_unused : ℕ → List Proc → Option ℕ
find_unused i [] = none
find_unused i (p ∷ ps) =
    let rest = find_unused (suc i) ps in if is_unused p.state then some i else rest

-- The fields that `freeproc` leaves in the entry.
unfoldable pub cleared : Proc → Proc
cleared p = record p {
  trapframe = 0;
  pagetable = 0;
  sz = 0;
  pid = 0;
  parent = none;
  name = set p.name 0 0;
  chan = 0;
  killed = 0;
  xstate = 0;
  state = unused;
  tickets = 0;
  priority = 0;
}

-- The entry that `allocproc` has made when it asks for memory.
unfoldable pub claimed : ℕ → ℕ → Proc → Proc
claimed pid r p = record p {
  pid = pid;
  state = used;
  priority = if pid == 1 then 20 else 0;
  tickets = r % 50 + 50;
}

-- What the scan of `wait` finds in the table.
pub data Found : Type 0 where
  zombie_child : ℕ → Found
  no_zombie : (havekids : Bool) → Found

-- One turn of the loop of `wait` ends in a return (`none` for -1) or in `sleep`.
pub data Waited : Type 0 where
  returned : Option ℕ → Waited
  sleeps : Waited

-- The scan of `wait` by process `me`: the first zombie child in the table, or else whether there
-- are children.
unfoldable pub wait_scan : ℕ → ℕ → Bool → List Proc → Found
wait_scan me i havekids [] = no_zombie havekids
wait_scan me i havekids (p ∷ ps) =
    let rest = wait_scan me (suc i) (havekids || same p.parent (some me)) ps in
    if same p.parent (some me) then (if is_zombie p.state then zombie_child i else rest) else rest

module _ (mem : Memory) where
  open mem use {State, kalloc, kfree, proc_pagetable, proc_freepagetable, copyout}

  unfoldable pub freeproc : Proc → State → Outcome (Proc × State)
  freeproc p s = do
    s ← (if p.trapframe == 0 then done s else kfree p.trapframe s)
    s ← (if p.pagetable == 0 then done s else proc_freepagetable p.pagetable p.sz s)
    done (cleared p, s)

  -- The failure path of `allocproc`: free entry `i` and return 0.
  unfoldable pub give_up : ℕ → Proc → Machine → State → Outcome (Option ℕ × Machine × State)
  give_up i p m s = do (q, s') ← freeproc p s; done (none, record m { procs = set m.procs i q }, s')

  -- The code after the label `found`, for the claimed entry `p` at index `i`. `forkret` is the
  -- address of that function.
  unfoldable pub set_up : ℕ → ℕ → Proc → Machine → State → Outcome (Option ℕ × Machine × State)
  set_up forkret i p m s =
      let (tf, s1) = kalloc s in
      let p1 : Proc = record p { trapframe = tf } in
      let (pt, s2) = proc_pagetable p1 s1 in
      let p2 : Proc = record p1 { pagetable = pt } in
      if tf == 0
      then give_up i p1 m s1
      else if pt == 0
      then give_up i p2 m s2
      else done (
        some i,
        record m {
          procs = set m.procs i (record p2 {
            context = record {
              ra = forkret;
              sp = (p2.kstack + 4096) % 2 ^ 64;
              saved = replicate 12 0;
            };
          });
        },
        s2,
      )

  unfoldable pub allocproc : ℕ → Machine → State → Outcome (Option ℕ × Machine × State)
  allocproc forkret m s = elim (find_unused 0 m.procs) [
    | none ↦ done (none, m, s)
    | some i ↦ elim (get_elem? m.procs i) [
      | none ↦ panic
      | some p ↦
          let (pid, m1) = allocpid m in
          let (r, m2) = rand m1 in set_up forkret i (claimed pid r p) m2 s
    ]
  ]

  unfoldable pub reap : ℕ → Proc → Machine → State → Outcome (Waited × Machine × State)
  reap i child m s = do
    (q, s') ← freeproc child s
    done (returned (some child.pid), record m { procs = set m.procs i q }, s')

  -- `wait(addr)`, from the top of its loop; `me` is the caller's index and `parent` its entry.
  -- `copyout` says false for its -1.
  unfoldable pub wait_turn : ℕ → ℕ → Proc → Machine → State → Outcome (Waited × Machine × State)
  wait_turn me addr parent m s = elim (wait_scan me 0 false m.procs) [
    | no_zombie havekids ↦
        if not havekids || not (parent.killed == 0)
        then done (returned none, m, s)
        else done (sleeps, m, s)
    | zombie_child i ↦ elim (get_elem? m.procs i) [
      | none ↦ panic
      | some child ↦
          let (copied, s1) = copyout parent.pagetable addr child.xstate s in
          if addr == 0
          then reap i child m s
          else if copied
          then reap i child m s1
          else done (returned none, m, s1)
    ]
  ]

-- The loop of `sys_setPriority`, by process `me`: true for 0 and false for -1, and the table.
unfoldable pub set_priority_list : ℕ → ℕ → ℕ → List Proc → Bool × List Proc
set_priority_list me pid priority [] = (false, [])
set_priority_list me pid priority (p ∷ ps) =
    let rest = set_priority_list me pid priority ps in
    if p.pid == pid
    then (if same p.parent (some me)
        then (true, record p { priority = priority } ∷ ps)
        else (false, p ∷ ps))
    else (rest.0, p ∷ rest.1)

-- `sys_setPriority(pid, priority)`, arguments as 32-bit patterns: a negative `priority` is 2 ^ 31
-- or more. `none` where `me` is not in the table.
unfoldable pub set_priority : ℕ → ℕ → ℕ → Machine → Option (Bool × Machine)
unfolding set_priority_list
set_priority me pid priority m = elim (get_elem? m.procs me) [
  | none ↦ none
  | some current ↦
      if ltb 20 priority
      then some (false, m)
      else if pid == current.pid
      then some (false, m)
      else let (ok, ps) = set_priority_list me pid priority m.procs in
        some (ok, record m { procs = ps })
]
