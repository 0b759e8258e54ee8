-- ===== src/Proc/Tests.antt =====
-- The process table at small states: one entry that is free or one process.
use team.Common.{
  ◌+◌, ℕ, zero, suc, ◌+◌, ◌<◌, ◌≡◌, refl, ◌≢◌, ◌↔◌, sym, ap, subst, ◌∙◌, some-eq, true, false,
  Option, none, some, [], ◌∷◌, arith, get_elem?, replicate,
}
use mathlib.Core.Bool.{true≢false}
use team.Common.Outcome.{done}
use team.Proc.{
  Proc, ProcState, unused, used, sleeping, runnable, running, zombie, Machine, rand, allocpid,
  wakeup, kill, kill_list, kill_one, is_unused, adopt, reparent, reparent_loop, wakeup_from,
}
use team.Proc.Lifecycle.{
  Memory, find_unused, cleared, claimed, set_up, allocproc, freeproc, returned, wait_turn,
  wait_scan, reap, set_priority, set_priority_list,
}
use team.Proc.Fork.{Kernel, fall_asleep, exit_zombie}
use team.Proc.Table.{
  Reach, allocates, wakes, counted, calls, allocations, kills, falls_asleep, waits, here, next,
  Reach-PidsOk,
}
use team.Proc.Exit.{adopted, exit_zombie-parents}
use team.Proc.Child.{Child}
use team.Proc.Pids.{Live, PidsOk}
use team.Proc.Wakeup.{sleeps_on, wakeup_exact, ZeroPids, kill_zero-poisons}

abbrev process : ProcState → ℕ → Proc
process state pid = record {
  state = state;
  chan = 0;
  killed = 0;
  xstate = 0;
  pid = pid;
  parent = none;
  kstack = 0;
  sz = 0;
  pagetable = 0;
  trapframe = 0;
  context = record { ra = 0; sp = 0; saved = replicate 12 0 };
  ofile = [];
  cwd = 0;
  name = [];
  priority = 0;
  tickets = 0;
}

-- Page numbers, given out in order.
abbrev counter : Memory
counter = record {
  State = ℕ;
  kalloc = λ n. (n + 1, n + 1);
  kfree = λ pa n. done n;
  proc_pagetable = λ p n. (n + 1, n + 1);
  proc_freepagetable = λ pt sz n. done n;
  copyout = λ pt addr v n. (true, n);
}

abbrev with : Proc → ℕ → Machine
with p nextpid = record { procs = p ∷ []; nextpid = nextpid; seed = 0; initproc = none }

abbrev empty_table : Machine
empty_table = with (process unused 0) 2

-- What `allocproc` makes of the free entry, which had `killed` of `mark`.
abbrev entered : ℕ → Machine
entered mark = record {
  procs =
      record (process used 2) {
        killed = mark;
        tickets = 73;
        trapframe = 8;
        pagetable = 9;
        context = record { ra = 80; sp = 4096; saved = replicate 12 0 };
      }
      ∷ [];
  nextpid = 3;
  seed = 1013904223;
  initproc = none;
}

only : (p q : Proc) (nextpid i : ℕ) → Live (with p nextpid).procs i q → (i ≡ 0) × (p ≡ q)
only p q nextpid zero live = (refl, some-eq live.at)
only p q nextpid (suc i) live = cc live.at

no_process : (i : ℕ) (p : Proc) → Live empty_table.procs i p → ⊥
no_process i p live =
    let (_, e) = only (process unused 0) p 2 i live in
    true≢false (ap (λ (x : Proc). is_unused x.state) e ∙ live.in_use)

empty_table-PidsOk : PidsOk 2 empty_table
empty_table-PidsOk = record {
  below = omega arith;
  positive = omega arith;
  fresh = λ i p live. absurd (no_process i p live);
  unique = λ i j p q a b e. absurd (no_process i p a);
}

allocates_first : allocproc counter 80 empty_table 7 ≡ done (some 0, entered 0, 9)
unfolding allocproc find_unused allocpid rand claimed set_up
allocates_first = refl

abbrev sleeper : Machine
sleeper = with (process sleeping 2) 3

one-PidsOk : (state : ProcState) → PidsOk 3 (with (process state 2) 3)
one-PidsOk state = record {
  below = omega arith;
  positive = omega arith;
  fresh = λ i p live.
      let (_, e) = only (process state 2) p 3 i live in omega (arith, ap (λ (x : Proc). x.pid) e);
  unique =
      λ i j p q a b e. (only (process state 2) p 3 i a).0 ∙ sym (only (process state 2) q 3 j b).0;
}

abbrev child : ProcState → Proc
child state = record (process state 2) { parent = some 0 }

-- A process and its child.
abbrev family : ProcState → Machine
family state = record {
  procs = process runnable 1 ∷ child state ∷ [];
  nextpid = 3;
  seed = 0;
  initproc = some 0;
}

family-PidsOk : (state : ProcState) → is_unused state ≡ false → PidsOk 3 (family state)
family-PidsOk state in_use = record {
  below = omega arith;
  positive = omega arith;
  fresh = family_fresh;
  unique = family_unique;
}
  where
    family_fresh : (i : ℕ) (p : Proc) → Live (family state).procs i p → (0 < p.pid) × (p.pid < 3)
    family_fresh zero p live = omega (arith, ap (λ (x : Proc). x.pid) (some-eq live.at))
    family_fresh (suc zero) p live = omega (arith, ap (λ (x : Proc). x.pid) (some-eq live.at))
    family_fresh (suc (suc i)) p live = cc live.at

    pid_at : (i : ℕ) (p : Proc) → Live (family state).procs i p → p.pid ≡ i + 1
    pid_at zero p live = ap (λ (x : Proc). x.pid) (sym (some-eq live.at))
    pid_at (suc zero) p live = ap (λ (x : Proc). x.pid) (sym (some-eq live.at))
    pid_at (suc (suc i)) p live = cc live.at

    family_unique :
        (i j : ℕ) (p q : Proc)
        → Live (family state).procs i p
        → Live (family state).procs j q
        → p.pid ≡ q.pid
        → i ≡ j
    family_unique i j p q a b e = omega (arith, pid_at i p a, pid_at j q b)

-- The process sets the priority of its child.
abbrev promoted : Machine
promoted = record (family runnable) {
  procs = process runnable 1 ∷ record (child runnable) { priority = 5 } ∷ [];
}

sets : set_priority 0 2 5 (family runnable) ≡ some (true, promoted)
unfolding set_priority set_priority_list
sets = refl

-- The process waits for its child, which has exited.
abbrev reaped : Machine
reaped = record (family zombie) { procs = process runnable 1 ∷ process unused 0 ∷ [] }

waits_once :
    wait_turn counter 0 0 (process runnable 1) (family zombie) 7
    ≡ done (returned (some 2), reaped, 7)
unfolding wait_turn wait_scan reap freeproc cleared
waits_once = refl

wakeup_exact_example :
    (◌≢◌ {A = Option ℕ} (some 0) none
      → sleeps_on 0 (process sleeping 2) ≡ true
      → get_elem? (wakeup none 0 sleeper).procs 0 ≡ some (process runnable 2))
    × (sleeps_on 0 (process sleeping 2) ≡ false
        → get_elem? (wakeup none 0 sleeper).procs 0 ≡ some (process sleeping 2))
wakeup_exact_example = wakeup_exact none 0 0 (process sleeping 2) sleeper refl

empty_table-ZeroPids : ZeroPids empty_table.procs
empty_table-ZeroPids zero p at =
    subst (λ (x : Proc). (is_unused x.state ≡ true) ↔ (x.pid ≡ 0)) (some-eq at)
      ((λ _. refl), λ _. refl)
empty_table-ZeroPids (suc i) p at = cc

allocates_killed : allocproc counter 80 (kill 0 empty_table).1 7 ≡ done (some 0, entered 1, 9)
unfolding allocproc find_unused allocpid rand claimed set_up kill kill_list
allocates_killed = refl

kill_zero-poisons_example :
    ((kill 0 empty_table).0 ≡ true)
    × (q : Proc) × (get_elem? (entered 1).procs 0 ≡ some q)
    × (q.killed ≡ 1)
kill_zero-poisons_example =
    kill_zero-poisons counter 80 0 empty_table (entered 1) 7 9 empty_table-ZeroPids allocates_killed

-- A kernel whose calls all succeed.
abbrev kernel : Kernel
kernel = record {
  memory = counter;
  uvmcopy = λ old new sz n. (true, n);
  uvmalloc = λ pt old new perm n. (new, n);
  uvmdealloc = λ pt old new n. done (new, n);
  filedup = λ f n. done n;
  fileclose = λ f n. done n;
  idup = λ ip n. n;
  iput = λ ip n. done n;
  begin_op = λ n. n;
  end_op = λ n. n;
}

-- A process with the open file 77, and a free entry.
abbrev forker : Proc
forker = record (process running 1) { ofile = 0 ∷ 77 ∷ []; sz = 8192; trapframe = 5; cwd = 6 }

abbrev room : Machine
room = record {
  procs = forker ∷ record (process unused 0) { ofile = 0 ∷ 0 ∷ [] } ∷ [];
  nextpid = 2;
  seed = 0;
  initproc = some 0;
}

-- The child of the process.
abbrev new_child : Proc
new_child = record (child runnable) {
  sz = 8192;
  trapframe = 8;
  pagetable = 9;
  context = record { ra = 80; sp = 4096; saved = replicate 12 0 };
  ofile = 0 ∷ 77 ∷ [];
  cwd = 6;
  name = replicate 16 0;
  tickets = 73;
}

abbrev forked : Machine
forked = record {
  procs = forker ∷ new_child ∷ [];
  nextpid = 3;
  seed = 1013904223;
  initproc = some 0;
}

-- The process reaps its child, is killed and falls asleep.
abbrev reaping : Reach kernel 80 (λ _. 0) (family zombie) (fall_asleep 0 50 (kill 1 reaped).1)
unfolding kill kill_list
reaping =
    next
      (next (next here (waits (returned (some 2)) 7 7 0 0 (process runnable 1) waits_once))
        (kills 1))
      (falls_asleep 0 50 (kill_one (process runnable 1)) (record { at = refl; in_use = refl }))

-- A process is allocated, killed, and all sleepers on a channel are woken.
abbrev allocating : Reach kernel 80 (λ _. 0) empty_table (wakeup none 50 (kill 2 (entered 0)).1)
allocating =
    next (next (next here (allocates (some 0) 7 9 allocates_first)) (kills 2)) (wakes none 50)

reaping_allocates_none : allocations kernel 80 (λ _. 0) reaping ≡ 0
unfolding allocations calls counted reaping
reaping_allocates_none = refl

allocating_once : allocations kernel 80 (λ _. 0) allocating ≡ 1
unfolding allocations calls counted
allocating_once = refl

Reach-PidsOk_example :
    PidsOk (allocations kernel 80 (λ _. 0) allocating + 2) (wakeup none 50 (kill 2 (entered 0)).1)
Reach-PidsOk_example =
    Reach-PidsOk kernel 80 (λ _. 0) empty_table-PidsOk allocating (omega (arith, allocating_once))

-- Init, a process, and a child of that process.
abbrev three : Machine
three = record {
  procs =
      process sleeping 1
      ∷ record (process running 2) { parent = some 0 }
      ∷ record (process runnable 3) { parent = some 1 }
      ∷ [];
  nextpid = 4;
  seed = 0;
  initproc = some 0;
}

third_after :
    get_elem? (exit_zombie (λ _. 0) 1 9 three).procs 2
    ≡ some (record (process runnable 3) { parent = some 0 })
unfolding exit_zombie reparent reparent_loop adopt wakeup wakeup_from
third_after = refl

exit_zombie-parents_example :
    (p : Proc) × (get_elem? three.procs 2 ≡ some p)
    × (some 0 ≡ adopted (some 0) 1 p)
    × ◌≢◌ {A = Option ℕ} (some 0) (some 1)
    × (◌≡◌ {A = ℕ} 2 1 → (runnable ≡ zombie) × ◌≡◌ {A = ℕ} 0 9)
exit_zombie-parents_example =
    exit_zombie-parents (λ _. 0) 1 9 2 (record (process runnable 3) { parent = some 0 }) three
      (λ e. absurd (omega (arith, some-eq e))) (omega arith) third_after
