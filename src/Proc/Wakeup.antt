-- ===== src/Proc/Wakeup.antt =====
-- What `wakeup` and `kill` do to the processes they concern, and to the others.
use native.Mathlib.Nat.{sub-zero}
use team.Common.{
  ℕ, zero, suc, ◌+◌, ◌-◌, ◌≤◌, ◌≡◌, refl, ◌≢◌, ◌↔◌, ap, sym, ◌∙◌, Bool, true, false, Option, none,
  some, List, [], ◌∷◌, ◌&&◌, inl, inr, arith, ◌==◌, get_elem?, Bool-cases, get_elem?-head, some-eq,
  get_elem?-tail,
}
use team.Common.Outcome.{done}
use team.Proc.{
  Proc, Machine, is_unused, is_sleeping, runnable, wakeup_from, wakeup, kill_one, kill_list, kill,
}
use team.Proc.Lifecycle.{Memory, find_unused, allocproc}
use team.Proc.Allocation.{allocproc_entry}

-- `p` sleeps on the channel.
abbrev pub sleeps_on : ℕ → Proc → Bool
sleeps_on chan p = is_sleeping p.state && p.chan == chan

wakeup_from-wakes :
    (me : Option ℕ) (chan k i : ℕ) (p : Proc) (ps : List Proc)
    → get_elem? ps i ≡ some p
    → some (k + i) ≢ me
    → sleeps_on chan p ≡ true
    → get_elem? (wakeup_from me chan k ps) i ≡ some (record p { state = runnable })
unfolding wakeup_from
wakeup_from-wakes me chan k i p [] at ne asleep = cc
wakeup_from-wakes none chan k zero p (q ∷ ps) at ne asleep = ground arith
wakeup_from-wakes (some j) chan k zero p (q ∷ ps) at ne asleep =
    let d : k ≢ j = λ e. ne (ap some (omega arith)) in ground arith
wakeup_from-wakes me chan k (suc i) p (q ∷ ps) at ne asleep =
    wakeup_from-wakes me chan (suc k) i p ps at (λ e. ne (ap some (omega arith) ∙ e)) asleep

wakeup_from-keeps :
    (me : Option ℕ) (chan k i : ℕ) (p : Proc) (ps : List Proc)
    → get_elem? ps i ≡ some p
    → sleeps_on chan p ≡ false
    → get_elem? (wakeup_from me chan k ps) i ≡ some p
unfolding wakeup_from
wakeup_from-keeps me chan k i p [] at awake = cc
wakeup_from-keeps me chan k zero p (q ∷ ps) at awake = ground arith
wakeup_from-keeps me chan k (suc i) p (q ∷ ps) at awake =
    wakeup_from-keeps me chan (suc k) i p ps at awake

-- `wakeup(chan)` makes every process but the caller that sleeps on `chan` runnable, changing
-- nothing else of it, and leaves every process that does not sleep on `chan` as it was.
pub wakeup_exact :
    (me : Option ℕ) (chan i : ℕ) (p : Proc) (m : Machine)
    → get_elem? m.procs i ≡ some p
    → (some i ≢ me
        → sleeps_on chan p ≡ true
        → get_elem? (wakeup me chan m).procs i ≡ some (record p { state = runnable }))
      × (sleeps_on chan p ≡ false → get_elem? (wakeup me chan m).procs i ≡ some p)
unfolding wakeup
wakeup_exact me chan i p m at = (
  λ ne asleep.
      wakeup_from-wakes me chan 0 i p m.procs at (λ e. ne (ap some (omega arith) ∙ e)) asleep,
  wakeup_from-keeps me chan 0 i p m.procs at,
)

-- An entry has pid 0 exactly when it is UNUSED.
abbrev pub ZeroPids : List Proc → Type 0
ZeroPids ps =
    (i : ℕ) (p : Proc) → get_elem? ps i ≡ some p → (is_unused p.state ≡ true) ↔ (p.pid ≡ 0)

find_unused-killed :
    (k j : ℕ) (ps : List Proc)
    → ZeroPids ps
    → find_unused k (kill_list 0 ps).1 ≡ some j
    → (q : Proc) × (get_elem? (kill_list 0 ps).1 (j - k) ≡ some q)
      × (q.killed ≡ 1)
      × (k ≤ j)
      × ((kill_list 0 ps).0 ≡ true)
unfolding find_unused kill_list
find_unused-killed k j [] zeros h = cc
find_unused-killed k j (p ∷ ps) zeros h = elim (Bool-cases (p.pid == 0)) [
  | inl e ↦
      let gone : is_unused p.state ≡ true = (zeros 0 p refl).1 (ground arith) in
      let found : j ≡ k = ground (arith, e, gone) in
      (
        kill_one p,
        rw e (get_elem?-head (kill_one p) ps (j - k) (omega arith)),
        refl,
        omega arith,
        rw e,
      )
  | inr n ↦
      let kept : is_unused p.state ≡ false = ground (arith, (zeros 0 p refl).0) in
      let (q, at, marked, le, hit) =
        find_unused-killed (suc k) j ps (λ i. zeros (suc i)) (rw (n, kept) at h) in
      (
        q,
        rw n (get_elem?-tail p _ (j - k) (j - suc k) (omega arith) ∙ at),
        marked,
        omega arith,
        rw n hit,
      )
]

-- `kill(0)` succeeds on a table with an UNUSED entry, although no process has pid 0, and the next
-- process that `allocproc` makes is marked as killed from its start.
pub kill_zero-poisons :
    (mem : Memory) (forkret i : ℕ) (m m' : Machine) (s s' : mem.State)
    → ZeroPids m.procs
    → allocproc mem forkret (kill 0 m).1 s ≡ done (some i, m', s')
    → ((kill 0 m).0 ≡ true) × (q : Proc) × (get_elem? m'.procs i ≡ some q) × (q.killed ≡ 1)
unfolding kill
kill_zero-poisons mem forkret i m m' s s' zeros h =
    let (p, q, is) = allocproc_entry mem forkret i (kill 0 m).1 m' s s' h in
    let (p', at, marked, _, hit) = find_unused-killed 0 i m.procs zeros is.first in
    let at' : get_elem? (kill_list 0 m.procs).1 i ≡ some p' = rw sub-zero at at in
    (
      hit,
      q,
      is.after,
      is.killed ∙ ap (λ (x : Proc). x.killed) (some-eq (sym is.before ∙ at')) ∙ marked,
    )
