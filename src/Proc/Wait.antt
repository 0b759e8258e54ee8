-- ===== src/Proc/Wait.antt =====
-- `wait` of proc_our.c frees an entry of the table, or none.
use team.Common.{
  ℕ, ◌≡◌, refl, ap, sym, subst, ◌∙◌, Bool, false, List, ◌⊎◌, inl, inr, arith, ◌==◌, get_elem?, set,
  get_elem?-set_cases, Bool-cases, Option-cases,
}
use mathlib.Core.Bool.{true≢false}
use team.Common.Outcome.{done, >>=-eq-done}
use team.Proc.{Proc, Machine, is_unused}
use team.Proc.Lifecycle.{
  Memory, cleared, freeproc, Found, Waited, wait_turn, reap, wait_scan, zombie_child, no_zombie,
}
use team.Proc.Pids.{Live, PidsOk}
use team.Proc.Allocation.{freeproc-cleared}

-- An entry that is cleared is not in use.
Live-cleared :
    (ps : List Proc) (i j : ℕ) (p q : Proc) → Live (set ps i (cleared p)) j q → Live ps j q
unfolding cleared
Live-cleared ps i j p q live = elim (get_elem?-set_cases ps i j (cleared p) q live.at) [
  | inl (e, f) ↦ absurd (true≢false (ap (λ (x : Proc). is_unused x.state) (sym f) ∙ live.in_use))
  | inr (n, f) ↦ record { at = f; in_use = live.in_use }
]

pub clear-PidsOk :
    {lim : ℕ} (m : Machine) (i : ℕ) (p : Proc)
    → PidsOk lim m
    → PidsOk lim (record m { procs = set m.procs i (cleared p) })
clear-PidsOk m i p ok = record {
  below = ok.below;
  positive = ok.positive;
  fresh = λ j q live. ok.fresh j q (Live-cleared m.procs i j p q live);
  unique = λ j k q q' live live'.
      ok.unique j k q q' (Live-cleared m.procs i j p q live) (Live-cleared m.procs i k p q' live');
}

Found-cases : (x : Found) → ((b : Bool) × (x ≡ no_zombie b)) ⊎ ((i : ℕ) × (x ≡ zombie_child i))
Found-cases (no_zombie b) = inl (b, refl)
Found-cases (zombie_child i) = inr (i, refl)

module _ (mem : Memory) where
  open mem use {State}

  reap-PidsOk :
      {lim : ℕ} (i : ℕ) (child : Proc) (m m' : Machine) (s s' : State) (r : Waited)
      → PidsOk lim m
      → reap mem i child m s ≡ done (r, m', s')
      → PidsOk lim m'
  unfolding reap
  reap-PidsOk i child m m' s s' r ok h =
      let ((q, s1), freed, rest) = >>=-eq-done (freeproc mem child s) _ h in
      let table : m' ≡ record m { procs = set m.procs i (cleared child) } =
        ground (arith, freeproc-cleared mem child q s s1 freed) in
      subst (PidsOk _) (sym table) (clear-PidsOk m i child ok)

  -- One turn of `wait` keeps the pids apart, when it does not panic.
  pub wait_turn-PidsOk :
      {lim : ℕ} (me addr : ℕ) (parent : Proc) (m m' : Machine) (s s' : State) (r : Waited)
      → PidsOk lim m
      → wait_turn mem me addr parent m s ≡ done (r, m', s')
      → PidsOk lim m'
  unfolding wait_turn
  wait_turn-PidsOk me addr parent m m' s s' r ok h =
      elim (Found-cases (wait_scan me 0 false m.procs)) [
        | inl (b, e) ↦ subst (PidsOk _) (ground (arith, e)) ok
        | inr (i, e) ↦ elim (Option-cases (get_elem? m.procs i)) [
          | inl out ↦ cc (rw (wait_turn, e, out) at h)
          | inr (child, at) ↦
              let h' = rw (wait_turn, e, at) at h in
              elim (Bool-cases (addr == 0)) [
                | inl null ↦ reap-PidsOk i child m m' s s' r ok (rw null at h')
                | inr set ↦
                    let (copied, s1) = mem.copyout parent.pagetable addr child.xstate s in
                    elim (Bool-cases copied) [
                      | inl yes_copied ↦
                          reap-PidsOk i child m m' s1 s' r ok (rw (set, yes_copied) at h')
                      | inr not_copied ↦ subst (PidsOk _) (ground (arith, e, at)) ok
                    ]
              ]
        ]
      ]
