-- ===== src/Proc/Pids.antt =====
-- Process identifiers: every process in use has its own, below `nextpid`, and each operation on the
-- table keeps it so.
use team.Common.{
  ℕ, zero, suc, ◌≤◌, ◌<◌, ◌≡◌, refl, sym, subst, ◌∙◌, Bool, true, false, Option, some, List, [],
  ◌∷◌, ◌⊎◌, inl, inr, arith, ◌==◌, get_elem?, set, Bool-cases,
}
use team.Proc.{Proc, Machine, is_unused, wakeup_from, wakeup, kill_one, kill_list, kill, same}
use team.Proc.Lifecycle.{set_priority_list, set_priority}

-- An entry and what it becomes: same pid, same use.
pub record SamePid (p q : Proc) : Type 0 where
  pub pid : q.pid ≡ p.pid
  pub use_of : is_unused q.state ≡ is_unused p.state

-- Two tables agree on pids, entry by entry.
abbrev pub SamePids : List Proc → List Proc → Type 0
SamePids ps qs =
    (i : ℕ) (q : Proc)
    → get_elem? qs i ≡ some q
    → (p : Proc) × (get_elem? ps i ≡ some p) × SamePid p q

-- The process at index `i` is in use.
pub record Live (ps : List Proc) (i : ℕ) (p : Proc) : Type 0 where
  pub at : get_elem? ps i ≡ some p
  pub in_use : is_unused p.state ≡ false

-- The pids are in order, and `nextpid` has not passed `lim`.
pub record PidsOk (lim : ℕ) (m : Machine) : Type 0 where
  pub below : m.nextpid ≤ lim
  pub positive : 0 < m.nextpid
  pub fresh : (i : ℕ) (p : Proc) → Live m.procs i p → (0 < p.pid) × (p.pid < m.nextpid)
  pub unique : (i j : ℕ) (p q : Proc) → Live m.procs i p → Live m.procs j q → p.pid ≡ q.pid → i ≡ j

pub PidsOk-suc : {lim : ℕ} (m : Machine) → PidsOk lim m → PidsOk (suc lim) m
PidsOk-suc m ok = record {
  below = omega (arith, ok.below);
  positive = ok.positive;
  fresh = ok.fresh;
  unique = ok.unique;
}

-- What keeps every pid keeps the invariant.
pub PidsOk-SamePids :
    {lim : ℕ} (m : Machine) (qs : List Proc)
    → PidsOk lim m
    → SamePids m.procs qs
    → PidsOk lim (record m { procs = qs })
PidsOk-SamePids m qs ok same_pids = record {
  below = ok.below;
  positive = ok.positive;
  fresh = λ i q live.
      let (p, at, s) = same_pids i q live.at in
      let back : Live m.procs i p = record { at = at; in_use = omega_eq s live } in
      subst (λ n. (0 < n) × (n < m.nextpid)) (sym s.pid) (ok.fresh i p back);
  unique = λ i j q q' live live' e.
      let (p, at, s) = same_pids i q live.at in
      let (p', at', s') = same_pids j q' live'.at in
      ok.unique i j p p' (record { at = at; in_use = omega_eq s live })
        (record { at = at'; in_use = omega_eq s' live' }) (sym s.pid ∙ e ∙ s'.pid);
}
  where
    omega_eq :
        {p q : Proc} {i : ℕ} {ps : List Proc}
        → SamePid p q
        → Live ps i q
        → is_unused p.state ≡ false
    omega_eq s live = sym s.use_of ∙ live.in_use

SamePid-refl : (p : Proc) → SamePid p p
SamePid-refl p = record { pid = refl; use_of = refl }

pub SamePids-refl : (ps : List Proc) → SamePids ps ps
SamePids-refl ps i q at = (q, at, SamePid-refl q)

SamePids-cons :
    {p q : Proc} (ps qs : List Proc) → SamePid p q → SamePids ps qs → SamePids (p ∷ ps) (q ∷ qs)
SamePids-cons {p} {q} ps qs s rest zero q' at = (p, refl, ground arith)
SamePids-cons ps qs s rest (suc i) q' at = rest i q' at

wakeup_from-SamePids :
    (me : Option ℕ) (chan i : ℕ) (ps : List Proc) → SamePids ps (wakeup_from me chan i ps)
unfolding wakeup_from
wakeup_from-SamePids me chan i [] = SamePids-refl []
wakeup_from-SamePids me chan i (p ∷ ps) =
    SamePids-cons _ _ (ground arith) (wakeup_from-SamePids me chan (suc i) ps)

kill_list-SamePids : (pid : ℕ) (ps : List Proc) → SamePids ps (kill_list pid ps).1
unfolding kill_list
kill_list-SamePids pid [] = SamePids-refl []
kill_list-SamePids pid (p ∷ ps) = elim (Bool-cases (p.pid == pid)) [
  | inl e ↦ rw e (SamePids-cons _ _ (ground arith) (SamePids-refl ps))
  | inr e ↦ rw e (SamePids-cons _ _ (SamePid-refl p) (kill_list-SamePids pid ps))
]

set_priority_list-SamePids :
    (me pid priority : ℕ) (ps : List Proc) → SamePids ps (set_priority_list me pid priority ps).1
unfolding set_priority_list
set_priority_list-SamePids me pid priority [] = SamePids-refl []
set_priority_list-SamePids me pid priority (p ∷ ps) = elim (Bool-cases (p.pid == pid)) [
  | inl e ↦ elim (Bool-cases (same p.parent (some me))) [
    | inl child ↦ rw (e, child) (SamePids-cons _ _ (ground arith) (SamePids-refl ps))
    | inr other ↦ rw (e, other) (SamePids-refl (p ∷ ps))
  ]
  | inr e ↦
      rw e (SamePids-cons _ _ (SamePid-refl p) (set_priority_list-SamePids me pid priority ps))
]

pub wakeup-SamePids :
    (me : Option ℕ) (chan : ℕ) (m : Machine) → SamePids m.procs (wakeup me chan m).procs
unfolding wakeup
wakeup-SamePids me chan m = wakeup_from-SamePids me chan 0 m.procs

-- `wakeup` keeps the pids apart.
pub wakeup-PidsOk :
    {lim : ℕ} (me : Option ℕ) (chan : ℕ) (m : Machine)
    → PidsOk lim m
    → PidsOk lim (wakeup me chan m)
unfolding wakeup
wakeup-PidsOk me chan m ok = PidsOk-SamePids m _ ok (wakeup_from-SamePids me chan 0 m.procs)

-- `kill` keeps the pids apart.
pub kill-PidsOk : {lim : ℕ} (pid : ℕ) (m : Machine) → PidsOk lim m → PidsOk lim (kill pid m).1
unfolding kill
kill-PidsOk pid m ok = PidsOk-SamePids m _ ok (kill_list-SamePids pid m.procs)

-- `kill(pid)` finds a process that has the pid in any state, and marks the first such entry.
pub kill_list-marks :
    (pid i : ℕ) (p : Proc) (ps : List Proc)
    → get_elem? ps i ≡ some p
    → p.pid ≡ pid
    → ((j : ℕ) (q : Proc) → get_elem? ps j ≡ some q → q.pid ≡ pid → i ≤ j)
    → ((kill_list pid ps).0 ≡ true) × ((kill_list pid ps).1 ≡ set ps i (kill_one p))
unfolding kill_list
kill_list-marks pid i p [] at e least = cc
kill_list-marks pid zero p (q ∷ ps) at e least = ground arith
kill_list-marks pid (suc i) p (q ∷ ps) at e least = ground (
  arith,
  least 0 q,
  kill_list-marks pid i p ps at e (λ j q' a b. omega (arith, least (suc j) q' a b)),
)

set_priority-cases :
    (me pid priority : ℕ) (m m' : Machine) (ok : Bool)
    → set_priority me pid priority m ≡ some (ok, m')
    → (m' ≡ m) ⊎ (m' ≡ record m { procs = (set_priority_list me pid priority m.procs).1 })
unfolding set_priority
set_priority-cases me pid priority m m' ok h = ground arith

-- `setPriority` keeps the pids apart, whether it succeeds or not.
pub set_priority-PidsOk :
    {lim : ℕ} (me pid priority : ℕ) (m m' : Machine) (ok : Bool)
    → PidsOk lim m
    → set_priority me pid priority m ≡ some (ok, m')
    → PidsOk lim m'
set_priority-PidsOk me pid priority m m' ok inv h =
    elim (set_priority-cases me pid priority m m' ok h) [
      | inl e ↦ subst (PidsOk _) (sym e) inv
      | inr e ↦
          subst (PidsOk _) (sym e)
            (PidsOk-SamePids m _ inv (set_priority_list-SamePids me pid priority m.procs))
    ]
