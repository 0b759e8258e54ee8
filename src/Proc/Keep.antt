-- ===== src/Proc/Keep.antt =====
-- Changes of the table of proc_our.c that keep every pid, and every process in use: of one entry,
-- and `exit` with `reparent`.
use team.Common.{
  arith, ℕ, zero, suc, ◌<◌, ◌≡◌, refl, ap, sym, subst, ◌∙◌, false, Option, none, some, List, [],
  ◌∷◌, inl, inr, get_elem?, get_elem?-set_cases, set, Bool-cases, Option-cases, some-eq,
}
use team.Proc.{
  Proc, Machine, is_unused, is_runnable, running, runnable, sleeping, same, modify, nproc, wakeup,
  kill, setkilled, adopt, reparent_loop, reparent,
}
use team.Proc.Fork.{exit_zombie}
use team.Proc.Pids.{
  SamePid, SamePids, SamePids-refl, Live, PidsOk, PidsOk-SamePids, wakeup-SamePids,
}

SamePids-trans : (ps qs rs : List Proc) → SamePids ps qs → SamePids qs rs → SamePids ps rs
SamePids-trans ps qs rs f g i r at =
    let (q, at', s) = g i r at in
    let (p, at'', s') = f i q at' in
    (p, at'', record { pid = s.pid ∙ s'.pid; use_of = s.use_of ∙ s'.use_of })

pub set-SamePids :
    (ps : List Proc) (i : ℕ) (p q : Proc)
    → get_elem? ps i ≡ some p
    → SamePid p q
    → SamePids ps (set ps i q)
set-SamePids ps i p q at s j r at' = elim (get_elem?-set_cases ps i j q r at') [
  | inl (e, f) ↦ (p, ap (get_elem? ps) e ∙ at, subst (SamePid p) (sym f) s)
  | inr (n, f) ↦ (r, f, record { pid = refl; use_of = refl })
]

pub modify-SamePids :
    (f : Proc → Proc) (i : ℕ) (ps : List Proc)
    → ((p : Proc) → get_elem? ps i ≡ some p → SamePid p (f p))
    → SamePids ps (modify i f ps)
modify-SamePids f i [] h j q at = (q, at, record { pid = refl; use_of = refl })
modify-SamePids f zero (p ∷ ps) h zero q at = (p, refl, subst (SamePid p) (some-eq at) (h p refl))
modify-SamePids f zero (p ∷ ps) h (suc j) q at = (q, at, record { pid = refl; use_of = refl })
modify-SamePids f (suc i) (p ∷ ps) h zero q at =
    (p, refl, subst (SamePid p) (some-eq at) (record { pid = refl; use_of = refl }))
modify-SamePids f (suc i) (p ∷ ps) h (suc j) q at = modify-SamePids f i ps h j q at

-- The state of an entry in use is set to another in use.
stays_used :
    (ps qs : List Proc) (i : ℕ) (p q : Proc)
    → Live ps i p
    → SamePids ps qs
    → get_elem? qs i ≡ some q
    → is_unused q.state ≡ false
stays_used ps qs i p q live same_pids at =
    let (p', at', s) = same_pids i q at in
    s.use_of ∙ ap (λ (x : Proc). is_unused x.state) (some-eq (sym at' ∙ live.at)) ∙ live.in_use

pub modify-used :
    (f : Proc → Proc) (i : ℕ) (ps : List Proc) (p : Proc)
    → Live ps i p
    → ((q : Proc) → (f q).pid ≡ q.pid)
    → ((q : Proc) → is_unused (f q).state ≡ false)
    → SamePids ps (modify i f ps)
modify-used f i ps p live pids used = modify-SamePids f i ps (λ q at. record {
  pid = pids q;
  use_of = used q ∙ sym (stays_used ps ps i p q live (SamePids-refl ps) at);
})

pub PidsOk-same :
    {lim : ℕ} (m m' : Machine)
    → PidsOk lim m
    → m'.nextpid ≡ m.nextpid
    → SamePids m.procs m'.procs
    → PidsOk lim m'
PidsOk-same m m' ok e same_pids =
    let moved = PidsOk-SamePids m m'.procs ok same_pids in
    record {
      below = omega (arith, e, moved.below);
      positive = subst (λ n. 0 < n) (sym e) moved.positive;
      fresh = λ i p live. subst (λ n. (0 < p.pid) × (p.pid < n)) (sym e) (moved.fresh i p live);
      unique = moved.unique;
    }

module _ (chan_of : Option ℕ → ℕ) where
  adopt-SamePids :
      (p i : ℕ) (pp : Proc) (m : Machine)
      → get_elem? m.procs i ≡ some pp
      → SamePids m.procs (adopt chan_of p i pp m).procs
  unfolding adopt
  adopt-SamePids p i pp m at = elim (Bool-cases (same pp.parent (some p))) [
    | inl child ↦
        let moved = set m.procs i (record pp { parent = m.initproc }) in
        rw child (
          SamePids-trans m.procs moved _
            (set-SamePids m.procs i pp _ at (record { pid = refl; use_of = refl }))
            (wakeup-SamePids (some p) (chan_of m.initproc) (record m { procs = moved })))
    | inr other ↦ rw other (SamePids-refl m.procs)
  ]

  reparent_loop-SamePids :
      (p k i : ℕ) (m : Machine) → SamePids m.procs (reparent_loop chan_of p k i m).procs
  unfolding reparent_loop
  reparent_loop-SamePids p zero i m = SamePids-refl m.procs
  reparent_loop-SamePids p (suc k) i m = elim (Option-cases (get_elem? m.procs i)) [
    | inl out ↦ rw (reparent_loop, out) (reparent_loop-SamePids p k (suc i) m)
    | inr (pp, at) ↦
        rw (reparent_loop, at)
          (SamePids-trans m.procs (adopt chan_of p i pp m).procs _ (adopt-SamePids p i pp m at)
            (reparent_loop-SamePids p k (suc i) (adopt chan_of p i pp m)))
  ]

  reparent_loop-nextpid :
      (p k i : ℕ) (m : Machine) → (reparent_loop chan_of p k i m).nextpid ≡ m.nextpid
  unfolding reparent_loop adopt
  reparent_loop-nextpid p zero i m = refl
  reparent_loop-nextpid p (suc k) i m = elim (Option-cases (get_elem? m.procs i)) [
    | inl out ↦ rw (reparent_loop, out) (reparent_loop-nextpid p k (suc i) m)
    | inr (pp, at) ↦
        rw (reparent_loop, at)
          (reparent_loop-nextpid p k (suc i) (adopt chan_of p i pp m)
            ∙ elim (Bool-cases (same pp.parent (some p))) [
              | inl child ↦ rw child
              | inr other ↦ rw other
            ])
  ]

  pub exit_zombie-nextpid :
      (me status : ℕ) (m : Machine) → (exit_zombie chan_of me status m).nextpid ≡ m.nextpid
  unfolding exit_zombie reparent wakeup
  exit_zombie-nextpid me status m = reparent_loop-nextpid me nproc 0 m

  pub exit_zombie-SamePids :
      (me status : ℕ) (m : Machine) (p : Proc)
      → Live m.procs me p
      → SamePids m.procs (exit_zombie chan_of me status m).procs
  unfolding exit_zombie reparent
  exit_zombie-SamePids me status m p live =
      let m1 = reparent chan_of me m in
      let parent : Option ℕ = elim (get_elem? m1.procs me) [ none ↦ none | some q ↦ q.parent ] in
      let m2 = wakeup (some me) (chan_of parent) m1 in
      let before =
        SamePids-trans m.procs m1.procs m2.procs (reparent_loop-SamePids me nproc 0 m)
          (wakeup-SamePids (some me) (chan_of parent) m1) in
      SamePids-trans m.procs m2.procs _ before (
        modify-SamePids (λ q. record q { xstate = status; state = team.Proc.zombie }) me m2.procs
          (λ q at. record {
            pid = refl;
            use_of = sym (stays_used m.procs m2.procs me p q live before at);
          }))
