-- ===== src/Proc/Allocation.antt =====
-- What `allocproc` of proc_our.c does to the table, when it succeeds and when it fails.
use team.Common.{
  ◌^◌, ◌-◌, ◌<◌, ◌+◌, ◌%◌, suc, ℕ, ◌≤◌, ◌≡◌, refl, ◌≢◌, ap, sym, subst, ◌∙◌, true, Option, none,
  some, ◌⊎◌, inl, inr, arith, ◌==◌, get_elem?, set, get_elem?-set_ne, get_elem?-set_cases,
  get_elem?-set_at, Bool-cases, Option-cases,
}
use mathlib.Core.Bool.{true≢false}
use team.Common.Outcome.{done, >>=-eq-done, done-injective}
use team.Proc.{Proc, Machine, used, is_unused, rand, allocpid}
use team.Proc.Lifecycle.{
  Memory, find_unused, cleared, claimed, freeproc, give_up, set_up, allocproc,
}
use team.Proc.Pids.{Live, PidsOk, PidsOk-suc}

-- A new entry `q`, unused or under the next pid, at any index.
put-Live :
    (m : Machine) (i j : ℕ) (q p : Proc)
    → (is_unused q.state ≡ true) ⊎ (q.pid ≡ m.nextpid)
    → Live (set m.procs i q) j p
    → ((j ≡ i) × (p.pid ≡ m.nextpid)) ⊎ Live m.procs j p
put-Live m i j q p new live = elim (get_elem?-set_cases m.procs i j q p live.at) [
  | inl (e, f) ↦ elim new [
    | inl idle ↦
        absurd (true≢false (sym idle ∙ ap (λ (x : Proc). is_unused x.state) (sym f) ∙ live.in_use))
    | inr next ↦ inl (e, ap (λ (x : Proc). x.pid) f ∙ next)
  ]
  | inr (n, f) ↦ inr (record { at = f; in_use = live.in_use })
]

put-PidsOk :
    {lim : ℕ} (m : Machine) (i : ℕ) (q : Proc) (seed : ℕ)
    → PidsOk lim m
    → lim < 2 ^ 31 - 1
    → (is_unused q.state ≡ true) ⊎ (q.pid ≡ m.nextpid)
    → PidsOk
        (suc lim)
        (record m { procs = set m.procs i q; nextpid = (m.nextpid + 1) % 2 ^ 32; seed = seed })
put-PidsOk m i q seed ok room new = record {
  below = omega (arith, ok.below);
  positive = omega (arith, ok.below);
  fresh = λ j p live. elim (put-Live m i j q p new live) [
    | inl (e, f) ↦ omega (arith, ok.positive, ok.below)
    | inr old ↦ omega (arith, ok.below, ok.fresh j p old)
  ];
  unique = λ j k p p' live live' e. elim (put-Live m i j q p new live) [
    | inl (a, f) ↦ elim (put-Live m i k q p' new live') [
      | inl (b, g) ↦ omega arith
      | inr old ↦ absurd (omega (arith, ok.fresh k p' old))
    ]
    | inr old ↦ elim (put-Live m i k q p' new live') [
      | inl (b, g) ↦ absurd (omega (arith, ok.fresh j p old))
      | inr old' ↦ ok.unique j k p p' old old' e
    ]
  ];
}

module _ (mem : Memory) where
  open mem use {State}

  pub freeproc-cleared :
      (p q : Proc) (s s' : State) → freeproc mem p s ≡ done (q, s') → q ≡ cleared p
  unfolding freeproc
  freeproc-cleared p q s s' h = ground arith

  give_up-cases :
      (i : ℕ) (p : Proc) (m : Machine) (s : State) (r : Option ℕ) (m' : Machine) (s' : State)
      → give_up mem i p m s ≡ done (r, m', s')
      → (r ≡ none) × (m' ≡ record m { procs = set m.procs i (cleared p) })
  unfolding give_up
  give_up-cases i p m s r m' s' h =
      let ((q, s1), freed, rest) = >>=-eq-done (freeproc mem p s) _ h in
      ground (arith, freeproc-cleared p q s s1 freed)

  -- What `set_up` leaves in entry `i`: nothing on failure, else the process as it was claimed.
  abbrev pub Entered : ℕ → Proc → Machine → Option ℕ → Machine → Type 0
  Entered i p m r m' =
      (q : Proc) × (m' ≡ record m { procs = set m.procs i q })
      × (((r ≡ none) × (is_unused q.state ≡ true))
          ⊎ ((r ≡ some i)
              × (q.pid ≡ p.pid)
              × (q.state ≡ p.state)
              × (q.tickets ≡ p.tickets)
              × (q.killed ≡ p.killed)))

  give_up-Entered :
      (i : ℕ) (p q : Proc) (m : Machine) (s : State) (r : Option ℕ) (m' : Machine) (s' : State)
      → give_up mem i q m s ≡ done (r, m', s')
      → Entered i p m r m'
  unfolding cleared
  give_up-Entered i p q m s r m' s' h =
      let (no_proc, table) = give_up-cases i q m s r m' s' h in
      (cleared q, table, inl (no_proc, refl))

  pub set_up-Entered :
      (forkret i : ℕ) (p : Proc) (m : Machine) (s : State) (r : Option ℕ) (m' : Machine)
      (s' : State)
      → set_up mem forkret i p m s ≡ done (r, m', s')
      → Entered i p m r m'
  unfolding set_up
  set_up-Entered forkret i p m s r m' s' h =
      let (tf, s1) = mem.kalloc s in
      let p1 : Proc = record p { trapframe = tf } in
      let (pt, s2) = mem.proc_pagetable p1 s1 in
      let p2 : Proc = record p1 { pagetable = pt } in
      elim (Bool-cases (tf == 0)) [
        | inl none_left ↦ give_up-Entered i p p1 m s1 r m' s' (rw none_left at h)
        | inr got ↦ elim (Bool-cases (pt == 0)) [
          | inl no_table ↦ give_up-Entered i p p2 m s2 r m' s' (rw (got, no_table) at h)
          | inr table ↦ (
            _,
            sym (
                ap (λ (x : Option ℕ × Machine × State). x.1)
                  (done-injective (rw (got, table) at h))),
            inr (ground arith),
          )
        ]
      ]

  -- `allocproc` keeps the pids apart, whether it succeeds or fails, when it does not panic.
  pub allocproc-PidsOk :
      {lim : ℕ} (forkret : ℕ) (m : Machine) (s : State) (r : Option ℕ) (m' : Machine) (s' : State)
      → PidsOk lim m
      → lim < 2 ^ 31 - 1
      → allocproc mem forkret m s ≡ done (r, m', s')
      → PidsOk (suc lim) m'
  unfolding allocproc allocpid rand claimed
  allocproc-PidsOk forkret m s r m' s' ok room h = elim (Option-cases (find_unused 0 m.procs)) [
    | inl full ↦
        subst (PidsOk _)
          (ap (λ (x : Option ℕ × Machine × State). x.1)
            (done-injective (rw (allocproc, full) at h)))
          (PidsOk-suc m ok)
    | inr (i, free) ↦ elim (Option-cases (get_elem? m.procs i)) [
      | inl out ↦ cc (rw (allocproc, free, out) at h)
      | inr (p, at) ↦
          let (draw, _) = rand (allocpid m).1 in
          let (q, table, cases) =
            set_up-Entered forkret i (claimed m.nextpid draw p) (rand (allocpid m).1).1 s r m' s'
              (rw (allocproc, free, at) at h) in
          subst (PidsOk _) (sym table) (put-PidsOk m i q _ ok room (ground arith))
    ]
  ]

  -- What `allocproc` has made of entry `i`, `p` before and `q` after.
  pub record Allocated (n : Machine) (i : ℕ) (m' : Machine) (p q : Proc) : Type 0 where
    pub first : find_unused 0 n.procs ≡ some i
    pub before : get_elem? n.procs i ≡ some p
    pub after : get_elem? m'.procs i ≡ some q
    pub pid : q.pid ≡ n.nextpid
    pub state : q.state ≡ used
    pub tickets : (50 ≤ q.tickets) × (q.tickets < 100)
    pub killed : q.killed ≡ p.killed
    pub others : (j : ℕ) → j ≢ i → get_elem? m'.procs j ≡ get_elem? n.procs j

  Entered-Allocated :
      (n : Machine) (i j r : ℕ) (p : Proc) (m : Machine) (m' : Machine)
      → find_unused 0 n.procs ≡ some j
      → get_elem? n.procs j ≡ some p
      → m.procs ≡ n.procs
      → Entered j (claimed n.nextpid r p) m (some i) m'
      → (q : Proc) × Allocated n i m' p q
  unfolding claimed
  Entered-Allocated n i j r p m m' free at same_table (q, table, inl (e, idle)) = cc
  Entered-Allocated n i j r p m m' free at same_table
        (q, table, inr (e, by_pid, by_state, by_tickets, by_mark)) =
      (
        q,
        record {
          first = free ∙ sym e;
          before = rw (is_j) at;
          after = rw (table, is_j, same_table) (get_elem?-set_at n.procs j q p at);
          pid = by_pid;
          state = by_state;
          tickets = omega (arith, by_tickets);
          killed = by_mark;
          others = λ k ne.
              rw (table, same_table) (get_elem?-set_ne n.procs q (λ e'. ne (sym e' ∙ sym is_j)));
        },
      )
    where
      is_j : i ≡ j
      is_j = ground arith

  -- When `allocproc` returns a process, it is the first UNUSED entry, now USED, under the pid
  -- `nextpid` and with 50 to 99 tickets; its `killed` is what it was, and no other entry changes.
  pub allocproc_entry :
      (forkret i : ℕ) (n m' : Machine) (s s' : State)
      → allocproc mem forkret n s ≡ done (some i, m', s')
      → (p q : Proc) × Allocated n i m' p q
  unfolding allocproc allocpid rand
  allocproc_entry forkret i n m' s s' h = elim (Option-cases (find_unused 0 n.procs)) [
    | inl full ↦ cc (rw (allocproc, full) at h)
    | inr (j, free) ↦ elim (Option-cases (get_elem? n.procs j)) [
      | inl out ↦ cc (rw (allocproc, free, out) at h)
      | inr (p, at) ↦
          let (draw, next) = rand (allocpid n).1 in
          let entered =
            set_up-Entered forkret j (claimed n.nextpid draw p) next s (some i) m' s'
              (rw (allocproc, free, at) at h) in
          let (q, is) = Entered-Allocated n i j draw p next m' free at refl entered in (p, q, is)
    ]
  ]
