-- ===== src/Sched/Lottery.antt =====
-- Which process a round of `scheduler` switches to first.
use Prim.Native.Nat.{zero-le}
use native.Mathlib.Nat.{sub-zero, zero-add}
use team.Common.{
  ℕ, zero, suc, ◌+◌, ◌-◌, ◌%◌, ◌≤◌, ◌<◌, ◌≡◌, refl, ◌≢◌, subst, ◌∙◌, true, false, Option, none,
  some, List, [], ◌∷◌, ◌++◌, ◌&&◌, inl, inr, arith, if◌then◌else◌, ltb, length, get_elem?,
  Bool-cases, dec_lt, ne→==false,
}
use team.Proc.{Proc, Machine, nproc, is_runnable, rand}
use team.Sched.{Cpu, Round, count_tickets, dispatch, pick_step, pick_loop, scheduler_round}

-- The tickets that a process takes part with.
abbrev pub weight : Proc → ℕ
weight p = if is_runnable p.state then p.tickets else 0

unfoldable pub tickets_of : List Proc → ℕ
tickets_of [] = 0
tickets_of (p ∷ ps) = weight p + tickets_of ps

-- The tickets are numbered through the table, from `i` on; the process that has ticket `w`.
unfoldable pub owner : ℕ → ℕ → List Proc → Option ℕ
owner w i [] = none
owner w i (p ∷ ps) =
    if is_runnable p.state && ltb w p.tickets then some i else owner (w - weight p) (suc i) ps

abbrev pub first : List ℕ → Option ℕ
first [] = none
first (x ∷ xs) = some x

pub count_tickets-eq : (n : ℕ) (ps : List Proc) → count_tickets n ps ≡ n + tickets_of ps
unfolding count_tickets tickets_of
count_tickets-eq n [] = omega arith
count_tickets-eq n (p ∷ ps) =
    ground (arith, count_tickets-eq (n + p.tickets) ps, count_tickets-eq n ps)

pub owner-some : (w i : ℕ) (ps : List Proc) → w < tickets_of ps → (j : ℕ) × (owner w i ps ≡ some j)
unfolding owner tickets_of
owner-some w i [] h = absurd (omega arith)
owner-some w i (p ∷ ps) h = elim (Bool-cases (is_runnable p.state && ltb w p.tickets)) [
  | inl e ↦ (i, rw e)
  | inr e ↦ rw e (owner-some (w - weight p) (suc i) ps (ground arith))
]

first-append : (xs : List ℕ) (x j : ℕ) → first xs ≡ some j → first (xs ++ x ∷ []) ≡ some j
first-append [] x j h = cc
first-append (y ∷ xs) x j h = h

module _ (swtch : ℕ → Machine → Machine) (w : ℕ) where
  step-keeps :
      (i j : ℕ) (r : Round)
      → first r.dispatched ≡ some j
      → first (pick_step swtch w i r).dispatched ≡ some j
  unfolding pick_step dispatch
  step-keeps i j r h = ground (arith, first-append r.dispatched i j h)

  loop-keeps :
      (k i j : ℕ) (r : Round)
      → first r.dispatched ≡ some j
      → first (pick_loop swtch w k i r).dispatched ≡ some j
  unfolding pick_loop
  loop-keeps zero i j r h = h
  loop-keeps (suc k) i j r h = loop-keeps k (suc i) j (pick_step swtch w i r) (step-keeps i j r h)

  module _ (i : ℕ) (p : Proc) (r : Round) (at : get_elem? r.machine.procs i ≡ some p) where
    pub step-skip : is_runnable p.state ≡ false → pick_step swtch w i r ≡ r
    unfolding pick_step
    step-skip e = ground arith

    pub step-pass :
        is_runnable p.state ≡ true
        → r.current_ticket + p.tickets ≤ w
        → pick_step swtch w i r ≡ record r { current_ticket = r.current_ticket + p.tickets }
    unfolding pick_step
    step-pass e f = ground arith

    pub step-hit :
        is_runnable p.state ≡ true
        → w < r.current_ticket + p.tickets
        → pick_step swtch w i r ≡ dispatch swtch i p (r.current_ticket + p.tickets) r
    unfolding pick_step
    step-hit e f = ground arith

  dispatch-first :
      (i : ℕ) (p : Proc) (n : ℕ) (r : Round)
      → r.dispatched ≡ []
      → first (dispatch swtch i p n r).dispatched ≡ some i
  unfolding dispatch
  dispatch-first i p n r e = rw e

  -- `ps` is the part of the table that is still to be scanned.
  pub pick_loop-owner :
      (ps : List Proc) (i : ℕ) (r : Round)
      → r.dispatched ≡ []
      → r.current_ticket ≤ w
      → ((j : ℕ) → get_elem? r.machine.procs (i + j) ≡ get_elem? ps j)
      → first (pick_loop swtch w (length ps) i r).dispatched ≡ owner (w - r.current_ticket) i ps
  unfolding pick_loop owner
  pick_loop-owner [] i r fresh low same = rw fresh
  pick_loop-owner (p ∷ ps) i r fresh low same = elim (Bool-cases (is_runnable p.state)) [
    | inr idle ↦ ground (arith, step-skip i p r at, pick_loop-owner ps (suc i) r fresh low tail)
    | inl runs ↦ elim (dec_lt w (r.current_ticket + p.tickets)) [
      | yes hit ↦
          let now : ℕ = r.current_ticket + p.tickets in
          ground (
            arith,
            step-hit i p r at runs hit,
            loop-keeps (length ps) (suc i) i (dispatch swtch i p now r)
                (dispatch-first i p now r fresh),
          )
      | no miss ↦
          let r' : Round = record r { current_ticket = r.current_ticket + p.tickets } in
          ground (
            arith,
            step-pass i p r at runs (omega arith),
            pick_loop-owner ps (suc i) r' fresh (omega arith) tail,
          )
    ]
  ]
    where
      at : get_elem? r.machine.procs i ≡ some p
      at = subst (λ k. get_elem? r.machine.procs k ≡ some p) (omega arith) (same 0)

      tail : (j : ℕ) → get_elem? r.machine.procs (suc i + j) ≡ get_elem? ps j
      tail j =
          subst (λ k. get_elem? r.machine.procs k ≡ get_elem? ps j) (omega arith) (same (suc j))

-- The winning ticket of a round in which the table is not changed between the two scans.
abbrev pub winning_ticket : (Machine → Machine) → Machine → ℕ
winning_ticket interrupts m = (rand (interrupts m)).0 % tickets_of m.procs

pub round-first :
    (swtch : ℕ → Machine → Machine) (interrupts : Machine → Machine) (m : Machine) (c : Cpu)
    → (interrupts m).procs ≡ m.procs
    → length m.procs ≡ nproc
    → tickets_of m.procs ≢ 0
    → first (scheduler_round swtch interrupts m c).dispatched
      ≡ owner (winning_ticket interrupts m) 0 m.procs
unfolding scheduler_round rand
round-first swtch interrupts m c still full funded =
    let start : Round = record {
      machine = (rand (interrupts m)).1;
      cpu = c;
      current_ticket = 0;
      found = false;
      dispatched = [];
    } in
    rw (count_tickets-eq 0 m.procs, zero-add, ne→==false funded, ← full)
      (rw sub-zero at (
        pick_loop-owner swtch (winning_ticket interrupts m) m.procs 0 (start) refl zero-le
          (λ j. rw (zero-add, still))))

-- When the runnable processes of a full table hold tickets, and nothing changes the table between
-- the two scans, a round switches first to the process that holds the ticket drawn, and there is
-- such a process.
pub round_winner :
    (swtch : ℕ → Machine → Machine) (interrupts : Machine → Machine) (m : Machine) (c : Cpu)
    → (interrupts m).procs ≡ m.procs
    → length m.procs ≡ nproc
    → tickets_of m.procs ≢ 0
    → (j : ℕ) × (owner (winning_ticket interrupts m) 0 m.procs ≡ some j)
      × (first (scheduler_round swtch interrupts m c).dispatched ≡ some j)
round_winner swtch interrupts m c still full funded =
    let (j, wins) = owner-some (winning_ticket interrupts m) 0 m.procs (omega arith) in
    (j, wins, round-first swtch interrupts m c still full funded ∙ wins)
