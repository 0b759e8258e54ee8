-- ===== src/Sched/Rest.antt =====
-- What a round of `scheduler` does behind the process that won: its second scan goes on.
use native.Mathlib.Nat.{sub-zero, zero-add}
use Prim.Native.Nat.{zero-le}
use mathlib.Core.List.{append_assoc, append-nil}
use team.Common.{
  ℕ, suc, ◌+◌, ◌-◌, ◌≤◌, ◌<◌, ◌≡◌, refl, ◌≢◌, subst, ◌∙◌, true, false, some, List, [], ◌∷◌, ◌++◌,
  ◌&&◌, inl, inr, arith, if◌then◌else◌, leb, length, get_elem?, get_elem?-set_ne, Bool-cases,
  dec_lt, ge→ltb-false, ne→==false,
}
use team.Proc.{Proc, Machine, nproc, is_runnable, rand, running}
use team.Sched.{Cpu, Round, dispatch, pick_loop, scheduler_round}
use team.Sched.Lottery.{
  weight, tickets_of, owner, count_tickets-eq, step-skip, step-pass, step-hit, winning_ticket,
}

-- The indices of the runnable processes that are `j` or more; `ps` is the table from `i` on.
unfoldable pub runnable_from : ℕ → ℕ → List Proc → List ℕ
runnable_from j i [] = []
runnable_from j i (p ∷ ps) =
    let rest = runnable_from j (suc i) ps in
    if is_runnable p.state && leb j i then i ∷ rest else rest

-- A switch to process `i` leaves the other processes as they were.
abbrev pub IsLocal : (ℕ → Machine → Machine) → Type 0
IsLocal swtch =
    (i k : ℕ) (m : Machine) → k ≢ i → get_elem? (swtch i m).procs k ≡ get_elem? m.procs k

owner-after : (w i j : ℕ) (ps : List Proc) → owner w i ps ≡ some j → i ≤ j
unfolding owner
owner-after w i j [] h = cc
owner-after w i j (p ∷ ps) h = ground (arith, owner-after (w - weight p) (suc i) j ps)

owner-miss :
    (w i : ℕ) (p : Proc) (ps : List Proc)
    → is_runnable p.state ≡ true
    → p.tickets ≤ w
    → owner (w - p.tickets) (suc i) ps ≡ owner w i (p ∷ ps)
unfolding owner
owner-miss w i p ps e h = rw (e, ge→ltb-false w p.tickets h)

module _ (swtch : ℕ → Machine → Machine) (local : IsLocal swtch) (w : ℕ) where
  dispatch-tail :
      (i j n : ℕ) (p : Proc) (r : Round)
      → get_elem? (dispatch swtch i p n r).machine.procs (suc i + j)
        ≡ get_elem? r.machine.procs (suc i + j)
  unfolding dispatch
  dispatch-tail i j n p r =
      local i (suc i + j) _ (omega arith)
      ∙ get_elem?-set_ne r.machine.procs (record p { state = running }) (omega arith)

  dispatched-dispatch :
      (i n : ℕ) (p : Proc) (r : Round)
      → (dispatch swtch i p n r).dispatched ≡ r.dispatched ++ i ∷ []
  unfolding dispatch
  dispatched-dispatch i n p r = refl

  current-dispatch :
      (i n : ℕ) (p : Proc) (r : Round) → w < n → w < (dispatch swtch i p n r).current_ticket
  unfolding dispatch
  current-dispatch i n p r h = h

  -- Behind the winner every runnable process is switched to.
  loop-behind :
      (j : ℕ) (ps : List Proc) (i : ℕ) (r : Round)
      → j ≤ i
      → w < r.current_ticket
      → ((k : ℕ) → get_elem? r.machine.procs (i + k) ≡ get_elem? ps k)
      → (pick_loop swtch w (length ps) i r).dispatched ≡ r.dispatched ++ runnable_from j i ps
  unfolding pick_loop runnable_from
  loop-behind j [] i r le past same = rw append-nil
  loop-behind j (p ∷ ps) i r le past same = elim (Bool-cases (is_runnable p.state)) [
    | inr idle ↦
        ground
          (arith, step-skip swtch w i p r at, loop-behind j ps (suc i) r (omega arith) past tail)
    | inl runs ↦
        let n : ℕ = r.current_ticket + p.tickets in
        let d : Round = dispatch swtch i p n r in
        let behind =
          loop-behind j ps (suc i) d (omega arith) (current-dispatch i n p r (omega arith))
            (λ k. dispatch-tail i k n p r ∙ tail k) in
        ground (
          arith,
          step-hit swtch w i p r at runs (omega arith),
          behind,
          dispatched-dispatch i n p r,
          append_assoc r.dispatched (i ∷ []) (runnable_from j (suc i) ps),
        )
  ]
    where
      at : get_elem? r.machine.procs i ≡ some p
      at = subst (λ k. get_elem? r.machine.procs k ≡ some p) (omega arith) (same 0)

      tail : (k : ℕ) → get_elem? r.machine.procs (suc i + k) ≡ get_elem? ps k
      tail k =
          subst (λ n. get_elem? r.machine.procs n ≡ get_elem? ps k) (omega arith) (same (suc k))

  -- Up to the winner `j` nothing is switched to.
  loop-until :
      (j : ℕ) (ps : List Proc) (i : ℕ) (r : Round)
      → r.dispatched ≡ []
      → r.current_ticket ≤ w
      → owner (w - r.current_ticket) i ps ≡ some j
      → ((k : ℕ) → get_elem? r.machine.procs (i + k) ≡ get_elem? ps k)
      → (pick_loop swtch w (length ps) i r).dispatched ≡ runnable_from j i ps
  unfolding pick_loop runnable_from owner
  loop-until j [] i r fresh low wins same = cc
  loop-until j (p ∷ ps) i r fresh low wins same = elim (Bool-cases (is_runnable p.state)) [
    | inr idle ↦
        let next : owner (w - r.current_ticket) (suc i) ps ≡ some j = ground arith in
        ground
          (arith, step-skip swtch w i p r at idle, loop-until j ps (suc i) r fresh low next tail)
    | inl runs ↦ elim (dec_lt w (r.current_ticket + p.tickets)) [
      | yes hit ↦
          let n : ℕ = r.current_ticket + p.tickets in
          let d : Round = dispatch swtch i p n r in
          let won : i ≡ j = ground arith in
          let behind =
            loop-behind j ps (suc i) d (omega arith) (current-dispatch i n p r hit)
              (λ k. dispatch-tail i k n p r ∙ tail k) in
          ground (arith, step-hit swtch w i p r at runs hit, behind, dispatched-dispatch i n p r)
      | no miss ↦
          let n : ℕ = r.current_ticket + p.tickets in
          let r' : Round = record r { current_ticket = n } in
          let shift : w - r.current_ticket - p.tickets ≡ w - n = omega arith in
          let next : owner (w - n) (suc i) ps ≡ some j =
            rw shift at (owner-miss (w - r.current_ticket) i p ps runs (omega arith) ∙ wins) in
          let above : suc i ≤ j = owner-after (w - n) (suc i) j ps next in
          ground (
            arith,
            step-pass swtch w i p r at runs (omega arith),
            loop-until j ps (suc i) r' fresh (omega arith) next tail,
          )
    ]
  ]
    where
      at : get_elem? r.machine.procs i ≡ some p
      at = subst (λ k. get_elem? r.machine.procs k ≡ some p) (omega arith) (same 0)

      tail : (k : ℕ) → get_elem? r.machine.procs (suc i + k) ≡ get_elem? ps k
      tail k =
          subst (λ n. get_elem? r.machine.procs n ≡ get_elem? ps k) (omega arith) (same (suc k))

-- Of a full table in which the runnable processes hold tickets, and which nothing changes between
-- the two scans, a round switches to the process `j` that holds the ticket drawn, and then to every
-- runnable process behind it, when a switch changes only the process that runs.
pub round_runs_rest :
    (swtch : ℕ → Machine → Machine) (interrupts : Machine → Machine) (m : Machine) (c : Cpu) (j : ℕ)
    → IsLocal swtch
    → (interrupts m).procs ≡ m.procs
    → length m.procs ≡ nproc
    → tickets_of m.procs ≢ 0
    → owner (winning_ticket interrupts m) 0 m.procs ≡ some j
    → (scheduler_round swtch interrupts m c).dispatched ≡ runnable_from j 0 m.procs
unfolding scheduler_round rand
round_runs_rest swtch interrupts m c j local still full funded wins =
    let start : Round = record {
      machine = (rand (interrupts m)).1;
      cpu = c;
      current_ticket = 0;
      found = false;
      dispatched = [];
    } in
    rw (count_tickets-eq 0 m.procs, zero-add, ne→==false funded, ← full)
      (loop-until swtch local (winning_ticket interrupts m) j m.procs 0 start refl zero-le
        (rw sub-zero wins) (λ k. rw (zero-add, still)))
