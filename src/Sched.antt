-- ===== src/Sched.antt =====
-- The lottery scheduler of CLab/xv6/kernel/proc_our.c (`scheduler`, one round of its endless loop,
-- and `yield`'s change of state). What the code cannot see is a parameter: `swtch i` is all that
-- happens from the switch to process `i` until it switches back, and `interrupts` what interrupt
-- handlers and other CPUs do to the table between its two scans. The message at each third switch
-- and the delay behind it are not modelled.
pub mod Lottery
pub mod Fairness
pub mod Rest
mod Tests
use team.Common.{
  ℕ, zero, suc, ◌+◌, ◌%◌, Bool, true, false, Option, none, some, List, [], ◌∷◌, ◌++◌, ◌==◌,
  if◌then◌else◌, ltb, leb, get_elem?, set,
}
use team.Proc.{Proc, ProcState, Machine, nproc, is_runnable, rand, running}

-- `struct cpu`, the fields that the scheduler uses.
pub record Cpu : Type 0 where
  pub proc : Option ℕ
  pub context_switches : ℕ

-- The first scan: `total_tickets`.
unfoldable pub count_tickets : ℕ → List Proc → ℕ
count_tickets total [] = total
count_tickets total (p ∷ ps) =
    count_tickets (if is_runnable p.state then total + p.tickets else total) ps

-- The variables of the second scan. `dispatched` records the processes switched to, in order; the
-- code has no such variable.
pub record Round : Type 0 where
  pub machine : Machine
  pub cpu : Cpu
  pub current_ticket : ℕ
  pub found : Bool
  pub dispatched : List ℕ

-- `c->context_switches++; if (c->context_switches >= 3) { ...; c->context_switches = 0; }`
abbrev pub count_switch : ℕ → ℕ
count_switch n = if leb 3 (n + 1) then 0 else n + 1

module _ (swtch : ℕ → Machine → Machine) where
  -- The body of `if (current_ticket > winning_ticket)`. `current` is the new `current_ticket`.
  unfoldable pub dispatch : ℕ → Proc → ℕ → Round → Round
  dispatch i p current r =
      let m = record r.machine { procs = set r.machine.procs i (record p { state = running }) } in
      record {
        machine = swtch i m;
        cpu = record { proc = none; context_switches = count_switch r.cpu.context_switches };
        current_ticket = current;
        found = true;
        dispatched = r.dispatched ++ i ∷ [];
      }

  -- The body of the second scan, at process `i`.
  unfoldable pub pick_step : ℕ → ℕ → Round → Round
  pick_step winning i r = elim (get_elem? r.machine.procs i) [
    | none ↦ r
    | some p ↦
        if is_runnable p.state
        then if ltb winning (r.current_ticket + p.tickets)
          then dispatch i p (r.current_ticket + p.tickets) r
          else record r { current_ticket = r.current_ticket + p.tickets }
        else r
  ]

  -- `k` processes are left, from `i` on.
  unfoldable pub pick_loop : ℕ → ℕ → ℕ → Round → Round
  pick_loop winning zero i r = r
  pick_loop winning (suc k) i r = pick_loop winning k (suc i) (pick_step winning i r)

  module _ (interrupts : Machine → Machine) where
    -- One round of the loop. Nothing is dispatched where there are no tickets: the CPU waits for
    -- an interrupt.
    unfoldable pub scheduler_round : Machine → Cpu → Round
    scheduler_round m c =
        let total = count_tickets 0 m.procs in
        let draw = rand (interrupts m) in
        let start : Machine → Round = λ m'. record {
          machine = m';
          cpu = c;
          current_ticket = 0;
          found = false;
          dispatched = [];
        } in
        if total == 0 then start m else pick_loop (draw.0 % total) nproc 0 (start draw.1)
