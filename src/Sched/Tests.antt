-- ===== src/Sched/Tests.antt =====
-- The lottery on a table with two runnable processes, 50 tickets each.
use team.Common.{ℕ, ◌≡◌, refl, ◌≢◌, none, some, [], ◌∷◌, arith, length, replicate}
use team.Proc.{Proc, ProcState, runnable, unused, Machine, rand}
use team.Sched.{Cpu, count_tickets, pick_loop, scheduler_round}
use team.Sched.Lottery.{tickets_of, owner, first, winning_ticket, round_winner}
use team.Sched.Fairness.{count_below, is_owner, start, tickets_at, lottery_fair}
use team.Sched.Rest.{runnable_from, round_runs_rest}

abbrev process : ProcState → ℕ → ℕ → Proc
process state pid tickets = record {
  state = state;
  chan = 0;
  killed = 0;
  xstate = 0;
  pid = pid;
  parent = none;
  kstack = 0;
  sz = 0;
  pagetable = 0;
  trapframe = 0;
  context = record { ra = 0; sp = 0; saved = [] };
  ofile = [];
  cwd = 0;
  name = [];
  priority = 0;
  tickets = tickets;
}

abbrev two_runnable : Machine
two_runnable = record {
  procs = process runnable 1 50 ∷ process runnable 2 50 ∷ replicate 62 (process unused 0 0);
  nextpid = 3;
  seed = 0;
  initproc = some 0;
}

abbrev cpu : Cpu
cpu = record { proc = none; context_switches = 0 }

abbrev idle_switch : ℕ → Machine → Machine
idle_switch i m = m

abbrev quiet : Machine → Machine
quiet m = m

funded : tickets_of two_runnable.procs ≢ 0
unfolding tickets_of
funded e = absurd (omega arith)

round_winner_example :
    (j : ℕ) × (owner (winning_ticket quiet two_runnable) 0 two_runnable.procs ≡ some j)
    × (first (scheduler_round idle_switch quiet two_runnable cpu).dispatched ≡ some j)
round_winner_example = round_winner idle_switch quiet two_runnable cpu refl refl funded

-- The draw is 23 of 100: process 0 has won, and process 1 runs as well.
round_runs_rest_example :
    (scheduler_round idle_switch quiet two_runnable cpu).dispatched ≡ 0 ∷ 1 ∷ []
unfolding owner tickets_of rand runnable_from
round_runs_rest_example =
    round_runs_rest idle_switch quiet two_runnable cpu 0 (λ i k m ne. refl) refl refl funded refl

lottery_fair_example :
    count_below (count_tickets 0 two_runnable.procs) (λ w. is_owner 1 (
      first
        (pick_loop idle_switch w
          (length two_runnable.procs)
          0
          (start two_runnable cpu)).dispatched))
    ≡ 50
unfolding tickets_at
lottery_fair_example = lottery_fair idle_switch two_runnable cpu 1
