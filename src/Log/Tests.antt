-- ===== src/Log/Tests.antt =====
-- log.c at small states: one block to commit, one operation in progress.
use team.Common.{
  ℕ, zero, suc, ◌+◌, ◌↔◌, Option, none, some, ◌≤◌, ◌<◌, ◌≡◌, refl, true, false, [], ◌∷◌, inr, arith,
}
use team.Common.Outcome.{Outcome, done, panic, ◌>>=◌}
use team.Common.Family.{update, update_ne}
use team.Log.{
  Block, Device, Log, logsize, Begun, admitted, sleeps, begin_op, log_write, find_block, bpin,
}
use team.Log.Recover.{Ready}
use team.Log.Crash.{recovered, commit_atomic}
use team.Log.Pending.{Pending, modify_block, log_write-Pending}
use team.Log.Space.{System, Reach, here, next, begin, HasRoom, log_write-panics}

abbrev zeros : Block
zeros = λ _. 0

abbrev sevens : Block
sevens = λ _. 7

-- Block 50 is logged.
abbrev one_block : Log
one_block = record {
  start = 2;
  size = 31;
  outstanding = 0;
  wakeups = 0;
  committing = true;
  n = 1;
  block = λ _. 50;
}

abbrev powered : ℕ → Device
powered p = record {
  disk = λ _. zeros;
  cache = update (λ _. zeros) 50 sevens;
  pins = λ _. 1;
  power = p;
}

one_block-Ready : (p : ℕ) → Ready one_block (powered p)
one_block-Ready p = record {
  empty = refl;
  outside = λ j h. inr (omega arith);
  distinct = λ i j hi hj e. omega arith;
  clean = λ b out other. update_ne (λ _. zeros) 50 sevens b (other 0 (omega arith));
}

-- The power fails behind the header: recovery finds the new contents.
commit_atomic_example :
    (2 ≤ 1 → (recovered one_block 5 (powered 2)).disk 50 ≡ zeros)
    × (1 < 2 → (recovered one_block 5 (powered 2)).disk 50 ≡ sevens)
commit_atomic_example =
    commit_atomic one_block (powered 2) 5 (one_block-Ready 2) (omega arith) 50 (inr (omega arith))

abbrev idle_log : Log
idle_log = record {
  start = 2;
  size = 30;
  outstanding = 0;
  wakeups = 0;
  committing = false;
  n = 0;
  block = λ _. 0;
}

abbrev idle_system : System
idle_system = record { log = idle_log; device = powered 0; budgets = [] }

abbrev busy_system : System
busy_system = record {
  log = record idle_log { outstanding = 1 };
  device = powered 0;
  budgets = 10 ∷ [];
}

idle_system-HasRoom : HasRoom idle_system
unfolding team.Log.Space.sum
idle_system-HasRoom = record {
  counted = refl;
  room = omega arith;
  each = tt;
  few = omega arith;
  idle = refl;
}

begins : Reach idle_system busy_system
unfolding begin_op
begins = next here (begin refl)

log_write-panics_example :
    (0 < logsize)
    × (◌≡◌ {A = ℕ} 30 30)
    × ((log_write 50 busy_system.log busy_system.device ≡ panic) ↔ (30 ≤ 0 + 1))
log_write-panics_example = log_write-panics 50 9 [] [] idle_system-HasRoom begins refl

-- `log_write` of the blocks `k - 1` down to 0.
write_blocks : ℕ → Log → Device → Outcome (Log × Device)
write_blocks zero l d = done (l, d)
write_blocks (suc k) l d = log_write k l d >>= λ (l', d'). write_blocks k l' d'

-- Three operations begin on an empty log.
begin_three : Begun
unfolding begin_op
begin_three = elim (begin_op idle_log) [
  | sleeps ↦ sleeps
  | admitted l ↦ elim (begin_op l) [ sleeps ↦ sleeps | admitted l' ↦ begin_op l' ]
]

three_admitted : begin_three ≡ admitted (record idle_log { outstanding = 3 })
unfolding begin_three begin_op
three_admitted = refl

-- With the size that mkfs.c writes, the thirtieth of their thirty blocks is a panic.
thirtieth_panics : write_blocks 30 (record idle_log { outstanding = 3 }) (powered 0) ≡ panic
unfolding write_blocks log_write find_block bpin
thirtieth_panics = refl

-- The twenty-nine before are logged.
logged_blocks : Outcome (Log × Device) → Option ℕ
logged_blocks panic = none
logged_blocks (done (l, d)) = some l.n

twenty_nine_written :
    logged_blocks (write_blocks 29 (record idle_log { outstanding = 3 }) (powered 0)) ≡ some 29
unfolding logged_blocks write_blocks log_write find_block bpin
twenty_nine_written = refl

abbrev running_log : Log
running_log = record idle_log { outstanding = 1 }

abbrev clean_device : Device
clean_device = record { disk = λ _. zeros; cache = λ _. zeros; pins = λ _. 0; power = 9 }

clean-Pending : Pending running_log clean_device
clean-Pending = record {
  empty = refl;
  beyond = λ j h. absurd (omega arith);
  distinct = λ i j hi hj e. absurd (omega arith);
  clean = λ b out other. refl;
  fits = omega arith;
}

abbrev logged_once : Log
logged_once = record running_log { n = 1; block = update (λ _. 0) 0 50 }

logs :
    log_write 50 running_log (modify_block 50 sevens clean_device)
    ≡ done (logged_once, bpin 50 (modify_block 50 sevens clean_device))
unfolding log_write find_block
logs = refl

log_write-Pending_example :
    Pending logged_once (bpin 50 (modify_block 50 sevens clean_device))
    × Ready logged_once (bpin 50 (modify_block 50 sevens clean_device))
log_write-Pending_example =
    log_write-Pending 50 sevens running_log logged_once clean_device
      (bpin 50 (modify_block 50 sevens clean_device)) clean-Pending (inr (omega arith)) logs
