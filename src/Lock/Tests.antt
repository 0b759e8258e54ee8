-- ===== src/Lock/Tests.antt =====
-- One CPU on its way into the lock, and a nested section.
use team.Common.{ℕ, zero, suc, ◌≡◌, refl, ◌≢◌, ◌↔◌, Bool, true, false, Option, none, some}
use team.Common.Outcome.{panic}
use team.Common.Family.{update}
use team.Lock.{
  Cpu, push_off, holding, acquire_start, initlock, release_start, Sleeplock, acquiresleep,
  releasesleep, holdingsleep,
}
use team.Lock.Nesting.{nothing, section, run, Balanced, run-Balanced}
use team.Lock.Mutex.{
  Pc, outside, spinning, System, Reach, here, next, start, initial, owns, mutual_exclusion,
}

abbrev running_cpu : Cpu
running_cpu = record { noff = 0; intena = false; intr = true }

run-Balanced_example :
    Balanced running_cpu (run (section (section nothing nothing) nothing) running_cpu)
run-Balanced_example =
    run-Balanced (section (section nothing nothing) nothing) running_cpu
      (λ h. absurd (omega team.Common.arith))

abbrev one_waits : System
one_waits = record {
  lock = record { locked = false; cpu = none };
  cpus = update (λ _. running_cpu) 0 (record { noff = 1; intena = true; intr = false });
  pc = update (λ _. outside) 0 spinning;
}

starts : Reach (initial (λ _. running_cpu)) one_waits
unfolding initial initlock acquire_start holding push_off
starts = next here (start 0 refl refl)

mutual_exclusion_example :
    ((i j : ℕ) → owns (one_waits.pc i) ≡ true → owns (one_waits.pc j) ≡ true → i ≡ j)
    × ((i : ℕ)
        → one_waits.pc i ≡ outside
        → acquire_start i one_waits.lock (one_waits.cpus i) ≢ panic)
    × ((i : ℕ) → one_waits.pc i ≡ team.Lock.Mutex.critical → release_start i one_waits.lock ≢ panic)
mutual_exclusion_example = mutual_exclusion (λ _. running_cpu) starts
