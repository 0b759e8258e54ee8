-- ===== src/Lock/SleepTests.antt =====
-- A sleep lock of sleeplock.c that one process hands on to two that sleep.
use team.Common.{ℕ, ◌<◌, ◌≡◌, refl, ◌↔◌, true, false, arith}
use team.Common.Family.{update}
use team.Lock.{initsleeplock, acquiresleep, releasesleep, holdingsleep}
use team.Lock.Sleep.{
  outside, trying, critical, asleep, System, start, takes, falls_asleep, wakes, releases, Reach,
  here, next, initial, sleep_exclusion,
}

-- Process 3 has the sleep lock, 4 and 5 sleep; 3 releases it and 4, woken, is at the test again.
abbrev handed_on : System
handed_on = record {
  lock = record { locked = false; pid = 0; wakeups = 1 };
  pc =
      update
        (update
          (update
            (update
              (update (update (update (update (λ _. outside) 3 trying) 3 critical) 4 trying) 4
                (asleep 0))
              5 trying)
            5 (asleep 0))
          3 outside)
        4 trying;
}

hands_on : Reach initial handed_on
unfolding initial initsleeplock acquiresleep releasesleep
hands_on =
    next
      (next
        (next
          (next
            (next (next (next (next here (start 3 refl)) (takes 3 refl refl)) (start 4 refl))
              (falls_asleep 4 refl refl))
            (start 5 refl))
          (falls_asleep 5 refl refl))
        (releases 3 refl))
      (wakes 4 0 refl (λ e. absurd (omega arith)))

sleep_exclusion_example :
    ((i j : ℕ) → handed_on.pc i ≡ critical → handed_on.pc j ≡ critical → i ≡ j)
    × ((i : ℕ) → (holdingsleep i handed_on.lock ≡ true) ↔ (handed_on.pc i ≡ critical))
    × (handed_on.lock.locked ≡ true → handed_on.pc handed_on.lock.pid ≡ critical)
    × ((i k : ℕ)
        → handed_on.pc i ≡ asleep k
        → handed_on.lock.locked ≡ false
        → k < handed_on.lock.wakeups)
sleep_exclusion_example = sleep_exclusion hands_on
