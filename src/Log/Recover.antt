-- ===== src/Log/Recover.antt =====
-- What recovery in log.c makes of a disk, and what `write_head` writes on it.
use team.Common.{ℕ, ◌+◌, ◌-◌, ◌≤◌, ◌<◌, ◌≡◌, ◌≢◌, sym, ◌∙◌, true, false, arith}
use team.Common.Family.{update}
use team.Log.{
  Block, Device, Log, bwrite, install_trans, write_head, read_head, recover_from_log, fill_head,
}
use team.Log.Loops.{
  Outside, AllOutside, AllDistinct, Installed, install_loop-Installed, fill_head-word,
  read_blocks-at,
}

unfoldable pub reboot : ℕ → Device → Device
reboot p d = record { disk = d.disk; cache = d.disk; pins = λ _. 0; power = p }

-- The log as a new kernel finds it, before it reads the header.
unfoldable pub restart : Log → Log
restart l = record {
  start = l.start;
  size = l.size;
  outstanding = 0;
  wakeups = 0;
  committing = false;
  n = 0;
  block = λ _. 0;
}

-- A running system before a commit: the header on disk says that the log is empty, the logged
-- blocks are different and outside the log, and only they differ between the cache and the disk.
pub record Ready (l : Log) (d : Device) : Type 0 where
  pub empty : d.disk l.start 0 ≡ 0
  pub outside : AllOutside l l.n
  pub distinct : AllDistinct l l.n
  pub clean : (b : ℕ) → Outside l l.n b → ((j : ℕ) → j < l.n → b ≢ l.block j) → d.cache b ≡ d.disk b

-- A header block that lists the first `n` logged blocks.
abbrev pub Lists : Log → Block → Type 0
Lists l hb = (hb 0 ≡ l.n) × ((j : ℕ) → j < l.n → hb (j + 1) ≡ l.block j)

module _ (l : Log) (d : Device) where
  pub head-cache_ne : (b : ℕ) → b ≢ l.start → (write_head l d).cache b ≡ d.cache b
  unfolding write_head bwrite
  head-cache_ne b ne = ground arith

  pub head-disk_ne : (b : ℕ) → b ≢ l.start → (write_head l d).disk b ≡ d.disk b
  unfolding write_head bwrite
  head-disk_ne b ne = ground arith

  pub head-disk_off : d.power ≡ 0 → (write_head l d).disk ≡ d.disk
  unfolding write_head bwrite
  head-disk_off off = ground arith

  pub head-power : (write_head l d).power ≡ d.power - 1
  unfolding write_head bwrite
  head-power = ground arith

  abbrev pub new_head : Block
  new_head = fill_head l.block l.n 0 (update (d.cache l.start) 0 l.n)

  pub head-disk_on : 0 < d.power → (write_head l d).disk l.start ≡ new_head
  unfolding write_head bwrite
  head-disk_on on = ground arith

  pub new_head-Lists : Lists l new_head
  new_head-Lists = (
    fill_head-word l.block l.n 0 _ 0 ∙ ground arith,
    λ j h. fill_head-word l.block l.n 0 _ (j + 1) ∙ ground arith,
  )

-- What recovery makes of a disk whose header lists `n` blocks.
pub record Recovered (start : ℕ) (d : Device) (d' : Device) : Type 0 where
  pub kept :
      (b : ℕ)
      → b ≢ start
      → ((j : ℕ) → j < d.disk start 0 → b ≢ d.disk start (j + 1))
      → d'.disk b ≡ d.disk b
  pub replayed :
      (j : ℕ) → j < d.disk start 0 → d'.disk (d.disk start (j + 1)) ≡ d.disk (start + j + 1)

pub recover_from_log-Recovered :
    (l : Log) (p : ℕ) (d : Device)
    → ((j : ℕ) → j < d.disk l.start 0 → Outside l (d.disk l.start 0) (d.disk l.start (j + 1)))
    → ((i j : ℕ)
        → i < d.disk l.start 0
        → j < d.disk l.start 0
        → d.disk l.start (i + 1) ≡ d.disk l.start (j + 1)
        → i ≡ j)
    → d.disk l.start 0 ≤ p
    → Recovered l.start d (recover_from_log (restart l) (reboot p d)).1
unfolding recover_from_log read_head install_trans reboot restart
recover_from_log-Recovered l p d outside distinct enough = record {
  kept =
      λ b ne other. head-disk_ne l2 d1 b ne ∙ w.disk_kept b (λ j lo hi. rw (at j hi) (other j hi));
  replayed = λ j h.
      head-disk_ne l2 d1 _ (λ e. absurd (omega (arith, outside j h)))
      ∙ rw (at j h) at (w.installed j (omega arith) h (omega arith));
}
  where
    hb : Block
    hb = d.disk l.start

    booted : Device
    booted = reboot p d

    l1 : Log
    l1 = read_head (restart l) booted

    at : (j : ℕ) → j < hb 0 → l1.block j ≡ hb (j + 1)
    at j h = read_blocks-at hb (hb 0) 0 _ j ∙ ground arith

    w : Installed l1 (hb 0) 0 booted (install_trans true l1 booted)
    w =
        install_loop-Installed l1 (hb 0) true (hb 0) 0 booted (omega arith)
          (λ j h. rw (at j h) (outside j h))
          (λ i j hi hj e. distinct i j hi hj (sym (at i hi) ∙ e ∙ at j hj))

    d1 : Device
    d1 = install_trans true l1 booted

    l2 : Log
    l2 = record l1 { n = 0 }
