-- ===== src/Log/Loops.antt =====
-- What the loops of log.c leave in the cache and on the disk, with the power that they have.
use team.Common.{
  ℕ, zero, suc, ◌+◌, ◌-◌, ◌≤◌, ◌<◌, ◌≡◌, refl, ◌≢◌, ap, ◌∙◌, Bool, true, false, ◌⊎◌, inl, arith,
  ltb, leb, ◌&&◌, if◌then◌else◌, ℕ_discrete,
}
use team.Common.Family.{update}
use team.Log.{
  Block, Device, Log, copy_block, bunpin, install_loop, fill_head, read_blocks, write_log_loop,
}

module _ (to from : ℕ) (d : Device) where
  copy-cache_self : (copy_block to from d).cache to ≡ d.cache from
  unfolding copy_block
  copy-cache_self = ground arith

  copy-cache_ne : (b : ℕ) → b ≢ to → (copy_block to from d).cache b ≡ d.cache b
  unfolding copy_block
  copy-cache_ne b ne = ground arith

  copy-disk_self : 0 < d.power → (copy_block to from d).disk to ≡ d.cache from
  unfolding copy_block
  copy-disk_self on = ground arith

  copy-disk_ne : (b : ℕ) → b ≢ to → (copy_block to from d).disk b ≡ d.disk b
  unfolding copy_block
  copy-disk_ne b ne = ground arith

  copy-disk_off : d.power ≡ 0 → (copy_block to from d).disk ≡ d.disk
  unfolding copy_block
  copy-disk_off off = ground arith

  copy-power : (copy_block to from d).power ≡ d.power - 1
  unfolding copy_block
  copy-power = ground arith

module _ (l : Log) (n : ℕ) where
  -- The logged blocks lie outside the log, which is the header at `start` and `n` blocks.
  abbrev pub Outside : ℕ → Type 0
  Outside b = (b < l.start) ⊎ (l.start + n < b)

  abbrev pub AllOutside : Type 0
  AllOutside = (j : ℕ) → j < n → Outside (l.block j)

  pub record WroteLog (tail : ℕ) (d d' : Device) : Type 0 where
    pub cache_kept : (b : ℕ) → (b ≤ l.start + tail) ⊎ (l.start + n < b) → d'.cache b ≡ d.cache b
    pub disk_kept : (b : ℕ) → (b ≤ l.start + tail) ⊎ (l.start + n < b) → d'.disk b ≡ d.disk b
    pub power : d'.power ≡ d.power - (n - tail)
    pub copied :
        (j : ℕ)
        → tail ≤ j
        → j < n
        → n - tail ≤ d.power
        → d'.disk (l.start + j + 1) ≡ d.cache (l.block j)
    pub cached : (j : ℕ) → tail ≤ j → j < n → d'.cache (l.start + j + 1) ≡ d.cache (l.block j)

  pub write_log_loop-WroteLog :
      (k tail : ℕ) (d : Device)
      → tail + k ≡ n
      → AllOutside
      → WroteLog tail d (write_log_loop l k tail d)
  unfolding write_log_loop
  write_log_loop-WroteLog zero tail d e home = record {
    cache_kept = λ b h. refl;
    disk_kept = λ b h. refl;
    power = omega arith;
    copied = λ j lo hi on. absurd (omega arith);
    cached = λ j lo hi. absurd (omega arith);
  }
  write_log_loop-WroteLog (suc k) tail d e home =
      let to : ℕ = l.start + tail + 1 in
      let d1 = copy_block to (l.block tail) d in
      let w = write_log_loop-WroteLog k (suc tail) d1 (omega arith) home in
      let home_of = λ (j : ℕ) (h : j < n).
        copy-cache_ne to (l.block tail) d (l.block j) (omega (arith, home j h)) in
      record {
        cache_kept =
            λ b h. w.cache_kept b (omega arith) ∙ copy-cache_ne to (l.block tail) d b (omega arith);
        disk_kept =
            λ b h. w.disk_kept b (omega arith) ∙ copy-disk_ne to (l.block tail) d b (omega arith);
        power = omega (arith, w.power, copy-power to (l.block tail) d);
        copied = λ j lo hi on. elim (ℕ_discrete j tail) [
          | yes same ↦ rw same (
              w.disk_kept to (inl (omega arith)) ∙ copy-disk_self to (l.block tail) d (omega arith))
          | no other ↦
              w.copied j (omega arith) hi (omega (arith, copy-power to (l.block tail) d))
              ∙ home_of j hi
        ];
        cached = λ j lo hi. elim (ℕ_discrete j tail) [
          | yes same ↦
              rw same (w.cache_kept to (inl (omega arith)) ∙ copy-cache_self to (l.block tail) d)
          | no other ↦ w.cached j (omega arith) hi ∙ home_of j hi
        ];
      }

  -- The logged blocks are different.
  abbrev pub AllDistinct : Type 0
  AllDistinct = (i j : ℕ) → i < n → j < n → l.block i ≡ l.block j → i ≡ j

  pub record Installed (tail : ℕ) (d d' : Device) : Type 0 where
    pub cache_kept : (b : ℕ) → ((j : ℕ) → tail ≤ j → j < n → b ≢ l.block j) → d'.cache b ≡ d.cache b
    pub disk_kept : (b : ℕ) → ((j : ℕ) → tail ≤ j → j < n → b ≢ l.block j) → d'.disk b ≡ d.disk b
    pub power : d'.power ≡ d.power - (n - tail)
    pub installed :
        (j : ℕ)
        → tail ≤ j
        → j < n
        → n - tail ≤ d.power
        → d'.disk (l.block j) ≡ d.cache (l.start + j + 1)

  -- What follows one copy of the loop: the pin goes unless the log is being recovered.
  abbrev unpin : Bool → ℕ → Device → Device
  unpin recovering b d = if recovering then d else bunpin b d

  unpin-same :
      (recovering : Bool) (b : ℕ) (d : Device)
      → ((unpin recovering b d).cache ≡ d.cache)
        × ((unpin recovering b d).disk ≡ d.disk)
        × ((unpin recovering b d).power ≡ d.power)
  unfolding bunpin
  unpin-same true b d = (refl, refl, refl)
  unpin-same false b d = (refl, refl, refl)

  pub install_loop-Installed :
      (recovering : Bool) (k tail : ℕ) (d : Device)
      → tail + k ≡ n
      → AllOutside
      → AllDistinct
      → Installed tail d (install_loop recovering l k tail d)
  unfolding install_loop
  install_loop-Installed recovering zero tail d e home differ = record {
    cache_kept = λ b h. refl;
    disk_kept = λ b h. refl;
    power = omega arith;
    installed = λ j lo hi on. absurd (omega arith);
  }
  install_loop-Installed recovering (suc k) tail d e home differ =
      let to : ℕ = l.block tail in
      let from : ℕ = l.start + tail + 1 in
      let d1 = copy_block to from d in
      let d2 = unpin recovering to d1 in
      let u = unpin-same recovering to d1 in
      let w = install_loop-Installed recovering k (suc tail) d2 (omega arith) home differ in
      let lt : tail < n = omega arith in
      let pw : d2.power ≡ d.power - 1 = u.2 ∙ copy-power to from d in
      record {
        cache_kept = λ b h.
            w.cache_kept b (λ j lo hi. h j (omega arith) hi)
            ∙ ap (λ c. c b) u.0
            ∙ copy-cache_ne to from d b (h tail (omega arith) lt);
        disk_kept = λ b h.
            w.disk_kept b (λ j lo hi. h j (omega arith) hi)
            ∙ ap (λ c. c b) u.1
            ∙ copy-disk_ne to from d b (h tail (omega arith) lt);
        power = omega (arith, w.power, pw);
        installed = λ j lo hi on. elim (ℕ_discrete j tail) [
          | yes same ↦ rw same (
              w.disk_kept to (λ i lo' hi' e'. absurd (omega (arith, differ tail i lt hi' e')))
              ∙ ap (λ c. c to) u.1
              ∙ copy-disk_self to from d (omega arith))
          | no other ↦
              w.installed j (omega arith) hi (omega (arith, pw))
              ∙ ap (λ c. c (l.start + j + 1)) u.0
              ∙ copy-cache_ne to from d (l.start + j + 1) (omega (arith, home tail lt))
        ];
      }

-- With no power the loop changes nothing on the disk.
pub install_loop-off :
    (recovering : Bool) (l : Log) (k tail : ℕ) (d : Device)
    → d.power ≡ 0
    → ((install_loop recovering l k tail d).disk ≡ d.disk)
      × ((install_loop recovering l k tail d).power ≡ 0)
unfolding install_loop
install_loop-off recovering l zero tail d off = (refl, off)
install_loop-off recovering l (suc k) tail d off =
    let d1 = copy_block (l.block tail) (l.start + tail + 1) d in
    let d2 = unpin l l.n recovering (l.block tail) d1 in
    let u = unpin-same l l.n recovering (l.block tail) d1 in
    let pw : d2.power ≡ 0 = u.2 ∙ copy-power (l.block tail) _ d ∙ ap (λ k. k - 1) off in
    let rest = install_loop-off recovering l k (suc tail) d2 pw in
    (rest.0 ∙ u.1 ∙ copy-disk_off (l.block tail) _ d off, rest.1)

-- The header's buffer after `write_head`, word by word.
pub fill_head-word :
    (block : ℕ → ℕ) (k i : ℕ) (hb : Block) (w : ℕ)
    → fill_head block k i hb w ≡ (if ltb i w && leb w (i + k) then block (w - 1) else hb w)
unfolding fill_head
fill_head-word block zero i hb w = ground arith
fill_head-word block (suc k) i hb w =
    ground (arith, fill_head-word block k (suc i) (update hb (i + 1) (block i)) w)

pub read_blocks-at :
    (lh : Block) (k i : ℕ) (block : ℕ → ℕ) (j : ℕ)
    → read_blocks lh k i block j ≡ (if leb i j && ltb j (i + k) then lh (j + 1) else block j)
unfolding read_blocks
read_blocks-at lh zero i block j = ground arith
read_blocks-at lh (suc k) i block j =
    ground (arith, read_blocks-at lh k (suc i) (update block i (lh (i + 1))) j)
