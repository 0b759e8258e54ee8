-- ===== src/Log.antt =====
-- CLab/xv6/kernel/log.c over a disk that may lose power. A block is a function of the word index
-- (256 words of 32 bits). `Device` is what log.c sees of bio.c and the disk: `cache b` is the
-- contents that `bread` gives for block `b`, `bwrite` copies them to `disk` while there is power,
-- and one write of a block is atomic, as log.c assumes of the header. `power` counts the writes
-- that still reach the disk: a run with power `p` leaves the disk as a crash after `p` writes does.
-- The sections under `log.lock` are single steps; `sleep` is a result, and the wait goes on at the
-- top of the loop.
pub mod Loops
pub mod Recover
pub mod Crash
pub mod Space
pub mod Pending
mod Tests
use team.Common.{
  ℕ, zero, suc, ◌+◌, ◌-◌, ◌*◌, ◌%◌, ◌^◌, Bool, true, false, ◌==◌, ◌||◌, if◌then◌else◌, ltb, leb,
}
use team.Common.Outcome.{Outcome, done, panic, ◌>>=◌, ◌>>◌, panic_if}
use team.Common.Family.{update}

abbrev pub Block : Type 0
Block = ℕ → ℕ

pub record Device : Type 0 where
  pub disk : ℕ → Block
  pub cache : ℕ → Block
  pub pins : ℕ → ℕ
  pub power : ℕ

-- `struct log`, with `n` and `block` of its `struct logheader lh`.
pub record Log : Type 0 where
  pub start : ℕ
  pub size : ℕ
  pub outstanding : ℕ
  pub committing : Bool
  pub n : ℕ
  pub block : ℕ → ℕ
  pub wakeups : ℕ

abbrev pub maxopblocks : ℕ
maxopblocks = 10

abbrev pub logsize : ℕ
logsize = 30

-- `bwrite` of the buffer that caches block `b`
unfoldable pub bwrite : ℕ → Device → Device
bwrite b d =
    if d.power == 0 then d else record d { disk = update d.disk b (d.cache b); power = d.power - 1 }

-- `memmove(to->data, from->data, BSIZE); bwrite(to);` for the buffers of two blocks
unfoldable pub copy_block : ℕ → ℕ → Device → Device
unfolding bwrite
copy_block to from d = bwrite to (record d { cache = update d.cache to (d.cache from) })

-- `bunpin`: the count of an `unsigned int` wraps below 0.
unfoldable pub bunpin : ℕ → Device → Device
bunpin b d = record d { pins = update d.pins b ((d.pins b + 2 ^ 32 - 1) % 2 ^ 32) }

unfoldable pub bpin : ℕ → Device → Device
bpin b d = record d { pins = update d.pins b ((d.pins b + 1) % 2 ^ 32) }

-- The loops run over `tail`, with `k` rounds left.
unfoldable pub install_loop : Bool → Log → ℕ → ℕ → Device → Device
install_loop recovering l zero tail d = d
install_loop recovering l (suc k) tail d =
    let d1 = copy_block (l.block tail) (l.start + tail + 1) d in
    install_loop recovering l k (suc tail) (if recovering then d1 else bunpin (l.block tail) d1)

unfoldable pub install_trans : Bool → Log → Device → Device
install_trans recovering l d = install_loop recovering l l.n 0 d

-- The copy of the block numbers into the header's buffer, and out of it.
unfoldable pub fill_head : (ℕ → ℕ) → ℕ → ℕ → Block → Block
fill_head block zero i hb = hb
fill_head block (suc k) i hb = fill_head block k (suc i) (update hb (i + 1) (block i))

unfoldable pub read_blocks : Block → ℕ → ℕ → (ℕ → ℕ) → ℕ → ℕ
read_blocks lh zero i block = block
read_blocks lh (suc k) i block = read_blocks lh k (suc i) (update block i (lh (i + 1)))

unfoldable pub read_head : Log → Device → Log
read_head l d =
    let lh = d.cache l.start in record l { n = lh 0; block = read_blocks lh (lh 0) 0 l.block }

unfoldable pub write_head : Log → Device → Device
write_head l d =
    let hb = fill_head l.block l.n 0 (update (d.cache l.start) 0 l.n) in
    bwrite l.start (record d { cache = update d.cache l.start hb })

unfoldable pub recover_from_log : Log → Device → Log × Device
recover_from_log l d =
    let l1 = read_head l d in
    let d1 = install_trans true l1 d in let l2 : Log = record l1 { n = 0 } in (l2, write_head l2 d1)

unfoldable pub write_log_loop : Log → ℕ → ℕ → Device → Device
write_log_loop l zero tail d = d
write_log_loop l (suc k) tail d =
    write_log_loop l k (suc tail) (copy_block (l.start + tail + 1) (l.block tail) d)

unfoldable pub write_log : Log → Device → Device
write_log l d = write_log_loop l l.n 0 d

unfoldable pub commit : Log → Device → Log × Device
commit l d =
    if ltb 0 l.n
    then (let d1 = write_head l (write_log l d) in
        let l2 : Log = record l { n = 0 } in (l2, write_head l2 (install_trans false l d1)))
    else (l, d)

-- `initlog`: the header of 31 words fits a block, so the first check never fires.
unfoldable pub initlog : (logstart nlog : ℕ) → Log → Device → Log × Device
initlog logstart nlog l d = recover_from_log (record l { start = logstart; size = nlog }) d

-- One turn of the loop of `begin_op`.
pub data Begun : Type 0 where
  admitted : Log → Begun
  sleeps : Begun

unfoldable pub begin_op : Log → Begun
begin_op l =
    if l.committing
    then sleeps
    else if ltb logsize (l.n + (l.outstanding + 1) * maxopblocks)
    then sleeps
    else admitted (record l { outstanding = l.outstanding + 1 })

-- `end_op`. `outstanding -= 1` is on a 32-bit `int`; `wakeup(&log)` is counted.
unfoldable pub end_op : Log → Device → Outcome (Log × Device)
end_op l d = do
  let out = (l.outstanding + 2 ^ 32 - 1) % 2 ^ 32
  panic_if l.committing
  done (
      if out == 0
      then (let (l', d') = commit (record l { outstanding = out; committing = true }) d in
          (record l' { committing = false; wakeups = l'.wakeups + 1 }, d'))
      else (record l { outstanding = out; wakeups = l.wakeups + 1 }, d))

-- The search of `log_write`: the first index below `i + k`, from `i` on, that holds `b`, else `i + k`.
unfoldable pub find_block : (ℕ → ℕ) → ℕ → ℕ → ℕ → ℕ
find_block block b zero i = i
find_block block b (suc k) i =
    let rest = find_block block b k (suc i) in if block i == b then i else rest

unfoldable pub log_write : ℕ → Log → Device → Outcome (Log × Device)
log_write b l d = do
  panic_if (leb logsize l.n || leb (l.size - 1) l.n)
  panic_if (l.outstanding == 0 || leb (2 ^ 31) l.outstanding)
  let i = find_block l.block b l.n 0
  let l1 : Log = record l { block = update l.block i b }
  done (if i == l.n then (record l1 { n = l.n + 1 }, bpin b d) else (l1, d))
