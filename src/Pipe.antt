-- ===== src/Pipe.antt =====
-- CLab/xv6/kernel/pipe.c: a ring of PIPESIZE bytes between two counters of type `uint`, which wrap
-- at 2 ^ 32. A call runs under `pi->lock` until it returns or sleeps; a call that slept goes on at
-- the top of its loop, with the pipe as others left it. User memory is a parameter: `copyin a` is
-- the byte at the address `a`, `none` where the copy fails, and `copyout a` says whether a byte can
-- be stored there. `wakeups` records the wake-up calls, in order.
pub mod Contents
pub mod Write
pub mod Read
mod Tests
use team.Common.{
  ℕ, zero, suc, ◌+◌, ◌-◌, ◌%◌, ◌^◌, Bool, true, false, Option, none, some, List, [], ◌∷◌, ◌++◌,
  ◌==◌, ◌&&◌, ◌||◌, not, if◌then◌else◌,
}
use team.Common.Family.{update}

abbrev pub pipesize : ℕ
pipesize = 512

-- The two channels on which processes sleep.
pub data Chan : Type 0 where
  nread_chan nwrite_chan : Chan

-- `struct pipe`
pub record Pipe : Type 0 where
  pub buf : ℕ → ℕ
  pub nread : ℕ
  pub nwrite : ℕ
  pub readopen : Bool
  pub writeopen : Bool
  pub wakeups : List Chan

-- `uint` addition
abbrev pub add_uint : ℕ → ℕ → ℕ
add_uint a b = (a + b) % 2 ^ 32

abbrev pub wake : Chan → Pipe → Pipe
wake c p = record p { wakeups = p.wakeups ++ c ∷ [] }

-- The pipe that `pipealloc` sets up; the storage is not initialised.
unfoldable pub fresh : (ℕ → ℕ) → Pipe
fresh buf = record {
  buf = buf;
  nread = 0;
  nwrite = 0;
  readopen = true;
  writeopen = true;
  wakeups = [];
}

-- `pipeclose`; true if the pipe is freed.
unfoldable pub pipeclose : Bool → Pipe → Bool × Pipe
pipeclose writable p =
    let q =
      if writable
      then wake nread_chan (record p { writeopen = false })
      else wake nwrite_chan (record p { readopen = false }) in
    (not q.readopen && not q.writeopen, q)

-- How a call ends: it returns a count, or -1, or sleeps having moved `i` bytes.
pub data Ended : Type 0 where
  returned : ℕ → Ended
  failed : Ended
  asleep : ℕ → Ended

-- `pi->data[pi->nwrite++ % PIPESIZE] = ch`
unfoldable pub put_byte : ℕ → Pipe → Pipe
put_byte ch p = record p {
  buf = update p.buf (p.nwrite % pipesize) ch;
  nwrite = add_uint p.nwrite 1;
}

-- `ch = pi->data[pi->nread++ % PIPESIZE]`
unfoldable pub get_byte : Pipe → ℕ × Pipe
get_byte p = (p.buf (p.nread % pipesize), record p { nread = add_uint p.nread 1 })

unfoldable pub is_full : Pipe → Bool
is_full p = p.nwrite == add_uint p.nread pipesize

-- `killed i` is what `killed(pr)` reads, under another lock, in the round that begins with `i` bytes
-- moved: the process may be killed between two rounds.
module _ (killed : ℕ → Bool) (copyin : ℕ → Option ℕ) (addr : ℕ) where
  -- The loop of `pipewrite` with `k` bytes left, of which the next is byte `i`.
  unfoldable pub write_loop : ℕ → ℕ → Pipe → Ended × Pipe
  write_loop zero i p = (returned i, wake nread_chan p)
  write_loop (suc k) i p =
      let ready = copyin (addr + i) in
      if not p.readopen || killed i
      then (failed, p)
      else if is_full p
      then (asleep i, wake nread_chan p)
      else elim ready [
        | none ↦ (returned i, wake nread_chan p)
        | some ch ↦ write_loop k (suc i) (put_byte ch p)
      ]

  -- `pipewrite(pi, addr, n)`
  unfoldable pub pipewrite : ℕ → Pipe → Ended × Pipe
  pipewrite n p = write_loop n 0 p

-- The bytes that a read stores, in order, are given beside its result.
module _ (killed : Bool) (copyout : ℕ → Bool) (addr : ℕ) where
  -- The `for` loop of `piperead`, with `k` rounds left. A byte whose copy fails is lost.
  unfoldable pub read_loop : ℕ → ℕ → Pipe → ℕ × List ℕ × Pipe
  read_loop zero i p = (i, [], p)
  read_loop (suc k) i p =
      let (ch, q) = get_byte p in
      let (i', out, r) = read_loop k (suc i) q in
      if p.nread == p.nwrite
      then (i, [], p)
      else if copyout (addr + i)
      then (i', ch ∷ out, r)
      else (i, [], q)

  -- `piperead(pi, addr, n)`
  unfoldable pub piperead : ℕ → Pipe → Ended × List ℕ × Pipe
  piperead n p =
      if p.nread == p.nwrite && p.writeopen
      then (if killed then (failed, [], p) else (asleep 0, [], p))
      else (let (i, out, q) = read_loop n 0 p in (returned i, out, wake nwrite_chan q))
