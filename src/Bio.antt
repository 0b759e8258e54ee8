-- ===== src/Bio.antt =====
-- CLab/xv6/kernel/bio.c: the buffer cache, a doubly linked ring of buffers around `head` with the
-- one used last in front. A pointer to a buffer is its number, and `head` has the number NBUF. The
-- sections under `bcache.lock` are single steps; the sleep lock of a buffer is modelled in Lock, and
-- here the test of `holdingsleep` is an argument. `bpin` and `bunpin` are in Log.
pub mod Ring
pub mod Moves
pub mod Lru
pub mod Unique
mod Tests
use team.Common.{
  ℕ, zero, suc, ◌+◌, ◌-◌, ◌%◌, ◌^◌, Bool, true, false, Option, none, some, ◌==◌, ◌&&◌,
  if◌then◌else◌, not,
}
use team.Common.Outcome.{Outcome, done, panic, ◌>>=◌, ◌>>◌, panic_if}
use team.Common.Family.{update}

abbrev pub nbuf : ℕ
nbuf = 30

abbrev pub head : ℕ
head = nbuf

-- `struct buf`
pub record Buf (Block : Type 0) : Type 0 where
  pub valid : Bool
  pub dev : ℕ
  pub blockno : ℕ
  pub refcnt : ℕ
  pub contents : Block

-- `bcache`, and the disk: block `b` of device `d` is `disk d b`.
pub record Bcache (Block : Type 0) : Type 0 where
  pub next : ℕ → ℕ
  pub prev : ℕ → ℕ
  pub buf : ℕ → Buf Block
  pub disk : ℕ → ℕ → Block

module _ {Block : Type 0} where
  -- `b` is put behind `head`.
  unfoldable pub push_front : ℕ → Bcache Block → Bcache Block
  push_front b c =
      let next1 = update c.next b (c.next head) in
      let prev1 = update c.prev b head in
      let prev2 = update prev1 (next1 head) b in
      record c { next = update next1 head b; prev = prev2 }

  -- The loop of `binit` over the buffers from `b` on.
  unfoldable pub init_loop : ℕ → ℕ → Bcache Block → Bcache Block
  init_loop zero b c = c
  init_loop (suc k) b c = init_loop k (suc b) (push_front b c)

  unfoldable pub binit : Bcache Block → Bcache Block
  binit c =
      init_loop nbuf 0 (record c { next = update c.next head head; prev = update c.prev head head })

  abbrev pub is_block : ℕ → ℕ → Buf Block → Bool
  is_block dev blockno x = x.dev == dev && x.blockno == blockno

  -- The first loop of `bget`, on fuel: the buffer, or none at the end of the ring.
  unfoldable pub find_cached : ℕ → ℕ → ℕ → ℕ → Bcache Block → Option (Option ℕ)
  find_cached zero dev blockno b c = none
  find_cached (suc f) dev blockno b c =
      let rest = find_cached f dev blockno (c.next b) c in
      if b == head
      then some none
      else if is_block dev blockno (c.buf b)
      then some (some b)
      else rest

  -- The second loop of `bget`, on fuel.
  unfoldable pub find_unused : ℕ → ℕ → Bcache Block → Option (Option ℕ)
  find_unused zero b c = none
  find_unused (suc f) b c =
      let rest = find_unused f (c.prev b) c in
      if b == head then some none else if (c.buf b).refcnt == 0 then some (some b) else rest

  abbrev pub count_up : ℕ → Bcache Block → Bcache Block
  count_up b c = record c {
    buf = update c.buf b (record (c.buf b) { refcnt = ((c.buf b).refcnt + 1) % 2 ^ 32 });
  }

  abbrev pub recycle : ℕ → ℕ → ℕ → Bcache Block → Bcache Block
  recycle b dev blockno c = record c {
    buf =
        update c.buf b
          (record (c.buf b) { dev = dev; blockno = blockno; valid = false; refcnt = 1 });
  }

  -- `bget` up to the wait for the buffer's lock
  unfoldable pub bget : ℕ → ℕ → Bcache Block → Option (Outcome (ℕ × Bcache Block))
  bget dev blockno c = elim (find_cached (nbuf + 1) dev blockno (c.next head) c) [
    | none ↦ none
    | some (some b) ↦ some (done (b, count_up b c))
    | some none ↦ elim (find_unused (nbuf + 1) (c.prev head) c) [
      | none ↦ none
      | some (some b) ↦ some (done (b, recycle b dev blockno c))
      | some none ↦ some panic
    ]
  ]

  -- `bread` behind `bget`
  unfoldable pub fill_buffer : ℕ → Bcache Block → Bcache Block
  fill_buffer b c =
      let x = c.buf b in
      if x.valid then c else record c {
        buf = update c.buf b (record x { contents = c.disk x.dev x.blockno; valid = true });
      }

  unfoldable pub bread : ℕ → ℕ → Bcache Block → Option (Outcome (ℕ × Bcache Block))
  bread dev blockno c = elim (bget dev blockno c) [
    | none ↦ none
    | some panic ↦ some panic
    | some (done (b, c1)) ↦ some (done (b, fill_buffer b c1))
  ]

  unfoldable pub bwrite : Bool → ℕ → Bcache Block → Outcome (Bcache Block)
  bwrite holding b c = do
    panic_if (not holding)
    let x = c.buf b
    done (record c { disk = update c.disk x.dev (update (c.disk x.dev) x.blockno x.contents) })

  -- `b` is taken out of the ring.
  unfoldable pub unlink : ℕ → Bcache Block → Bcache Block
  unlink b c =
      let prev1 = update c.prev (c.next b) (c.prev b) in
      record c { prev = prev1; next = update c.next (prev1 b) (c.next b) }

  -- `brelse` behind the release of the buffer's lock
  unfoldable pub drop_ref : ℕ → Bcache Block → Bcache Block
  unfolding unlink push_front
  drop_ref b c =
      let x : Buf Block = record (c.buf b) {
        refcnt = ((c.buf b).refcnt + (2 ^ 32 - 1)) % 2 ^ 32;
      } in
      let c1 : Bcache Block = record c { buf = update c.buf b x } in
      if x.refcnt == 0 then push_front b (unlink b c1) else c1

  unfoldable pub brelse : Bool → ℕ → Bcache Block → Outcome (Bcache Block)
  brelse holding b c = do panic_if (not holding); done (drop_ref b c)
