-- ===== src/Fs.antt =====
-- The blocks of CLab/xv6/kernel/fs.c: the superblock, and the free map with `bzero`, `balloc` and
-- `bfree`. `Store` is what fs.c sees of bio.c and log.c: `byte b i` is byte `i` of block `b` as
-- `bread` gives it, and `logged` lists the blocks passed to `log_write`, the last one first.
pub mod Bits
pub mod FreeMap
pub mod Balloc
mod Tests
use Prim.Native.Nat.{bit_and, bit_or}
use team.Common.{
  ℕ, zero, suc, ◌+◌, ◌*◌, ◌-◌, ◌/◌, ◌%◌, ◌^◌, Bool, true, false, Option, none, some, List, [], ◌∷◌,
  ◌==◌, if◌then◌else◌, ltb, not,
}
use team.Common.Outcome.{Outcome, done, panic, ◌>>=◌, ◌>>◌, panic_if}
use team.Common.Family.{update}

-- `struct superblock`
pub record Superblock : Type 0 where
  pub magic : ℕ
  pub size : ℕ
  pub nblocks : ℕ
  pub ninodes : ℕ
  pub nlog : ℕ
  pub logstart : ℕ
  pub inodestart : ℕ
  pub bmapstart : ℕ

pub record Store : Type 0 where
  pub byte : ℕ → ℕ → ℕ
  pub logged : List ℕ

-- BPB, bits of a bitmap block
abbrev pub bpb : ℕ
bpb = 1024 * 8

-- BBLOCK
abbrev pub bblock : Superblock → ℕ → ℕ
bblock sb b = b / bpb + sb.bmapstart

-- `bp->data[i] = v` in the buffer of block `b`, then `log_write(bp)`
unfoldable pub write_byte : ℕ → ℕ → ℕ → Store → Store
write_byte b i v s = record {
  byte = update s.byte b (update (s.byte b) i v);
  logged = b ∷ s.logged;
}

unfoldable pub bzero : ℕ → Store → Store
bzero b s = record { byte = update s.byte b (λ _. 0); logged = b ∷ s.logged }

-- `(bp->data[bi/8] & m) == 0` with `m = 1 << (bi % 8)`
abbrev pub is_clear : ℕ → ℕ → Bool
is_clear v bi = bit_and v (2 ^ (bi % 8)) == 0

-- Bit `bi` of the bitmap block `block` says that a disk block is free.
abbrev pub is_free : ℕ → ℕ → Store → Bool
is_free block bi s = is_clear (s.byte block (bi / 8)) bi

-- The inner loop of `balloc` in the bitmap block of `b`, with `k` bits left.
unfoldable pub scan_bits : Superblock → Store → ℕ → ℕ → ℕ → Option ℕ
scan_bits sb s b zero bi = none
scan_bits sb s b (suc k) bi =
    let rest = scan_bits sb s b k (suc bi) in
    if ltb (b + bi) sb.size then (if is_free (bblock sb b) bi s then some bi else rest) else none

-- What `balloc` does at the free bit: `data[bi/8] |= m`, and the block is cleared.
unfoldable pub claim : Superblock → ℕ → ℕ → Store → Store
claim sb b bi s =
    let block = bblock sb b in
    bzero (b + bi) (write_byte block (bi / 8) (bit_or (s.byte block (bi / 8)) (2 ^ (bi % 8))) s)

-- The outer loop, on fuel; 0 if there is no free block.
unfoldable pub balloc_loop : Superblock → ℕ → ℕ → Store → Option (ℕ × Store)
balloc_loop sb zero b s = none
balloc_loop sb (suc f) b s =
    let rest = balloc_loop sb f (b + bpb) s in
    if ltb b sb.size
    then elim (scan_bits sb s b bpb 0) [ none ↦ rest | some bi ↦ some (b + bi, claim sb b bi s) ]
    else some (0, s)

unfoldable pub balloc : Superblock → Store → Option (ℕ × Store)
balloc sb s = balloc_loop sb (sb.size / bpb + 2) 0 s

-- `data[bi/8] &= ~m`, on a byte
unfoldable pub bfree : Superblock → ℕ → Store → Outcome Store
bfree sb b s = do
  let block = bblock sb b
  let bi = b % bpb
  panic_if (is_free block bi s)
  done (write_byte block (bi / 8) (bit_and (s.byte block (bi / 8)) (255 - 2 ^ (bi % 8))) s)
