-- ===== src/Inode.antt =====
-- The table of inodes in memory of CLab/xv6/kernel/fs.c: `iget`, `idup`, `ilock`, `iunlock` and
-- `iput`. A pointer to an entry is its index. What they ask of the blocks on disk, `itrunc` and
-- `iupdate` included, is the interface `Disk`. The sections under `itable.lock` are single steps.
pub mod Table
mod Tests
use team.Common.{
  ℕ, zero, suc, ◌+◌, ◌-◌, ◌^◌, ◌%◌, Bool, true, false, Option, none, some, List, [], ◌∷◌, ◌==◌,
  ◌&&◌, ◌||◌, not, if◌then◌else◌, ltb, get_elem?, set,
}
use team.Common.Outcome.{Outcome, done, panic, ◌>>=◌, ◌>>◌, panic_if}
use team.Lock.{Sleeplock, acquiresleep, releasesleep, holdingsleep}

-- `struct dinode`
pub record Dinode : Type 0 where
  pub type : ℕ
  pub major : ℕ
  pub minor : ℕ
  pub nlink : ℕ
  pub size : ℕ
  pub addrs : List ℕ

-- `struct inode`, with the copy of the inode on disk in `copy`
pub record Inode : Type 0 where
  pub dev : ℕ
  pub inum : ℕ
  pub ref : ℕ
  pub lock : Sleeplock
  pub valid : Bool
  pub copy : Dinode

pub record Disk : Type 1 where
  pub State : Type 0
  -- `bread` of the block and the entry in it
  pub dinode : ℕ → ℕ → State → Dinode
  pub itrunc : Inode → State → Inode × State
  pub iupdate : Inode → State → State

-- The entry holds the inode, and is in use.
abbrev pub holds : ℕ → ℕ → Inode → Bool
holds dev inum ip = ltb 0 ip.ref && ip.dev == dev && ip.inum == inum

pub data Scan : Type 0 where
  cached : ℕ → Scan
  missing : Option ℕ → Scan

-- `empty`, remembered once
abbrev pub remember : Option ℕ → ℕ → Inode → Option ℕ
remember (some e) i ip = some e
remember none i ip = if ip.ref == 0 then some i else none

-- The loop of `iget`, from the entry `i` on.
unfoldable pub scan : ℕ → ℕ → ℕ → Option ℕ → List Inode → Scan
scan dev inum i empty [] = missing empty
scan dev inum i empty (ip ∷ ips) =
    let rest = scan dev inum (suc i) (remember empty i ip) ips in
    if holds dev inum ip then cached i else rest

unfoldable pub iget : ℕ → ℕ → List Inode → Outcome (ℕ × List Inode)
iget dev inum t = elim (scan dev inum 0 none t) [
  | missing none ↦ panic
  | missing (some i) ↦ elim (get_elem? t i) [
    | none ↦ panic
    | some ip ↦ done (i, set t i (record ip { dev = dev; inum = inum; ref = 1; valid = false }))
  ]
  | cached i ↦ elim (get_elem? t i) [
    | none ↦ panic
    | some ip ↦ done (i, set t i (record ip { ref = ip.ref + 1 }))
  ]
]

unfoldable pub idup : ℕ → List Inode → Outcome (List Inode)
idup i t = elim (get_elem? t i) [
  | none ↦ panic
  | some ip ↦ done (set t i (record ip { ref = ip.ref + 1 }))
]

unfoldable pub iunlock : ℕ → Inode → Outcome Inode
iunlock pid ip = do
  panic_if (not (holdingsleep pid ip.lock) || ltb ip.ref 1)
  done (record ip { lock = releasesleep ip.lock })

module _ (disk : Disk) where
  open disk use {State, dinode, itrunc, iupdate}

  -- `ilock` by the process `pid`; `none` where it sleeps.
  unfoldable pub ilock : ℕ → Inode → State → Outcome (Option Inode)
  ilock pid ip s = do
    panic_if (ltb ip.ref 1)
    let read = dinode ip.dev ip.inum s
    elim (acquiresleep pid ip.lock) [
      | none ↦ done none
      | some lk ↦
          if ip.valid
          then done (some (record ip { lock = lk }))
          else if read.type == 0
          then panic
          else done (some (record ip { lock = lk; copy = read; valid = true }))
    ]

  -- `iput` of an entry by the process `pid`; `none` where it sleeps.
  unfoldable pub iput : ℕ → Inode → State → Option (Inode × State)
  iput pid ip s =
      if ip.ref == 1 && ip.valid && ip.copy.nlink == 0
      then elim (acquiresleep pid ip.lock) [
        | none ↦ none
        | some lk ↦
            let (cut, s1) = itrunc (record ip { lock = lk }) s in
            let gone : Inode = record cut { copy = record cut.copy { type = 0 } } in
            let s2 = iupdate gone s1 in
            some
              (record gone { valid = false; lock = releasesleep gone.lock; ref = gone.ref - 1 }, s2)
      ]
      else some (record ip { ref = ip.ref - 1 }, s)
