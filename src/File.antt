-- ===== src/File.antt =====
-- CLab/xv6/kernel/file.c: the table of open files, whose entries are shared and counted, and reads
-- and writes through them. A pointer to an entry is its index. What file.c calls in pipe.c, fs.c,
-- log.c and the devices is the interface `Io`; a result is `none` for -1. Sizes are those of an `int`
-- that is not negative. The sections under `ftable.lock` are single steps.
pub mod Counts
pub mod Chunks
mod Tests
use team.Common.{
  ℕ, zero, suc, ◌+◌, ◌-◌, ◌*◌, ◌/◌, ◌%◌, ◌^◌, Bool, true, false, Option, none, some, List, [], ◌∷◌,
  ◌==◌, ◌||◌, not, if◌then◌else◌, ltb, leb, get_elem?, set,
}
use team.Common.Outcome.{Outcome, done, panic, ◌>>=◌, ◌>>◌, panic_if}

-- The enumeration in `struct file`
pub data FileType : Type 0 where
  fd_none fd_pipe fd_inode fd_device : FileType

-- `struct file`; `pipe` and `ip` are addresses, `major` is a `short` as its 16-bit pattern.
pub record File : Type 0 where
  pub type : FileType
  pub ref : ℕ
  pub readable : Bool
  pub writable : Bool
  pub pipe : ℕ
  pub ip : ℕ
  pub off : ℕ
  pub major : ℕ

pub record Io : Type 1 where
  pub State : Type 0
  pub pipeclose : ℕ → Bool → State → State
  pub piperead : ℕ → ℕ → ℕ → State → Option ℕ × State
  pub pipewrite : ℕ → ℕ → ℕ → State → Option ℕ × State
  pub begin_op : State → State
  pub end_op : State → State
  pub iput : ℕ → State → State
  pub ilock : ℕ → State → State
  pub iunlock : ℕ → State → State
  -- The words of `struct stat`
  pub stati : ℕ → State → List ℕ
  pub copyout : ℕ → List ℕ → State → Bool × State
  pub readi : ℕ → ℕ → ℕ → ℕ → State → Option ℕ × State
  pub writei : ℕ → ℕ → ℕ → ℕ → State → Option ℕ × State
  -- `devsw[major]` has the function
  pub has_read : ℕ → Bool
  pub has_write : ℕ → Bool
  pub dev_read : ℕ → ℕ → ℕ → State → Option ℕ × State
  pub dev_write : ℕ → ℕ → ℕ → State → Option ℕ × State

abbrev pub ndev : ℕ
ndev = 10

-- `filealloc`: the first entry with no references, from index `i` on.
unfoldable pub find_free : ℕ → List File → Option ℕ
find_free i [] = none
find_free i (f ∷ fs) = let rest = find_free (suc i) fs in if f.ref == 0 then some i else rest

unfoldable pub filealloc : List File → Option (ℕ × List File)
filealloc fs = elim (find_free 0 fs) [
  | none ↦ none
  | some i ↦ elim (get_elem? fs i) [
    | none ↦ none
    | some f ↦ some (i, set fs i (record f { ref = 1 }))
  ]
]

unfoldable pub filedup : ℕ → List File → Outcome (List File)
filedup i fs = elim (get_elem? fs i) [
  | none ↦ panic
  | some f ↦ do panic_if (ltb f.ref 1); done (set fs i (record f { ref = f.ref + 1 }))
]

-- The most bytes that `filewrite` writes in one transaction.
abbrev pub max_chunk : ℕ
max_chunk = (10 - 1 - 1 - 2) / 2 * 1024

-- `f->off += r` for a result that is positive; `off` is a `uint`.
abbrev pub advance : File → Option ℕ → File
advance f none = f
advance f (some r) = record f { off = (f.off + r) % 2 ^ 32 }

module _ (io : Io) where
  open io use {
    State, pipeclose, piperead, pipewrite, begin_op, end_op, iput, ilock, iunlock, stati, copyout,
    readi, writei, has_read, has_write, dev_read, dev_write,
  }

  -- The end of `fileclose`, for the copy `ff` of an entry that was given up.
  unfoldable pub drop_file : File → State → State
  drop_file ff s = elim ff.type [
    | fd_none ↦ s
    | fd_pipe ↦ pipeclose ff.pipe ff.writable s
    | fd_inode ↦ end_op (iput ff.ip (begin_op s))
    | fd_device ↦ end_op (iput ff.ip (begin_op s))
  ]

  unfoldable pub fileclose : ℕ → List File → State → Outcome (List File × State)
  fileclose i fs s = elim (get_elem? fs i) [
    | none ↦ panic
    | some f ↦ do
      panic_if (ltb f.ref 1)
      done (
          if ltb 0 (f.ref - 1)
          then (set fs i (record f { ref = f.ref - 1 }), s)
          else (set fs i (record f { ref = 0; type = fd_none }), drop_file f s))
  ]

  unfoldable pub filestat : ℕ → File → State → Bool × State
  filestat addr f s =
      let locked = ilock f.ip s in
      let there = copyout addr (stati f.ip locked) (iunlock f.ip locked) in
      elim f.type [
        | fd_none ↦ (false, s)
        | fd_pipe ↦ (false, s)
        | fd_inode ↦ there
        | fd_device ↦ there
      ]

  unfoldable pub fileread : ℕ → ℕ → File → State → Outcome (Option ℕ × File × State)
  fileread addr n f s =
      let (piped, s1) = piperead f.pipe addr n s in
      let (from_device, s2) = dev_read f.major addr n s in
      let (r, s3) = readi f.ip addr f.off n (ilock f.ip s) in
      if not f.readable then done (none, f, s) else elim f.type [
        | fd_none ↦ panic
        | fd_pipe ↦ done (piped, f, s1)
        | fd_device ↦
            if leb ndev f.major || not (has_read f.major)
            then done (none, f, s)
            else done (from_device, f, s2)
        | fd_inode ↦ done (r, advance f r, iunlock f.ip s3)
      ]

  -- One transaction: `n1` bytes from `addr + i`.
  unfoldable pub write_chunk : ℕ → ℕ → ℕ → File → State → Option ℕ × File × State
  write_chunk addr i n1 f s =
      let (r, s1) = writei f.ip (addr + i) f.off n1 (ilock f.ip (begin_op s)) in
      (r, advance f r, end_op (iunlock f.ip s1))

  -- The loop, on fuel: the bytes written by whole chunks.
  unfoldable pub write_chunks : ℕ → ℕ → ℕ → ℕ → File → State → Option (ℕ × File × State)
  write_chunks zero addr n i f s = none
  write_chunks (suc k) addr n i f s =
      let n1 = if ltb max_chunk (n - i) then max_chunk else n - i in
      let (r, f1, s1) = write_chunk addr i n1 f s in
      let rest = write_chunks k addr n (i + n1) f1 s1 in
      if ltb i n
      then elim r [ none ↦ some (i, f1, s1) | some w ↦ if w == n1 then rest else some (i, f1, s1) ]
      else some (i, f, s)

  unfoldable pub filewrite : ℕ → ℕ → File → State → Option (Outcome (Option ℕ × File × State))
  filewrite addr n f s =
      let (piped, s1) = pipewrite f.pipe addr n s in
      let (to_device, s2) = dev_write f.major addr n s in
      let chunks = write_chunks (n + 1) addr n 0 f s in
      if not f.writable then some (done (none, f, s)) else elim f.type [
        | fd_none ↦ some panic
        | fd_pipe ↦ some (done (piped, f, s1))
        | fd_device ↦
            if leb ndev f.major || not (has_write f.major)
            then some (done (none, f, s))
            else some (done (to_device, f, s2))
        | fd_inode ↦ elim chunks [
          | none ↦ none
          | some (i, f1, s3) ↦ some (done (if i == n then some n else none, f1, s3))
        ]
      ]
