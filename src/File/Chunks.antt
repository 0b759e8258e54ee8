-- ===== src/File/Chunks.antt =====
-- `filewrite` of file.c cuts a write into transactions that the log has room for.
use team.Common.{
  ℕ, zero, suc, ◌+◌, ◌-◌, ◌≤◌, ◌<◌, ◌≡◌, true, Option, none, some, ◌==◌, if◌then◌else◌, ltb, arith,
  ◌⊎◌, inl, inr, Bool-cases, Option-cases,
}
use team.Common.Outcome.{done}
use team.File.{File, Io, fd_inode, max_chunk, write_chunk, write_chunks, filewrite}

module _ (io : Io) (addr n : ℕ) where
  open io use {State}

  -- What holds before the first transaction and is kept by each transaction of at most `max_chunk`
  -- bytes of the buffer.
  abbrev pub Keeps : (File → State → Type 0) → Type 0
  Keeps inv =
      (i n1 : ℕ) (f : File) (s : State)
      → 0 < n1
      → n1 ≤ max_chunk
      → i + n1 ≤ n
      → inv f s
      → let (r, f1, s1) = write_chunk io addr i n1 f s in inv f1 s1

  write_chunks-Keeps :
      (inv : File → State → Type 0)
      → Keeps inv
      → (k i : ℕ) (f : File) (s : State) → n < i + k
      → i ≤ n
      → inv f s
      → (i' : ℕ) × (f' : File) × (s' : State) × (write_chunks io k addr n i f s ≡ some (i', f', s'))
        × (i' ≤ n)
        × inv f' s'
  unfolding write_chunks
  write_chunks-Keeps inv keeps zero i f s fuel le h = absurd (omega arith)
  write_chunks-Keeps inv keeps (suc k) i f s fuel le h = elim (Bool-cases (ltb i n)) [
    | inr over ↦ (i, f, s, rw over, le, h)
    | inl more ↦
        let n1 : ℕ = if ltb max_chunk (n - i) then max_chunk else n - i in
        let (r, f1, s1) = write_chunk io addr i n1 f s in
        let h1 : inv f1 s1 = keeps i n1 f s (ground arith) (ground arith) (ground arith) h in
        elim (Option-cases r) [
          | inl failed ↦ (i, f1, s1, rw (more, failed), le, h1)
          | inr (w, e) ↦ elim (Bool-cases (w == n1)) [
            | inr short ↦ (i, f1, s1, rw (more, e, short), le, h1)
            | inl full ↦
                let (i', f', s', eq, le', h') =
                  write_chunks-Keeps inv keeps k (i + n1) f1 s1 (ground arith) (ground arith) h1 in
                (i', f', s', rw (more, e, full) eq, le', h')
          ]
        ]
  ]

  -- `filewrite` of `n` bytes to an inode that is open for writing ends, with `n` or -1, and runs
  -- nothing but transactions of at most `max_chunk` bytes from the buffer: whatever every such
  -- transaction keeps true of the file and the state still holds.
  pub filewrite-Keeps :
      (inv : File → State → Type 0) (f : File) (s : State)
      → Keeps inv
      → f.writable ≡ true
      → f.type ≡ fd_inode
      → inv f s
      → (r : Option ℕ) × (f' : File) × (s' : State) × (filewrite io addr n f s
          ≡ some (done (r, f', s')))
        × ((r ≡ some n) ⊎ (r ≡ none))
        × inv f' s'
  unfolding filewrite
  filewrite-Keeps inv f s keeps writable inode h =
      let (i', f', s', eq, le, h') =
        write_chunks-Keeps inv keeps (n + 1) 0 f s (omega arith) (omega arith) h in
      (if i' == n then some n else none, f', s', rw (writable, inode, eq), ground arith, h')
