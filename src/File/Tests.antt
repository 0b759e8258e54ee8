-- ===== src/File/Tests.antt =====
-- Two files, over a system that counts the bytes written.
use team.Common.{
  ℕ, zero, suc, ◌+◌, ◌<◌, ◌≡◌, refl, ◌≢◌, ◌⊎◌, true, false, Option, none, some, List, [], ◌∷◌,
  arith, get_elem?, ap, some-eq, sym,
}
use team.Common.Outcome.{done, panic}
use team.File.{
  File, Io, FileType, fd_none, fd_inode, find_free, filealloc, filedup, fileclose, write_chunk,
  filewrite,
}
use team.File.Counts.{count, System, Reach, here, next, opens, Counted, counts_exact}
use team.File.Chunks.{filewrite-Keeps}

abbrev counter : Io
counter = record {
  State = ℕ;
  pipeclose = λ pi w s. s;
  piperead = λ pi addr n s. (some n, s);
  pipewrite = λ pi addr n s. (some n, s);
  begin_op = λ s. s;
  end_op = λ s. s;
  iput = λ ip s. s;
  ilock = λ ip s. s;
  iunlock = λ ip s. s;
  stati = λ ip s. [];
  copyout = λ addr st s. (true, s);
  readi = λ ip addr off n s. (some n, s);
  writei = λ ip addr off n s. (some n, s + n);
  has_read = λ m. false;
  has_write = λ m. false;
  dev_read = λ m addr n s. (some n, s);
  dev_write = λ m addr n s. (some n, s);
}

abbrev file : FileType → ℕ → File
file type ref = record {
  type = type;
  ref = ref;
  readable = true;
  writable = true;
  pipe = 0;
  ip = 8;
  off = 0;
  major = 0;
}

abbrev two_files : List File
two_files = file fd_inode 1 ∷ file fd_none 0 ∷ []

abbrev before : System counter
before = record { table = two_files; held = 0 ∷ []; state = 7 }

abbrev after : System counter
after = record { table = file fd_inode 1 ∷ file fd_none 1 ∷ []; held = 1 ∷ 0 ∷ []; state = 7 }

opened : Reach counter before after
unfolding filealloc find_free
opened = next here (opens 1 refl)

two_files-Counted : Counted two_files (0 ∷ [])
unfolding count
two_files-Counted = record { exact = exact_at; known = known_at }
  where
    exact_at : (i : ℕ) (f : File) → get_elem? two_files i ≡ some f → f.ref ≡ count i (0 ∷ [])
    exact_at zero f at = ap (λ (x : File). x.ref) (sym (some-eq at))
    exact_at (suc zero) f at = ap (λ (x : File). x.ref) (sym (some-eq at))
    exact_at (suc (suc i)) f at = cc

    known_at : (i : ℕ) → 0 < count i (0 ∷ []) → (f : File) × (get_elem? two_files i ≡ some f)
    known_at zero pos = (file fd_inode 1, refl)
    known_at (suc i) pos = absurd (ground arith)

counts_exact_example :
    ((i : ℕ) (f : File) → get_elem? after.table i ≡ some f → f.ref ≡ count i after.held)
    × ((i : ℕ)
        → 0 < count i after.held
        → (filedup i after.table ≢ panic) × (fileclose counter i after.table 7 ≢ panic))
counts_exact_example = counts_exact two_files-Counted opened

-- The transactions keep the file's inode.
filewrite-Keeps_example :
    (r : Option ℕ) × (f' : File) × (s' : ℕ) × (filewrite counter 100 5000 (file fd_inode 1) 0
      ≡ some (done (r, f', s')))
    × ((r ≡ some 5000) ⊎ (r ≡ none))
    × (f'.ip ≡ 8)
unfolding write_chunk
filewrite-Keeps_example =
    filewrite-Keeps counter 100 5000 (λ f s. f.ip ≡ 8) (file fd_inode 1) 0
      (λ i n1 f s pos small inside h. h) refl refl refl
