-- ===== src/Log/Pending.antt =====
-- How file-system calls make a log ready to be committed: they change a block in the cache and pass
-- it to `log_write`.
use team.Common.{
  ℕ, zero, suc, ◌+◌, ◌≤◌, ◌<◌, ◌≡◌, ◌≢◌, sym, ◌∙◌, ◌⊎◌, inl, inr, arith, ◌==◌, Bool-cases,
  ℕ_discrete,
}
use team.Common.Outcome.{done}
use team.Common.Family.{update, update_self, update_ne}
use team.Log.{Block, Device, Log, find_block, log_write, bpin}
use team.Log.Loops.{Outside, AllDistinct}
use team.Log.Recover.{Ready}

-- A block outside the whole log.
abbrev pub Beyond : Log → ℕ → Type 0
Beyond l b = (b < l.start) ⊎ (l.start + l.size ≤ b)

-- A system between commits: as `Ready` asks, and the logged blocks are outside the whole log, which
-- has room for them.
pub record Pending (l : Log) (d : Device) : Type 0 where
  pub empty : d.disk l.start 0 ≡ 0
  pub beyond : (j : ℕ) → j < l.n → Beyond l (l.block j)
  pub distinct : AllDistinct l l.n
  pub clean : (b : ℕ) → Outside l l.n b → ((j : ℕ) → j < l.n → b ≢ l.block j) → d.cache b ≡ d.disk b
  pub fits : l.n < l.size

pub Pending-Ready : (l : Log) (d : Device) → Pending l d → Ready l d
Pending-Ready l d p = record {
  empty = p.empty;
  outside = λ j h. omega (arith, p.beyond j h, p.fits);
  distinct = p.distinct;
  clean = p.clean;
}

-- The index of the block in the log, or the next free one.
record Found (block : ℕ → ℕ) (b lo hi i : ℕ) : Type 0 where
  in_order : (lo ≤ i) × (i ≤ hi)
  hit : i < hi → block i ≡ b
  before : (j : ℕ) → lo ≤ j → j < i → block j ≢ b

find_block-Found : (block : ℕ → ℕ) (b k i : ℕ) → Found block b i (i + k) (find_block block b k i)
unfolding find_block
find_block-Found block b zero i = record {
  in_order = (omega arith, omega arith);
  hit = λ h. absurd (omega arith);
  before = λ j lo hi. absurd (omega arith);
}
find_block-Found block b (suc k) i = elim (Bool-cases (block i == b)) [
  | inl same ↦ rw same (record {
    in_order = (omega arith, omega arith);
    hit = λ h. ground arith;
    before = λ j lo hi. absurd (omega arith);
  })
  | inr other ↦
      let f = find_block-Found block b k (suc i) in
      rw other (record {
        in_order = (omega (arith, f.in_order), omega (arith, f.in_order));
        hit = λ h. f.hit (omega arith);
        before = λ j lo hi. elim (ℕ_discrete j i) [
          | yes e ↦ rw e (ground arith)
          | no ne ↦ f.before j (omega arith) hi
        ];
      })
]

-- The change of a block in the cache.
abbrev pub modify_block : ℕ → Block → Device → Device
modify_block b v d = record d { cache = update d.cache b v }

module _ (b : ℕ) (v : Block) (l : Log) (d : Device) (p : Pending l d) (out : Beyond l b) where
  -- The block is in the log already.
  absorbed :
      (i : ℕ)
      → i < l.n
      → l.block i ≡ b
      → Pending (record l { block = update l.block i b }) (modify_block b v d)
  absorbed i lt at =
      let same : (j : ℕ) → update l.block i b j ≡ l.block j = λ j. ground arith in
      record {
        empty = p.empty;
        beyond = λ j h. rw (same j) (p.beyond j h);
        distinct = λ j k hj hk e. p.distinct j k hj hk (sym (same j) ∙ e ∙ same k);
        clean = λ c outside other.
            update_ne d.cache b v c (λ e. other i lt (e ∙ sym at ∙ sym (same i)))
            ∙ p.clean c outside (λ j h e. other j h (e ∙ sym (same j)));
        fits = p.fits;
      }

  -- The block is added.
  appended :
      ((j : ℕ) → j < l.n → l.block j ≢ b)
      → l.n + 1 < l.size
      → Pending
          (record l { block = update l.block l.n b; n = l.n + 1 })
          (bpin b (modify_block b v d))
  unfolding bpin
  appended new room = record {
    empty = p.empty;
    beyond = λ j h. ground (arith, p.beyond j, out);
    distinct = λ j k hj hk e. ground (arith, p.distinct j k, new j, new k);
    clean = λ c outside other.
        update_ne d.cache b v c (λ e. other l.n (omega arith) (e ∙ sym (update_self l.block l.n b)))
        ∙ p.clean c (omega arith)
            (λ j h e. other j (omega arith) (e ∙ sym (update_ne l.block l.n b j (omega arith))));
    fits = room;
  }

log_write-new :
    (b : ℕ) (l l' : Log) (d d' : Device)
    → log_write b l d ≡ done (l', d')
    → find_block l.block b l.n 0 ≡ l.n
    → (l' ≡ record l { block = update l.block l.n b; n = l.n + 1 })
      × (d' ≡ bpin b d)
      × (l.n + 1 < l.size)
unfolding log_write
log_write-new b l l' d d' h e = ground arith

log_write-old :
    (b : ℕ) (l l' : Log) (d d' : Device)
    → log_write b l d ≡ done (l', d')
    → find_block l.block b l.n 0 ≢ l.n
    → (l' ≡ record l { block = update l.block (find_block l.block b l.n 0) b }) × (d' ≡ d)
unfolding log_write
log_write-old b l l' d d' h ne = ground arith

-- A call that changes a block outside the log in the cache and logs it, without a panic, keeps the
-- system one that can be committed: the logged blocks stay different and outside the log, they
-- alone differ between the cache and the disk, and they fit in it.
pub log_write-Pending :
    (b : ℕ) (v : Block) (l l' : Log) (d d' : Device)
    → Pending l d
    → Beyond l b
    → log_write b l (modify_block b v d) ≡ done (l', d')
    → Pending l' d' × Ready l' d'
log_write-Pending b v l l' d d' p out h = let q : Pending l' d' = kept in (q, Pending-Ready l' d' q)
  where
    f : Found l.block b 0 (0 + l.n) (find_block l.block b l.n 0)
    f = find_block-Found l.block b l.n 0

    kept : Pending l' d'
    kept = elim (ℕ_discrete (find_block l.block b l.n 0) l.n) [
      | yes new ↦
          let (log, device, room) = log_write-new b l l' (modify_block b v d) d' h new in
          rw (log, device)
            (appended b v l d p out (λ j lt. f.before j (omega arith) (omega arith)) room)
      | no old ↦
          let (log, device) = log_write-old b l l' (modify_block b v d) d' h old in
          let inside : find_block l.block b l.n 0 < l.n = omega (arith, f.in_order) in
          rw (log, device)
            (absorbed b v l d p out (find_block l.block b l.n 0) inside (f.hit (omega arith)))
    ]
