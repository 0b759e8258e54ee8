-- ===== src/Bio/Tests.antt =====
-- The buffer cache after `binit`, with no buffer in use, and with two references to each.
use team.Common.{
  ℕ, zero, suc, ℕ_discrete, inl, inr, ap, ◌+◌, ◌-◌, ◌<◌, ◌≡◌, refl, ◌≢◌, ◌⊎◌, true, false, some,
  ◌∷◌, arith, if◌then◌else◌, ◌==◌,
}
use team.Common.Outcome.{done, panic}
use team.Common.Family.{update}
use team.Bio.{
  Buf, Bcache, nbuf, is_block, init_loop, push_front, binit, bget, bread, brelse, find_cached,
  find_unused, fill_buffer,
}
use team.Bio.Ring.{On, remove}
use team.Bio.Moves.{IsRing}
use team.Bio.Lru.{down_from, lookup, bget-lookup, brelse-moves, binit-IsRing}
use team.Bio.Unique.{Unique, Read, bread-Read}

abbrev blank : ℕ → Bcache ℕ
blank refs = record {
  next = λ a. 0;
  prev = λ a. 0;
  buf = λ b. record { valid = false; dev = 0; blockno = 0; refcnt = refs; contents = 0 };
  disk = λ dev blockno. dev + blockno;
}

abbrev started : ℕ → Bcache ℕ
started refs = binit (blank refs)

-- `binit` leaves the buffers as they are.
started_buf : (refs b : ℕ) → (started refs).buf b ≡ (blank refs).buf b
unfolding binit init_loop push_front
started_buf refs b = refl

started-Unique : (refs : ℕ) → Unique (started refs) (down_from nbuf)
started-Unique refs x y on on' used e e' =
    absurd (used (ap (λ (z : Buf ℕ). z.dev) (started_buf refs x)))

bget-lookup_example : bget 1 5 (started 0) ≡ some (lookup 1 5 (down_from nbuf) (started 0))
bget-lookup_example =
    bget-lookup 1 5 (down_from nbuf) (started 0) (binit-IsRing (blank 0)) (omega arith)

bread-Read_example :
    ((bread 1 5 (started 0) ≡ some panic)
      × ((x : ℕ)
          → On x (down_from nbuf)
          → (is_block 1 5 ((started 0).buf x) ≡ false) × (((started 0).buf x).refcnt ≢ 0)))
    ⊎ ((b : ℕ) × (c' : Bcache ℕ) × (bread 1 5 (started 0) ≡ some (done (b, c')))
        × Read (started 0) (down_from nbuf) 1 5 b c')
bread-Read_example =
    bread-Read 1 5 (down_from nbuf) (started 0) (binit-IsRing (blank 0)) (omega arith)
      (started-Unique 0)

-- The buffer used last is recycled for the block 5.
bread_first : (b : ℕ) × (c' : Bcache ℕ) × (bread 1 5 (started 0) ≡ some (done (b, c'))) × (b ≡ 0)
unfolding bread bget binit init_loop push_front find_cached find_unused fill_buffer
bread_first = (0, _, refl, refl)

down_from-On : (n b : ℕ) → b < n → On b (down_from n)
down_from-On zero b lt = absurd (omega arith)
down_from-On (suc n) b lt = elim (ℕ_discrete b n) [
  | yes is ↦ inl is
  | no other ↦ inr (down_from-On n b (omega arith))
]

brelse-moves_example :
    (c' : Bcache ℕ) × (brelse true 3 (started 1) ≡ done c')
    × IsRing c'
        (if ((started 1).buf 3).refcnt == 1 then 3 ∷ remove 3 (down_from nbuf) else down_from nbuf)
    × (c'.buf
        ≡ update
            (started 1).buf
            3
            (record ((started 1).buf 3) { refcnt = ((started 1).buf 3).refcnt - 1 }))
    × (c'.disk ≡ (started 1).disk)
brelse-moves_example =
    brelse-moves 3 (down_from nbuf) (started 1) (binit-IsRing (blank 1))
      (down_from-On nbuf 3 (omega arith))
      (omega (arith, ap (λ (z : Buf ℕ). z.refcnt) (started_buf 1 3)))
      (omega (arith, ap (λ (z : Buf ℕ). z.refcnt) (started_buf 1 3)))
